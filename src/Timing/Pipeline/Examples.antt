-- ===== src/Timing/Pipeline/Examples.antt =====
-- Runs of the pipeline on concrete states.
use vcil.Prelude.{◌≡◌, refl, true, false, some, [], ◌∷◌, arith}
use vcil.Prelude.Int.{pos}
use vcil.Timing.Pipeline.{Range, Pipeline, find, access_register}
use vcil.Timing.Pipeline.Elapse.{IsValid}
use vcil.Timing.Pipeline.Issue.{PendingOp, load, run_op, result_latency, Awaits, access-run_op}

-- A result pending for x5, a multiplication under way and a pending store to 16..19.
abbrev pub busy : Pipeline
busy = record {
  pending_register_latencies = record { reg_idx = 5; latency = pos 7 } ∷ [];
  mult = record { acquired = true; latency = pos 3 };
  div = record { acquired = false; latency = pos 0 };
  pending_store_reservations =
      record { range = record { start = 16; end = 20 }; latency = pos 9 } ∷ [];
  num_total_cycles = 100;
}

pub busy-IsValid : IsValid busy
unfolding find
busy-IsValid = record {
  registers = (omega arith, tt);
  distinct = (refl, tt);
  mult_valid = λ e. omega arith;
  div_valid = λ e. absurd (false_true e);
  stores = (omega arith, tt);
  counter = omega arith;
}
  where
    false_true : false ≡ true → ⊥
    false_true e = cc

abbrev narrow_load : PendingOp
narrow_load = load (record { start = 18; end = 20 }) 2

access-run_op_example :
    (p' : Pipeline) × (access_register 5 busy ≡ some p')
    × Awaits 5 (result_latency narrow_load p') (run_op narrow_load 5 p')
access-run_op_example = access-run_op narrow_load 5 busy (omega arith) busy-IsValid

abbrev low_range : Range
low_range = record { start = 16; end = 20 }

abbrev high_range : Range
high_range = record { start = 18; end = 22 }
