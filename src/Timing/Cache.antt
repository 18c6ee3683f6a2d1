-- ===== src/Timing/Cache.antt =====
-- `InstrMemoryProxyWithHiFive1CacheTiming` of RISCV-VP/timing.h: a two-way cache of 512 sets that
-- holds addresses only. `rand()` is an argument, and so is the memory behind the cache (`dmi`). The
-- pipeline that the proxy points to is handed in and out; `none` is a failed `assert` or an access
-- out of range.
pub mod Index
pub mod Lru
pub mod Examples
use vcil.Prelude.{
  ℕ, ◌+◌, ◌-◌, ◌%◌, ◌*◌, ◌/◌, ◌^◌, Bool, true, false, not, Option, none, some, List, [], ◌∷◌, leb,
  ◌==◌, if◌then◌else◌, get_elem?, set, replicate, bit_and, not32, shl32, shr,
}
use vcil.Prelude.Int.{pos}
use vcil.Timing.Assert.{◌>>=◌, ◌>>◌, assert}
use vcil.Timing.Pipeline.{Pipeline, stall}

abbrev pub cache_line_load_delay_min : ℕ
cache_line_load_delay_min = 4520

abbrev pub cache_line_load_delay_max : ℕ
cache_line_load_delay_max = 4720

abbrev pub cache_line_load_delay_delta : ℕ
cache_line_load_delay_delta = cache_line_load_delay_max - cache_line_load_delay_min

pub record CacheLine : Type 0 where
  pub first : ℕ
  pub second : ℕ
  pub stat : Bool

pub record Cache : Type 0 where
  pub lines : List CacheLine

pub cache : Cache
cache = record { lines = replicate 512 (record { first = 0; second = 0; stat = false }) }

pub idx : ℕ → ℕ
idx pc = bit_and pc 0b11111

pub tag : ℕ → ℕ
tag pc = shr (bit_and pc (shl32 0b111111111 5)) 5

pub head : ℕ → ℕ
head pc = bit_and pc (not32 0b11111111111111)

pub cache_miss_penalty : ℕ → ℕ
cache_miss_penalty rand = rand % cache_line_load_delay_delta + cache_line_load_delay_min

pub update_timing_model : ℕ → ℕ → Cache → Pipeline → Option (Cache × Pipeline)
update_timing_model rand pc c p = do
  assert (leb pc 0xffff_ffff)
  line ← get_elem? c.lines (tag pc)
  let put = λ (l : CacheLine). let c' : Cache = record { lines = set c.lines (tag pc) l } in c'
  if line.first == head pc
      then some (put (record line { stat = true }), p)
      else (if line.second == head pc then some (put (record line { stat = false }), p) else (do
        p' ← stall (pos (cache_miss_penalty rand)) p
        let swapped : CacheLine =
            if line.stat then record line { second = head pc } else record line { first = head pc }
        some (put (record swapped { stat = not line.stat }), p')))

pub load_instr : (ℕ → ℕ) → ℕ → ℕ → Cache → Pipeline → Option (ℕ × Cache × Pipeline)
load_instr dmi rand pc c p = do r ← update_timing_model rand pc c p; some (dmi pc, r.0, r.1)
