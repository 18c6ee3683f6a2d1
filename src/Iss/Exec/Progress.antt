-- ===== src/Iss/Exec/Progress.antt =====
-- The end of an instruction of RISCV-VP/iss.cpp: what a result is that is not an abort, and how
-- actions that end are composed.
pub mod Instr
pub mod Whole
pub mod Simulator
pub mod Examples
use vcil.Prelude.{ℕ, ◌^◌, ◌<◌, ◌≡◌, refl, Bool, true, false, Option, none, some, if◌then◌else◌}
use vcil.Nice.Link.{Nice, custom3_sm3p0, custom3_sm3p1, custom3_sm4ks, custom3_sm4ed}
use vcil.Iss.{Hart, SimulationTrap}
use vcil.Iss.Step.{Core}
use vcil.Iss.Exec.{
  Units, Result, returned, thrown, stopped, Action, MemoryResult, value, fault, pure, ◌>>=◌, gets,
  modify, check, call_memory, with_memory, LoadOp, StoreOp, Hardware,
}
use vcil.Iss.Exec.Custom.{Coprocessor}
use vcil.Iss.Exec.Builds.Accesses.{handed}

-- What an instruction leaves alone: the pending interrupts, its own address, which has 32 bits, and
-- the number of instructions.
pub record Place : Type 0 where
  pub mip : ℕ
  pub last_pc : ℕ
  pub count : ℕ
  pub small : last_pc < 2 ^ 32

abbrev pub IsKept : {M : Type 0} → Place → Core (Units M) → Type 0
IsKept place c =
    (c.hart.csrs.mip ≡ place.mip)
    × (c.hart.last_pc ≡ place.last_pc)
    × (c.total_num_instr ≡ place.count)

-- A result that is not an abort, with the value of a trap in 32 bits.
abbrev pub Ends : {M A : Type 0} → Place → Result A (Units M) → Type 0
Ends place (returned a c) = IsKept place c
Ends place (thrown e c) = (e.mtval < 2 ^ 32) × IsKept place c
Ends place stopped = ⊥

pub record Always {M A : Type 0} (place : Place) (m : Action A (Units M)) : Type 0 where
  pub ends : (c : Core (Units M)) → IsKept place c → Ends place (m c)

abbrev pub FitsIn32 : Option SimulationTrap → Type 0
FitsIn32 t = (e : SimulationTrap) → t ≡ some e → e.mtval < 2 ^ 32

abbrev pub FaultFits : {A M : Type 0} → MemoryResult A M → Type 0
FaultFits (value a m) = Unit {0}
FaultFits (fault e m) = e.mtval < 2 ^ 32

-- The traps of the checks and of the memory have values of 32 bits.
pub record TrapsFit {M : Type 0} (hw : Hardware M) : Type 0 where
  pub pc_alignment : (a : ℕ) → FitsIn32 (hw.trap_check_pc_alignment a)
  pub addr_alignment : (w : ℕ) (l : Bool) (a : ℕ) → FitsIn32 (hw.trap_check_addr_alignment w l a)
  pub load : (op : LoadOp) (a : ℕ) (m : M) → FaultFits (hw.load op a m)
  pub store : (op : StoreOp) (a v : ℕ) (m : M) → FaultFits (hw.store op a v m)
  pub reserved : (a : ℕ) (m : M) → FaultFits (hw.atomic_load_reserved_word a m)
  pub conditional : (a v : ℕ) (m : M) → FaultFits (hw.atomic_store_conditional_word a v m)

-- Every request of the coprocessor is answered.
abbrev pub IsAnswered : (Nice → Option (ℕ × Nice)) → Type 0
IsAnswered f = (n : Nice) → (r : ℕ × Nice) × (f n ≡ some r)

pub record DevicesAnswer (nice : Coprocessor) : Type 0 where
  pub sm3p0 : (x : ℕ) → IsAnswered (custom3_sm3p0 nice.sm3_device nice.fuel x)
  pub sm3p1 : (x : ℕ) → IsAnswered (custom3_sm3p1 nice.sm3_device nice.fuel x)
  pub sm4ks : (x y : ℕ) → IsAnswered (custom3_sm4ks nice.sm4_device nice.fuel x y)
  pub sm4ed : (x y : ℕ) → IsAnswered (custom3_sm4ed nice.sm4_device nice.fuel x y)

module _ {M : Type 0} (place : Place) where
  handed-Ends :
      {A B : Type 0} (r : Result A (Units M)) (f : A → Action B (Units M))
      → Ends place r
      → ((a : A) → Always place (f a))
      → Ends place (handed f r)
  handed-Ends (returned a d) f v h = (h a).ends d v
  handed-Ends (thrown t d) f v h = v
  handed-Ends stopped f v h = v

  pub bind :
      {A B : Type 0} {m : Action A (Units M)} {f : A → Action B (Units M)}
      → Always place m
      → ((a : A) → Always place (f a))
      → Always place (m >>= f)
  bind {m} {f} v h = record { ends = λ c k. handed-Ends (m c) f (v.ends c k) h }

  pub idle : Always {M = M} place (pure tt)
  idle = record { ends = λ c k. k }

  pub got : {A : Type 0} (f : Core (Units M) → A) → Always {M = M} place (gets f)
  got f = record { ends = λ c k. k }

  pub changes :
      (g : Core (Units M) → Core (Units M))
      → ((c : Core (Units M)) → IsKept place c → IsKept place (g c))
      → Always place (modify g)
  changes g h = record { ends = h }

  pub checked : (t : Option SimulationTrap) → FitsIn32 t → Always {M = M} place (check t)
  checked none f = record { ends = λ c k. k }
  checked (some e) f = record { ends = λ c k. (f e refl, k) }

  after_access :
      {A : Type 0} (c : Core (Units M)) (r : MemoryResult A M)
      → IsKept place c
      → FaultFits r
      → let t : Result A (Units M) = elim r [
        | value a m ↦ returned a (with_memory c m)
        | fault e m ↦ thrown e (with_memory c m)
      ] in
        Ends place t
  after_access c (value a m) k h = k
  after_access c (fault e m) k h = (h, k)

  pub accessed :
      {A : Type 0} (f : M → MemoryResult A M)
      → ((m : M) → FaultFits (f m))
      → Always {M = M} place (call_memory f)
  accessed f fits = record {
    ends = λ c k. after_access c (f c.units.memory) k (fits c.units.memory);
  }

  pub either :
      (b : Bool) {m n : Action (Unit {0}) (Units M)}
      → Always place m
      → Always place n
      → Always place (if b then m else n)
  either true h h' = h
  either false h h' = h'
