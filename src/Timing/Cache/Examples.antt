-- ===== src/Timing/Cache/Examples.antt =====
-- Accesses to a new cache.
use vcil.Prelude.{ℕ, ◌≤◌, ◌≡◌, true, false, some, if◌then◌else◌, arith, length-replicate}
use vcil.Timing.Pipeline.{Pipeline}
use vcil.Timing.Pipeline.Elapse.{IsValid, elapse}
use vcil.Timing.Pipeline.Examples.{busy, busy-IsValid}
use vcil.Timing.Cache.{Cache, CacheLine, cache, update_timing_model}
use vcil.Timing.Cache.Lru.{IsCache, is_hit, update_timing_model_lem, update_timing_model-lru}

cache-IsCache : IsCache cache
unfolding cache
cache-IsCache =
    let line : CacheLine = record { first = 0; second = 0; stat = false } in
    length-replicate 512 line

update_timing_model_lem_example :
    (n : ℕ) × (c' : Cache) × (p' : Pipeline) × (update_timing_model 42 0x20000000 cache busy
      ≡ some (c', p'))
    × IsCache c'
    × IsValid p'
    × (p' ≡ (if is_hit 0x20000000 cache then busy else elapse n busy))
    × (4520 ≤ n)
    × (n ≤ 4719)
    × (is_hit 0x20000000 c' ≡ true)
update_timing_model_lem_example =
    update_timing_model_lem 42 0x20000000 cache busy (omega arith) cache-IsCache busy-IsValid

update_timing_model-lru_example :
    (c₁ c₂ c₃ : Cache) × (p₁ p₂ : Pipeline) × (update_timing_model 1 0x20000000 cache busy
      ≡ some (c₁, p₁))
    × (update_timing_model 2 0x20004000 c₁ p₁ ≡ some (c₂, p₂))
    × (update_timing_model 3 0x20000000 c₂ p₂ ≡ some (c₃, p₂))
update_timing_model-lru_example =
    update_timing_model-lru 1 2 3 0x20000000 0x20004000 cache busy (omega arith) (omega arith)
      cache-IsCache busy-IsValid
