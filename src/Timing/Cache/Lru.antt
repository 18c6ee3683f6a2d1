-- ===== src/Timing/Cache/Lru.antt =====
-- `update_timing_model` of the cache of RISCV-VP/timing.h.
use vcil.Prelude.{
  ℕ, zero, suc, ◌/◌, ◌^◌, ◌≤◌, ◌<◌, ◌≡◌, ◌≢◌, refl, ap, sym, subst, ◌∙◌, Bool, true, false, ◌||◌,
  none, some, List, [], ◌∷◌, length, get_elem?, set, length-set, get_elem?-set_self,
  get_elem?-set_ne, ◌==◌, ==_iff, if◌then◌else◌, arith, Bool-cases, inl, inr, replicate,
}
use vcil.Timing.Pipeline.{Pipeline}
use vcil.Timing.Pipeline.Elapse.{IsValid, elapse}
use vcil.Timing.Pipeline.Laws.{elapse-IsValid, stall-elapse}
use vcil.Timing.Cache.{CacheLine, Cache, cache, tag, head, cache_miss_penalty, update_timing_model}
use vcil.Timing.Cache.Index.{tag-lt, head_lem}

abbrev pub IsCache : Cache → Type 0
IsCache c = length c.lines ≡ 512

abbrev holds : ℕ → CacheLine → Bool
holds h line = line.first == h || line.second == h

-- The address is cached: an access is a hit.
pub is_hit : ℕ → Cache → Bool
is_hit pc c = elim (get_elem? c.lines (tag pc)) [ none ↦ false | some line ↦ holds (head pc) line ]

-- The line after an access to an address with that tag.
touch : ℕ → CacheLine → CacheLine
touch h line =
    if line.first == h
    then record line { stat = true }
    else (if line.second == h
        then record line { stat = false }
        else (if line.stat
            then record line { second = h; stat = false }
            else record line { first = h; stat = true }))

-- The two addresses used last both stay in the line.
holds-touch_twice : (h k : ℕ) (line : CacheLine) → holds h (touch k (touch h line)) ≡ true
unfolding touch
holds-touch_twice h k line = ground arith

holds-touch : (h : ℕ) (line : CacheLine) → holds h (touch h line) ≡ true
unfolding touch
holds-touch h line = ground arith

line_of : (pc : ℕ) (c : Cache) → IsCache c → (l : CacheLine) × (get_elem? c.lines (tag pc) ≡ some l)
line_of pc c h = go (tag pc) c.lines (omega (arith, tag-lt pc))
  where
    go : (i : ℕ) (xs : List CacheLine) → i < length xs → (l : CacheLine) × (get_elem? xs i ≡ some l)
    go i [] h = absurd (omega arith)
    go zero (x ∷ xs) h = (x, refl)
    go (suc i) (x ∷ xs) h = go i xs (omega arith)

touched : ℕ → CacheLine → Cache → Cache
touched pc line c = record { lines = set c.lines (tag pc) (touch (head pc) line) }

penalty-pos : (rand : ℕ) → 0 < cache_miss_penalty rand
unfolding cache_miss_penalty
penalty-pos rand = omega arith

update_lem :
    (rand pc : ℕ) (c : Cache) (p : Pipeline) (line : CacheLine)
    → pc < 2 ^ 32
    → IsValid p
    → get_elem? c.lines (tag pc) ≡ some line
    → update_timing_model rand pc c p
      ≡ some (
        touched pc line c,
        if holds (head pc) line then p else elapse (cache_miss_penalty rand) p,
      )
unfolding update_timing_model touched touch
update_lem rand pc c p line h v e =
    ground (arith, e, stall-elapse (cache_miss_penalty rand) p (penalty-pos rand) v)

is_hit_lem :
    (pc : ℕ) (c : Cache) (line : CacheLine)
    → get_elem? c.lines (tag pc) ≡ some line
    → is_hit pc c ≡ holds (head pc) line
unfolding is_hit
is_hit_lem pc c line e = rw (e, is_hit)

get_elem?-touched_self :
    (pc : ℕ) (line : CacheLine) (c : Cache)
    → IsCache c
    → get_elem? (touched pc line c).lines (tag pc) ≡ some (touch (head pc) line)
unfolding touched
get_elem?-touched_self pc line c h =
    get_elem?-set_self c.lines (tag pc) (touch (head pc) line) (omega (arith, tag-lt pc))

touched-IsCache : (pc : ℕ) (line : CacheLine) (c : Cache) → IsCache c → IsCache (touched pc line c)
unfolding touched
touched-IsCache pc line c h = length-set c.lines (tag pc) (touch (head pc) line) ∙ h

after-IsValid :
    (b : Bool) (n : ℕ) (p : Pipeline) → IsValid p → IsValid (if b then p else elapse n p)
after-IsValid true n p v = v
after-IsValid false n p v = elapse-IsValid n p v

-- An access to a 32-bit address fails no assertion on a cache of 512 sets and a well-formed
-- pipeline. A hit leaves the pipeline as it is; a miss stalls it for at least 4520 and at most 4719
-- cycles. Afterwards the address is cached.
pub update_timing_model_lem :
    (rand pc : ℕ) (c : Cache) (p : Pipeline)
    → pc < 2 ^ 32
    → IsCache c
    → IsValid p
    → (n : ℕ) × (c' : Cache) × (p' : Pipeline) × (update_timing_model rand pc c p ≡ some (c', p'))
      × IsCache c'
      × IsValid p'
      × (p' ≡ (if is_hit pc c then p else elapse n p))
      × (4520 ≤ n)
      × (n ≤ 4719)
      × (is_hit pc c' ≡ true)
update_timing_model_lem rand pc c p h s v =
    let (line, e) = line_of pc c s in
    let n = cache_miss_penalty rand in
    let p' : Pipeline = if holds (head pc) line then p else elapse n p in
    (
      n,
      touched pc line c,
      p',
      update_lem rand pc c p line h v e,
      touched-IsCache pc line c s,
      after-IsValid (holds (head pc) line) n p v,
      rw (is_hit_lem pc c line e) refl,
      (bounds rand).0,
      (bounds rand).1,
      is_hit_lem pc (touched pc line c) _ (get_elem?-touched_self pc line c s)
          ∙ holds-touch (head pc) line,
    )
  where
    bounds : (rand : ℕ) → (4520 ≤ cache_miss_penalty rand) × (cache_miss_penalty rand ≤ 4719)
    bounds rand = unfold cache_miss_penalty in (omega arith, omega arith)

get_elem?-touched_ne :
    (a b : ℕ) (line : CacheLine) (c : Cache)
    → tag b ≢ tag a
    → get_elem? (touched b line c).lines (tag a) ≡ get_elem? c.lines (tag a)
unfolding touched
get_elem?-touched_ne a b line c h = get_elem?-set_ne c.lines (touch (head b) line) h

-- An access to `b` keeps `a` cached if `a` was used last.
is_hit-touched :
    (a b : ℕ) (la lb : CacheLine) (c : Cache)
    → IsCache c
    → get_elem? (touched a la c).lines (tag b) ≡ some lb
    → is_hit a (touched b lb (touched a la c)) ≡ true
is_hit-touched a b la lb c s e = elim (Bool-cases (tag a == tag b)) [
  | inl same ↦
      let eq = (==_iff (tag a) (tag b)).0 same in
      let lb_is : lb ≡ touch (head a) la = ground (arith, e, get_elem?-touched_self a la c s, eq) in
      let here = get_elem?-touched_self b lb (touched a la c) (touched-IsCache a la c s) in
      is_hit_lem a (touched b lb (touched a la c)) (touch (head b) lb) (
        subst (λ t. get_elem? (touched b lb (touched a la c)).lines t ≡ some (touch (head b) lb))
          (sym eq) here)
      ∙ rw lb_is (holds-touch_twice (head a) (head b) la)
  | inr other ↦
      is_hit_lem a (touched b lb (touched a la c)) (touch (head a) la) (
        get_elem?-touched_ne a b lb (touched a la c) (λ q. ground arith)
        ∙ get_elem?-touched_self a la c s)
      ∙ holds-touch (head a) la
]

access :
    (rand pc : ℕ) (c : Cache) (p : Pipeline) (line : CacheLine)
    → pc < 2 ^ 32
    → IsValid p
    → get_elem? c.lines (tag pc) ≡ some line
    → (p' : Pipeline) × (update_timing_model rand pc c p ≡ some (touched pc line c, p'))
      × IsValid p'
      × (is_hit pc c ≡ true → p' ≡ p)
access rand pc c p line h v e = (
  if holds (head pc) line then p else elapse (cache_miss_penalty rand) p,
  update_lem rand pc c p line h v e,
  after-IsValid (holds (head pc) line) (cache_miss_penalty rand) p v,
  λ hit. rw (sym (is_hit_lem pc c line e) ∙ hit) refl,
)

-- In a cache of 512 sets over a well-formed pipeline the two 32-bit addresses used last stay
-- cached, whatever they are: after an access to `a` and then one to `b`, another access to `a`
-- does not stall the pipeline.
pub update_timing_model-lru :
    (rand rand' rand'' a b : ℕ) (c : Cache) (p : Pipeline)
    → a < 2 ^ 32
    → b < 2 ^ 32
    → IsCache c
    → IsValid p
    → (c₁ c₂ c₃ : Cache) × (p₁ p₂ : Pipeline) × (update_timing_model rand a c p ≡ some (c₁, p₁))
      × (update_timing_model rand' b c₁ p₁ ≡ some (c₂, p₂))
      × (update_timing_model rand'' a c₂ p₂ ≡ some (c₃, p₂))
update_timing_model-lru rand rand' rand'' a b c p ha hb s v =
    let (la, ea) = line_of a c s in
    let c₁ = touched a la c in
    let s₁ = touched-IsCache a la c s in
    let (p₁, run₁, v₁, _) = access rand a c p la ha v ea in
    let (lb, eb) = line_of b c₁ s₁ in
    let c₂ = touched b lb c₁ in
    let (p₂, run₂, v₂, _) = access rand' b c₁ p₁ lb hb v₁ eb in
    let (lc, ec) = line_of a c₂ (touched-IsCache b lb c₁ s₁) in
    let (p₃, run₃, _, stays) = access rand'' a c₂ p₂ lc ha v₂ ec in
    (
      c₁,
      c₂,
      touched a lc c₂,
      p₁,
      p₂,
      run₁,
      run₂,
      run₃ ∙ ap (λ q. some (touched a lc c₂, q)) (stays (is_hit-touched a b la lb c s eb)),
    )

get_elem?-replicate {ℓ} :
    {A : Type ℓ} (n i : ℕ) (x : A) → i < n → get_elem? (replicate n x) i ≡ some x
get_elem?-replicate zero i x h = absurd (omega arith)
get_elem?-replicate (suc n) zero x h = refl
get_elem?-replicate (suc n) (suc i) x h = get_elem?-replicate n i x (omega arith)

-- The lines of a new cache hold the address 0 and have no mark for empty: the first access to
-- any address below 2 ^ 14 counts as a hit, and a well-formed pipeline is not stalled.
pub update_timing_model-cold :
    (rand pc : ℕ) (p : Pipeline)
    → pc < 2 ^ 14
    → IsValid p
    → (c' : Cache) × (update_timing_model rand pc cache p ≡ some (c', p))
unfolding cache
update_timing_model-cold rand pc p h v =
    let line : CacheLine = record { first = 0; second = 0; stat = false } in
    (
      touched pc line cache,
      update_lem rand pc cache p line (omega arith) v
            (get_elem?-replicate 512 (tag pc) line (tag-lt pc))
          ∙ rw (head_lem pc (omega arith), small) refl,
    )
  where
    small : pc / 16384 ≡ 0
    small = omega arith
