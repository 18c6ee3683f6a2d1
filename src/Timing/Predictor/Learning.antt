-- ===== src/Timing/Predictor/Learning.antt =====
-- The entries of the branch history table of RISCV-VP/timing.h.
use Prim.Native.Nat.{min}
use vcil.Prelude.{
  ℕ, zero, suc, ◌+◌, ◌-◌, ◌/◌, ◌≤◌, ◌<◌, ◌≡◌, refl, ap, sym, Bool, true, false, Option, some, List,
  [], ◌∷◌, length, get_elem?, get_or, set, length-set, if◌then◌else◌, arith, bit_or, leb, ◌∙◌,
}
use vcil.Timing.Assert.{◌>>=◌}
use vcil.Timing.Predictor.{Entry, predict_branch_taken, update_history}

abbrev pub AllBelow : ℕ → List ℕ → Type 0
AllBelow n [] = Unit {0}
AllBelow n (x ∷ xs) = (x ≤ n) × AllBelow n xs

pub record IsEntry (e : Entry) : Type 0 where
  pub history : e.history < 8
  pub counters : length e.counters ≡ 8
  pub saturated : AllBelow 3 e.counters

get_elem?-AllBelow :
    (n i : ℕ) (xs : List ℕ)
    → i < length xs
    → AllBelow n xs
    → (get_elem? xs i ≡ some (get_or xs i 0)) × (get_or xs i 0 ≤ n)
get_elem?-AllBelow n i [] h b = absurd (omega arith)
get_elem?-AllBelow n zero (x ∷ xs) h b = (refl, b.0)
get_elem?-AllBelow n (suc i) (x ∷ xs) h b = get_elem?-AllBelow n i xs (omega arith) b.1

set-AllBelow : (n i v : ℕ) (xs : List ℕ) → AllBelow n xs → v ≤ n → AllBelow n (set xs i v)
set-AllBelow n i v [] b h = tt
set-AllBelow n zero v (x ∷ xs) b h = (h, b.1)
set-AllBelow n (suc i) v (x ∷ xs) b h = (b.0, set-AllBelow n i v xs b.1 h)

get_or-set_self : (i v : ℕ) (xs : List ℕ) → i < length xs → get_or (set xs i v) i 0 ≡ v
get_or-set_self i v [] h = absurd (omega arith)
get_or-set_self zero v (x ∷ xs) h = refl
get_or-set_self (suc i) v (x ∷ xs) h = get_or-set_self i v xs (omega arith)

-- The shift register: the last outcome becomes bit 2.
abbrev shifted : Bool → ℕ → ℕ
shifted t h = h / 2 + (if t then 4 else 0)

shift_lem : (t : Bool) (h : ℕ) → h < 8 → bit_or (h / 2) (if t then 4 else 0) ≡ shifted t h
shift_lem true zero _ = refl
shift_lem true (suc zero) _ = refl
shift_lem true (suc (suc zero)) _ = refl
shift_lem true (suc (suc (suc zero))) _ = refl
shift_lem true (suc (suc (suc (suc zero)))) _ = refl
shift_lem true (suc (suc (suc (suc (suc zero))))) _ = refl
shift_lem true (suc (suc (suc (suc (suc (suc zero)))))) _ = refl
shift_lem true (suc (suc (suc (suc (suc (suc (suc zero))))))) _ = refl
shift_lem true (suc (suc (suc (suc (suc (suc (suc (suc h)))))))) k = absurd (omega arith)
shift_lem false zero _ = refl
shift_lem false (suc zero) _ = refl
shift_lem false (suc (suc zero)) _ = refl
shift_lem false (suc (suc (suc zero))) _ = refl
shift_lem false (suc (suc (suc (suc zero)))) _ = refl
shift_lem false (suc (suc (suc (suc (suc zero))))) _ = refl
shift_lem false (suc (suc (suc (suc (suc (suc zero)))))) _ = refl
shift_lem false (suc (suc (suc (suc (suc (suc (suc zero))))))) _ = refl
shift_lem false (suc (suc (suc (suc (suc (suc (suc (suc h)))))))) k = absurd (omega arith)

-- The saturating counter.
abbrev counted : Bool → ℕ → ℕ
counted t c = if t then min (c + 1) 3 else c - 1

-- The result of an update of a well-formed entry.
record IsUpdate (t : Bool) (e e' : Entry) : Type 0 where
  valid : IsEntry e'
  runs : update_history t e ≡ some e'
  new_history : e'.history ≡ shifted t e.history
  new_counter : get_or e'.counters e.history 0 ≡ counted t (get_or e.counters e.history 0)

after : Bool → Entry → Entry
after t e = record {
  history = shifted t e.history;
  counters = set e.counters e.history (counted t (get_or e.counters e.history 0));
}

after-IsUpdate : (t : Bool) (e : Entry) → IsEntry e → IsUpdate t e (after t e)
unfolding after update_history
after-IsUpdate t e v =
    let (found, small) =
      get_elem?-AllBelow 3 e.history e.counters (omega (arith, v.history, v.counters))
        v.saturated in
    let c = get_or e.counters e.history 0 in
    record {
      valid = record {
        history = ground (arith, v.history);
        counters = length-set e.counters e.history (counted t c) ∙ v.counters;
        saturated = set-AllBelow 3 e.history (counted t c) e.counters v.saturated (ground arith);
      };
      runs = ground (arith, found, shift_lem t e.history v.history, v.history);
      new_history = refl;
      new_counter =
          get_or-set_self e.history (counted t c) e.counters (omega (arith, v.history, v.counters));
    }

pub update_history-IsEntry :
    (t : Bool) (e : Entry) → IsEntry e → (e' : Entry) × (update_history t e ≡ some e') × IsEntry e'
update_history-IsEntry t e v = let u = after-IsUpdate t e v in (after t e, u.runs, u.valid)

pub predict-IsEntry : (e : Entry) → IsEntry e → (t : Bool) × (predict_branch_taken e ≡ some t)
unfolding predict_branch_taken
predict-IsEntry e v =
    let (found, small) =
      get_elem?-AllBelow 3 e.history e.counters (omega (arith, v.history, v.counters))
        v.saturated in
    (leb 2 (get_or e.counters e.history 0), rw found refl)

-- `n` executions of a branch with one outcome.
pub train : ℕ → Bool → Entry → Option Entry
train zero t e = some e
train (suc n) t e = update_history t e >>= train n t

-- The history is full of one outcome, and the counter for it is on that side of the threshold.
record IsSettled (t : Bool) (e : Entry) : Type 0 where
  entry : IsEntry e
  full : e.history ≡ (if t then 7 else 0)
  strong : leb 2 (get_or e.counters e.history 0) ≡ t

stays :
    (t : Bool) {h h' : ℕ} → h ≡ (if t then 7 else 0) → h' ≡ shifted t h → h' ≡ (if t then 7 else 0)
stays true a b = omega arith
stays false a b = omega arith

fills :
    (t : Bool) {h i j k : ℕ}
    → h < 8
    → i ≡ shifted t h
    → j ≡ shifted t i
    → k ≡ shifted t j
    → k ≡ (if t then 7 else 0)
fills true v a b c = omega arith
fills false v a b c = omega arith

strengthen : (t : Bool) (c : ℕ) → leb 2 c ≡ t → leb 2 (counted t c) ≡ t
strengthen true c h = ground arith
strengthen false c h = ground arith

strengthen_twice : (t : Bool) (c : ℕ) → c ≤ 3 → leb 2 (counted t (counted t c)) ≡ t
strengthen_twice true c h = ground arith
strengthen_twice false c h = ground arith

-- The counter that an update changed, read where the history has not changed.
same_counter :
    (t : Bool) (e e' : Entry)
    → IsUpdate t e e'
    → e'.history ≡ e.history
    → get_or e'.counters e'.history 0 ≡ counted t (get_or e.counters e.history 0)
same_counter t e e' u h = rw h u.new_counter

after-IsSettled : (t : Bool) (e : Entry) → IsSettled t e → IsSettled t (after t e)
after-IsSettled t e s =
    let u = after-IsUpdate t e s.entry in
    let full = stays t s.full u.new_history in
    record {
      entry = u.valid;
      full = full;
      strong =
          rw (same_counter t e (after t e) u (full ∙ sym s.full))
            (strengthen t (get_or e.counters e.history 0) s.strong);
    }

after_five-IsSettled :
    (t : Bool) (e : Entry)
    → IsEntry e
    → IsSettled t (after t (after t (after t (after t (after t e)))))
after_five-IsSettled t e v =
    let a = after t e in
    let b = after t a in
    let c = after t b in
    let d = after t c in
    let ua = after-IsUpdate t e v in
    let ub = after-IsUpdate t a ua.valid in
    let uc = after-IsUpdate t b ub.valid in
    let ud = after-IsUpdate t c uc.valid in
    let ue = after-IsUpdate t d ud.valid in
    let fc = fills t v.history ua.new_history ub.new_history uc.new_history in
    let fd = stays t fc ud.new_history in
    let fe = stays t fd ue.new_history in
    let small =
      get_elem?-AllBelow 3 c.history c.counters (omega (arith, uc.valid.history, uc.valid.counters))
        uc.valid.saturated in
    record {
      entry = ue.valid;
      full = fe;
      strong =
          rw (same_counter t d (after t d) ue (fe ∙ sym fd), same_counter t c d ud (fd ∙ sym fc))
            (strengthen_twice t (get_or c.counters c.history 0) small.1);
    }

predict-IsSettled : (t : Bool) (e : Entry) → IsSettled t e → predict_branch_taken e ≡ some t
unfolding predict_branch_taken
predict-IsSettled t e s =
    let v = s.entry in
    let (found, small) =
      get_elem?-AllBelow 3 e.history e.counters (omega (arith, v.history, v.counters))
        v.saturated in
    rw found (ap some s.strong)

train-IsSettled :
    (n : ℕ) (t : Bool) (e : Entry)
    → IsSettled t e
    → (e' : Entry) × (train n t e ≡ some e') × (predict_branch_taken e' ≡ some t)
unfolding train
train-IsSettled zero t e s = (e, refl, predict-IsSettled t e s)
train-IsSettled (suc n) t e s =
    rw (after-IsUpdate t e s.entry).runs (train-IsSettled n t (after t e) (after-IsSettled t e s))

-- From any well-formed entry of the history table, once a branch has had the same outcome five
-- times or more in a row, that outcome is what the entry predicts.
pub predict-train :
    (n : ℕ) (t : Bool) (e : Entry)
    → 5 ≤ n
    → IsEntry e
    → (e' : Entry) × (train n t e ≡ some e') × (predict_branch_taken e' ≡ some t)
unfolding train
predict-train (suc (suc (suc (suc (suc n))))) t e h v =
    let ua = after-IsUpdate t e v in
    let ub = after-IsUpdate t (after t e) ua.valid in
    let uc = after-IsUpdate t (after t (after t e)) ub.valid in
    let ud = after-IsUpdate t (after t (after t (after t e))) uc.valid in
    let ue = after-IsUpdate t (after t (after t (after t (after t e)))) ud.valid in
    rw (ua.runs, ub.runs, uc.runs, ud.runs, ue.runs)
      (train-IsSettled n t _ (after_five-IsSettled t e v))
predict-train zero t e h v = absurd (omega arith)
predict-train (suc zero) t e h v = absurd (omega arith)
predict-train (suc (suc zero)) t e h v = absurd (omega arith)
predict-train (suc (suc (suc zero))) t e h v = absurd (omega arith)
predict-train (suc (suc (suc (suc zero)))) t e h v = absurd (omega arith)
