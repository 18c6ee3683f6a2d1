-- ===== src/Bridge/Examples.antt =====
-- Writes to a device that is ready at the second request after it is opened.
use vcil.Prelude.{
  ℕ, ◌<◌, ◌≡◌, ◌⊎◌, inl, inr, refl, subst, Bool, true, false, Option, some, List, [], ◌∷◌,
  if◌then◌else◌, arith,
}
use vcil.Nice.Link.{ReadResult, got}
use vcil.Bridge.{Port, Bridge, read_count8, sm4_write}
use vcil.Bridge.Replies.{reply}
use vcil.Bridge.Writes.{IsResponsive, Returns, sm4_write-Returns}

abbrev pub answer : Bool → List ℕ
answer d = (if d then 1 else 0) ∷ 2 ∷ 3 ∷ 4 ∷ 5 ∷ []

-- The state is whether the device is ready.
abbrev pub device : Port Bool
device = record {
  connect = λ d. false;
  send = λ bytes d. d;
  receive = λ size d. (got (answer d), true);
}

abbrev pub remaining : Bool → ℕ
remaining d = if d then 0 else 1

abbrev pub idle : Bridge Bool
idle = record {
  nread = 0;
  write_buff = 0 ∷ 0 ∷ 0 ∷ 0 ∷ [];
  read_buff = 0 ∷ 0 ∷ 0 ∷ 0 ∷ 0 ∷ [];
  state = 0;
  peer = false;
}

pub device-IsResponsive : IsResponsive device 1 remaining
unfolding reply read_count8
device-IsResponsive = record {
  answers = λ bytes size d. (got (answer d), true, refl);
  ready = λ byte d d' r e. ready d d' r e;
}
  where
    ready :
        (d d' : Bool) (r : ReadResult)
        → ◌≡◌ {A = Option (ReadResult × Bool)} (some (got (answer d), true)) (some (r, d'))
        → ((bs : List ℕ) × (r ≡ got (1 ∷ bs))) ⊎ (remaining d' < remaining d)
    ready true d' r e = inl (2 ∷ 3 ∷ 4 ∷ 5 ∷ [], cc)
    ready false d' r e =
        let same : true ≡ d' = cc in inr (subst (λ t. remaining t < 1) same (omega arith))

sm4_write-Returns_example : Returns device (sm4_write device 2 0x0c 0xff idle)
sm4_write-Returns_example =
    sm4_write-Returns device 1 2 0x0c 0xff remaining idle device-IsResponsive (omega arith)
      (omega arith)

abbrev written : Bridge Bool
written = record idle {
  nread = 5;
  write_buff = 0x7b ∷ 0x71 ∷ 0 ∷ 0 ∷ [];
  read_buff = answer false;
  state = 1;
  peer = true;
}
