-- ===== src/Nice/Link/Words.antt =====
-- The four bytes of a word on the link of RISCV-VP/nice.h.
use vcil.Prelude.{
  ℕ, ◌+◌, ◌*◌, ◌/◌, ◌%◌, ◌^◌, ◌<◌, ◌≡◌, ap, ◌∙◌, sym, List, [], ◌∷◌, ◌++◌, arith, bit_and,
}
use vcil.Prelude.Bits.{and-mask, and-shift}
use vcil.Nice.Link.{bytes_of, word_of}

pub bytes_of_lem :
    (x : ℕ)
    → bytes_of x
      ≡ (x / 2 ^ 24) % 2 ^ 8 ∷ (x / 2 ^ 16) % 2 ^ 8 ∷ (x / 2 ^ 8) % 2 ^ 8 ∷ x % 2 ^ 8 ∷ []
unfolding bytes_of
bytes_of_lem x =
    ground (
      arith,
      and-mask 8 (x / 2 ^ 24),
      and-mask 8 (x / 2 ^ 16),
      and-mask 8 (x / 2 ^ 8),
      and-mask 8 x,
    )

-- A mask on a byte moved up by `k` bits changes nothing.
masked :
    (k b : ℕ)
    → b < 256
    → bit_and (b * 2 ^ k / 2 ^ k) 255 ≡ b
    → bit_and (b * 2 ^ k) (255 * 2 ^ k) ≡ b * 2 ^ k
masked k b h e = and-shift k (b * 2 ^ k) 255 ∙ ap (λ (t : ℕ). t * 2 ^ k) e

pub word_of_lem :
    (a b c d : ℕ) (rest : List ℕ)
    → a < 256
    → b < 256
    → c < 256
    → d < 256
    → word_of (a ∷ b ∷ c ∷ d ∷ rest) ≡ a * 2 ^ 24 + b * 2 ^ 16 + c * 2 ^ 8 + d
unfolding word_of
word_of_lem a b c d rest ha hb hc hd = ground (
  arith,
  masked 24 a ha (omega (arith, and-mask 8 (a * 2 ^ 24 / 2 ^ 24))),
  masked 16 b hb (omega (arith, and-mask 8 (b * 2 ^ 16 / 2 ^ 16))),
  masked 8 c hc (omega (arith, and-mask 8 (c * 2 ^ 8 / 2 ^ 8))),
)

-- The four bytes of a 32-bit word, whatever follows them, make that word again.
pub word_of-bytes_of : (w : ℕ) (rest : List ℕ) → w < 2 ^ 32 → word_of (bytes_of w ++ rest) ≡ w
word_of-bytes_of w rest h = rw (bytes_of_lem w) (
    word_of_lem (w / 2 ^ 24 % 2 ^ 8) (w / 2 ^ 16 % 2 ^ 8) (w / 2 ^ 8 % 2 ^ 8) (w % 2 ^ 8) rest
      (omega arith) (omega arith) (omega arith) (omega arith)
    ∙ omega arith)

-- Four bytes are those of one word.
pub bytes_of-injective : (v w : ℕ) → v < 2 ^ 32 → w < 2 ^ 32 → bytes_of v ≡ bytes_of w → v ≡ w
bytes_of-injective v w hv hw e =
    sym (word_of-bytes_of v [] hv) ∙ ap (λ b. word_of (b ++ [])) e ∙ word_of-bytes_of w [] hw
