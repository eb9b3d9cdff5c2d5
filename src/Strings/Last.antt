-- ===== src/Strings/Last.antt =====
-- The last byte of a text.
use doze_sdk.Prelude.{ℕ, Text, ◌++◌, ◌≡◌, some, ◌∷◌, [], arith, true, Option-cases, inl, inr}
use doze_sdk.Strings.{cut_last, contains_byte}

pub cut_last-append : (b : ℕ) (p : Text) → cut_last b (p ++ b ∷ []) ≡ some p
unfolding cut_last
cut_last-append b [] = ground arith
cut_last-append b (c ∷ []) = ground arith
cut_last-append b (c ∷ d ∷ p) = ground (arith, cut_last-append b (d ∷ p))

pub cut_last_sound : (b : ℕ) (s p : Text) → cut_last b s ≡ some p → s ≡ p ++ b ∷ []
unfolding cut_last
cut_last_sound b [] p h = cc
cut_last_sound b (c ∷ []) p h = ground arith
cut_last_sound b (c ∷ d ∷ s) p h = elim (Option-cases (cut_last b (d ∷ s))) [
  | inl none_left ↦ ground arith
  | inr (q, found) ↦ ground (arith, cut_last_sound b (d ∷ s) q found)
]

pub contains_byte-append : (b : ℕ) (p : Text) → contains_byte b (p ++ b ∷ []) ≡ true
unfolding contains_byte
contains_byte-append b [] = ground arith
contains_byte-append b (c ∷ p) = ground (arith, contains_byte-append b p)
