-- ===== src/Prelude/Texts.antt =====
-- Go strings as lists of bytes. Their order is bytewise, as `strings.Compare` has it.
use Prim.Native.Nat.{ℕ, compare, Ordering}
use Prim.Native.Char.{code}
use Prim.Native.String.{String}
use mathlib.Core.Path.{◌≡◌, refl}
use mathlib.Core.Logic.{◌↔◌}
use mathlib.Core.Bool.{Bool, true, false, ◌&&◌}
use mathlib.Core.List.{List, [], ◌∷◌}
use native.Mathlib.Omega.{arith}
use doze_sdk.Prelude.Tests.{nat_eq, Eq}

abbrev pub Text : Type 0
Text = List ℕ

-- The bytes of an ASCII literal.
abbrev pub codes : String → Text
codes String.[] = []
codes (String.◌∷◌ c s) = code c ∷ codes s

unfoldable pub text_eq : Text → Text → Bool
text_eq [] [] = true
text_eq (a ∷ s) (b ∷ t) = nat_eq a b && text_eq s t
text_eq _ _ = false

pub text_eq_iff : (s t : Text) → (text_eq s t ≡ true) ↔ (s ≡ t)
unfolding text_eq
text_eq_iff [] [] = ground arith
text_eq_iff [] (b ∷ t) = ground arith
text_eq_iff (a ∷ s) [] = ground arith
text_eq_iff (a ∷ s) (b ∷ t) = ground (arith, text_eq_iff s t)

instance abbrev pub text_key : Eq Text
text_key = record { beq = text_eq; beq_iff = text_eq_iff }

-- strings.Compare
unfoldable pub text_compare : Text → Text → Ordering
text_compare [] [] = Ordering.eq
text_compare [] (b ∷ t) = Ordering.lt
text_compare (a ∷ s) [] = Ordering.gt
text_compare (a ∷ s) (b ∷ t) =
    let rest = text_compare s t in
    elim (compare a b) [
      | Ordering.lt ↦ Ordering.lt
      | Ordering.eq ↦ rest
      | Ordering.gt ↦ Ordering.gt
    ]

pub text_compare-eq : (s t : Text) → text_compare s t ≡ Ordering.eq → s ≡ t
unfolding text_compare
text_compare-eq [] [] h = refl
text_compare-eq [] (b ∷ t) h = cc
text_compare-eq (a ∷ s) [] h = cc
text_compare-eq (a ∷ s) (b ∷ t) h = ground (arith, text_compare-eq s t)

abbrev pub flip_order : Ordering → Ordering
flip_order Ordering.lt = Ordering.gt
flip_order Ordering.eq = Ordering.eq
flip_order Ordering.gt = Ordering.lt

pub text_compare-flip : (s t : Text) → text_compare t s ≡ flip_order (text_compare s t)
unfolding text_compare
text_compare-flip [] [] = refl
text_compare-flip [] (b ∷ t) = refl
text_compare-flip (a ∷ s) [] = refl
text_compare-flip (a ∷ s) (b ∷ t) = ground (arith, text_compare-flip s t)
