-- ===== src/Strings/Atoi.antt =====
-- strconv.Atoi: an optional sign and decimal digits, within the range of an int64.
use doze_sdk.Prelude.{
  ℕ, zero, suc, ◌+◌, ◌-◌, ◌*◌, ◌^◌, ◌≡◌, refl, Bool, ◌&&◌, Option, none, some, [], ◌∷◌, Text, codes,
  leb, nat_eq, if◌then◌else◌, ℤ, pos, negsuc,
}

abbrev pub is_digit : ℕ → Bool
is_digit c = leb b'0' c && leb c b'9'

-- The number that digits spell after those read so far.
unfoldable pub digits : ℕ → Text → Option ℕ
digits n [] = some n
digits n (c ∷ s) = if is_digit c then digits (n * 10 + (c - b'0')) s else none

unfoldable pub unsigned : Text → Option ℕ
unfolding digits
unsigned [] = none
unsigned (c ∷ s) = digits 0 (c ∷ s)

abbrev pub negate : ℕ → ℤ
negate zero = pos 0
negate (suc n) = negsuc n

abbrev pub in_range : ℕ → (ℕ → ℤ) → Option ℕ → Option ℤ
in_range limit sign none = none
in_range limit sign (some n) = if leb n limit then some (sign n) else none

unfoldable pub atoi : Text → Option ℤ
unfolding unsigned
atoi [] = none
atoi (c ∷ s) =
    if nat_eq c b'-'
    then in_range (2 ^ 63) negate (unsigned s)
    else if nat_eq c b'+'
    then in_range (2 ^ 63 - 1) pos (unsigned s)
    else in_range (2 ^ 63 - 1) pos (unsigned (c ∷ s))

signed : atoi (codes "-120") ≡ some (negsuc 119)
unfolding atoi
signed = refl

not_numbers : (atoi (codes "") ≡ none) × (atoi (codes "1a") ≡ none) × (atoi (codes "+") ≡ none)
unfolding atoi
not_numbers = (refl, refl, refl)

out_of_range : atoi (codes "9223372036854775808") ≡ none
unfolding atoi
out_of_range = refl
