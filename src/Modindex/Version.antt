-- ===== src/Modindex/Version.antt =====
-- Version texts of modindex/modindex.go: `Major`, `CompareVersions`, `IsDozeVersion`.
pub mod Order
use Prim.Native.Nat.{Ordering, compare}
use doze_sdk.Prelude.{
  ℕ, ◌+◌, ◌≡◌, refl, Bool, true, false, ◌||◌, Option, none, some, List, [], ◌∷◌, Text, codes,
  text_compare, ltb, all, if◌then◌else◌, ℤ, pos_part, neg_part, not,
}
use doze_sdk.Strings.{index_byte, trim_prefix}
use doze_sdk.Strings.Split.{split}
use doze_sdk.Strings.Atoi.{atoi, is_digit}

abbrev pub dot : ℕ
dot = b'.'

abbrev pub take {ℓ} : {A : Type ℓ} → ℕ → List A → List A
take n [] = []
take n (x ∷ xs) = elim n [ ℕ.zero ↦ [] | ℕ.suc k ↦ x ∷ take k xs ]

-- Major
unfoldable pub major : Text → Text
unfolding index_byte
major spec = elim (index_byte dot spec) [
  | none ↦ spec
  | some i ↦ if ltb 0 i then take i spec else spec
]

abbrev pub compare_ℤ : ℤ → ℤ → Ordering
compare_ℤ a b = compare (pos_part a + neg_part b) (pos_part b + neg_part a)

-- One round of the loop of `CompareVersions`: the order of two segments.
unfoldable pub compare_segment : Text → Text → Ordering
compare_segment sa sb = elim (atoi sa) [
  | none ↦ text_compare sa sb
  | some na ↦ elim (atoi sb) [ none ↦ text_compare sa sb | some nb ↦ compare_ℤ na nb ]
]

abbrev pub then_compare : Ordering → Ordering → Ordering
then_compare Ordering.lt rest = Ordering.lt
then_compare Ordering.eq rest = rest
then_compare Ordering.gt rest = Ordering.gt

-- The loop runs to the end of the longer list; a segment that is not there is the empty text.
unfoldable pub compare_segments : List Text → List Text → Ordering
compare_segments [] [] = Ordering.eq
compare_segments [] (b ∷ bs) =
    let rest = compare_segments [] bs in then_compare (compare_segment [] b) rest
compare_segments (a ∷ as') [] =
    let rest = compare_segments as' [] in then_compare (compare_segment a []) rest
compare_segments (a ∷ as') (b ∷ bs) =
    let rest = compare_segments as' bs in then_compare (compare_segment a b) rest

-- CompareVersions: `lt`, `eq` and `gt` for -1, 0 and 1.
unfoldable pub compare_versions : Text → Text → Ordering
unfolding compare_segments split
compare_versions a b = compare_segments (split dot a) (split dot b)

-- `CompareVersions(a, b) > 0`
abbrev pub newer : Text → Text → Bool
newer a b = elim (compare_versions a b) [ Ordering.gt ↦ true | _ ↦ false ]

-- `CompareVersions(a, b) < 0`
abbrev pub older : Text → Text → Bool
older a b = elim (compare_versions a b) [ Ordering.lt ↦ true | _ ↦ false ]

abbrev non_empty_digits : Text → Bool
non_empty_digits [] = false
non_empty_digits (c ∷ s) = all is_digit (c ∷ s)

-- IsDozeVersion
unfoldable pub is_doze_version : Text → Bool
unfolding trim_prefix split
is_doze_version v =
    let rest = trim_prefix (codes "v") v in
    elim rest [ [] ↦ false | c ∷ s ↦ all non_empty_digits (split dot (c ∷ s)) ]

numeric_segments : compare_versions (codes "0.10.0") (codes "0.9.1") ≡ Ordering.gt
unfolding compare_versions compare_segment atoi
numeric_segments = refl

doze_versions : is_doze_version (codes "v0.2.1") ≡ true
unfolding is_doze_version
doze_versions = refl

development_build : is_doze_version (codes "v0.2.1-dev") ≡ false
unfolding is_doze_version
development_build = refl

two_part_major : major (codes "16.14") ≡ codes "16"
unfolding major
two_part_major = refl
