-- ===== src/Modindex/Version/Order.antt =====
-- `CompareVersions` as an order.
use Prim.Native.Nat.{Ordering}
use doze_sdk.Prelude.{
  ◌≡◌, ◌≢◌, refl, true, none, some, List, [], ◌∷◌, ◌++◌, ◌∙◌, Text, text_compare, text_compare-flip,
  flip_order, All, is_some, arith, ℤ, false,
}
use doze_sdk.Strings.Split.{split}
use doze_sdk.Strings.Atoi.{atoi}
use doze_sdk.Modindex.Version.{
  dot, compare_ℤ, compare_segment, compare_segments, compare_versions, newer,
}

pub compare_segment-flip : (a b : Text) → compare_segment b a ≡ flip_order (compare_segment a b)
unfolding compare_segment
compare_segment-flip a b = ground (arith, text_compare-flip a b)

compare_segments-flip :
    (as' bs : List Text) → compare_segments bs as' ≡ flip_order (compare_segments as' bs)
unfolding compare_segments
compare_segments-flip [] [] = refl
compare_segments-flip [] (b ∷ bs) =
    ground (arith, compare_segments-flip [] bs, compare_segment-flip [] b)
compare_segments-flip (a ∷ as') [] =
    ground (arith, compare_segments-flip as' [], compare_segment-flip a [])
compare_segments-flip (a ∷ as') (b ∷ bs) =
    ground (arith, compare_segments-flip as' bs, compare_segment-flip a b)

-- Comparing two versions the other way round turns the answer round, for any texts.
pub compare_versions-flip : (a b : Text) → compare_versions b a ≡ flip_order (compare_versions a b)
unfolding compare_versions
compare_versions-flip a b = compare_segments-flip (split dot a) (split dot b)

-- Every segment is a number that Atoi reads.
abbrev pub IsNumeric : Text → Type 0
IsNumeric s = is_some (atoi s) ≡ true

abbrev pub IsNumericVersion : Text → Type 0
IsNumericVersion v = All IsNumeric (split dot v)

compare_segment-nil : (b : Text) → IsNumeric b → compare_segment [] b ≡ Ordering.lt
unfolding compare_segment atoi text_compare
compare_segment-nil [] h = cc
compare_segment-nil (c ∷ s) h = refl

compare_segment-nil_right : (b : Text) → IsNumeric b → compare_segment b [] ≡ Ordering.gt
compare_segment-nil_right b h = rw (compare_segment-flip [] b, compare_segment-nil b h)

compare_segment_trans :
    (a b c : Text)
    → IsNumeric a
    → IsNumeric b
    → IsNumeric c
    → compare_segment a b ≢ Ordering.gt
    → compare_segment b c ≢ Ordering.gt
    → (compare_segment a c ≢ Ordering.gt)
      × (compare_segment a c ≡ Ordering.eq
          → (compare_segment a b ≡ Ordering.eq) × (compare_segment b c ≡ Ordering.eq))
unfolding compare_segment
compare_segment_trans a b c na nb nc h k = (ground arith, ground arith)

compare_segments-nil : (bs : List Text) → All IsNumeric bs → compare_segments [] bs ≢ Ordering.gt
unfolding compare_segments
compare_segments-nil [] h = cc
compare_segments-nil (b ∷ bs) h = ground (arith, compare_segment-nil b h.0)

compare_segments-nil_right :
    (a : Text) (as' : List Text) → IsNumeric a → compare_segments (a ∷ as') [] ≡ Ordering.gt
unfolding compare_segments
compare_segments-nil_right a as' h = ground (arith, compare_segment-nil_right a h)

compare_segments_trans :
    (as' bs cs : List Text)
    → All IsNumeric as'
    → All IsNumeric bs
    → All IsNumeric cs
    → compare_segments as' bs ≢ Ordering.gt
    → compare_segments bs cs ≢ Ordering.gt
    → compare_segments as' cs ≢ Ordering.gt
unfolding compare_segments
compare_segments_trans [] bs cs na nb nc h k = compare_segments-nil cs nc
compare_segments_trans (a ∷ as') [] cs na nb nc h k =
    absurd (h (compare_segments-nil_right a as' na.0))
compare_segments_trans (a ∷ as') (b ∷ bs) [] na nb nc h k =
    absurd (k (compare_segments-nil_right b bs nb.0))
compare_segments_trans (a ∷ as') (b ∷ bs) (c ∷ cs) na nb nc h k = ground (
  arith,
  compare_segment_trans a b c na.0 nb.0 nc.0,
  compare_segments_trans as' bs cs na.1 nb.1 nc.1,
)

-- On versions whose segments are all numbers, "not newer than" is transitive.
pub compare_versions_trans :
    (a b c : Text)
    → IsNumericVersion a
    → IsNumericVersion b
    → IsNumericVersion c
    → compare_versions a b ≢ Ordering.gt
    → compare_versions b c ≢ Ordering.gt
    → compare_versions a c ≢ Ordering.gt
unfolding compare_versions
compare_versions_trans a b c na nb nc h k =
    compare_segments_trans (split dot a) (split dot b) (split dot c) na nb nc h k

compare_segment_numbers :
    (x y : Text) {a b : ℤ} → atoi x ≡ some a → atoi y ≡ some b → compare_segment x y ≡ compare_ℤ a b
unfolding compare_segment
compare_segment_numbers x y p q = ground arith

compare_segment_text : (x z : Text) → atoi z ≡ none → compare_segment x z ≡ text_compare x z
unfolding compare_segment
compare_segment_text x z p = ground arith

compare_segment_text_left : (z x : Text) → atoi z ≡ none → compare_segment z x ≡ text_compare z x
unfolding compare_segment
compare_segment_text_left z x p = ground arith

pub compare_segment_refl : (p : Text) → compare_segment p p ≡ Ordering.eq
compare_segment_refl p = ground (arith, compare_segment-flip p p)

compare_segments-prefix :
    (ps : List Text) (x y : Text) (o : Ordering)
    → compare_segment x y ≡ o
    → compare_segments (ps ++ x ∷ []) (ps ++ y ∷ []) ≡ o
unfolding compare_segments
compare_segments-prefix [] x y o h = ground arith
compare_segments-prefix (p ∷ ps) x y o h =
    ground (arith, compare_segment_refl p, compare_segments-prefix ps x y o h)

-- Three versions that agree but for their last segments x, y and z go round in a circle when x and
-- y are numbers with x < y, z is not a number, and as texts y < z < x. So the order is not
-- transitive once a segment is not a number (a pre-release such as 10-rc1 beside 9 and 10).
pub compare_versions_cycle :
    (ps : List Text) (a b c x y z : Text) {m n : ℤ}
    → split dot a ≡ ps ++ x ∷ []
    → split dot b ≡ ps ++ y ∷ []
    → split dot c ≡ ps ++ z ∷ []
    → atoi x ≡ some m
    → atoi y ≡ some n
    → atoi z ≡ none
    → compare_ℤ m n ≡ Ordering.lt
    → text_compare y z ≡ Ordering.lt
    → text_compare z x ≡ Ordering.lt
    → (compare_versions a b ≡ Ordering.lt)
      × (compare_versions b c ≡ Ordering.lt)
      × (compare_versions c a ≡ Ordering.lt)
unfolding compare_versions
compare_versions_cycle ps a b c x y z ea eb ec p q r lt₁ lt₂ lt₃ = (
  rw (ea, eb) (compare_segments-prefix ps x y _ (compare_segment_numbers x y p q ∙ lt₁)),
  rw (eb, ec) (compare_segments-prefix ps y z _ (compare_segment_text y z r ∙ lt₂)),
  rw (ec, ea) (compare_segments-prefix ps z x _ (compare_segment_text_left z x r ∙ lt₃)),
)

pub newer_self : (v : Text) → newer v v ≡ false
newer_self v = ground (arith, compare_versions-flip v v)
