-- ===== src/Modtool/Selected.antt =====
-- What a host selects of an index that mergeIndex of modtool/modtool.go wrote (modindex/modindex.go).
use mathlib.Core.Option.{some-injective}
use doze_sdk.Engine.Describe.{Description}
use doze_sdk.Modindex.Index.{Index, Release}
use doze_sdk.Modindex.Version.{newer}
use doze_sdk.Modindex.Version.Order.{IsNumericVersion}
use doze_sdk.Modindex.Select.{channel_head, or_stable, select}
use doze_sdk.Modindex.Select.Choice.{
  IsCompatible, candidates, compatible-candidate, candidate-IsCompatible,
}
use doze_sdk.Modindex.Select.Winner.{select_head, select_newest, select_finds, select-IsCompatible}
use doze_sdk.Modtool.{Module, merged_index, stamped}
use doze_sdk.Modtool.Merging.{NumericVersions, merged_index-channels, numeric_insert}
use doze_sdk.Prelude.{
  All, All-In, Bool-cases, In, List, Text, UniqueKeys, ◌≡◌, ap, codes, contains, contains→In,
  In→contains, false, insert-UniqueKeys, inl, inr, lookup-In, ok, some, subst, sym, text_key, ℤ,
  ◌∙◌, ok_injective, lookup, Map, int_key,
}

-- The head of the channel "stable" after a merge
stable_head :
    (idx : Index) (channels : Map Text Text) (stable : Text)
    → idx.channels ≡ some channels
    → lookup (codes "stable") channels ≡ some stable
    → channel_head idx (or_stable (codes "stable")) ≡ some stable
stable_head idx channels stable c h = rw c h

-- Where the head of the channel is the newest release, what Select takes is the newest that fits.
newest_of_head :
    (idx : Index) (host : ℤ) (majors : List Text) (stable : Text)
    → UniqueKeys idx.releases
    → NumericVersions idx.releases
    → All (λ (x : Text × Release). newer x.0 stable ≡ false) idx.releases
    → channel_head idx (or_stable (codes "stable")) ≡ some stable
    → (v w : Text) (r s : Release) → select idx host majors (codes "stable") ≡ ok (v, r)
    → IsCompatible idx host majors w s
    → newer w v ≡ false
newest_of_head idx host majors stable unique numeric newest head v w r s e c =
    elim (Bool-cases (contains (candidates idx host majors) stable)) [
      | inl fits ↦
          let i = contains→In (candidates idx host majors) stable fits in
          let taken_head =
            select_head idx host majors unique (codes "stable") stable _ head
              (candidate-IsCompatible idx host majors unique stable i) in
          let same : stable ≡ v =
            ap (λ (x : Text × Release). x.0) (ok_injective (sym taken_head ∙ e)) in
          subst (λ x. newer w x ≡ false) same
            (All-In (λ (x : Text × Release). newer x.0 stable ≡ false) idx.releases newest
              (lookup-In w s idx.releases c.0))
      | inr other ↦
          select_newest idx host majors unique (codes "stable") v w r s numeric
            (λ h t at fit.
              let same : h ≡ stable = some-injective _ _ (sym at ∙ head) in
              let here : In stable (candidates idx host majors) =
                subst (λ x. In x (candidates idx host majors)) same
                  (compatible-candidate idx host majors unique h t fit) in
              let fits = In→contains (candidates idx host majors) stable here in
              absurd (cc (fits, other)))
            e c
    ]

merged_index-releases :
    (idx : Index) (m : Module) (d : Description) (triple archive sha : Text)
    → IsNumericVersion m.version
    → NumericVersions idx.releases
    → UniqueKeys idx.releases
    → let after_merge : Index = merged_index idx m d triple archive sha in
      UniqueKeys after_merge.releases × NumericVersions after_merge.releases
unfolding merged_index
merged_index-releases idx m d triple archive sha nv each unique =
    let rel : Release = stamped (lookup m.version idx.releases) d triple archive sha in
    (
      insert-UniqueKeys m.version rel idx.releases unique,
      numeric_insert m.version rel idx.releases nv each,
    )

-- Of an index that mergeIndex wrote, with numeric versions: if some release fits a host, Select on the
-- channel stable gives one that fits, and no release that fits is newer.
pub select-merged_index :
    (idx : Index) (m : Module) (d : Description) (triple archive sha : Text) (host : ℤ)
    (majors : List Text) (w : Text) (s : Release)
    → IsNumericVersion m.version
    → NumericVersions idx.releases
    → UniqueKeys idx.releases
    → let merged_one : Index = merged_index idx m d triple archive sha in
      IsCompatible merged_one host majors w s
      → (v : Text) × (r : Release) × ((select merged_one host majors (codes "stable") ≡ ok (v, r))
          × (IsCompatible merged_one host majors v r
              × ((x : Text) (t : Release)
                  → IsCompatible merged_one host majors x t
                  → newer x v ≡ false)))
select-merged_index idx m d triple archive sha host majors w s nv each unique c =
    let merged_one : Index = merged_index idx m d triple archive sha in
    let (stable, channels, (chan, (head, (has, (newest, rest))))) =
      merged_index-channels idx m d triple archive sha nv each in
    let (once, numeric) = merged_index-releases idx m d triple archive sha nv each unique in
    let (v, r, e) = select_finds merged_one host majors once (codes "stable") w s c in
    (
      v,
      r,
      (
        e,
        (
          select-IsCompatible merged_one host majors once (codes "stable") v r e,
          λ x t fit.
              newest_of_head merged_one host majors stable once numeric newest
                (stable_head merged_one channels stable chan head) v x r t e fit,
        ),
      ),
    )
