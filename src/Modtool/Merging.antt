-- ===== src/Modtool/Merging.antt =====
-- What mergeIndex of modtool/modtool.go makes of an index.
use doze_sdk.Modindex.Version.Order.{IsNumericVersion, newer_self}
use doze_sdk.Modindex.Select.Sorting.{newer_trans, newer-asym}
use doze_sdk.Modindex.Version.{newer}
use doze_sdk.Engine.Describe.{Description}
use doze_sdk.Modindex.Index.{Artifact, Index, Release}
use doze_sdk.Modtool.{
  Module, artifact_in, merged_index, stamped, artifact_of, artifacts_of, newest_of, channels_of,
}
use doze_sdk.Prelude.{
  Option, Text, [], ◌≡◌, lookup, insert, lookup-insert, text_eq, text_eq_iff, some, none,
  Bool-cases, inl, inr, refl, subst, if◌then◌else◌, ◌&&◌, text_key, int_key, All, In, Map, false,
  ◌∷◌, ◌⊎◌, ap, codes, lookup-In, lookup-insert_ne, lookup-insert_self, sym, ◌≢◌,
}

artifact_of-insert :
    (found : Option Release) (triple at : Text) (a : Artifact) (rel : Release)
    → rel.artifacts ≡ insert triple a (artifacts_of found)
    → artifact_of (some rel) at ≡ (if text_eq triple at then some a else artifact_of found at)
unfolding artifact_of artifacts_of lookup
artifact_of-insert none triple at a rel e = rw e (lookup-insert triple at a [])
artifact_of-insert (some r) triple at a rel e = rw e (lookup-insert triple at a r.artifacts)

pub artifact_in-merged_index :
    (idx : Index) (m : Module) (d : Description) (triple archive sha version at : Text)
    → artifact_in (merged_index idx m d triple archive sha) version at ≡ (
        if text_eq m.version version && text_eq triple at
        then some (record { url = archive; sha256 = sha; sig = [] })
        else artifact_in idx version at)
unfolding merged_index
artifact_in-merged_index idx m d triple archive sha version at =
    let new : Release = stamped (lookup m.version idx.releases) d triple archive sha in
    let there = lookup-insert m.version version new idx.releases in
    elim (Bool-cases (text_eq m.version version)) [
      | inr other ↦ rw (there, other) refl
      | inl same ↦
          let here : m.version ≡ version = (text_eq_iff m.version version).0 same in
          rw (there, same)
            (subst
              (λ v. artifact_of (some new) at ≡ (
                if text_eq triple at
                then some (record { url = archive; sha256 = sha; sig = [] })
                else artifact_of (lookup v idx.releases) at))
              here
              (artifact_of-insert (lookup m.version idx.releases) triple at
                (record { url = archive; sha256 = sha; sig = [] }) new refl))
    ]

-- idx.Channels[channel]
abbrev pub channel_in : Index → Text → Option Text
channel_in idx channel = lookup channel (channels_of idx.channels)

-- No version of a map of releases is newer, and it is one of them, or where the walk began.
IsNewestIn : Text → Text → Map Text Release → Type 0
IsNewestIn first stable rels =
    (newer first stable ≡ false)
    × (All (λ (x : Text × Release). newer x.0 stable ≡ false) rels
        × ((stable ≡ first) ⊎ ((rel : Release) × In (stable, rel) rels)))

abbrev pub NumericVersions : Map Text Release → Type 0
NumericVersions rels = All (λ (x : Text × Release). IsNumericVersion x.0) rels

newest_of-cons :
    (first v : Text) (rel : Release) (rels : Map Text Release) {next : Text}
    → (if newer v first then v else first) ≡ next
    → newest_of first ((v, rel) ∷ rels) ≡ newest_of next rels
unfolding newest_of
newest_of-cons first v rel rels e = ap (λ s. newest_of s rels) e

newest_of-IsNewestIn :
    (first : Text) (rels : Map Text Release)
    → IsNumericVersion first
    → NumericVersions rels
    → IsNumericVersion (newest_of first rels) × IsNewestIn first (newest_of first rels) rels
unfolding IsNewestIn
newest_of-IsNewestIn first [] ns each = unfold newest_of in (ns, (newer_self first, (tt, inl refl)))
newest_of-IsNewestIn first ((v, rel) ∷ rels) ns each = elim (Bool-cases (newer v first)) [
  | inl better ↦
      let (nr, (below, (rest, found))) = newest_of-IsNewestIn v rels each.0 each.1 in
      subst (λ s. IsNumericVersion s × IsNewestIn first s ((v, rel) ∷ rels))
        (sym (newest_of-cons first v rel rels (rw better refl)))
        (
          nr,
          (
            newer_trans first v (newest_of v rels) ns each.0 nr (newer-asym v first better) below,
            (
              (below, rest),
              elim found [
                | inl here ↦ inr (rel, inl (ap (λ s. (s, rel)) here))
                | inr (r, i) ↦ inr (r, inr i)
              ],
            ),
          ),
        )
  | inr not_better ↦
      let (nr, (below, (rest, found))) = newest_of-IsNewestIn first rels ns each.1 in
      subst (λ s. IsNumericVersion s × IsNewestIn first s ((v, rel) ∷ rels))
        (sym (newest_of-cons first v rel rels (rw not_better refl)))
        (
          nr,
          (
            below,
            (
              (newer_trans v first (newest_of first rels) each.0 ns nr not_better below, rest),
              elim found [ inl here ↦ inl here | inr (r, i) ↦ inr (r, inr i) ],
            ),
          ),
        )
]

pub numeric_insert :
    (v : Text) (rel : Release) (rels : Map Text Release)
    → IsNumericVersion v
    → NumericVersions rels
    → NumericVersions (insert v rel rels)
unfolding insert
numeric_insert v rel [] nv each = (nv, tt)
numeric_insert v rel ((w, old) ∷ rels) nv each = elim (Bool-cases (text_eq w v)) [
  | inl same ↦ rw same each
  | inr other ↦ rw other (each.0, numeric_insert v rel rels nv each.1)
]

-- After mergeIndex, if the versions are numeric: channels.stable is a version that has a release, no
-- release has a newer one, every other channel is as it was, and no signature is left.
pub merged_index-channels :
    (idx : Index) (m : Module) (d : Description) (triple archive sha : Text)
    → IsNumericVersion m.version
    → NumericVersions idx.releases
    → let later : Index = merged_index idx m d triple archive sha in
      (stable : Text) × (channels : Map Text Text) × ((later.channels ≡ some channels)
        × ((lookup (codes "stable") channels ≡ some stable)
            × (((rel : Release) × In (stable, rel) later.releases)
                × (All (λ (x : Text × Release). newer x.0 stable ≡ false) later.releases
                    × (((other : Text)
                          → codes "stable" ≢ other
                          → lookup other channels ≡ channel_in idx other)
                        × (later.signature ≡ []))))))
unfolding merged_index IsNewestIn
merged_index-channels idx m d triple archive sha nv each =
    let rel : Release = stamped (lookup m.version idx.releases) d triple archive sha in
    let rels : Map Text Release = insert m.version rel idx.releases in
    let (numeric, (own, (none_newer, found))) =
      newest_of-IsNewestIn m.version rels nv (numeric_insert m.version rel idx.releases nv each) in
    let stable : Text = newest_of m.version rels in
    (
      stable,
      insert (codes "stable") stable (channels_of idx.channels),
      (
        refl,
        (
          lookup-insert_self (codes "stable") stable (channels_of idx.channels),
          (
            elim found [
              | inl here ↦ (
                rel,
                subst (λ s. In (s, rel) rels) (sym here)
                    (lookup-In m.version rel rels (lookup-insert_self m.version rel idx.releases)),
              )
              | inr has ↦ has
            ],
            (
              none_newer,
              (
                λ other ne.
                    lookup-insert_ne (codes "stable") other stable (channels_of idx.channels) ne,
                refl,
              ),
            ),
          ),
        ),
      ),
    )
