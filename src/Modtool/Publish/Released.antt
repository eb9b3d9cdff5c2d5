-- ===== src/Modtool/Publish/Released.antt =====
-- What Release of modtool/modtool.go publishes.
use doze_sdk.Modtool.Publish.Sourced.{IsArchived, Sourced, Outcome-Sourced}
use doze_sdk.Modtool.Meta.{MetaFile, to_meta_file}
use doze_sdk.Modtool.Meta.Announced.{Announces, to_meta_file-Announces}
use doze_sdk.Engine.Describe.{Description}
use doze_sdk.Modindex.Index.{Artifact}
use doze_sdk.Modtool.{Module, artifact_at, validate}
use doze_sdk.Modtool.Publish.{
  Dist, Tools, Shop, Built, build, build_all, Write, release, write_meta,
}
use doze_sdk.Modtool.Publish.Reading.{ReadsBack}
use doze_sdk.Modtool.Publish.Outcome.{KeepsIndex, build-Outcome, Write-cases}
use doze_sdk.Modtool.Publish.Kept.{Outcome-artifact}
use doze_sdk.Prelude.{
  List, Option, Text, [], ◌∷◌, ◌≡◌, ◌⊎◌, some, none, inl, inr, refl, ap, sym, ◌∙◌, Option-cases,
  text_key, int_key, ok, Result-cases,
}

-- No build of a release disturbs the index, and what it leaves as the index is read back.
abbrev pub BuildsKeepIndex : Tools → Module → List (Text × Shop) → Dist → Type 0
BuildsKeepIndex t m [] d = Unit
BuildsKeepIndex t m ((triple, s) ∷ rest) d =
    KeepsIndex s d
    × (ReadsBack t.yaml (build t s m triple d).1.index
        × BuildsKeepIndex t m rest (build t s m triple d).1)

-- What a release that succeeds has published
abbrev pub Publishes : Tools → Module → List (Text × Shop) → Dist → Dist → Type 0
Publishes t m [] begin d = Unit
Publishes t m ((triple, s) ∷ rest) begin d =
    ((a : Artifact) × ((artifact_at t.yaml d.index m.version triple ≡ some a)
        × ((artifact_at t.yaml begin.index m.version triple ≡ some a) ⊎ IsArchived t m d triple a)))
    × Publishes t m rest begin d

build_all-cons :
    (t : Tools) (m : Module) (triple : Text) (s : Shop) (rest : List (Text × Shop)) (d : Dist)
    → (build t s m triple d).0 ≡ none
    → build_all t m ((triple, s) ∷ rest) d ≡ build_all t m rest (build t s m triple d).1
unfolding build_all
build_all-cons t m triple s rest d went = rw (went, build_all) refl

build_all-kept :
    (t : Tools) (m : Module) (plan : List (Text × Shop)) (d : Dist) (x : Text) (a : Artifact)
    → BuildsKeepIndex t m plan d
    → artifact_at t.yaml d.index m.version x ≡ some a
    → artifact_at t.yaml (build_all t m plan d).1.index m.version x ≡ some a
unfolding build_all
build_all-kept t m [] d x a leave h = h
build_all-kept t m ((triple, s) ∷ rest) d x a leave h =
    let first = build t s m triple d in
    let kept : artifact_at t.yaml first.1.index m.version x ≡ some a =
      Outcome-artifact t m triple d first m.version x a
        (build-Outcome t s m triple d leave.0 leave.1.0) h in
    elim (Option-cases first.0) [
      | inr (e, failed) ↦ rw (failed, build_all) kept
      | inl fine ↦ rw (fine, build_all) (build_all-kept t m rest first.1 x a leave.1.1 kept)
    ]

build_all-Publishes :
    (t : Tools) (m : Module) (plan : List (Text × Shop)) (begin d : Dist)
    → BuildsKeepIndex t m plan d
    → (build_all t m plan d).0 ≡ none
    → Sourced t m begin d
    → Sourced t m begin (build_all t m plan d).1 × Publishes t m plan begin (build_all t m plan d).1
unfolding build_all
build_all-Publishes t m [] begin d leave fine src = (src, tt)
build_all-Publishes t m ((triple, s) ∷ rest) begin d leave fine src =
    let first = build t s m triple d in
    elim (Option-cases first.0) [
      | inr (e, failed) ↦ absurd (cc)
      | inl went ↦
          let (next, (a, there)) =
            Outcome-Sourced t m triple begin d first
              (build-Outcome t s m triple d leave.0 leave.1.0) went src in
          let (all_src, later) =
            build_all-Publishes t m rest begin first.1 leave.1.1
              (ap (λ (r : Built). r.0) (sym (build_all-cons t m triple s rest d went)) ∙ fine)
              next in
          let still = build_all-kept t m rest first.1 triple a leave.1.1 there in
          rw (went, build_all) (all_src, ((a, (still, all_src triple a still)), later))
    ]

write_meta-none :
    (t : Tools) (mkdir : Option Text) (ending : Write) (m : Module) (d : Dist)
    → (write_meta t mkdir ending m d).0 ≡ none
    → (desc : Description) × (text : Text) × ((validate m ≡ ok desc)
        × ((t.marshal_meta (to_meta_file m.name desc) ≡ ok text)
            × ((write_meta t mkdir ending m d).1 ≡ record d { meta = some text })))
unfolding write_meta
write_meta-none t mkdir ending m d fine = elim (Result-cases (validate m)) [
  | inr (e, bad) ↦ absurd (cc)
  | inl (desc, valid) ↦ elim (Result-cases (t.marshal_meta (to_meta_file m.name desc))) [
    | inr (e, bad) ↦ absurd (cc)
    | inl (text, given) ↦ elim (Option-cases mkdir) [
      | inr (e, bad) ↦ absurd (cc)
      | inl made ↦ elim (Write-cases ending) [
        | inr (e, left, off) ↦ absurd (cc)
        | inl whole ↦
            (desc, text, (valid, (given, rw (valid, given, made, whole, write_meta) refl)))
      ]
    ]
  ]
]

release-done :
    (t : Tools) (mkdir : Option Text) (ending : Write) (m : Module) (plan : List (Text × Shop))
    (d : Dist)
    → (build_all t m plan d).0 ≡ none
    → release t mkdir ending m plan d ≡ write_meta t mkdir ending m (build_all t m plan d).1
unfolding release
release-done t mkdir ending m plan d went = rw (went, release) refl

Publishes-meta :
    (t : Tools) (m : Module) (plan : List (Text × Shop)) (begin d : Dist) (text : Option Text)
    → Publishes t m plan begin d
    → Publishes t m plan begin (record d { meta = text })
Publishes-meta t m [] begin d text p = tt
Publishes-meta t m ((triple, s) ∷ rest) begin d text p =
    (p.0, Publishes-meta t m rest begin d text p.1)

-- The meta.yaml of a directory, as what the driver of a module says of itself
abbrev pub HasMeta : Tools → Module → Dist → Type 0
HasMeta t m d =
    (desc : Description) × (file : MetaFile) × (text : Text) × ((validate m ≡ ok desc)
      × (Announces m.name desc file × ((t.marshal_meta file ≡ ok text) × (d.meta ≡ some text))))

-- If a Release succeeds, each index that is written is read back with its artifacts, no read of an index
-- that is there fails, and a write of the index that fails leaves the index: meta.yaml is the encoding
-- of all that the driver says of itself but its versions, and every triple that was asked for is
-- published, with the artifact it had before, or else with one whose URL and digest are those of an
-- archive that is in the directory.
pub release-Publishes :
    (t : Tools) (mkdir : Option Text) (ending : Write) (m : Module) (plan : List (Text × Shop))
    (d : Dist)
    → BuildsKeepIndex t m plan d
    → (release t mkdir ending m plan d).0 ≡ none
    → Publishes t m plan d (release t mkdir ending m plan d).1
      × HasMeta t m (release t mkdir ending m plan d).1
unfolding release
release-Publishes t mkdir ending m plan d leave fine =
    elim (Option-cases (build_all t m plan d).0) [
      | inr (e, failed) ↦ absurd (cc)
      | inl went ↦
          let (src, all_published) = build_all-Publishes t m plan d d leave went (λ x a h. inl h) in
          let written = release-done t mkdir ending m plan d went in
          let (desc, text, (valid, (given, is))) =
            write_meta-none t mkdir ending m (build_all t m plan d).1
              (ap (λ (r : Built). r.0) (sym written) ∙ fine) in
          rw (written, is)
            (
              Publishes-meta t m plan d (build_all t m plan d).1 (some text) all_published,
              (
                desc,
                to_meta_file m.name desc,
                text,
                (valid, (to_meta_file-Announces m.name desc, (given, refl))),
              ),
            )
    ]
