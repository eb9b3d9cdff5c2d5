-- ===== src/Modtool/Publish/Sourced.antt =====
-- Where the artifacts of a module come from, after a Build of modtool/modtool.go.
use doze_sdk.Engine.Template.{start}
use mathlib.Core.Option.{some-injective}
use mathlib.Core.List.{append_cancel_left, append_cancel_right}
use doze_sdk.Engine.Describe.{Description}
use doze_sdk.Modindex.Index.{Artifact}
use doze_sdk.Modtool.{Module, artifact_at}
use doze_sdk.Modtool.Publish.{Dist, Tools, Built, archive_name}
use doze_sdk.Modtool.Publish.Reading.{IsMerged}
use doze_sdk.Modtool.Publish.Outcome.{Outcome}
use doze_sdk.Modtool.Publish.Kept.{artifact_at-IsMerged}
use doze_sdk.Prelude.{
  Bool-cases, Option, Text, [], ◌≡◌, ◌≢◌, ◌⊎◌, some, none, inl, inr, sym, subst, text_eq,
  text_eq_iff, arith, ◌∙◌, codes, lookup, lookup-insert_self, lookup-insert_ne, text_key, int_key,
}

archive_name-injective : (m : Module) (x y : Text) → archive_name m x ≡ archive_name m y → x ≡ y
archive_name-injective m x y h = append_cancel_right x y (codes ".tar.gz") (
    append_cancel_left (codes "-") _ _ (
      append_cancel_left m.version _ _
        (append_cancel_left (codes "-plugin-") _ _ (append_cancel_left m.name _ _ h))))

-- An artifact whose archive is in the directory, under its URL and with its digest
abbrev pub IsArchived : Tools → Module → Dist → Text → Artifact → Type 0
IsArchived t m d triple a =
    (body : Text) × ((a ≡ record { url = archive_name m triple; sha256 = t.sha_hex body; sig = [] })
      × (lookup (archive_name m triple) d.archives ≡ some body))

-- The artifacts of the module's version are those of the start, or archived.
abbrev pub Sourced : Tools → Module → Dist → Dist → Type 0
Sourced t m start d =
    (x : Text) (a : Artifact)
    → artifact_at t.yaml d.index m.version x ≡ some a
    → (artifact_at t.yaml start.index m.version x ≡ some a) ⊎ IsArchived t m d x a

-- The artifacts of the module's version after a merge: the new one, and the others as they were.
IsMerged-here :
    (t : Tools) (m : Module) (desc : Description) (triple archive sha : Text)
    (file later : Option Text)
    → IsMerged t.yaml m desc triple archive sha file later
    → artifact_at t.yaml later m.version triple
      ≡ some (record { url = archive; sha256 = sha; sig = [] })
IsMerged-here t m desc triple archive sha file later merge = ground (
  arith,
  artifact_at-IsMerged t.yaml m desc triple archive sha file later m.version triple merge,
  text_eq_iff m.version m.version,
  text_eq_iff triple triple,
)

IsMerged-elsewhere :
    (t : Tools) (m : Module) (desc : Description) (triple archive sha x : Text)
    (file later : Option Text)
    → IsMerged t.yaml m desc triple archive sha file later
    → triple ≢ x
    → artifact_at t.yaml later m.version x ≡ artifact_at t.yaml file m.version x
IsMerged-elsewhere t m desc triple archive sha x file later merge ne = ground (
  arith,
  artifact_at-IsMerged t.yaml m desc triple archive sha file later m.version x merge,
  text_eq_iff triple x,
)

pub Outcome-Sourced :
    (t : Tools) (m : Module) (triple : Text) (begin d : Dist) (result : Built)
    → Outcome t m triple d result
    → result.0 ≡ none
    → Sourced t m begin d
    → Sourced t m begin result.1
      × ((a : Artifact) × (artifact_at t.yaml result.1.index m.version triple ≡ some a))
Outcome-Sourced t m triple begin d result (inl (e, (failed, same))) fine src = absurd (cc)
Outcome-Sourced t m triple begin d result (inr (inl (same, (a, there)))) fine src =
    subst
      (λ (r : Built).
        Sourced t m begin r.1
        × ((a : Artifact) × (artifact_at t.yaml r.1.index m.version triple ≡ some a)))
      (sym same) (src, (a, there))
Outcome-Sourced t m triple begin d result (inr (inr (new, (desc, body, (done, (merge, archives))))))
      fine src =
    (each, (_, here))
  where
    here :
        artifact_at t.yaml result.1.index m.version triple
        ≡ some (record { url = archive_name m triple; sha256 = t.sha_hex body; sig = [] })
    here =
        IsMerged-here t m desc triple (archive_name m triple) (t.sha_hex body) d.index
          result.1.index merge

    each : Sourced t m begin result.1
    each x a h = elim (Bool-cases (text_eq triple x)) [
      | inl same ↦
          let e : triple ≡ x = (text_eq_iff triple x).0 same in
          subst
            (λ y.
              artifact_at t.yaml result.1.index m.version y ≡ some a
              → (artifact_at t.yaml begin.index m.version y ≡ some a) ⊎ IsArchived t m result.1 y a)
            e
            (λ k. inr (
              body,
              (
                some-injective _ _ (sym k ∙ here),
                rw archives (lookup-insert_self (archive_name m triple) body d.archives),
              ),
            ))
            h
      | inr other ↦
          let ne : triple ≢ x = λ e. ground (arith, text_eq_iff triple x) in
          let before : artifact_at t.yaml d.index m.version x ≡ some a =
            sym (
              IsMerged-elsewhere t m desc triple (archive_name m triple) (t.sha_hex body) x d.index
                result.1.index merge ne)
            ∙ h in
          elim (src x a before) [
            | inl was ↦ inl was
            | inr (old, (is, found)) ↦ inr (
              old,
              (
                is,
                rw archives (
                    lookup-insert_ne (archive_name m triple) (archive_name m x) body d.archives
                      (λ e. ne (archive_name-injective m triple x e))
                    ∙ found),
              ),
            )
          ]
    ]
