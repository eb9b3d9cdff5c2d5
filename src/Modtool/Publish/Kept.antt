-- ===== src/Modtool/Publish/Kept.antt =====
-- What Build of modtool/modtool.go leaves of the artifacts that are published.
use doze_sdk.Engine.Describe.{Description}
use doze_sdk.Modindex.Index.{Artifact}
use doze_sdk.Modtool.{Module, Yaml, artifact_at}
use doze_sdk.Modtool.Merging.{artifact_in-merged_index}
use doze_sdk.Modtool.Publish.{Dist, Tools, Shop, Built, archive_name, build}
use doze_sdk.Modtool.Publish.Reading.{ReadsBack, base_index, base_index-artifact, IsMerged}
use doze_sdk.Modtool.Publish.Outcome.{Outcome, KeepsIndex, build-Outcome}
use doze_sdk.Prelude.{
  Bool-cases, List, Option, Text, [], ◌∷◌, ◌≡◌, ◌&&◌, some, inl, inr, text_eq, text_eq_iff, arith,
  if◌then◌else◌,
}

-- The artifacts of the index file after a merge
pub artifact_at-IsMerged :
    (y : Yaml) (m : Module) (desc : Description) (triple archive sha : Text)
    (file later : Option Text) (version at : Text)
    → IsMerged y m desc triple archive sha file later
    → artifact_at y later version at ≡ (
        if text_eq m.version version && text_eq triple at
        then some (record { url = archive; sha256 = sha; sig = [] })
        else artifact_at y file version at)
unfolding artifact_at
artifact_at-IsMerged y m desc triple archive sha file later version at (seen, (e, same)) =
    rw (e, artifact_at, same version at, ← base_index-artifact y file m version at)
      (artifact_in-merged_index (base_index y file m) m desc triple archive sha version at)

pub Outcome-artifact :
    (t : Tools) (m : Module) (triple : Text) (d : Dist) (result : Built) (version at : Text)
    (a : Artifact)
    → Outcome t m triple d result
    → artifact_at t.yaml d.index version at ≡ some a
    → artifact_at t.yaml result.1.index version at ≡ some a
Outcome-artifact t m triple d result version at a (inl (e, (failed, same))) h = rw same h
Outcome-artifact t m triple d result version at a (inr (inl (same, there))) h = rw same h
Outcome-artifact t m triple d result version at a
      (inr (inr (new, (desc, body, (fine, (merge, kept)))))) h =
    elim (Bool-cases (text_eq m.version version && text_eq triple at)) [
      | inl both ↦
          let v : m.version ≡ version = ground (arith, text_eq_iff m.version version) in
          let x : triple ≡ at = ground (arith, text_eq_iff triple at) in absurd (cc (h, new, v, x))
      | inr other ↦
          let read =
            artifact_at-IsMerged t.yaml m desc triple (archive_name m triple) (t.sha_hex body)
              d.index result.1.index version at merge in
          rw (read, other) h
    ]

-- A build by a module's repository: its module, the triple, and how its calls end
pub record Run : Type 0 where
  pub shop : Shop
  pub of : Module
  pub triple : Text

abbrev pub after_runs : Tools → List Run → Dist → Dist
after_runs t [] d = d
after_runs t (r ∷ runs) d = after_runs t runs (build t r.shop r.of r.triple d).1

-- No build disturbs the index, and what it leaves as the index is read back.
abbrev pub RunsKeepIndex : Tools → List Run → Dist → Type 0
RunsKeepIndex t [] d = Unit
RunsKeepIndex t (r ∷ runs) d =
    KeepsIndex r.shop d
    × (ReadsBack t.yaml (build t r.shop r.of r.triple d).1.index
        × RunsKeepIndex t runs (build t r.shop r.of r.triple d).1)

-- Published artifacts are immutable: whatever is built after, by whatever module, the artifact of a
-- version and a triple keeps its URL, digest and signature, if each index that is written is read back
-- with its artifacts, no read of an index that is there fails, and a write that fails leaves the index.
pub artifact_at-after_runs :
    (t : Tools) (runs : List Run) (d : Dist) (version at : Text) (a : Artifact)
    → RunsKeepIndex t runs d
    → artifact_at t.yaml d.index version at ≡ some a
    → artifact_at t.yaml (after_runs t runs d).index version at ≡ some a
artifact_at-after_runs t [] d version at a leave h = h
artifact_at-after_runs t (r ∷ runs) d version at a leave h =
    artifact_at-after_runs t runs (build t r.shop r.of r.triple d).1 version at a leave.1.1 (
      Outcome-artifact t r.of r.triple d (build t r.shop r.of r.triple d) version at a
        (build-Outcome t r.shop r.of r.triple d leave.0 leave.1.0) h)
