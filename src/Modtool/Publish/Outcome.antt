-- ===== src/Modtool/Publish/Outcome.antt =====
-- How a Build of modtool/modtool.go ends.
use doze_sdk.Modtool.Publish.Reading.{
  ReadsBack, IsIndex, ReadsBack-read_index, base_index, base_index-IsIndex, base_index-artifact,
  IsMerged,
}
use doze_sdk.Engine.Describe.{Description}
use doze_sdk.Modindex.Index.{Index, Artifact}
use doze_sdk.Modtool.{
  Module, Yaml, artifact_at, artifact_in, merged_index, read_index, is_changed, merged, triples,
  validate, published, repo_dir_of,
}
use doze_sdk.Modtool.Publish.{
  Dist, Tools, Shop, Write, complete, broken_off, write_index, archive_name, Built, merge_index,
  member_name, package_built, compile_and_package, build_described, build, compile_error,
  unknown_triple,
}
use doze_sdk.Prelude.{
  Option, Text, [], ◌≡◌, ◌⊎◌, Result-cases, Option-cases, inl, inr, refl, some, none, ok, text_eq,
  true, false, lookup, text_key, arith, int_key, insert, ◌∙◌,
}

-- A build does not disturb the index: no read of it fails, and a write that fails leaves it.
abbrev pub KeepsIndex : Shop → Dist → Type 0
KeepsIndex s d =
    ((e : Text) (left : Option Text) → s.index_write ≡ broken_off e left → left ≡ d.index)
    × ((s.published_read ≡ none) × (s.merge_read ≡ none))

pub Write-cases :
    (w : Write) → (w ≡ complete) ⊎ ((e : Text) × (left : Option Text) × (w ≡ broken_off e left))
Write-cases complete = inl refl
Write-cases (broken_off e left) = inr (e, left, refl)

write_index-IsMerged :
    (t : Tools) (s : Shop) (idx : Index) (d : Dist)
    → KeepsIndex s d
    → IsIndex idx
    → ReadsBack t.yaml (write_index t s idx d).1.index
    → (((write_index t s idx d).0 ≡ none)
        × (((seen : Index) × ((read_index t.yaml (write_index t s idx d).1.index ≡ some seen)
                × ((version at : Text) → artifact_in seen version at ≡ artifact_in idx version at)))
            × ((write_index t s idx d).1.archives ≡ d.archives)))
      ⊎ ((e : Text) × (((write_index t s idx d).0 ≡ some e)
            × ((write_index t s idx d).1.index ≡ d.index)))
unfolding write_index
write_index-IsMerged t s idx d leaves is = elim (Result-cases (t.yaml.marshal idx)) [
  | inr (e, failed) ↦ λ f. inr (e, rw (failed, write_index) (refl, refl))
  | inl (bytes, given) ↦ elim (Write-cases s.index_write) [
    | inl whole ↦ λ f.
        let (seen, (back, same)) =
          ReadsBack-read_index t.yaml bytes idx (rw (given, write_index, whole) at f) given is in
        inl (rw (given, write_index, whole) (refl, ((seen, (back, same.1.1)), refl)))
    | inr (e, left, off) ↦ λ f. inr (e, rw (given, write_index, off) (refl, leaves.0 e left off))
  ]
]

merged_index-IsIndex :
    (idx : Index) (m : Module) (desc : Description) (triple archive sha : Text)
    → IsIndex idx
    → IsIndex (merged_index idx m desc triple archive sha)
unfolding merged_index
merged_index-IsIndex idx m desc triple archive sha is = is

-- A build that fails leaves the index.
abbrev pub Failed : Dist → Built → Type 0
Failed d result = (e : Text) × ((result.0 ≡ some e) × (result.1.index ≡ d.index))

-- A build that merges the digest of an archive into the index
abbrev pub MergedInto : Tools → Module → Description → Text → Text → Dist → Built → Type 0
MergedInto t m desc triple sha d result =
    (result.0 ≡ none)
    × (IsMerged t.yaml m desc triple (archive_name m triple) sha d.index result.1.index
        × (result.1.archives ≡ d.archives))

merge_index-MergedInto :
    (t : Tools) (s : Shop) (m : Module) (desc : Description) (triple sha : Text) (d : Dist)
    → KeepsIndex s d
    → text_eq m.name [] ≡ false
    → artifact_at t.yaml d.index m.version triple ≡ none
    → let result : Built = merge_index t s m desc triple (archive_name m triple) sha d in
      ReadsBack t.yaml result.1.index → MergedInto t m desc triple sha d result ⊎ Failed d result
unfolding merge_index merged is_changed
merge_index-MergedInto t s m desc triple sha d leaves has_name new =
    let base : Index = base_index t.yaml d.index m in
    let absent : artifact_in base m.version triple ≡ none =
      base_index-artifact t.yaml d.index m m.version triple ∙ new in
    rw (leaves.1.1, absent, merge_index, merged)
      (write_index-IsMerged t s (merged_index base m desc triple (archive_name m triple) sha) d
        leaves
        (merged_index-IsIndex base m desc triple (archive_name m triple) sha
          (base_index-IsIndex t.yaml d.index m has_name)))

-- How a build ends: it fails, it finds the artifact published and does nothing, or it writes the
-- archive and merges the artifact, which was not published.
abbrev pub Outcome : Tools → Module → Text → Dist → Built → Type 0
Outcome t m triple d result =
    Failed d result
    ⊎ (((result ≡ (none, d))
          × ((a : Artifact) × (artifact_at t.yaml d.index m.version triple ≡ some a)))
        ⊎ ((artifact_at t.yaml d.index m.version triple ≡ none)
            × ((desc : Description) × (body : Text) × MergedInto t m desc triple (t.sha_hex body)
                  (record d { archives = insert (archive_name m triple) body d.archives }) result)))

package_built-Outcome :
    (t : Tools) (s : Shop) (m : Module) (desc : Description) (triple binary : Text) (d : Dist)
    → KeepsIndex s d
    → text_eq m.name [] ≡ false
    → artifact_at t.yaml d.index m.version triple ≡ none
    → ReadsBack t.yaml (package_built t s m desc triple binary d).1.index
    → Outcome t m triple d (package_built t s m desc triple binary d)
unfolding package_built
package_built-Outcome t s m desc triple binary d leaves has_name new =
    elim (Write-cases s.archive_write) [
      | inr (e, none, off) ↦ λ f. inl (e, rw (off, package_built) (refl, refl))
      | inr (e, some left, off) ↦ λ f. inl (e, rw (off, package_built) (refl, refl))
      | inl whole ↦
          let body : Text = t.tar_gz (member_name m) binary in
          rw (whole, package_built)
            (λ f.
              elim (merge_index-MergedInto t s m desc triple (t.sha_hex body)
                (record d { archives = insert (archive_name m triple) body d.archives }) leaves
                has_name new f) [
                  | inl done ↦ inr (inr (new, (desc, body, done)))
                  | inr (e, failed) ↦ inl (e, failed)
                ])
    ]

compile_and_package-Outcome :
    (t : Tools) (s : Shop) (m : Module) (desc : Description) (triple : Text) (plat : Text × Text)
    (d : Dist)
    → KeepsIndex s d
    → text_eq m.name [] ≡ false
    → artifact_at t.yaml d.index m.version triple ≡ none
    → ReadsBack t.yaml (compile_and_package t s m desc triple plat d).1.index
    → Outcome t m triple d (compile_and_package t s m desc triple plat d)
unfolding compile_and_package
compile_and_package-Outcome t s m desc triple plat d leaves has_name new =
    elim (Option-cases s.scratch) [
      | inr (e, failed) ↦ λ f. inl (e, rw (failed, compile_and_package) (refl, refl))
      | inl ready ↦ elim (Result-cases (s.compile (repo_dir_of m) m.plugin_path plat)) [
        | inr (e, failed) ↦ λ f.
            inl (compile_error m triple e, rw (ready, failed, compile_and_package) (refl, refl))
        | inl (binary, compiled) ↦
            rw (ready, compiled, compile_and_package)
              (package_built-Outcome t s m desc triple binary d leaves has_name new)
      ]
    ]

published-cases :
    (y : Yaml) (file : Option Text) (version triple : Text)
    → ((artifact_at y file version triple ≡ none) × (published y file version triple ≡ false))
      ⊎ ((a : Artifact) × ((artifact_at y file version triple ≡ some a)
            × (published y file version triple ≡ true)))
unfolding published
published-cases y file version triple = elim (Option-cases (artifact_at y file version triple)) [
  | inl e ↦ inl (e, rw (e, published) refl)
  | inr (a, e) ↦ inr (a, (e, rw (e, published) refl))
]

build_described-Outcome :
    (t : Tools) (s : Shop) (m : Module) (desc : Description) (triple : Text) (d : Dist)
    → KeepsIndex s d
    → text_eq m.name [] ≡ false
    → ReadsBack t.yaml (build_described t s m desc triple d).1.index
    → Outcome t m triple d (build_described t s m desc triple d)
unfolding build_described
build_described-Outcome t s m desc triple d leaves has_name =
    elim (Option-cases (lookup triple triples)) [
      | inl unknown_one ↦
          λ f. inl (unknown_triple triple, rw (unknown_one, build_described) (refl, refl))
      | inr (plat, known) ↦ elim (Option-cases s.mkdir) [
        | inr (e, failed) ↦ λ f. inl (e, rw (known, failed, build_described) (refl, refl))
        | inl made ↦ elim (published-cases t.yaml d.index m.version triple) [
          | inr (a, (at, yes_there)) ↦ λ f.
              inr (inl (rw (known, made, leaves.1.0, yes_there, build_described) refl, (a, at)))
          | inl (new, not_there) ↦
              rw (known, made, leaves.1.0, not_there, build_described)
                (compile_and_package-Outcome t s m desc triple plat d leaves has_name new)
        ]
      ]
    ]

validate-name : (m : Module) (desc : Description) → validate m ≡ ok desc → text_eq m.name [] ≡ false
unfolding validate
validate-name m desc h = ground arith

-- How a Build that does not disturb the index ends
pub build-Outcome :
    (t : Tools) (s : Shop) (m : Module) (triple : Text) (d : Dist)
    → KeepsIndex s d
    → ReadsBack t.yaml (build t s m triple d).1.index
    → Outcome t m triple d (build t s m triple d)
unfolding build
build-Outcome t s m triple d leaves = elim (Result-cases (validate m)) [
  | inr (e, refused) ↦ λ f. inl (e, rw (refused, build) (refl, refl))
  | inl (desc, valid) ↦
      rw (valid, build)
        (build_described-Outcome t s m desc triple d leaves (validate-name m desc valid))
]
