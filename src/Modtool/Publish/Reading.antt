-- ===== src/Modtool/Publish/Reading.antt =====
-- The index file that mergeIndex of modtool/modtool.go reads and writes.
use doze_sdk.Engine.Describe.{Description}
use doze_sdk.Modindex.Index.{Index, parse, schema_version}
use doze_sdk.Modtool.{Module, Yaml, artifact_at, artifact_in, merged_index, read_index, artifact_of}
use doze_sdk.Modtool.Publish.{index_for}
use doze_sdk.Prelude.{
  Option, Text, [], ◌≡◌, Option-cases, inl, inr, refl, some, none, ok, eqb_ℤ, text_eq, true, false,
  lookup, text_key, arith, int_key,
}

-- An index that is read as another has its schema, its module and its artifacts. The order of keys and
-- what is nil may differ.
abbrev pub ReadAs : Index → Index → Type 0
ReadAs idx seen =
    (seen.schema ≡ idx.schema)
    × ((seen.name ≡ idx.name)
        × ((version triple : Text)
            → artifact_in seen version triple ≡ artifact_in idx version triple))

-- An index file that the YAML package wrote is read back, with the artifacts that were written.
abbrev pub ReadsBack : Yaml → Option Text → Type 0
ReadsBack y file =
    (idx : Index) (bytes : Text)
    → file ≡ some bytes
    → y.marshal idx ≡ ok bytes
    → (seen : Index) × ((y.unmarshal bytes ≡ some seen) × ReadAs idx seen)

abbrev pub IsIndex : Index → Type 0
IsIndex idx = (eqb_ℤ idx.schema schema_version ≡ true) × (text_eq idx.name [] ≡ false)

parse-IsIndex :
    (unmarshal : Text → Option Index) (bytes : Text) (idx : Index)
    → parse unmarshal bytes ≡ ok idx
    → IsIndex idx
unfolding parse
parse-IsIndex unmarshal bytes idx h = ground arith

IsIndex-parse :
    (unmarshal : Text → Option Index) (bytes : Text) (idx : Index)
    → unmarshal bytes ≡ some idx
    → IsIndex idx
    → parse unmarshal bytes ≡ ok idx
unfolding parse
IsIndex-parse unmarshal bytes idx e h = ground arith

pub read_index-IsIndex :
    (y : Yaml) (file : Option Text) (idx : Index) → read_index y file ≡ some idx → IsIndex idx
unfolding read_index
read_index-IsIndex y none idx h = absurd (cc)
read_index-IsIndex y (some bytes) idx h = ground (arith, parse-IsIndex y.unmarshal bytes idx)

pub ReadsBack-read_index :
    (y : Yaml) (bytes : Text) (idx : Index)
    → ReadsBack y (some bytes)
    → y.marshal idx ≡ ok bytes
    → IsIndex idx
    → (seen : Index) × ((read_index y (some bytes) ≡ some seen) × ReadAs idx seen)
unfolding read_index
ReadsBack-read_index y bytes idx f given is =
    let (seen, (back, same)) = f idx bytes refl given in
    let still : IsIndex seen = rw (same.0, same.1.0) is in
    (seen, (rw (IsIndex-parse y.unmarshal bytes seen back still, read_index) refl, same))

-- The index that a merge starts from
abbrev pub base_index : Yaml → Option Text → Module → Index
base_index y file m = index_for (read_index y file) m

pub base_index-IsIndex :
    (y : Yaml) (file : Option Text) (m : Module)
    → text_eq m.name [] ≡ false
    → IsIndex (base_index y file m)
base_index-IsIndex y file m h = elim (Option-cases (read_index y file)) [
  | inl e ↦ rw e (refl, h)
  | inr (idx, e) ↦ rw e (read_index-IsIndex y file idx e)
]

pub base_index-artifact :
    (y : Yaml) (file : Option Text) (m : Module) (version triple : Text)
    → artifact_in (base_index y file m) version triple ≡ artifact_at y file version triple
unfolding artifact_at lookup artifact_of
base_index-artifact y file m version triple = elim (Option-cases (read_index y file)) [
  | inl e ↦ rw (e, artifact_at) refl
  | inr (idx, e) ↦ rw (e, artifact_at) refl
]

-- The merge of an artifact into what an index file holds
abbrev pub IsMerged :
    Yaml → Module → Description → Text → Text → Text → Option Text → Option Text → Type 0
IsMerged y m desc triple archive sha file later =
    (seen : Index) × ((read_index y later ≡ some seen)
      × ((version at : Text)
          → artifact_in seen version at
            ≡ artifact_in (merged_index (base_index y file m) m desc triple archive sha) version
                at))
