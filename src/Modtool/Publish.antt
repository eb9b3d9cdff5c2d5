-- ===== src/Modtool/Publish.antt =====
-- modtool/modtool.go: Build, WriteMeta and Release on the files of a module's directory. How the
-- compiler and the calls of package os end is a parameter of each build.
pub mod Reading
pub mod Outcome
pub mod Kept
pub mod Sourced
pub mod Released
use doze_sdk.Engine.Template.{building, built}
use doze_sdk.Engine.Describe.{Description}
use doze_sdk.Modindex.Index.{Index}
use doze_sdk.Modtool.{
  Module, Yaml, merged, new_index, published, read_index, triples, validate, repo_dir_of,
}
use doze_sdk.Modtool.Meta.{MetaFile, to_meta_file}
use doze_sdk.Prelude.{
  List, Map, Option, Result, Text, [], codes, err, if◌then◌else◌, insert, lookup, none, ok, some,
  ◌++◌, ◌∷◌, text_key, int_key, ◌-◌,
}

-- The directory outDir/<name>: index.yaml, the archives and meta.yaml
pub record Dist : Type 0 where
  pub index : Option Text
  pub archives : Map Text Text
  pub meta : Option Text

-- The packages that every build shares: YAML, the archive of a member with its body, and SHA-256 in
-- hexadecimal digits.
pub record Tools : Type 0 where
  pub yaml : Yaml
  pub tar_gz : Text → Text → Text
  pub sha_hex : Text → Text
  pub marshal_meta : MetaFile → Result Text Text

-- How one call of os.WriteFile or os.Create with the writes ends: with no error, or with one and what
-- the file then holds
pub data Write : Type 0 where
  complete : Write
  broken_off : Text → Option Text → Write

-- How the calls of one build end; an os.ReadFile of an index that is there may fail in `published` and
-- in mergeIndex.
pub record Shop : Type 0 where
  pub published_read : Option Text
  pub merge_read : Option Text
  pub mkdir : Option Text
  pub scratch : Option Text
  pub compile : Text → Text → Text × Text → Result Text Text
  pub archive_write : Write
  pub index_write : Write

abbrev pub archive_name : Module → Text → Text
archive_name m triple =
    m.name ++ (codes "-plugin-" ++ (m.version ++ (codes "-" ++ (triple ++ codes ".tar.gz"))))

abbrev pub member_name : Module → Text
member_name m = codes "bin/" ++ (m.name ++ codes "-plugin")

abbrev pub Built : Type 0
Built = Option Text × Dist

-- The end of mergeIndex: the marshalled index is written.
unfoldable pub write_index : Tools → Shop → Index → Dist → Built
write_index t s idx d = elim (t.yaml.marshal idx) [
  | err e ↦ (some e, d)
  | ok bytes ↦ elim s.index_write [
    | complete ↦ (none, record d { index = some bytes })
    | broken_off e left ↦ (some e, record d { index = left })
  ]
]

abbrev pub index_for : Option Index → Module → Index
index_for none m = new_index m
index_for (some idx) m = idx

-- What os.ReadFile of a file gives, if anything: no error is told apart from another.
abbrev pub as_read : Option Text → Option Text → Option Text
as_read none file = file
as_read (some e) file = none

-- mergeIndex
unfoldable pub merge_index : Tools → Shop → Module → Description → Text → Text → Text → Dist → Built
unfolding write_index
merge_index t s m desc triple archive sha d =
    elim (merged (index_for (read_index t.yaml (as_read s.merge_read d.index)) m) m desc triple
      archive sha) [ err e ↦ (some e, d) | ok idx ↦ write_index t s idx d ]

-- Build from writeTarGz on
unfoldable pub package_built : Tools → Shop → Module → Description → Text → Text → Dist → Built
unfolding merge_index
package_built t s m desc triple binary d =
    let archive = archive_name m triple in
    let body = t.tar_gz (member_name m) binary in
    elim s.archive_write [
      | broken_off e none ↦ (some e, d)
      | broken_off e (some left) ↦ (some e, record d { archives = insert archive left d.archives })
      | complete ↦
          merge_index t s m desc triple archive (t.sha_hex body)
            (record d { archives = insert archive body d.archives })
    ]

abbrev pub compile_error : Module → Text → Text → Text
compile_error m triple e =
    codes "building " ++ (m.name ++ (codes " for " ++ (triple ++ (codes ": " ++ e))))

abbrev pub unknown_triple : Text → Text
unknown_triple triple =
    codes "unknown triple "
    ++ (triple
        ++ codes
            " (supported: aarch64-apple-darwin, aarch64-unknown-linux-gnu, x86_64-unknown-linux-gnu)")

-- Build from os.MkdirTemp on
unfoldable pub compile_and_package :
    Tools → Shop → Module → Description → Text → Text × Text → Dist → Built
unfolding package_built
compile_and_package t s m desc triple plat d = elim s.scratch [
  | some e ↦ (some e, d)
  | none ↦ elim (s.compile (repo_dir_of m) m.plugin_path plat) [
    | err e ↦ (some (compile_error m triple e), d)
    | ok binary ↦ package_built t s m desc triple binary d
  ]
]

-- Build from the lookup of the triple on
unfoldable pub build_described : Tools → Shop → Module → Description → Text → Dist → Built
unfolding compile_and_package
build_described t s m desc triple d = elim (lookup triple triples) [
  | none ↦ (some (unknown_triple triple), d)
  | some plat ↦ elim s.mkdir [
    | some e ↦ (some e, d)
    | none ↦
        if published t.yaml (as_read s.published_read d.index) m.version triple
        then (none, d)
        else compile_and_package t s m desc triple plat d
  ]
]

-- Build
unfoldable pub build : Tools → Shop → Module → Text → Dist → Built
unfolding build_described
build t s m triple d = elim (validate m) [
  | err e ↦ (some e, d)
  | ok desc ↦ build_described t s m desc triple d
]

-- WriteMeta, with how making the directory and writing the file end
unfoldable pub write_meta : Tools → Option Text → Write → Module → Dist → Built
unfolding to_meta_file
write_meta t mkdir ending m d = elim (validate m) [
  | err e ↦ (some e, d)
  | ok desc ↦ elim (t.marshal_meta (to_meta_file m.name desc)) [
    | err e ↦ (some e, d)
    | ok bytes ↦ elim mkdir [
      | some e ↦ (some e, d)
      | none ↦ elim ending [
        | complete ↦ (none, record d { meta = some bytes })
        | broken_off e left ↦ (some e, record d { meta = left })
      ]
    ]
  ]
]

-- The loop of Release: the triples, each with how the calls of its build end
unfoldable pub build_all : Tools → Module → List (Text × Shop) → Dist → Built
build_all t m [] d = (none, d)
build_all t m ((triple, s) ∷ rest) d =
    let built = build t s m triple d in
    let later = build_all t m rest built.1 in
    elim built.0 [ some e ↦ (some e, built.1) | none ↦ later ]

-- Release
unfoldable pub release : Tools → Option Text → Write → Module → List (Text × Shop) → Dist → Built
unfolding build_all write_meta
release t mkdir ending m triples_of d =
    let built = build_all t m triples_of d in
    let finished = write_meta t mkdir ending m built.1 in
    elim built.0 [ some e ↦ (some e, built.1) | none ↦ finished ]
