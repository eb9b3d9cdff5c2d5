-- ===== src/Modtool.antt =====
-- modtool: how a module is built and published. The files of one module directory are a value, the
-- YAML and archive packages, the compiler and the hash are parameters.
pub mod Meta
pub mod Majors
pub mod Merging
pub mod Platforms
pub mod Selected
pub mod Publish
mod Sample
mod Examples
use doze_sdk.Engine.Describe.{Description}
use doze_sdk.Modindex.Index.{Artifact, Index, Release, parse, schema_version}
use doze_sdk.Modindex.Version.{major, newer}
use doze_sdk.Prelude.{
  Bool, List, Map, Option, Result, Text, [], codes, contains, err, if◌then◌else◌, insert, lookup,
  none, ok, some, text_eq, ◌++◌, ◌∷◌, ◌||◌, ℤ, pos, not, false, true, text_key, int_key,
}
use doze_sdk.Strings.{equal_fold}

-- Module, without its logger; the driver is what Describe gives, or nil.
pub record Module : Type 0 where
  pub name : Text
  pub version : Text
  pub namespace : Text
  pub plugin_path : Text
  pub repo_dir : Text
  pub driver : Option Description

-- triples: the supported platforms
abbrev pub triples : Map Text (Text × Text)
triples =
    (codes "aarch64-apple-darwin", (codes "darwin", codes "arm64"))
    ∷ (codes "aarch64-unknown-linux-gnu", (codes "linux", codes "arm64"))
    ∷ (codes "x86_64-unknown-linux-gnu", (codes "linux", codes "amd64"))
    ∷ []

-- validate, with the description of the driver that is there
unfoldable pub validate : Module → Result Text Description
validate m =
    if text_eq m.name []
    then err (codes "modtool: Module.Name is required")
    else if text_eq m.version []
    then err (codes "modtool: Module.Version is required")
    else if text_eq m.namespace []
    then err (codes "modtool: Module.Namespace is required")
    else if text_eq m.plugin_path []
    then err (codes "modtool: Module.PluginPath is required")
    else elim m.driver [
      | none ↦ err (
          codes
            "modtool: Module.Driver is required — implement Describe() on the driver; the index's engine-support list and the docs are generated from it")
      | some d ↦ ok d
    ]

-- repoDir
abbrev pub repo_dir_of : Module → Text
repo_dir_of m = if text_eq m.repo_dir [] then codes "." else m.repo_dir

-- proto.ProtocolVersion and proto.MinHost
abbrev pub protocol_version : ℤ
protocol_version = pos 1

abbrev pub min_host : Text
min_host = codes "0.2.0"

-- The loop of engineMajors, with the majors that are seen
unfoldable pub majors_after : List Text → List Text → List Text
majors_after seen [] = []
majors_after seen (v ∷ vs) =
    let skipping = majors_after seen vs in
    let taking = majors_after (major v ∷ seen) vs in
    if text_eq (major v) [] || contains seen (major v) then skipping else major v ∷ taking

-- engineMajors
unfoldable pub engine_majors : Description → List Text
unfolding majors_after
engine_majors d = majors_after [] d.versions

-- The YAML package on an index
pub record Yaml : Type 0 where
  pub unmarshal : Text → Option Index
  pub marshal : Index → Result Text Text

-- The index that mergeIndex starts with where there is none
abbrev pub new_index : Module → Index
new_index m = record {
  schema = schema_version;
  name = m.name;
  namespace = m.namespace;
  releases = [];
  channels = some [];
  signature = [];
}

-- The index at a path: none where the file cannot be read or parsed
unfoldable pub read_index : Yaml → Option Text → Option Index
read_index y none = none
read_index y (some bytes) = elim (parse y.unmarshal bytes) [ ok idx ↦ some idx | err e ↦ none ]

-- A release's artifact for a triple, of a release that need not be there
unfoldable pub artifact_of : Option Release → Text → Option Artifact
artifact_of none triple = none
artifact_of (some rel) triple = lookup triple rel.artifacts

-- idx.Releases[version].Artifacts[triple]
abbrev pub artifact_in : Index → Text → Text → Option Artifact
artifact_in idx version triple = artifact_of (lookup version idx.releases) triple

unfoldable pub artifact_at : Yaml → Option Text → Text → Text → Option Artifact
artifact_at y file version triple = elim (read_index y file) [
  | none ↦ none
  | some idx ↦ artifact_in idx version triple
]

-- published
unfoldable pub published : Yaml → Option Text → Text → Text → Bool
published y file version triple = elim (artifact_at y file version triple) [
  | none ↦ false
  | some a ↦ true
]

-- The loop over the releases for channels.stable
unfoldable pub newest_of : Text → Map Text Release → Text
newest_of stable [] = stable
newest_of stable ((v, rel) ∷ rest) = newest_of (if newer v stable then v else stable) rest

-- The artifacts of a release that need not be there
unfoldable pub artifacts_of : Option Release → Map Text Artifact
artifacts_of none = []
artifacts_of (some rel) = rel.artifacts

-- The release of mergeIndex, stamped, with the artifact of a triple
abbrev pub stamped : Option Release → Description → Text → Text → Text → Release
stamped found d triple archive sha = record {
  protocol = protocol_version;
  doze = min_host;
  engines = engine_majors d;
  artifacts = insert triple (record { url = archive; sha256 = sha; sig = [] }) (artifacts_of found);
}

-- A published artifact with another digest
unfoldable pub is_changed : Option Artifact → Text → Bool
is_changed none sha = false
is_changed (some prev) sha = not (equal_fold prev.sha256 sha)

-- The channels, a nil map made empty
unfoldable pub channels_of : Option (Map Text Text) → Map Text Text
channels_of none = []
channels_of (some c) = c

-- The index of mergeIndex once the artifact is in
unfoldable pub merged_index : Index → Module → Description → Text → Text → Text → Index
merged_index idx m d triple archive sha =
    let rels : Map Text Release =
      insert m.version (stamped (lookup m.version idx.releases) d triple archive sha)
        idx.releases in
    record idx {
      releases = rels;
      channels =
          some (insert (codes "stable") (newest_of m.version rels) (channels_of idx.channels));
      signature = [];
    }

-- mergeIndex on an index
unfoldable pub merged : Index → Module → Description → Text → Text → Text → Result Text Index
merged idx m d triple archive sha =
    if is_changed (artifact_in idx m.version triple) sha
    then err (
        m.name
        ++ (codes " "
            ++ (m.version
                ++ (codes " ("
                    ++ (triple
                        ++ codes
                            ") is already published with a different sha256 — bump the module version instead of rebuilding it")))))
    else ok (merged_index idx m d triple archive sha)
