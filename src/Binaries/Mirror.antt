-- ===== src/Binaries/Mirror.antt =====
-- The mirror of engine binaries (binaries/binaries.go, binaries/manifest.go): its manifest, the URLs
-- the code asks and what it makes of the answers. The environment, the network, the files and YAML
-- are parameters: what they give at the time of a call. Logging is left out.
mod Examples
use doze_sdk.Strings.{cut_prefix, trim_left, trim_right}
use doze_sdk.Prelude.{
  Bool, Map, Option, Result, Text, [], codes, err, if◌then◌else◌, insert, is_some, lookup, nat_eq,
  none, not, ok, some, text_eq, ℕ, ◌++◌, ◌>>=◌, ◌||◌, ◌∷◌, text_key, int_key,
}

-- ManifestArtifact
pub record ManifestArtifact : Type 0 where
  pub url : Text
  pub sha256 : Text
  pub sig : Text

-- EngineManifest
pub record EngineManifest : Type 0 where
  pub versions : Map Text Text
  pub artifacts : Map Text (Map Text ManifestArtifact)

-- Manifest
pub record Manifest : Type 0 where
  pub engines : Map Text EngineManifest

-- The fields of a Manager that a caller sets; a nil key is none.
pub record Settings : Type 0 where
  pub home : Text
  pub mirror_root : Text
  pub signing_key : Option Text

-- An HTTP answer: its code, its status line, and how reading its body ends.
pub record Answer : Type 0 where
  pub code : ℕ
  pub status : Text
  pub body : Result Text Text

-- What the calls meet outside.
pub record Outside : Type 0 where
  pub getenv : Text → Text
  pub to_upper : Text → Text
  pub read_file : Text → Result Text Text
  pub http_get : Text → Result Text Answer
  pub unmarshal : Text → Result Text Manifest

abbrev slash : ℕ
slash = 47

-- strings.Contains
unfoldable pub contains_text : Text → Text → Bool
unfolding cut_prefix
contains_text part [] = text_eq part []
contains_text part (c ∷ s) =
    let later = contains_text part s in is_some (cut_prefix part (c ∷ s)) || later

-- DefaultMirrorRoot
abbrev pub default_mirror_root : Text
default_mirror_root = codes "https://github.com/doze-dev/doze-binaries/releases/download"

abbrev pub joined : Text → Text → Text
joined root name = trim_right slash root ++ (slash ∷ name)

-- mirrorBase
unfoldable pub mirror_base : Settings → Outside → Text → Text
mirror_base m o eng =
    let own = o.getenv (codes "DOZE_" ++ (o.to_upper eng ++ codes "_MIRROR")) in
    let shared = o.getenv (codes "DOZE_MIRROR") in
    if not (text_eq m.mirror_root [])
    then joined m.mirror_root eng
    else if not (text_eq own [])
    then own
    else if not (text_eq shared [])
    then joined shared eng
    else default_mirror_root ++ (slash ∷ eng)

-- get
unfoldable pub get_url : Outside → Text → Result Text Text
get_url o url = elim (cut_prefix (codes "file://") url) [
  | some path ↦ o.read_file path
  | none ↦ o.http_get url >>= λ answer.
      if nat_eq answer.code 200
      then answer.body
      else err (codes "GET " ++ (url ++ (codes ": " ++ answer.status)))
]

abbrev pub prefixed : {A : Type 0} → Text → Result Text A → Result Text A
prefixed before (ok a) = ok a
prefixed before (err e) = err (before ++ e)

-- The end of fetchManifest: the manifest that the mirror serves.
unfoldable pub served_manifest : Settings → Outside → Text → Result Text Manifest
unfolding mirror_base get_url
served_manifest m o eng =
    let url = joined (mirror_base m o eng) (codes "index.yaml") in
    prefixed (codes "fetching mirror manifest " ++ (url ++ codes ": ")) (get_url o url) >>= λ body.
    prefixed (codes "parsing mirror manifest: ") (o.unmarshal body)

-- fetchManifest, with the manifests that are memoized
unfoldable pub fetch_manifest :
    Settings → Outside → Text → Map Text Manifest → Result Text Manifest × Map Text Manifest
unfolding served_manifest
fetch_manifest m o eng known = elim (lookup eng known) [
  | some man ↦ (ok man, known)
  | none ↦ elim (served_manifest m o eng) [
    | err e ↦ (err e, known)
    | ok man ↦ (ok man, insert eng man known)
  ]
]

-- ResolveMajor once the manifest is there; the message quotes its texts, which the model leaves bare
unfoldable pub major_of : Manifest → Text → Text → Result Text Text
major_of man eng major = elim (lookup eng man.engines) [
  | none ↦ err (codes "mirror has no engine " ++ eng)
  | some em ↦ elim (lookup major em.versions) [
    | none ↦ err (codes "mirror has no " ++ (eng ++ (codes " version for major " ++ major)))
    | some full ↦ ok full
  ]
]

-- ResolveMajor
unfoldable pub resolve_major :
    Settings → Outside → Text → Text → Map Text Manifest → Result Text Text × Map Text Manifest
unfolding fetch_manifest major_of
resolve_major m o eng major known =
    let (man, known') = fetch_manifest m o eng known in
    (man >>= λ man. major_of man eng major, known')

-- man.Engines[eng].Artifacts[full][triple], where a missing key reads as an empty map
unfoldable pub artifact_at : Manifest → Text → Text → Text → Option ManifestArtifact
artifact_at man eng full triple = elim (lookup eng man.engines) [
  | none ↦ none
  | some em ↦ elim (lookup full em.artifacts) [
    | none ↦ none
    | some of_triple ↦ lookup triple of_triple
  ]
]

-- The URL of an artifact
unfoldable pub artifact_url : Settings → Outside → Text → ManifestArtifact → Text
unfolding mirror_base
artifact_url m o eng art =
    if contains_text (codes "://") art.url
    then art.url
    else joined (mirror_base m o eng) (trim_left slash art.url)
