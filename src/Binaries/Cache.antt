-- ===== src/Binaries/Cache.antt =====
-- The cache of toolchains (binaries/binaries.go): `Ensure`, `EnsureArtifact` and what they call.
-- A directory of the cache is a Tree with the digest that is recorded beside it; unpacking an archive
-- is a parameter. os.RemoveAll is taken to
-- remove all of a directory. The digest, its signature and filepath.Join are parameters too.
pub mod Verified
pub mod Sound
pub mod Calls
pub mod Artifact
mod Examples
use doze_sdk.Strings.{equal_fold}
use doze_sdk.Prelude.{
  Bool, List, Map, Option, Result, Text, [], codes, delete, err, if◌then◌else◌, insert, lookup,
  none, not, ok, some, text_eq, ◌&&◌, ◌++◌, ◌>>=◌, ◌∷◌, text_key, int_key, ◌-◌,
}
use doze_sdk.Binaries.Mirror.{
  Settings, Outside, Manifest, get_url, prefixed, fetch_manifest, artifact_at, artifact_url,
  ManifestArtifact,
}

-- What the code relies on: `extract` and `normalize` give the tree that is unpacked and the one with
-- bin/ at its root, if any; `has_bin` says whether bin/ has entries; `sha_hex` is the checksum.
pub record Tools (Tree : Type 0) : Type 0 where
  pub join : List Text → Text
  pub sha_hex : Text → Text
  pub decode64 : Text → Result Text Text
  pub verify : Text → Text → Text → Bool
  pub extract : Text → Result Text Tree
  pub normalize : Tree → Option Tree
  pub has_bin : Tree → Bool

pub record Entry (Tree : Type 0) : Type 0 where
  pub tree : Tree
  pub recorded : Text

-- How the calls of package os end while a download is put in place: `recorded` is what reads back
-- of a digest once it is written, which may fail without an error.
pub record Placing : Type 0 where
  pub recorded : Text → Text
  pub mkdir : Option Text
  pub rename : Option Text

pub record State (Tree : Type 0) : Type 0 where
  pub manifests : Map Text Manifest
  pub cache : Map Text (Entry Tree)

-- if err != nil { return err }
abbrev pub unless : {A : Type 0} → Option Text → Result Text A → Result Text A
unless none rest = rest
unless (some e) rest = err e

module _ {Tree : Type 0} (tools : Tools Tree) where
  -- verifySig
  unfoldable pub verify_sig : Text → Text → Text → Option Text
  verify_sig key sha sig =
      if text_eq sig [] then some (codes "artifact is unsigned") else elim (tools.decode64 sig) [
        | err e ↦ some (codes "malformed signature: " ++ e)
        | ok bytes ↦
            if tools.verify key sha bytes
            then none
            else some (codes "signature does not match the publisher key")
      ]

  abbrev pub sha256_prefix : Text
  sha256_prefix = codes "sha256:"

  -- The digest of an archive
  abbrev pub digest_of : Text → Text
  digest_of archive = sha256_prefix ++ tools.sha_hex archive

  -- contentDir
  abbrev pub content_dir : Settings → Text → Text → Text → Text
  content_dir m eng full triple = tools.join (m.home ∷ eng ∷ (full ++ (codes "-" ++ triple)) ∷ [])

  abbrev pub bin_dir : Text → Text
  bin_dir dir = tools.join (dir ∷ codes "bin" ∷ [])

  abbrev pub named : Text → Text → Text → Text
  named eng full triple = eng ++ (codes " " ++ (full ++ (codes " (" ++ (triple ++ codes ")"))))

  -- cached
  unfoldable pub cached : Text → Text → Text → Text → Entry Tree → Text → Result Text (Text × Text)
  cached eng full triple dir e expected =
      if not (text_eq expected [])
        && (not (text_eq e.recorded []) && not (text_eq e.recorded expected))
      then err (
          codes "cached "
          ++ (named eng full triple
              ++ (codes " is "
                  ++ (e.recorded
                      ++ (codes " but the lock pins "
                          ++ (expected
                              ++ (codes " — remove " ++ (dir ++ codes " to fetch it again"))))))))
      else ok (bin_dir dir, e.recorded)

  -- The checks of ensureDownload on the archive: the lock's digest, or the mirror's, one of them
  unfoldable pub checked : Text → Text → Text → Text → Text → Text → Option Text
  checked eng full triple archive want expected =
      if not (text_eq expected [])
      then (if not (text_eq (digest_of archive) expected)
          then some (
              codes "checksum mismatch for "
              ++ (named eng full triple
                  ++ (codes ": locked " ++ (expected ++ (codes ", got " ++ digest_of archive)))))
          else none)
      else if not (text_eq want [])
      then (if not (equal_fold (tools.sha_hex archive) want)
          then some (
              codes "checksum mismatch for "
              ++ (named eng full triple
                  ++ (codes ": manifest " ++ (want ++ (codes ", got " ++ tools.sha_hex archive)))))
          else none)
      else some (codes "no checksum available to verify " ++ named eng full triple)

  -- The signature check of ensureDownload
  unfoldable pub signed : Settings → Text → Text → Text → Text → Text → Option Text
  unfolding verify_sig
  signed m eng full triple archive sig = elim m.signing_key [
    | none ↦ none
    | some key ↦ elim (verify_sig key (tools.sha_hex archive) sig) [
      | none ↦ none
      | some e ↦
          some (codes "signature check failed for " ++ (named eng full triple ++ (codes ": " ++ e)))
    ]
  ]

  -- extractTarGz, locateBinDir and the move of what they give
  unfoldable pub unpacked : Text → Text → Result Text Tree
  unpacked eng archive = prefixed (codes "extracting: ") (tools.extract archive) >>= λ tree.
      elim (tools.normalize tree) [
        | none ↦ err (codes "extracted " ++ (eng ++ codes " archive has no bin/ directory"))
        | some placed ↦ ok placed
      ]

  -- The checks of ensureDownload on an archive, and what it unpacks to
  unfoldable pub accepted :
      Settings → Text → Text → Text → Text → Text → Text → Text → Result Text (Text × Tree)
  unfolding checked signed unpacked
  accepted m eng full triple want sig expected archive =
      unless (checked eng full triple archive want expected) (
        unless (signed m eng full triple archive sig)
          (unpacked eng archive >>= λ tree. ok (archive, tree)))

  -- The first part of ensureDownload, up to the archive in a directory of its own: what touches
  -- nothing of the cache.
  unfoldable pub verified :
      Settings
      → Outside
      → Text
      → Text
      → Text
      → Text
      → Text
      → Text
      → Text
      → Result Text (Text × Tree)
  unfolding accepted
  verified m o eng full triple url want sig expected =
      prefixed (codes "downloading " ++ (url ++ codes ": ")) (get_url o url)
      >>= accepted m eng full triple want sig expected

  -- The end of ensureDownload: the old directory goes, the new one takes its place.
  unfoldable pub placed :
      Placing
      → Text
      → Text
      → Text
      → Tree
      → Map Text (Entry Tree)
      → Result Text (Text × Text) × Map Text (Entry Tree)
  placed p eng dir archive tree cache =
      let digest = digest_of archive in
      let bare = delete dir cache in
      let full = insert dir (record { tree = tree; recorded = p.recorded digest }) bare in
      elim p.mkdir [
        | some e ↦ (err e, bare)
        | none ↦ elim p.rename [
          | some e ↦ (err e, bare)
          | none ↦ (
            if not (tools.has_bin tree)
                then err (codes "downloaded " ++ (eng ++ codes " toolchain has no executables"))
                else ok (bin_dir dir, digest),
            full,
          )
        ]
      ]

  -- ensureDownload
  unfoldable pub ensure_archive :
      Settings
      → Outside
      → Placing
      → Text
      → Text
      → Text
      → Text
      → Text
      → Text
      → Text
      → Map Text (Entry Tree)
      → Result Text (Text × Text) × Map Text (Entry Tree)
  unfolding verified placed
  ensure_archive m o p eng full triple url want sig expected cache =
      elim (verified m o eng full triple url want sig expected) [
        | err e ↦ (err e, cache)
        | ok (archive, tree) ↦ placed p eng (content_dir m eng full triple) archive tree cache
      ]

  -- dirHasFiles on the bin directory of an entry
  unfoldable pub ready_entry : Text → Map Text (Entry Tree) → Option (Entry Tree)
  ready_entry dir cache = elim (lookup dir cache) [
    | none ↦ none
    | some e ↦ if tools.has_bin e.tree then some e else none
  ]

  -- EnsureArtifact
  unfoldable pub ensure_artifact :
      Settings
      → Outside
      → Placing
      → Text
      → Text
      → Text
      → Text
      → Text
      → Text
      → Text
      → Map Text (Entry Tree)
      → Result Text (Text × Text) × Map Text (Entry Tree)
  unfolding ready_entry cached ensure_archive
  ensure_artifact m o p name full triple url sha sig expected cache =
      let dir = content_dir m name full triple in
      elim (ready_entry dir cache) [
        | some e ↦ (cached name full triple dir e expected, cache)
        | none ↦ ensure_archive m o p name full triple url sha sig expected cache
      ]

  -- The artifact that Ensure takes from the manifest
  unfoldable pub artifact_for :
      Settings
      → Outside
      → Text
      → Text
      → Text
      → Map Text Manifest
      → Result Text ManifestArtifact × Map Text Manifest
  unfolding fetch_manifest artifact_at
  artifact_for m o eng full triple manifests =
      let (man, known) = fetch_manifest m o eng manifests in
      (
        man >>= λ man. elim (artifact_at man eng full triple) [
          | none ↦ err (
              codes "mirror has no "
              ++ (eng ++ (codes " " ++ (full ++ (codes " artifact for " ++ triple)))))
          | some art ↦ ok art
        ],
        known,
      )

  -- The end of Ensure, for the artifact and the manifests that are memoized by then
  unfoldable pub ensure_from :
      Settings
      → Outside
      → Placing
      → Text
      → Text
      → Text
      → Text
      → Result Text ManifestArtifact × Map Text Manifest
      → State Tree
      → Result Text (Text × Text) × State Tree
  unfolding ensure_archive artifact_url
  ensure_from m o p eng full triple expected (err e, known) s =
      (err e, record s { manifests = known })
  ensure_from m o p eng full triple expected (ok art, known) s =
      let (given, cache) =
        ensure_archive m o p eng full triple (artifact_url m o eng art) art.sha256 art.sig expected
          s.cache in
      (given, record { manifests = known; cache = cache })

  -- Ensure
  unfoldable pub ensure :
      Settings
      → Outside
      → Placing
      → Text
      → Text
      → Text
      → Text
      → State Tree
      → Result Text (Text × Text) × State Tree
  unfolding ready_entry cached ensure_from artifact_for
  ensure m o p eng full triple expected s =
      let dir = content_dir m eng full triple in
      elim (ready_entry dir s.cache) [
        | some e ↦ (cached eng full triple dir e expected, s)
        | none ↦
            ensure_from m o p eng full triple expected
              (artifact_for m o eng full triple s.manifests) s
      ]
