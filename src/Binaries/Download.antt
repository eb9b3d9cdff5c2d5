-- ===== src/Binaries/Download.antt =====
-- The cache of downloads (binaries/download.go): `EnsureDownload`, of anything at a URL that is not in
-- the registry. Unpacking is a parameter, as are the digest and filepath.Join; os.RemoveAll is taken
-- to remove all of a directory. Logging is left out.
pub mod Received
pub mod Sound
use doze_sdk.Binaries.Lock.Layers.{download}
use doze_sdk.Strings.{cut_prefix}
use doze_sdk.Prelude.{
  List, Map, Option, Result, Text, [], codes, delete, err, if◌then◌else◌, insert, lookup, nat_eq,
  none, not, ok, some, text_eq, ◌&&◌, ◌++◌, ◌>>=◌, ◌∷◌, text_key, int_key,
}
use doze_sdk.Binaries.Mirror.{Outside, prefixed}
use doze_sdk.Binaries.Cache.{Entry, cached, unpacked}

-- What the code relies on: `unpack` takes the bytes and the URL to what they unpack to, and
-- `only_dir` gives the one directory at the top of it, if there is just that.
pub record Unpacker (Tree : Type 0) : Type 0 where
  pub join : List Text → Text
  pub sha_hex : Text → Text
  pub key_hex : Text → Text
  pub unpack : Text → Text → Result Text Tree
  pub only_dir : Tree → Option Text

-- How the calls of package os end in one EnsureDownload: the directories, the file that the bytes
-- go to, the digest that reads back, and the rename.
pub record Steps : Type 0 where
  pub mkdir_parent : Option Text
  pub mkdir_tmp : Option Text
  pub create : Option Text
  pub close : Option Text
  pub mkdir_root : Option Text
  pub recorded : Text → Text
  pub rename : Option Text

-- if err != nil { return err }
abbrev pub after : {A : Type 0} → Option Text → Result Text A → Result Text A
after none rest = rest
after (some e) rest = err e

-- What the server sends
unfoldable pub source_of : Outside → Text → Result Text (Result Text Text)
source_of o url = elim (cut_prefix (codes "file://") url) [
  | some path ↦ o.read_file path >>= λ bytes. ok (ok bytes)
  | none ↦ prefixed (codes "downloading " ++ (url ++ codes ": ")) (o.http_get url) >>= λ answer.
      if nat_eq answer.code 200
      then ok answer.body
      else err (codes "GET " ++ (url ++ (codes ": " ++ answer.status)))
]

module _ {Tree : Type 0} (tools : Unpacker Tree) where
  -- The digest of what was streamed
  abbrev pub digest_of : Text → Text
  digest_of bytes = codes "sha256:" ++ tools.sha_hex bytes

  -- streamTo: the bytes, whose digest the code takes on the way
  unfoldable pub stream_to : Outside → Steps → Text → Result Text Text
  unfolding source_of
  stream_to o p url = source_of o url >>= λ sent. after p.create (
      prefixed (codes "downloading " ++ (url ++ codes ": ")) sent >>= λ bytes.
      after p.close (ok bytes))

  -- archiveRoot
  unfoldable pub archive_root : Text → Tree → Text
  archive_root dir tree = elim (tools.only_dir tree) [
    | some name ↦ tools.join (tools.join (dir ∷ codes "root" ∷ []) ∷ name ∷ [])
    | none ↦ tools.join (dir ∷ codes "root" ∷ [])
  ]

  -- contentDir: the cache is keyed by the URL
  abbrev pub download_dir : Text → Text → Text
  download_dir home url = tools.join (home ∷ codes "downloads" ∷ tools.key_hex url ∷ [])

  abbrev pub changed : Text → Text → Text → Text → Text
  changed url have expected dir =
      codes "the download "
      ++ (url
          ++ (codes " is cached as "
              ++ (have
                  ++ (codes " but doze.lock pins "
                      ++ (expected
                          ++ (codes " — it changed at the source, or the lock is wrong; remove "
                              ++ (dir ++ codes " to fetch it again")))))))

  -- The check of what was streamed
  unfoldable pub matches : Text → Text → Text → Option Text
  matches url expected digest =
      if not (text_eq expected []) && not (text_eq digest expected)
      then some (
          codes "checksum mismatch for "
          ++ (url
              ++ (codes ": doze.lock pins "
                  ++ (expected
                      ++ (codes ", the server sent "
                          ++ (digest ++ codes " — nothing was unpacked"))))))
      else none

  -- What EnsureDownload makes of the bytes, in its temporary directory
  unfoldable pub received : Steps → Text → Text → Text → Result Text (Text × Tree)
  unfolding matches
  received p url expected bytes = after (matches url expected (digest_of bytes)) (
      after p.mkdir_root (
        prefixed (codes "unpacking " ++ (url ++ codes ": ")) (tools.unpack bytes url) >>= λ tree.
        ok (bytes, tree)))

  -- EnsureDownload up to the tree in its temporary directory
  unfoldable pub unpacked_at : Outside → Steps → Text → Text → Result Text (Text × Tree)
  unfolding stream_to received
  unpacked_at o p url expected =
      after p.mkdir_parent (after p.mkdir_tmp (stream_to o p url >>= received p url expected))

  -- The end of EnsureDownload
  unfoldable pub put :
      Steps
      → Text
      → Text
      → Tree
      → Map Text (Entry Tree)
      → Result Text (Text × Text) × Map Text (Entry Tree)
  unfolding archive_root
  put p dir bytes tree cache =
      let bare = delete dir cache in
      elim p.rename [
        | some e ↦ (err e, bare)
        | none ↦ (
          ok (archive_root dir tree, digest_of bytes),
          insert dir (record { tree = tree; recorded = p.recorded (digest_of bytes) }) bare,
        )
      ]

  -- The digest that reads back of a cached download, which is not ""
  unfoldable pub have_entry : Text → Map Text (Entry Tree) → Option (Entry Tree)
  have_entry dir cache = elim (lookup dir cache) [
    | none ↦ none
    | some e ↦ if text_eq e.recorded [] then none else some e
  ]

  -- A cache hit
  unfoldable pub cached_download : Text → Text → Text → Entry Tree → Result Text (Text × Text)
  unfolding archive_root
  cached_download url dir expected e =
      if not (text_eq expected []) && not (text_eq e.recorded expected)
      then err (changed url e.recorded expected dir)
      else ok (archive_root dir e.tree, e.recorded)

  -- The rest of EnsureDownload, once the download is unpacked or is not
  unfoldable pub finish :
      Steps
      → Text
      → Result Text (Text × Tree)
      → Map Text (Entry Tree)
      → Result Text (Text × Text) × Map Text (Entry Tree)
  unfolding put
  finish p dir (err e) cache = (err e, cache)
  finish p dir (ok (bytes, tree)) cache = put p dir bytes tree cache

  -- EnsureDownload
  unfoldable pub ensure_download :
      Text
      → Outside
      → Steps
      → Text
      → Text
      → Map Text (Entry Tree)
      → Result Text (Text × Text) × Map Text (Entry Tree)
  unfolding have_entry cached_download unpacked_at finish
  ensure_download home o p url expected cache = elim (have_entry (download_dir home url) cache) [
    | some e ↦ (cached_download url (download_dir home url) expected e, cache)
    | none ↦ finish p (download_dir home url) (unpacked_at o p url expected) cache
  ]
