-- ===== src/Binaries/Download/Sound.antt =====
-- What the cache of downloads holds after any calls of EnsureDownload (binaries/download.go).
use doze_sdk.Binaries.Download.Received.{
  unpacked_at-ok, put-IsSound, put-Delivered, Delivered, IsRecording, IsSound, cached-Delivered,
}
use doze_sdk.Prelude.{
  Map, Text, [], lookup, ok, some, ◌≡◌, text_key, int_key, Option-cases, inl, inr, none, subst,
  Result, err_apart, All, List, ap, err, refl, ◌∷◌,
}
use doze_sdk.Binaries.Download.{
  Unpacker, Steps, unpacked_at, have_entry, cached_download, download_dir, finish, ensure_download,
}
use doze_sdk.Binaries.Cache.{Entry}
use doze_sdk.Binaries.Mirror.{Outside}

-- One call
pub record Asked : Type 0 where
  pub outside : Outside
  pub steps : Steps
  pub url : Text
  pub expected : Text

module _ {Tree : Type 0} (tools : Unpacker Tree) where
  finish-Delivered :
      (o : Outside) (p : Steps) (dir url expected given digest : Text)
      (r : Result Text (Text × Tree)) (cache later : Map Text (Entry Tree))
      → unpacked_at tools o p url expected ≡ r
      → finish tools p dir r cache ≡ (ok (given, digest), later)
      → Delivered tools dir expected given digest later
  unfolding finish
  finish-Delivered o p dir url expected given digest (err e) cache later made h =
      absurd (err_apart e (given, digest) (ap (λ r. r.0) h))
  finish-Delivered o p dir url expected given digest (ok (bytes, tree)) cache later made h =
      let (unpacks, pin) = unpacked_at-ok tools o p url expected bytes tree made in
      put-Delivered tools p dir url expected bytes given digest tree cache later unpacks pin h

  finish-IsSound :
      (o : Outside) (p : Steps) (dir url expected : Text) (r : Result Text (Text × Tree))
      (cache : Map Text (Entry Tree))
      → unpacked_at tools o p url expected ≡ r
      → IsRecording tools p
      → IsSound tools cache
      → IsSound tools (finish tools p dir r cache).1
  unfolding finish
  finish-IsSound o p dir url expected (err e) cache made lawful sound = sound
  finish-IsSound o p dir url expected (ok (bytes, tree)) cache made lawful sound =
      put-IsSound tools p dir url bytes tree cache lawful
        (unpacked_at-ok tools o p url expected bytes tree made).0 sound

  download_hit :
      (home : Text) (a : Asked) (cache : Map Text (Entry Tree)) (e : Entry Tree)
      → have_entry tools (download_dir tools home a.url) cache ≡ some e
      → ensure_download tools home a.outside a.steps a.url a.expected cache
        ≡ (cached_download tools a.url (download_dir tools home a.url) a.expected e, cache)
  unfolding ensure_download
  download_hit home a cache e hit = rw (hit, ensure_download) refl

  download_miss :
      (home : Text) (a : Asked) (cache : Map Text (Entry Tree))
      → have_entry tools (download_dir tools home a.url) cache ≡ none
      → ensure_download tools home a.outside a.steps a.url a.expected cache
        ≡ finish tools a.steps
            (download_dir tools home a.url)
            (unpacked_at tools a.outside a.steps a.url a.expected)
            cache
  unfolding ensure_download
  download_miss home a cache miss = rw (miss, ensure_download) refl

  download-IsSound :
      (home : Text) (a : Asked) (cache : Map Text (Entry Tree))
      → IsRecording tools a.steps
      → IsSound tools cache
      → IsSound tools (ensure_download tools home a.outside a.steps a.url a.expected cache).1
  download-IsSound home a cache lawful sound =
      elim (Option-cases (have_entry tools (download_dir tools home a.url) cache)) [
        | inr (e, hit) ↦ rw (download_hit home a cache e hit) sound
        | inl miss ↦ rw (download_miss home a cache miss) (
            finish-IsSound a.outside a.steps (download_dir tools home a.url) a.url a.expected
              (unpacked_at tools a.outside a.steps a.url a.expected) cache refl lawful sound)
      ]

  download-Delivered :
      (home : Text) (a : Asked) (given digest : Text) (cache later : Map Text (Entry Tree))
      → IsSound tools cache
      → ensure_download tools home a.outside a.steps a.url a.expected cache
        ≡ (ok (given, digest), later)
      → Delivered tools (download_dir tools home a.url) a.expected given digest later
  download-Delivered home a given digest cache later sound h =
      elim (Option-cases (have_entry tools (download_dir tools home a.url) cache)) [
        | inr (e, hit) ↦
            let pair =
              subst (λ x. x ≡ (ok (given, digest), later)) (download_hit home a cache e hit) h in
            subst (Delivered tools (download_dir tools home a.url) a.expected given digest)
              (ap (λ r. r.1) pair)
              (cached-Delivered tools a.url (download_dir tools home a.url) a.expected given digest
                e cache sound hit (ap (λ r. r.0) pair))
        | inl miss ↦
            finish-Delivered a.outside a.steps (download_dir tools home a.url) a.url a.expected
              given digest (unpacked_at tools a.outside a.steps a.url a.expected) cache later refl
              (subst (λ x. x ≡ (ok (given, digest), later)) (download_miss home a cache miss) h)
      ]

  -- The cache after calls
  unfoldable pub after_downloads : Text → List Asked → Map Text (Entry Tree) → Map Text (Entry Tree)
  after_downloads home [] cache = cache
  after_downloads home (a ∷ asked) cache =
      after_downloads home asked
        (ensure_download tools home a.outside a.steps a.url a.expected cache).1

  after_downloads-IsSound :
      (home : Text) (asked : List Asked) (cache : Map Text (Entry Tree))
      → All (λ (a : Asked). IsRecording tools a.steps) asked
      → IsSound tools cache
      → IsSound tools (after_downloads home asked cache)
  unfolding after_downloads
  after_downloads-IsSound home [] cache lawful sound = sound
  after_downloads-IsSound home (a ∷ asked) cache lawful sound =
      after_downloads-IsSound home asked _ lawful.1 (download-IsSound home a cache lawful.0 sound)

  empty-IsSound : IsSound tools []
  unfolding lookup
  empty-IsSound dir e at = cc

  -- After any calls of EnsureDownload on an empty cache, whatever the network and the files do, if
  -- writing a digest leaves it or nothing: a download that is given is in the cache, is unpacked from
  -- bytes with the digest that is given, and that is the digest expected, if one is.
  pub ensure_download-Delivered :
      (home : Text) (asked : List Asked) (a : Asked) (given digest : Text)
      (later : Map Text (Entry Tree))
      → All (λ (a : Asked). IsRecording tools a.steps) asked
      → ensure_download tools home a.outside a.steps a.url a.expected
          (after_downloads home asked [])
        ≡ (ok (given, digest), later)
      → Delivered tools (download_dir tools home a.url) a.expected given digest later
  ensure_download-Delivered home asked a given digest later lawful h =
      download-Delivered home a given digest (after_downloads home asked []) later
        (after_downloads-IsSound home asked [] lawful empty-IsSound) h
