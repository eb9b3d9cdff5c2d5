-- ===== src/Binaries/Cache/Calls.antt =====
-- The cache of toolchains after any calls of `Ensure` and `EnsureArtifact` (binaries/binaries.go).
use doze_sdk.Binaries.Cache.Sound.{
  IsSound, Delivered, cached-Delivered, IsRecording, ensure_archive-Delivered,
  ensure_archive-IsSound,
}
use doze_sdk.Binaries.Cache.{
  Tools, Entry, Placing, State, content_dir, ready_entry, ensure_artifact, ensure, artifact_for,
  ensure_from, cached,
}
use doze_sdk.Binaries.Mirror.{Settings, Outside, artifact_url, ManifestArtifact, Manifest}
use doze_sdk.Prelude.{
  List, Map, Option-cases, Result, Text, [], inl, inr, ok, subst, ◌∷◌, ◌≡◌, All, lookup, text_key,
  int_key, ap, err, err_apart, refl, some,
}

-- One call: how the Manager is set, what is outside, and how the directory is put in place.
pub record Setting : Type 0 where
  pub settings : Settings
  pub outside : Outside
  pub placing : Placing

pub data Request : Type 0 where
  toolchain : Text → Text → Text → Text → Request
  artifact : Text → Text → Text → Text → Text → Text → Text → Request

module _ {Tree : Type 0} (tools : Tools Tree) where
  -- A call, with its answer
  unfoldable pub called : Setting → Request → State Tree → Result Text (Text × Text) × State Tree
  unfolding ensure ensure_artifact
  called at (toolchain eng full triple expected) s =
      ensure tools at.settings at.outside at.placing eng full triple expected s
  called at (artifact name full triple url sha sig expected) s =
      let (given, cache) =
        ensure_artifact tools at.settings at.outside at.placing name full triple url sha sig
          expected s.cache in
      (given, record s { cache = cache })

  -- The directory that a call is about, and the digest it asks for
  abbrev pub wanted_dir : Setting → Request → Text
  wanted_dir at (toolchain eng full triple expected) = content_dir tools at.settings eng full triple
  wanted_dir at (artifact name full triple url sha sig expected) =
      content_dir tools at.settings name full triple

  abbrev pub wanted_digest : Request → Text
  wanted_digest (toolchain eng full triple expected) = expected
  wanted_digest (artifact name full triple url sha sig expected) = expected

  unfoldable pub after_requests : List (Setting × Request) → State Tree → State Tree
  unfolding called
  after_requests [] s = s
  after_requests ((at, r) ∷ rs) s = after_requests rs (called at r s).1

  abbrev pub new_state : State Tree
  new_state = record { manifests = []; cache = [] }

  artifact-IsSound :
      (m : Settings) (o : Outside) (p : Placing) (name full triple url sha sig expected : Text)
      (cache : Map Text (Entry Tree))
      → IsRecording tools p
      → IsSound tools cache
      → IsSound tools (ensure_artifact tools m o p name full triple url sha sig expected cache).1
  unfolding ensure_artifact
  artifact-IsSound m o p name full triple url sha sig expected cache lawful sound =
      elim (Option-cases (ready_entry tools (content_dir tools m name full triple) cache)) [
        | inr (e, hit) ↦ rw (hit, ensure_artifact) sound
        | inl miss ↦
            rw (miss, ensure_artifact)
              (ensure_archive-IsSound tools m o p name full triple url sha sig expected cache lawful
                sound)
      ]

  artifact-Delivered :
      (m : Settings) (o : Outside) (p : Placing)
      (name full triple url sha sig expected given digest : Text)
      (cache later : Map Text (Entry Tree))
      → IsSound tools cache
      → ensure_artifact tools m o p name full triple url sha sig expected cache
        ≡ (ok (given, digest), later)
      → Delivered tools (content_dir tools m name full triple) expected given digest later
  unfolding ensure_artifact
  artifact-Delivered m o p name full triple url sha sig expected given digest cache later sound h =
      elim (Option-cases (ready_entry tools (content_dir tools m name full triple) cache)) [
        | inr (e, hit) ↦
            let same : cache ≡ later = cc in
            subst (Delivered tools (content_dir tools m name full triple) expected given digest)
              same
              (cached-Delivered tools name full triple (content_dir tools m name full triple)
                expected given digest cache e sound hit cc)
        | inl miss ↦
            ensure_archive-Delivered tools m o p name full triple url sha sig expected given digest
              cache later cc
      ]

  ensure_from-IsSound :
      (m : Settings) (o : Outside) (p : Placing) (eng full triple expected : Text)
      (art : Result Text ManifestArtifact × Map Text Manifest) (s : State Tree)
      → IsRecording tools p
      → IsSound tools s.cache
      → IsSound tools (ensure_from tools m o p eng full triple expected art s).1.cache
  unfolding ensure_from
  ensure_from-IsSound m o p eng full triple expected (err e, known) s lawful sound = sound
  ensure_from-IsSound m o p eng full triple expected (ok art, known) s lawful sound =
      ensure_archive-IsSound tools m o p eng full triple (artifact_url m o eng art) art.sha256
        art.sig expected s.cache lawful sound

  ensure_from-Delivered :
      (m : Settings) (o : Outside) (p : Placing) (eng full triple expected given digest : Text)
      (art : Result Text ManifestArtifact × Map Text Manifest) (s later : State Tree)
      → ensure_from tools m o p eng full triple expected art s ≡ (ok (given, digest), later)
      → Delivered tools (content_dir tools m eng full triple) expected given digest later.cache
  unfolding ensure_from
  ensure_from-Delivered m o p eng full triple expected given digest (err e, known) s later h =
      absurd (err_apart e (given, digest) (ap (λ r. r.0) h))
  ensure_from-Delivered m o p eng full triple expected given digest (ok art, known) s later h =
      ensure_archive-Delivered tools m o p eng full triple (artifact_url m o eng art) art.sha256
        art.sig expected given digest s.cache later.cache (ap (λ r. (r.0, r.1.cache)) h)

  toolchain-IsSound :
      (m : Settings) (o : Outside) (p : Placing) (eng full triple expected : Text) (s : State Tree)
      → IsRecording tools p
      → IsSound tools s.cache
      → IsSound tools (ensure tools m o p eng full triple expected s).1.cache
  unfolding ensure
  toolchain-IsSound m o p eng full triple expected s lawful sound =
      elim (Option-cases (ready_entry tools (content_dir tools m eng full triple) s.cache)) [
        | inr (e, hit) ↦ rw (hit, ensure) sound
        | inl miss ↦
            rw (miss, ensure)
              (ensure_from-IsSound m o p eng full triple expected
                (artifact_for tools m o eng full triple s.manifests) s lawful sound)
      ]

  ensure_hit :
      (m : Settings) (o : Outside) (p : Placing) (eng full triple expected : Text) (s : State Tree)
      (e : Entry Tree)
      → ready_entry tools (content_dir tools m eng full triple) s.cache ≡ some e
      → ensure tools m o p eng full triple expected s
        ≡ (cached tools eng full triple (content_dir tools m eng full triple) e expected, s)
  unfolding ensure
  ensure_hit m o p eng full triple expected s e hit = rw (hit, ensure) refl

  toolchain-Delivered :
      (m : Settings) (o : Outside) (p : Placing) (eng full triple expected given digest : Text)
      (s later : State Tree)
      → IsSound tools s.cache
      → ensure tools m o p eng full triple expected s ≡ (ok (given, digest), later)
      → Delivered tools (content_dir tools m eng full triple) expected given digest later.cache
  unfolding ensure
  toolchain-Delivered m o p eng full triple expected given digest s later sound h =
      elim (Option-cases (ready_entry tools (content_dir tools m eng full triple) s.cache)) [
        | inr (e, hit) ↦
            let pair : (
              cached tools eng full triple (content_dir tools m eng full triple) e expected,
              s,
            )
                ≡ (ok (given, digest), later) =
              subst (λ x. x ≡ (ok (given, digest), later))
                (ensure_hit m o p eng full triple expected s e hit) h in
            subst
              (λ t.
                Delivered tools (content_dir tools m eng full triple) expected given digest t.cache)
              (ap (λ r. r.1) pair)
              (cached-Delivered tools eng full triple (content_dir tools m eng full triple) expected
                given digest s.cache e sound hit (ap (λ r. r.0) pair))
        | inl miss ↦
            ensure_from-Delivered m o p eng full triple expected given digest
              (artifact_for tools m o eng full triple s.manifests) s later cc
      ]

  called-IsSound :
      (at : Setting) (r : Request) (s : State Tree)
      → IsRecording tools at.placing
      → IsSound tools s.cache
      → IsSound tools (called at r s).1.cache
  unfolding called
  called-IsSound at (toolchain eng full triple expected) s lawful sound =
      toolchain-IsSound at.settings at.outside at.placing eng full triple expected s lawful sound
  called-IsSound at (artifact name full triple url sha sig expected) s lawful sound =
      artifact-IsSound at.settings at.outside at.placing name full triple url sha sig expected
        s.cache lawful sound

  after_requests-IsSound :
      (rs : List (Setting × Request)) (s : State Tree)
      → All (λ (x : Setting × Request). IsRecording tools x.0.placing) rs
      → IsSound tools s.cache
      → IsSound tools (after_requests rs s).cache
  unfolding after_requests
  after_requests-IsSound [] s lawful sound = sound
  after_requests-IsSound ((at, r) ∷ rs) s lawful sound =
      after_requests-IsSound rs (called at r s).1 lawful.1 (called-IsSound at r s lawful.0 sound)

  new_state-IsSound : IsSound tools new_state.cache
  unfolding lookup
  new_state-IsSound dir e at = cc

  -- After any calls on an empty cache, whatever the network and the files do, if writing a digest
  -- leaves it or nothing: a toolchain that Ensure or EnsureArtifact gives is in the cache with its
  -- binaries, and for a digest that is expected it has that digest and is unpacked from an archive
  -- with it, but where the cache has no digest recorded of it.
  pub called-Delivered :
      (rs : List (Setting × Request)) (at : Setting) (r : Request) (given digest : Text)
      (later : State Tree)
      → All (λ (x : Setting × Request). IsRecording tools x.0.placing) rs
      → called at r (after_requests rs new_state) ≡ (ok (given, digest), later)
      → Delivered tools (wanted_dir at r) (wanted_digest r) given digest later.cache
  unfolding called
  called-Delivered rs at (toolchain eng full triple expected) given digest later lawful h =
      toolchain-Delivered at.settings at.outside at.placing eng full triple expected given digest _
        later (after_requests-IsSound rs new_state lawful new_state-IsSound) h
  called-Delivered rs at (artifact name full triple url sha sig expected) given digest later lawful
        h =
      artifact-Delivered at.settings at.outside at.placing name full triple url sha sig expected
        given digest (after_requests rs new_state).cache later.cache
        (after_requests-IsSound rs new_state lawful new_state-IsSound)
        (ap (λ r. (r.0, r.1.cache)) h)
