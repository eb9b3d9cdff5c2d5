-- ===== src/Engine/Resolve/Frozen.antt =====
-- A version that was resolved stays (engine/resolve.go).
use doze_sdk.Engine.Types.{text_at, Platform, Toolchain, Pin}
use doze_sdk.Engine.Resolve.{Locker, Fetcher, digest_for, version_from, resolve_via, IsLawful}
use doze_sdk.Prelude.{
  Option, Result-cases, Text, UniqueKeys, arith, codes, inl, inr, ok, some, ◌≡◌, text_key, int_key,
  Bool-cases, [], ok_injective, refl, subst, sym, text_eq, text_eq_iff, ◌&&◌, ◌∙◌, ◌≢◌, lookup,
}

module _ {S Fault : Type 0} (locker : Locker S Fault) (laws : IsLawful locker) where
  abbrev mirror_pin : Platform → Text → Text → Pin
  mirror_pin plat full digest = record {
    resolved = full;
    source = codes "mirror";
    hashes = digest_for plat.triple digest;
  }

  -- The steps of a call that succeeds.
  pub record Run (fetch : Fetcher Fault) (plat : Platform) (eng spec : Text)
      (exact_full : Text → Option Text) (s : S) (tc : Toolchain) (s' : S) : Type 0 where
    pub held : Option Pin
    pub expected : Text
    pub digest : Text
    pub reads : locker.get s eng spec ≡ ok held
    pub chooses : version_from locker held fetch plat eng spec exact_full ≡ ok (tc.full, expected)
    pub ensures : fetch.ensure eng tc.full plat expected ≡ ok (tc.bin_dir, digest)
    pub records : s' ≡ locker.record_pin s eng spec (mirror_pin plat tc.full digest)

  pub resolve_via-Run :
      (fetch : Fetcher Fault) (plat : Platform) (eng spec : Text) (exact_full : Text → Option Text)
      (s : S) (tc : Toolchain) (s' : S)
      → resolve_via locker fetch plat eng spec exact_full s ≡ ok (tc, s')
      → Run fetch plat eng spec exact_full s tc s'
  unfolding resolve_via
  resolve_via-Run fetch plat eng spec exact_full s tc s' h =
      elim (Result-cases (locker.get s eng spec)) [
        | inr (e, bad) ↦ absurd (cc (rw bad at h))
        | inl (held, got) ↦
            elim (Result-cases (version_from locker held fetch plat eng spec exact_full)) [
              | inr (e, bad) ↦ absurd (cc (rw (got, bad) at h))
              | inl (chosen, chose) ↦
                  elim (Result-cases (fetch.ensure eng chosen.0 plat chosen.1)) [
                    | inr (e, bad) ↦ absurd (cc (rw (got, chose, bad) at h))
                    | inl (ensured, good) ↦
                        subst (λ (x : Toolchain × S). Run fetch plat eng spec exact_full s x.0 x.1)
                          (ok_injective (rw (got, chose, good) at h))
                          (record {
                            held = held;
                            expected = chosen.1;
                            digest = ensured.1;
                            reads = got;
                            chooses = chose;
                            ensures = good;
                            records = refl;
                          })
                  ]
            ]
      ]

  digest_for-UniqueKeys : (triple digest : Text) → UniqueKeys (digest_for triple digest)
  digest_for-UniqueKeys triple digest = ground arith

  digest_for_seen :
      (triple digest : Text) → digest ≢ [] → lookup triple (digest_for triple digest) ≡ some digest
  unfolding lookup
  digest_for_seen triple digest seen =
      ground (arith, text_eq_iff digest [], text_eq_iff triple triple)

  -- After a resolve, the lock holds the version of the toolchain.
  pub resolve_via-get :
      (fetch : Fetcher Fault) (plat : Platform) (eng spec : Text) (exact_full : Text → Option Text)
      (s : S) (tc : Toolchain) (s' : S)
      → resolve_via locker fetch plat eng spec exact_full s ≡ ok (tc, s')
      → (p : Pin) × ((locker.get s' eng spec ≡ ok (some p)) × (p.resolved ≡ tc.full))
  resolve_via-get fetch plat eng spec exact_full s tc s' h =
      let r = resolve_via-Run fetch plat eng spec exact_full s tc s' h in
      let new = mirror_pin plat tc.full r.digest in
      let (p, (found, (version, _))) =
        laws.get-record_pin s eng spec new (digest_for-UniqueKeys plat.triple r.digest) in
      (p, (subst (λ x. locker.get x eng spec ≡ ok (some p)) (sym r.records) found, version))

  pinned_version :
      (fetch : Fetcher Fault) (plat : Platform) (eng spec : Text) (exact_full : Text → Option Text)
      (p : Pin) (full expected : Text)
      → p.resolved ≢ []
      → version_from locker (some p) fetch plat eng spec exact_full ≡ ok (full, expected)
      → (full ≡ p.resolved) × (expected ≡ text_at plat.triple p.hashes)
  pinned_version fetch plat eng spec exact_full p full expected named h =
      ground (arith, text_eq_iff p.resolved [])

  -- A resolve keeps the version that the lock has pinned.
  pub resolve_via_pinned :
      (fetch : Fetcher Fault) (plat : Platform) (eng spec : Text) (exact_full : Text → Option Text)
      (s : S) (tc : Toolchain) (s' : S) (p : Pin)
      → locker.get s eng spec ≡ ok (some p)
      → p.resolved ≢ []
      → resolve_via locker fetch plat eng spec exact_full s ≡ ok (tc, s')
      → (tc.full ≡ p.resolved)
        × ((digest : Text) × (fetch.ensure eng p.resolved plat (text_at plat.triple p.hashes)
              ≡ ok (tc.bin_dir, digest)))
  resolve_via_pinned fetch plat eng spec exact_full s tc s' p held named h =
      let r = resolve_via-Run fetch plat eng spec exact_full s tc s' h in
      let same : r.held ≡ some p = ok_injective (sym r.reads ∙ held) in
      let chosen =
        subst (λ x. version_from locker x fetch plat eng spec exact_full ≡ ok (tc.full, r.expected))
          same r.chooses in
      let (full, expected) =
        pinned_version fetch plat eng spec exact_full p tc.full r.expected named chosen in
      (
        full,
        (
          r.digest,
          subst
              (λ x.
                fetch.ensure eng x plat (text_at plat.triple p.hashes) ≡ ok (tc.bin_dir, r.digest))
              full
              (subst (λ x. fetch.ensure eng tc.full plat x ≡ ok (tc.bin_dir, r.digest)) expected
                r.ensures),
        ),
      )

  -- No resolve moves a pin: a version that the lock has for some engine and spec is there after
  -- every resolve that succeeds, of the same key or of another.
  pub resolve_via_keeps :
      (fetch : Fetcher Fault) (plat : Platform) (eng spec eng' spec' : Text)
      (exact_full : Text → Option Text) (s : S) (tc : Toolchain) (s' : S) (p : Pin)
      → locker.get s eng' spec' ≡ ok (some p)
      → p.resolved ≢ []
      → resolve_via locker fetch plat eng spec exact_full s ≡ ok (tc, s')
      → (q : Pin) × ((locker.get s' eng' spec' ≡ ok (some q)) × (q.resolved ≡ p.resolved))
  resolve_via_keeps fetch plat eng spec eng' spec' exact_full s tc s' p held named h =
      elim (Bool-cases (text_eq eng eng' && text_eq spec spec')) [
        | inl same ↦
            let e : eng ≡ eng' = ground (arith, text_eq_iff eng eng') in
            let v : spec ≡ spec' = ground (arith, text_eq_iff spec spec') in
            let before : locker.get s eng spec ≡ ok (some p) = rw (e, v) held in
            let (q, (found, version)) = resolve_via-get fetch plat eng spec exact_full s tc s' h in
            let (full, _) =
              resolve_via_pinned fetch plat eng spec exact_full s tc s' p before named h in
            (q, (rw (sym e, sym v) found, version ∙ full))
        | inr other ↦
            let r = resolve_via-Run fetch plat eng spec exact_full s tc s' h in
            let kept =
              laws.get-record_pin_other s eng spec eng' spec' (mirror_pin plat tc.full r.digest)
                (ground (arith, text_eq_iff eng eng', text_eq_iff spec spec')) in
            (
              p,
              (
                subst (λ x. locker.get x eng' spec' ≡ ok (some p)) (sym r.records) (kept ∙ held),
                refl,
              ),
            )
      ]

  -- Resolving again gives the same version, whatever the mirror says by then, and expects the
  -- digest that the first resolve saw, if it saw one.
  pub resolve_via_again :
      (fetch fetch' : Fetcher Fault) (plat : Platform) (eng spec : Text)
      (exact_full exact_full' : Text → Option Text) (s : S) (tc : Toolchain) (s' : S)
      (tc' : Toolchain) (s'' : S)
      → tc.full ≢ []
      → resolve_via locker fetch plat eng spec exact_full s ≡ ok (tc, s')
      → resolve_via locker fetch' plat eng spec exact_full' s' ≡ ok (tc', s'')
      → (tc'.full ≡ tc.full)
        × ((expected digest digest' : Text) × ((fetch.ensure eng tc.full plat expected
                ≡ ok (tc.bin_dir, digest))
              × (digest ≢ [] → fetch'.ensure eng tc.full plat digest ≡ ok (tc'.bin_dir, digest'))))
  resolve_via_again fetch fetch' plat eng spec exact_full exact_full' s tc s' tc' s'' named h h' =
      let r = resolve_via-Run fetch plat eng spec exact_full s tc s' h in
      let unique = digest_for-UniqueKeys plat.triple r.digest in
      let (p, (found, (version, given))) =
        laws.get-record_pin s eng spec (mirror_pin plat tc.full r.digest) unique in
      let held = subst (λ x. locker.get x eng spec ≡ ok (some p)) (sym r.records) found in
      let (full, (digest', ensured)) =
        resolve_via_pinned fetch' plat eng spec exact_full' s' tc' s'' p held
          (λ z. named (sym version ∙ z)) h' in
      (
        full ∙ version,
        (
          r.expected,
          r.digest,
          digest',
          (
            r.ensures,
            λ seen.
                subst (λ x. fetch'.ensure eng tc.full plat x ≡ ok (tc'.bin_dir, digest'))
                  (given plat.triple r.digest (digest_for_seen plat.triple r.digest seen))
                  (subst
                    (λ x.
                      fetch'.ensure eng x plat (text_at plat.triple p.hashes)
                      ≡ ok (tc'.bin_dir, digest'))
                    version ensured),
          ),
        ),
      )
