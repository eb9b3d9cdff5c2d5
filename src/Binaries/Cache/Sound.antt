-- ===== src/Binaries/Cache/Sound.antt =====
-- What the cache of toolchains holds after any calls (binaries/binaries.go).
use doze_sdk.Binaries.Cache.Verified.{Unpacks, Verified, verified-Verified}
use doze_sdk.Binaries.Cache.{
  Tools, Entry, digest_of, verified, bin_dir, cached, ready_entry, Placing, placed, content_dir,
  ensure_archive,
}
use doze_sdk.Binaries.Mirror.{Settings, Outside}
use doze_sdk.Prelude.{
  Map, Text, [], lookup, ok, some, true, ◌≡◌, ◌≢◌, ◌⊎◌, text_key, int_key, Option-cases, arith, inl,
  inr, text_eq_iff, Result-cases, subst, Bool-cases, delete, insert, not, text_eq, ◌&&◌,
  lookup-insert_self, sym, delete_keeps, insert_keeps,
}

module _ {Tree : Type 0} (tools : Tools Tree) where
  -- An archive with the digest, and what the tree has to do with it
  abbrev pub IsFrom : Text → Tree → Type 0
  IsFrom digest tree =
      (archive : Text) × ((digest_of tools archive ≡ digest) × Unpacks tools archive tree)

  -- An entry has no digest recorded, or it is unpacked from an archive with that digest.
  abbrev pub IsSound : Map Text (Entry Tree) → Type 0
  IsSound cache =
      (dir : Text) (e : Entry Tree)
      → lookup dir cache ≡ some e
      → (e.recorded ≡ []) ⊎ IsFrom e.recorded e.tree

  -- A toolchain that is given for a digest: it is in the cache, with binaries, and it comes from an
  -- archive with that digest, or no digest is recorded of it.
  pub record Delivered (dir expected given digest : Text) (cache : Map Text (Entry Tree))
      : Type 0 where
    pub entry : Entry Tree
    pub there : lookup dir cache ≡ some entry
    pub binaries : tools.has_bin entry.tree ≡ true
    pub place : given ≡ bin_dir tools dir
    pub pinned :
        expected ≢ [] → ((digest ≡ expected) × IsFrom expected entry.tree) ⊎ (entry.recorded ≡ [])

  ready_entry-some :
      (dir : Text) (cache : Map Text (Entry Tree)) (e : Entry Tree)
      → ready_entry tools dir cache ≡ some e
      → (lookup dir cache ≡ some e) × (tools.has_bin e.tree ≡ true)
  unfolding ready_entry
  ready_entry-some dir cache e h = elim (Option-cases (lookup dir cache)) [
    | inl gone ↦ (cc, cc)
    | inr (x, at) ↦ elim (Bool-cases (tools.has_bin x.tree)) [
      | inl full ↦ let same : x ≡ e = cc in (cc, subst (λ y. tools.has_bin y.tree ≡ true) same full)
      | inr bare ↦ (cc, cc)
    ]
  ]

  cached-ok :
      (eng full triple dir expected given digest : Text) (e : Entry Tree)
      → cached tools eng full triple dir e expected ≡ ok (given, digest)
      → (given ≡ bin_dir tools dir)
        × ((digest ≡ e.recorded) × (expected ≢ [] → (e.recorded ≡ expected) ⊎ (e.recorded ≡ [])))
  unfolding cached
  cached-ok eng full triple dir expected given digest e h =
      elim (Bool-cases (
        not (text_eq expected [])
        && (not (text_eq e.recorded []) && not (text_eq e.recorded expected)))) [
          | inl bad ↦ (cc, (cc, λ ne. absurd cc))
          | inr good ↦ (
            cc,
            (
              cc,
              λ ne. ground (
                arith,
                text_eq_iff expected [],
                text_eq_iff e.recorded [],
                text_eq_iff e.recorded expected,
              ),
            ),
          )
        ]

  pub cached-Delivered :
      (eng full triple dir expected given digest : Text) (cache : Map Text (Entry Tree))
      (e : Entry Tree)
      → IsSound cache
      → ready_entry tools dir cache ≡ some e
      → cached tools eng full triple dir e expected ≡ ok (given, digest)
      → Delivered dir expected given digest cache
  cached-Delivered eng full triple dir expected given digest cache e sound ready h =
      let (there, full_bin) = ready_entry-some dir cache e ready in
      let (place, (same, pin)) = cached-ok eng full triple dir expected given digest e h in
      record {
        entry = e;
        there = there;
        binaries = full_bin;
        place = place;
        pinned = λ ne. elim (pin ne) [
          | inr blank ↦ inr blank
          | inl eq ↦ elim (sound dir e there) [
            | inl blank ↦ inr blank
            | inr origin ↦ inl (cc, subst (λ d. IsFrom d e.tree) eq origin)
          ]
        ];
      }

  placed-Delivered :
      (m : Settings) (p : Placing) (eng dir want sig expected archive given digest : Text)
      (tree : Tree) (cache later : Map Text (Entry Tree))
      → Verified tools m archive want sig expected tree
      → placed tools p eng dir archive tree cache ≡ (ok (given, digest), later)
      → Delivered dir expected given digest later
  unfolding placed
  placed-Delivered m p eng dir want sig expected archive given digest tree cache later v h =
      elim (Option-cases p.mkdir) [
        | inr (e, bad) ↦ cc
        | inl made ↦ elim (Option-cases p.rename) [
          | inr (e, bad) ↦ cc
          | inl moved ↦ elim (Bool-cases (tools.has_bin tree)) [
            | inr bare ↦ cc
            | inl full ↦
                let e : Entry Tree = record {
                  tree = tree;
                  recorded = p.recorded (digest_of tools archive);
                } in
                let put : insert dir e (delete dir cache) ≡ later = cc in
                let same : digest ≡ digest_of tools archive = cc in
                record {
                  entry = e;
                  there =
                      subst (λ c. lookup dir c ≡ some e) put
                        (lookup-insert_self dir e (delete dir cache));
                  binaries = full;
                  place = cc;
                  pinned = λ ne. inl (cc (same, v.locked ne), (archive, (v.locked ne, v.unpacks)));
                }
          ]
        ]
      ]

  -- What a write of the digest may leave: the digest, or nothing that reads as one.
  abbrev pub IsRecording : Placing → Type 0
  IsRecording p = (digest : Text) → (p.recorded digest ≡ digest) ⊎ (p.recorded digest ≡ [])

  -- What IsSound asks of an entry
  abbrev HasOrigin : Entry Tree → Type 0
  HasOrigin e = (e.recorded ≡ []) ⊎ IsFrom e.recorded e.tree

  placed-IsSound :
      (m : Settings) (p : Placing) (eng dir want sig expected archive : Text) (tree : Tree)
      (cache : Map Text (Entry Tree))
      → IsRecording p
      → Verified tools m archive want sig expected tree
      → IsSound cache
      → IsSound (placed tools p eng dir archive tree cache).1
  unfolding placed
  placed-IsSound m p eng dir want sig expected archive tree cache lawful v sound =
      let bare = delete_keeps HasOrigin dir cache sound in
      elim (Option-cases p.mkdir) [
        | inr (e, bad) ↦ rw bad bare
        | inl made ↦ elim (Option-cases p.rename) [
          | inr (e, bad) ↦ rw (made, bad) bare
          | inl moved ↦
              rw (made, moved)
                (insert_keeps HasOrigin dir
                  (record { tree = tree; recorded = p.recorded (digest_of tools archive) })
                  (delete dir cache)
                  (elim (lawful (digest_of tools archive)) [
                    | inr blank ↦ inl blank
                    | inl kept ↦ inr (archive, (sym kept, v.unpacks))
                  ])
                  bare)
        ]
      ]

  pub ensure_archive-Delivered :
      (m : Settings) (o : Outside) (p : Placing)
      (eng full triple url want sig expected given digest : Text)
      (cache later : Map Text (Entry Tree))
      → ensure_archive tools m o p eng full triple url want sig expected cache
        ≡ (ok (given, digest), later)
      → Delivered (content_dir tools m eng full triple) expected given digest later
  unfolding ensure_archive
  ensure_archive-Delivered m o p eng full triple url want sig expected given digest cache later h =
      elim (Result-cases (verified tools m o eng full triple url want sig expected)) [
        | inr (e, bad) ↦ cc
        | inl ((archive, tree), good) ↦
            placed-Delivered m p eng (content_dir tools m eng full triple) want sig expected archive
              given digest tree cache later
              (verified-Verified tools m o eng full triple url want sig expected archive tree good)
              cc
      ]

  pub ensure_archive-IsSound :
      (m : Settings) (o : Outside) (p : Placing) (eng full triple url want sig expected : Text)
      (cache : Map Text (Entry Tree))
      → IsRecording p
      → IsSound cache
      → IsSound (ensure_archive tools m o p eng full triple url want sig expected cache).1
  unfolding ensure_archive
  ensure_archive-IsSound m o p eng full triple url want sig expected cache lawful sound =
      elim (Result-cases (verified tools m o eng full triple url want sig expected)) [
        | inr (e, bad) ↦ rw (bad, ensure_archive) sound
        | inl ((archive, tree), good) ↦
            rw (good, ensure_archive)
              (placed-IsSound m p eng (content_dir tools m eng full triple) want sig expected
                archive tree cache lawful
                (verified-Verified tools m o eng full triple url want sig expected archive tree
                  good)
                sound)
      ]
