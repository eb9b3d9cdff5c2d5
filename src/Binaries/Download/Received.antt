-- ===== src/Binaries/Download/Received.antt =====
-- What one step of EnsureDownload keeps and gives (binaries/download.go).
use doze_sdk.Prelude.{
  Map, Text, [], lookup, ok, some, ◌≡◌, ◌≢◌, ◌⊎◌, text_key, int_key, Option-cases, arith, delete,
  delete_keeps, inl, inr, insert, insert_keeps, lookup-insert_self, none, subst, sym, text_eq_iff,
  Option, Result, Result-cases, bind-ok, err_apart, ◌>>=◌, Bool-cases, not, text_eq, ◌&&◌,
}
use doze_sdk.Binaries.Download.{
  Unpacker, Steps, digest_of, archive_root, unpacked_at, put, have_entry, cached_download, matches,
  after, stream_to, received,
}
use doze_sdk.Binaries.Cache.{Entry}
use doze_sdk.Binaries.Mirror.{Outside}

module _ {Tree : Type 0} (tools : Unpacker Tree) where
  -- The tree is what some bytes with the digest unpack to, as a download of some URL.
  pub record IsFrom (digest : Text) (tree : Tree) : Type 0 where
    pub bytes : Text
    pub url : Text
    pub sum : digest_of tools bytes ≡ digest
    pub unpacks : tools.unpack bytes url ≡ ok tree

  abbrev pub IsSound : Map Text (Entry Tree) → Type 0
  IsSound cache =
      (dir : Text) (e : Entry Tree)
      → lookup dir cache ≡ some e
      → (e.recorded ≡ []) ⊎ IsFrom e.recorded e.tree

  abbrev pub IsRecording : Steps → Type 0
  IsRecording p = (digest : Text) → (p.recorded digest ≡ digest) ⊎ (p.recorded digest ≡ [])

  -- A download that is given: it is in the cache, the directory is its root, it is unpacked from
  -- bytes with the digest that is given, which is the one expected, if any.
  pub record Delivered (dir expected given digest : Text) (cache : Map Text (Entry Tree))
      : Type 0 where
    pub tree : Tree
    pub there :
        (recorded : Text) × (lookup dir cache ≡ some (record { tree = tree; recorded = recorded }))
    pub place : given ≡ archive_root tools dir tree
    pub origin : IsFrom digest tree
    pub pinned : expected ≢ [] → digest ≡ expected

  abbrev HasOrigin : Entry Tree → Type 0
  HasOrigin e = (e.recorded ≡ []) ⊎ IsFrom e.recorded e.tree

  pub matches-none :
      (url expected digest : Text)
      → matches tools url expected digest ≡ none
      → expected ≢ []
      → digest ≡ expected
  unfolding matches
  matches-none url expected digest h ne =
      ground (arith, text_eq_iff expected [], text_eq_iff digest expected)

  pub received-ok :
      (p : Steps) (url expected sent bytes : Text) (tree : Tree)
      → received tools p url expected sent ≡ ok (bytes, tree)
      → (tools.unpack bytes url ≡ ok tree) × (expected ≢ [] → digest_of tools bytes ≡ expected)
  unfolding received
  received-ok p url expected sent bytes tree h =
      elim (Option-cases (matches tools url expected (digest_of tools sent))) [
        | inr (e, bad) ↦ (cc, λ ne. absurd cc)
        | inl sum_ok ↦ elim (Option-cases p.mkdir_root) [
          | inr (e, bad) ↦ (cc, λ ne. absurd cc)
          | inl made ↦ elim (Result-cases (tools.unpack sent url)) [
            | inr (e, bad) ↦ (cc, λ ne. absurd cc)
            | inl (t, good) ↦
                let same : sent ≡ bytes = cc in
                let same_tree : t ≡ tree = cc in
                (
                  subst (λ b. tools.unpack b url ≡ ok tree) same
                      (subst (λ x. tools.unpack sent url ≡ ok x) same_tree good),
                  subst (λ b. expected ≢ [] → digest_of tools b ≡ expected) same
                      (matches-none url expected (digest_of tools sent) sum_ok),
                )
          ]
        ]
      ]

  pub after-ok :
      {A : Type 0} (o : Option Text) (r : Result Text A) (a : A) → after o r ≡ ok a → r ≡ ok a
  after-ok none r a h = h
  after-ok (some e) r a h = absurd (err_apart e a h)

  pub unpacked_at-ok :
      (o : Outside) (p : Steps) (url expected bytes : Text) (tree : Tree)
      → unpacked_at tools o p url expected ≡ ok (bytes, tree)
      → (tools.unpack bytes url ≡ ok tree) × (expected ≢ [] → digest_of tools bytes ≡ expected)
  unfolding unpacked_at
  unpacked_at-ok o p url expected bytes tree h =
      let rest = stream_to tools o p url >>= received tools p url expected in
      let (sent, (got, done)) =
        bind-ok (stream_to tools o p url) (received tools p url expected) (bytes, tree)
          (after-ok p.mkdir_tmp rest (bytes, tree)
            (after-ok p.mkdir_parent (after p.mkdir_tmp rest) (bytes, tree) h)) in
      received-ok p url expected sent bytes tree done

  pub put-IsSound :
      (p : Steps) (dir url bytes : Text) (tree : Tree) (cache : Map Text (Entry Tree))
      → IsRecording p
      → tools.unpack bytes url ≡ ok tree
      → IsSound cache
      → IsSound (put tools p dir bytes tree cache).1
  unfolding put
  put-IsSound p dir url bytes tree cache lawful made sound =
      let bare = delete_keeps HasOrigin dir cache sound in
      elim (Option-cases p.rename) [
        | inr (e, bad) ↦ rw (bad, put) bare
        | inl moved ↦
            rw (moved, put)
              (insert_keeps HasOrigin dir
                (record { tree = tree; recorded = p.recorded (digest_of tools bytes) })
                (delete dir cache)
                (elim (lawful (digest_of tools bytes)) [
                  | inr blank ↦ inl blank
                  | inl kept ↦
                      inr (record { bytes = bytes; url = url; sum = sym kept; unpacks = made })
                ])
                bare)
      ]

  pub put-Delivered :
      (p : Steps) (dir url expected bytes given digest : Text) (tree : Tree)
      (cache later : Map Text (Entry Tree))
      → tools.unpack bytes url ≡ ok tree
      → (expected ≢ [] → digest_of tools bytes ≡ expected)
      → put tools p dir bytes tree cache ≡ (ok (given, digest), later)
      → Delivered dir expected given digest later
  unfolding put
  put-Delivered p dir url expected bytes given digest tree cache later made pin h =
      elim (Option-cases p.rename) [
        | inr (e, bad) ↦ cc
        | inl moved ↦
            let e : Entry Tree = record {
              tree = tree;
              recorded = p.recorded (digest_of tools bytes);
            } in
            let stored : insert dir e (delete dir cache) ≡ later = cc in
            let same : digest_of tools bytes ≡ digest = cc in
            record {
              tree = tree;
              there = (
                p.recorded (digest_of tools bytes),
                subst (λ c. lookup dir c ≡ some e) stored
                    (lookup-insert_self dir e (delete dir cache)),
              );
              place = cc;
              origin = record { bytes = bytes; url = url; sum = same; unpacks = made };
              pinned = λ ne. subst (λ d. d ≡ expected) same (pin ne);
            }
      ]

  pub have_entry-some :
      (dir : Text) (cache : Map Text (Entry Tree)) (e : Entry Tree)
      → have_entry tools dir cache ≡ some e
      → (lookup dir cache ≡ some e) × (e.recorded ≢ [])
  unfolding have_entry
  have_entry-some dir cache e h = elim (Option-cases (lookup dir cache)) [
    | inl gone ↦ (cc, λ b. absurd cc)
    | inr (x, at) ↦ elim (Bool-cases (text_eq x.recorded [])) [
      | inl blank ↦ (cc, λ b. absurd cc)
      | inr full ↦
          let same : x ≡ e = cc in
          let ne : x.recorded ≢ [] = λ b. ground (arith, text_eq_iff x.recorded []) in
          (cc, subst (λ y. y.recorded ≢ []) same ne)
    ]
  ]

  pub cached-Delivered :
      (url dir expected given digest : Text) (e : Entry Tree) (cache : Map Text (Entry Tree))
      → IsSound cache
      → have_entry tools dir cache ≡ some e
      → cached_download tools url dir expected e ≡ ok (given, digest)
      → Delivered dir expected given digest cache
  unfolding have_entry cached_download
  cached-Delivered url dir expected given digest e cache sound hit h =
      let (there, full) = have_entry-some dir cache e hit in
      elim (Bool-cases (not (text_eq expected []) && not (text_eq e.recorded expected))) [
        | inl bad ↦ cc
        | inr good ↦
            let same : e.recorded ≡ digest = cc in
            record {
              tree = e.tree;
              there = (e.recorded, there);
              place = cc;
              origin = elim (sound dir e there) [
                | inl blank ↦ absurd (full blank)
                | inr origin ↦ subst (λ d. IsFrom d e.tree) same origin
              ];
              pinned = λ ne.
                  subst (λ d. d ≡ expected) same
                    (ground (arith, text_eq_iff expected [], text_eq_iff e.recorded expected));
            }
      ]
