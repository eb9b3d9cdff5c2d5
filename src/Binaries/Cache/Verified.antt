-- ===== src/Binaries/Cache/Verified.antt =====
-- What the checks of a download establish (binaries/binaries.go).
use doze_sdk.Binaries.Cache.{
  Tools, verify_sig, digest_of, checked, signed, unpacked, accepted, verified,
}
use doze_sdk.Binaries.Mirror.{Settings, Outside, get_url, prefixed}
use doze_sdk.Strings.{equal_fold}
use doze_sdk.Prelude.{
  Option-cases, Result-cases, Text, [], arith, bind-ok, codes, inl, inr, none, ok, some, subst,
  text_eq_iff, true, ◌++◌, ◌≡◌, ◌≢◌, Result, err, err_apart,
}

module _ {Tree : Type 0} (tools : Tools Tree) where
  -- The tree is what an archive unpacks to.
  pub record Unpacks (archive : Text) (tree : Tree) : Type 0 where
    pub raw : Tree
    pub extracted : tools.extract archive ≡ ok raw
    pub normalized : tools.normalize raw ≡ some tree

  unpacked-Unpacks :
      (eng archive : Text) (tree : Tree)
      → unpacked tools eng archive ≡ ok tree
      → Unpacks archive tree
  unfolding unpacked
  unpacked-Unpacks eng archive tree h = elim (Result-cases (tools.extract archive)) [
    | inl (before, got) ↦ elim (Option-cases (tools.normalize before)) [
      | inl bad ↦ cc
      | inr (t, good) ↦ record { raw = before; extracted = got; normalized = cc }
    ]
    | inr (e, bad) ↦ cc
  ]

  checked-none :
      (eng full triple archive want expected : Text)
      → checked tools eng full triple archive want expected ≡ none
      → (expected ≢ [] → digest_of tools archive ≡ expected)
        × (expected ≡ [] → equal_fold (tools.sha_hex archive) want ≡ true)
  unfolding checked
  checked-none eng full triple archive want expected h = (
    λ ne. ground (arith, text_eq_iff expected [], text_eq_iff (digest_of tools archive) expected),
    λ e. ground (arith, text_eq_iff expected []),
  )

  signed-none :
      (m : Settings) (eng full triple archive sig key : Text)
      → signed tools m eng full triple archive sig ≡ none
      → m.signing_key ≡ some key
      → verify_sig tools key (tools.sha_hex archive) sig ≡ none
  unfolding signed
  signed-none m eng full triple archive sig key h keyed = ground arith

  -- What the checks before an archive is put in place establish
  pub record Verified (m : Settings) (archive want sig expected : Text) (tree : Tree) : Type 0 where
    pub locked : expected ≢ [] → digest_of tools archive ≡ expected
    pub mirrored : expected ≡ [] → equal_fold (tools.sha_hex archive) want ≡ true
    pub published :
        (key : Text)
        → m.signing_key ≡ some key
        → verify_sig tools key (tools.sha_hex archive) sig ≡ none
    pub unpacks : Unpacks archive tree

  accepted-Verified :
      (m : Settings) (eng full triple want sig expected archive found : Text) (tree : Tree)
      → accepted tools m eng full triple want sig expected archive ≡ ok (found, tree)
      → Verified m found want sig expected tree
  unfolding accepted
  accepted-Verified m eng full triple want sig expected archive found tree h =
      elim (Option-cases (checked tools eng full triple archive want expected)) [
        | inr (e, bad) ↦ cc
        | inl sum ↦ elim (Option-cases (signed tools m eng full triple archive sig)) [
          | inr (e, bad) ↦ cc
          | inl good ↦ elim (Result-cases (unpacked tools eng archive)) [
            | inr (e, bad) ↦ cc
            | inl (t, got) ↦
                let v : Verified m archive want sig expected tree = record {
                  locked = (checked-none eng full triple archive want expected sum).0;
                  mirrored = (checked-none eng full triple archive want expected sum).1;
                  published = λ key. signed-none m eng full triple archive sig key good;
                  unpacks = unpacked-Unpacks eng archive tree cc;
                } in
                let same : archive ≡ found = cc in
                subst (λ a. Verified m a want sig expected tree) same v
          ]
        ]
      ]

  pub verified-Verified :
      (m : Settings) (o : Outside) (eng full triple url want sig expected archive : Text)
      (tree : Tree)
      → verified tools m o eng full triple url want sig expected ≡ ok (archive, tree)
      → Verified m archive want sig expected tree
  unfolding verified
  verified-Verified m o eng full triple url want sig expected archive tree h =
      let (fetched, (got, rest)) =
        bind-ok (prefixed (codes "downloading " ++ (url ++ codes ": ")) (get_url o url))
          (accepted tools m eng full triple want sig expected) (archive, tree) h in
      accepted-Verified m eng full triple want sig expected fetched archive tree rest

  prefixed-ok :
      {A : Type 0} (before : Text) (r : Result Text A) (a : A) → prefixed before r ≡ ok a → r ≡ ok a
  prefixed-ok before (ok x) a h = h
  prefixed-ok before (err e) a h = absurd (err_apart (before ++ e) a h)

  accepted_archive :
      (m : Settings) (eng full triple want sig expected archive found : Text) (tree : Tree)
      → accepted tools m eng full triple want sig expected archive ≡ ok (found, tree)
      → archive ≡ found
  unfolding accepted
  accepted_archive m eng full triple want sig expected archive found tree h =
      elim (Option-cases (checked tools eng full triple archive want expected)) [
        | inr (e, bad) ↦ cc
        | inl sum ↦ elim (Option-cases (signed tools m eng full triple archive sig)) [
          | inr (e, bad) ↦ cc
          | inl good ↦ elim (Result-cases (unpacked tools eng archive)) [
            | inr (e, bad) ↦ cc
            | inl (t, got) ↦ cc
          ]
        ]
      ]

  -- The archive that is verified is what the URL gave.
  pub verified-get_url :
      (m : Settings) (o : Outside) (eng full triple url want sig expected archive : Text)
      (tree : Tree)
      → verified tools m o eng full triple url want sig expected ≡ ok (archive, tree)
      → get_url o url ≡ ok archive
  unfolding verified
  verified-get_url m o eng full triple url want sig expected archive tree h =
      let before = codes "downloading " ++ (url ++ codes ": ") in
      let (fetched, (got, rest)) =
        bind-ok (prefixed before (get_url o url))
          (accepted tools m eng full triple want sig expected) (archive, tree) h in
      subst (λ a. get_url o url ≡ ok a)
        (accepted_archive m eng full triple want sig expected fetched archive tree rest)
        (prefixed-ok before (get_url o url) fetched got)
