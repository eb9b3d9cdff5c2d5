-- ===== src/Modindex/Select/Gate.antt =====
-- The contract of `SelectFor`: the host's own version gates the releases.
use doze_sdk.Prelude.{
  List, Text, Map, In, ◌≡◌, ◌≢◌, true, [], ◌⊎◌, inl, ◌∷◌, Bool-cases, arith, text_eq_iff, ◌&&◌, inr,
  eqb_ℤ_iff, sym, codes, false, UniqueKeys, subst, keep-UniqueKeys, ok, ◌↔◌, ap, lookup-keep, not,
  err, ◌∙◌, text_key, refl, Result, lookup-In, Result-cases, In-lookup,
}
use doze_sdk.Modindex.Version.{is_doze_version}
use doze_sdk.Strings.{trim_prefix}
use doze_sdk.Modindex.Index.{Index, Release}
use doze_sdk.Modindex.Select.{
  Host, supports, too_new, oldest_need, fitting, explain, select, select_for, SelectError,
  doze_error, lowers_need, next_need,
}
use doze_sdk.Modindex.Select.Choice.{IsCompatible, supports-IsSupported}
use doze_sdk.Modindex.Select.Winner.{select-IsCompatible, select_finds}

-- A release that only the host's version keeps from running.
abbrev IsBlocked : Host → List Text → Release → Type 0
IsBlocked host majors r =
    (too_new host.doze r ≡ true) × (r.protocol ≡ host.protocol) × (supports r majors ≡ true)

-- What is needed is what was needed before the walk, or the doze of a blocked release.
oldest_need_found :
    (host : Host) (majors : List Text) (need : Text) (m : Map Text Release)
    → (oldest_need host majors need m ≡ need)
      ⊎ ((v : Text) × (r : Release) × In (v, r) m
          × IsBlocked host majors r
          × (r.doze ≡ oldest_need host majors need m))
unfolding oldest_need
oldest_need_found host majors need [] = inl refl
oldest_need_found host majors need ((v, r) ∷ m) =
    elim (Bool-cases (too_new host.doze r && lowers_need host majors need r)) [
      | inl lowers ↦ rw lowers (elim (oldest_need_found host majors r.doze m) [
        | inl same ↦
            inr (v, r, inl refl, ground (arith, eqb_ℤ_iff r.protocol host.protocol), sym same)
        | inr (w, s, i, b, e) ↦ inr (w, s, inr i, b, e)
      ])
      | inr other ↦ rw other (elim (oldest_need_found host majors need m) [
        | inl same ↦ inl same
        | inr (w, s, i, b, e) ↦ inr (w, s, inr i, b, e)
      ])
    ]

-- A need that is known is not forgotten, and a blocked release leaves one.
next_need-ne-nil :
    (host : Host) (majors : List Text) (need : Text) (r : Release)
    → need ≢ []
    → next_need host majors need r ≢ []
next_need-ne-nil host majors need r h = ground (arith, text_eq_iff r.doze [])

next_need_blocked :
    (host : Host) (majors : List Text) (need : Text) (r : Release)
    → IsBlocked host majors r
    → next_need host majors need r ≢ []
next_need_blocked host majors need r b =
    ground (arith, text_eq_iff r.doze [], text_eq_iff need [], eqb_ℤ_iff r.protocol host.protocol)

oldest_need-ne-nil :
    (host : Host) (majors : List Text) (need : Text) (m : Map Text Release)
    → need ≢ []
    → oldest_need host majors need m ≢ []
unfolding oldest_need
oldest_need-ne-nil host majors need [] h = h
oldest_need-ne-nil host majors need ((v, r) ∷ m) h =
    oldest_need-ne-nil host majors (next_need host majors need r) m
      (next_need-ne-nil host majors need r h)

oldest_need_blocked :
    (host : Host) (majors : List Text) (need : Text) (m : Map Text Release) (v : Text) (r : Release)
    → In (v, r) m
    → IsBlocked host majors r
    → oldest_need host majors need m ≢ []
unfolding oldest_need
oldest_need_blocked host majors need [] v r i b = absurd i
oldest_need_blocked host majors need ((w, s) ∷ m) v r (inl e) b =
    oldest_need-ne-nil host majors (next_need host majors need s) m (
      next_need_blocked host majors need s
        (subst (IsBlocked host majors) (ap (λ (x : Text × Release). x.1) e) b))
oldest_need_blocked host majors need ((w, s) ∷ m) v r (inr i) b =
    oldest_need_blocked host majors (next_need host majors need s) m v r i b

-- The doze that a host says it is, without a leading v.
abbrev pub plain : Host → Host
plain host = record host { doze = trim_prefix (codes "v") host.doze }

-- The release needs no newer doze than the host's.
abbrev pub Runs : Host → Release → Type 0
Runs host r = too_new (plain host).doze r ≡ false

explain_ok :
    (idx : Index) (host : Host) (majors : List Text) (need : Text)
    (found : Result SelectError (Text × Release)) (x : Text × Release)
    → explain idx host majors need found ≡ ok x
    → found ≡ ok x
explain_ok idx host majors need (ok y) x e = e
explain_ok idx host majors need (err y) x e = ground arith

explain_err :
    (idx : Index) (host : Host) (majors : List Text) (need : Text) (e : SelectError)
    → need ≢ []
    → explain idx host majors need (err e) ≡ err (doze_error idx.name majors need host.doze)
explain_err idx host majors need e h = ground (arith, text_eq_iff need [])

module _ (idx : Index) (host : Host) (majors : List Text) (unique : UniqueKeys idx.releases)
    (released : is_doze_version host.doze ≡ true) where
  fitting-IsCompatible :
      (v : Text) (r : Release)
      → IsCompatible (fitting (plain host).doze idx) host.protocol majors v r
        ↔ (IsCompatible idx host.protocol majors v r × Runs host r)
  fitting-IsCompatible v r =
      let kept =
        lookup-keep v r (λ (x : Text × Release). not (too_new (plain host).doze x.1)) idx.releases
          unique in
      (
        (λ c. ((((kept.0 c.0).0, c.1, c.2)), ground (arith, (kept.0 c.0).1))),
        λ c. (kept.1 (c.0.0, rw c.1 refl), c.0.1, c.0.2),
      )

  fitting-UniqueKeys : UniqueKeys (fitting (plain host).doze idx).releases
  fitting-UniqueKeys = keep-UniqueKeys _ idx.releases unique

  select_for_released :
      (channel : Text)
      → select_for idx host majors channel
        ≡ explain idx
            (plain host)
            majors
            (oldest_need (plain host) majors [] idx.releases)
            (select (fitting (plain host).doze idx) host.protocol majors channel)
  unfolding select_for
  select_for_released channel = rw released refl

  -- For a released doze, a version that `SelectFor` returns is compatible and needs no newer doze.
  pub select_for-Runs :
      (channel v : Text) (r : Release)
      → select_for idx host majors channel ≡ ok (v, r)
      → IsCompatible idx host.protocol majors v r × Runs host r
  select_for-Runs channel v r e = (fitting-IsCompatible v r).0 (
      select-IsCompatible (fitting (plain host).doze idx) host.protocol majors fitting-UniqueKeys
        channel v r
        (explain_ok idx (plain host) majors _ _ (v, r) (sym (select_for_released channel) ∙ e)))

  -- For a released doze, if a compatible release needs no newer doze, `SelectFor` returns a release.
  pub select_for_finds :
      (channel v : Text) (r : Release)
      → IsCompatible idx host.protocol majors v r
      → Runs host r
      → (w : Text) × (s : Release) × (select_for idx host majors channel ≡ ok (w, s))
  select_for_finds channel v r c runs =
      let (w, s, e) =
        select_finds (fitting (plain host).doze idx) host.protocol majors fitting-UniqueKeys channel
          v r ((fitting-IsCompatible v r).1 (c, runs)) in
      (
        w,
        s,
        select_for_released channel
            ∙ ap (explain idx (plain host) majors (oldest_need (plain host) majors [] idx.releases))
                e,
      )

  -- For a released doze, if some release is compatible but each such release needs a newer doze,
  -- `SelectFor` fails with a DozeError, and the doze that it names is the one that a compatible
  -- release asks for.
  pub select_for_needs :
      (channel v : Text) (r : Release)
      → IsCompatible idx host.protocol majors v r
      → ((w : Text) (s : Release) → IsCompatible idx host.protocol majors w s → ¬ Runs host s)
      → (need : Text) × (select_for idx host majors channel
          ≡ err (doze_error idx.name majors need (plain host).doze))
        × (w : Text) × (s : Release) × IsCompatible idx host.protocol majors w s
        × (s.doze ≡ need)
  select_for_needs channel v r c never =
      elim (oldest_need_found (plain host) majors [] idx.releases) [
        | inl same ↦ absurd (needed same)
        | inr (w, s, i, b, e) ↦
            let compatible : IsCompatible idx host.protocol majors w s =
              (In-lookup w s idx.releases unique i, b.1, (supports-IsSupported s majors).0 b.2) in
            (_, fails, w, s, compatible, e)
      ]
    where
      needed : oldest_need (plain host) majors [] idx.releases ≢ []
      needed =
          oldest_need_blocked (plain host) majors [] idx.releases v r
            (lookup-In v r idx.releases c.0)
            (
              elim (Bool-cases (too_new (plain host).doze r)) [
                | inl newer_doze ↦ newer_doze
                | inr runs ↦ absurd (never v r c runs)
              ],
              c.1,
              (supports-IsSupported r majors).1 c.2,
            )

      fails :
          select_for idx host majors channel
          ≡ err (
              doze_error idx.name majors
                (oldest_need (plain host) majors [] idx.releases)
                (plain host).doze)
      fails =
          elim (Result-cases
            (select (fitting (plain host).doze idx) host.protocol majors channel)) [
              | inl ((w, s), found) ↦
                  let k = (fitting-IsCompatible w s).0 (
                    select-IsCompatible (fitting (plain host).doze idx) host.protocol majors
                      fitting-UniqueKeys channel w s found) in
                  absurd (never w s k.0 k.1)
              | inr (e, failed) ↦
                  select_for_released channel
                  ∙ ap
                      (explain idx (plain host) majors
                        (oldest_need (plain host) majors [] idx.releases))
                      failed
                  ∙ explain_err idx (plain host) majors _ e needed
            ]
