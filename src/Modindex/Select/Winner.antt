-- ===== src/Modindex/Select/Winner.antt =====
-- The contract of `Select`: what it returns, and when it fails.
use doze_sdk.Prelude.{
  ◌≡◌, inl, inr, sym, ap, subst, ◌∙◌, false, Option, some, List, ◌∷◌, Text, text_key, UniqueKeys, ℤ,
  Result, ok, err, All, In, All-In, All-of_In, List-cases,
}
use doze_sdk.Modindex.Index.{Index, Release}
use doze_sdk.Modindex.Version.{newer}
use doze_sdk.Modindex.Version.Order.{IsNumericVersion, newer_self}
use doze_sdk.Modindex.Select.{
  release_at, speaking, channel_head, or_stable, select, pick, SelectError,
}
use doze_sdk.Modindex.Select.Sorting.{
  IsSortedNewest, sort_newest-IsSortedNewest, keep-IsSortedNewest,
}
use doze_sdk.Modindex.Select.Choice.{
  IsCompatible, candidates, speaking-In, candidate-IsCompatible, compatible-candidate, select_first,
  select_none, pick_found, release_at-lookup, pick_head, pick-In, pick_not_head,
}

ok-injective : {A : Type 0} {x y : A} → ◌≡◌ {A = Result SelectError A} (ok x) (ok y) → x ≡ y
ok-injective e = cc

err-ne-ok :
    {A : Type 0} {x : A} {e : SelectError} → ◌≡◌ {A = Result SelectError A} (err e) (ok x) → ⊥
err-ne-ok e = cc

-- The first of a sorted list is the newest of it.
head_newest :
    (first w : Text) (rest vs : List Text)
    → vs ≡ first ∷ rest
    → IsSortedNewest vs
    → In w vs
    → newer w first ≡ false
head_newest first w rest vs e s i = step (subst IsSortedNewest e s) (subst (In w) e i)
  where
    step : IsSortedNewest (first ∷ rest) → In w (first ∷ rest) → newer w first ≡ false
    step sorted (inl same) = rw same (newer_self first)
    step sorted (inr j) = All-In (λ x. newer x first ≡ false) rest sorted.0 j

module _ (idx : Index) (host : ℤ) (majors : List Text) (unique : UniqueKeys idx.releases) where
  -- The candidate that a successful `Select` took.
  select_picked :
      (channel v : Text) (r : Release)
      → select idx host majors channel ≡ ok (v, r)
      → (first : Text) × (rest : List Text) × (candidates idx host majors ≡ first ∷ rest)
        × (pick idx (channel_head idx (or_stable channel)) first rest ≡ (v, r))
  select_picked channel v r e = elim (List-cases (candidates idx host majors)) [
    | inl nothing ↦
        let (x, h) = select_none idx host majors unique channel nothing in
        absurd (err-ne-ok (sym h ∙ e))
    | inr (first, rest, h) ↦ (
      first,
      rest,
      h,
      ok-injective (sym (select_first idx host majors unique channel first rest h) ∙ e),
    )
  ]

  -- A version that `Select` returns is in the index with the release that is returned, that release
  -- speaks the host's protocol, and it covers every major that was asked for.
  pub select-IsCompatible :
      (channel v : Text) (r : Release)
      → select idx host majors channel ≡ ok (v, r)
      → IsCompatible idx host majors v r
  select-IsCompatible channel v r e =
      let (first, rest, h, p) = select_picked channel v r e in
      let head = channel_head idx (or_stable channel) in
      let i : In v (candidates idx host majors) =
        rw h
          (subst (λ (x : Text × Release). In x.0 (first ∷ rest)) p (pick-In idx head first rest)) in
      let at : r ≡ release_at idx v =
        subst (λ (x : Text × Release). x.1 ≡ release_at idx x.0) p
          (pick_found idx head first rest) in
      subst (IsCompatible idx host majors v) (sym at)
        (candidate-IsCompatible idx host majors unique v i)

  -- If some release is compatible, `Select` returns a release, whatever the channel.
  pub select_finds :
      (channel v : Text) (r : Release)
      → IsCompatible idx host majors v r
      → (w : Text) × (s : Release) × (select idx host majors channel ≡ ok (w, s))
  select_finds channel v r c = elim (List-cases (candidates idx host majors)) [
    | inl nothing ↦
        absurd (subst (In v) nothing (compatible-candidate idx host majors unique v r c))
    | inr (first, rest, h) ↦ (_, _, select_first idx host majors unique channel first rest h)
  ]

  candidates-IsSortedNewest :
      All (λ (x : Text × Release). IsNumericVersion x.0) idx.releases
      → IsSortedNewest (candidates idx host majors)
  candidates-IsSortedNewest numeric = keep-IsSortedNewest _ _ (
      sort_newest-IsSortedNewest (speaking host idx.releases) (
        All-of_In IsNumericVersion (speaking host idx.releases) λ x i.
          let (r, k, same) = speaking-In host idx.releases x i in
          All-In (λ (y : Text × Release). IsNumericVersion y.0) idx.releases numeric k))

  -- If the head of the channel is compatible, `Select` returns it.
  pub select_head :
      (channel v : Text) (r : Release)
      → channel_head idx (or_stable channel) ≡ some v
      → IsCompatible idx host majors v r
      → select idx host majors channel ≡ ok (v, r)
  select_head channel v r at c = elim (List-cases (candidates idx host majors)) [
    | inl nothing ↦
        absurd (subst (In v) nothing (compatible-candidate idx host majors unique v r c))
    | inr (first, rest, h) ↦
        let i : In v (first ∷ rest) =
          subst (In v) h (compatible-candidate idx host majors unique v r c) in
        select_first idx host majors unique channel first rest h
        ∙ ap (λ (o : Option Text). ok (pick idx o first rest)) at
        ∙ ap (λ x. ok x) (pick_head idx v first rest i)
        ∙ ap (λ (x : Release). ok (v, x)) (release_at-lookup idx v r c.0)
  ]

  -- If the channel has no compatible head and every version of the index is numeric, no compatible
  -- release is newer than the one that `Select` returns.
  pub select_newest :
      (channel v w : Text) (r s : Release)
      → All (λ (x : Text × Release). IsNumericVersion x.0) idx.releases
      → ((h : Text) (t : Release)
          → channel_head idx (or_stable channel) ≡ some h
          → ¬ IsCompatible idx host majors h t)
      → select idx host majors channel ≡ ok (v, r)
      → IsCompatible idx host majors w s
      → newer w v ≡ false
  select_newest channel v w r s numeric no_head e c =
      let (first, rest, h, p) = select_picked channel v r e in
      let not_head : (x : Text)
          → channel_head idx (or_stable channel) ≡ some x
          → ¬ In x (first ∷ rest) =
        λ x at i.
          no_head x (release_at idx x) at
            (candidate-IsCompatible idx host majors unique x (subst (In x) (sym h) i)) in
      let same : first ≡ v =
        sym (pick_not_head idx (channel_head idx (or_stable channel)) first rest not_head)
        ∙ ap (λ (x : Text × Release). x.0) p in
      subst (λ x. newer w x ≡ false) same
        (head_newest first w rest _ h (candidates-IsSortedNewest numeric)
          (compatible-candidate idx host majors unique w s c))
