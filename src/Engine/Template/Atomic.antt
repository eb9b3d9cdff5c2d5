-- ===== src/Engine/Template/Atomic.antt =====
-- No boot sees a template that is half built, in any order of steps (engine/template.go).
use doze_sdk.Binaries.Download.{after}
use doze_sdk.Prelude.{
  Bool, Option, false, is_some, none, some, true, ℕ, ◌≡◌, Bool-cases, codes, err, if◌then◌else◌,
  inl, inr, nat_eq, ok, refl, subst, ◌++◌,
}
use doze_sdk.Engine.Template.{
  Boot, Event, World, advance, Lawful, Step, Reaches, start, entered, unmade, building, built,
  installing, returned, look, make_tmp, write, init_ends, rename_ends, moves, here, onward, lost,
}

module _ {Tree : Type 0} (ready : Option Tree → Bool) (Whole : Tree → Type 0) where
  -- What a boot has in hand, where it matters to the others
  abbrev pub IsSafe : Option Tree → Boot Tree → Type 0
  IsSafe template entered = Unit
  IsSafe template unmade = Unit
  IsSafe template (building t) = Unit
  IsSafe template (built t) = Whole t
  IsSafe template (installing t) = Whole t
  IsSafe template (lost e) = Unit
  IsSafe template (returned none) = is_some template ≡ true
  IsSafe template (returned (some e)) = Unit

  -- The template is absent or whole.
  abbrev pub IsWhole : Option Tree → Type 0
  IsWhole none = Unit
  IsWhole (some t) = Whole t

  pub record IsAtomic (w : World Tree) : Type 0 where
    pub whole : IsWhole w.template
    pub safe : (i : ℕ) → IsSafe w.template (w.boots i)

  -- What a step leaves: the template is absent or whole, the boot is safe, and a template that is
  -- there stays there.
  abbrev IsGood : Option Tree → Option (Boot Tree × Option Tree) → Type 0
  IsGood template none = Unit
  IsGood template (some (b, after)) =
      IsWhole after × (IsSafe after b × (is_some template ≡ true → is_some after ≡ true))

  -- A look at the template: the boot returns only if it is there.
  looked :
      (b : Boot Tree) (template : Option Tree)
      → ready none ≡ false
      → IsWhole template
      → IsSafe template b
      → IsGood template (some (if ready template then returned none else b, template))
  looked b none absent whole safe = rw absent (whole, (safe, λ h. h))
  looked b (some t) absent whole safe = elim (Bool-cases (ready (some t))) [
    | inl is_there ↦ rw is_there (whole, (refl, λ h. h))
    | inr not_yet ↦ rw not_yet (whole, (safe, λ h. h))
  ]

  advance-IsGood :
      (event : Event Tree) (b : Boot Tree) (template : Option Tree)
      → ready none ≡ false
      → Lawful ready Whole event b
      → IsWhole template
      → IsSafe template b
      → IsGood template (advance ready event b template)
  unfolding advance
  advance-IsGood look entered template absent lawful whole safe =
      looked unmade template absent whole tt
  advance-IsGood look (built t) template absent lawful whole safe =
      looked (installing t) template absent whole safe
  advance-IsGood look unmade template absent lawful whole safe = tt
  advance-IsGood look (building t) template absent lawful whole safe = tt
  advance-IsGood look (installing t) template absent lawful whole safe = tt
  advance-IsGood look (returned r) template absent lawful whole safe = tt
  advance-IsGood (make_tmp (ok t)) unmade template absent lawful whole safe = (whole, (tt, λ h. h))
  advance-IsGood (make_tmp (err e)) unmade template absent lawful whole safe = (whole, (tt, λ h. h))
  advance-IsGood (make_tmp (ok x)) entered template absent lawful whole safe = tt
  advance-IsGood (make_tmp (err e)) entered template absent lawful whole safe = tt
  advance-IsGood (make_tmp (ok x)) (building t) template absent lawful whole safe = tt
  advance-IsGood (make_tmp (err e)) (building t) template absent lawful whole safe = tt
  advance-IsGood (make_tmp (ok x)) (built t) template absent lawful whole safe = tt
  advance-IsGood (make_tmp (err e)) (built t) template absent lawful whole safe = tt
  advance-IsGood (make_tmp (ok x)) (installing t) template absent lawful whole safe = tt
  advance-IsGood (make_tmp (err e)) (installing t) template absent lawful whole safe = tt
  advance-IsGood (make_tmp (ok x)) (returned r) template absent lawful whole safe = tt
  advance-IsGood (make_tmp (err e)) (returned r) template absent lawful whole safe = tt
  advance-IsGood (write x) (building t) template absent lawful whole safe = (whole, (tt, λ h. h))
  advance-IsGood (write x) entered template absent lawful whole safe = tt
  advance-IsGood (write x) unmade template absent lawful whole safe = tt
  advance-IsGood (write x) (built t) template absent lawful whole safe = tt
  advance-IsGood (write x) (installing t) template absent lawful whole safe = tt
  advance-IsGood (write x) (returned r) template absent lawful whole safe = tt
  advance-IsGood (init_ends none) (building t) template absent lawful whole safe =
      (whole, (lawful, λ h. h))
  advance-IsGood (init_ends (some e)) (building t) template absent lawful whole safe =
      (whole, (tt, λ h. h))
  advance-IsGood (init_ends none) entered template absent lawful whole safe = tt
  advance-IsGood (init_ends (some e)) entered template absent lawful whole safe = tt
  advance-IsGood (init_ends none) unmade template absent lawful whole safe = tt
  advance-IsGood (init_ends (some e)) unmade template absent lawful whole safe = tt
  advance-IsGood (init_ends none) (built t) template absent lawful whole safe = tt
  advance-IsGood (init_ends (some e)) (built t) template absent lawful whole safe = tt
  advance-IsGood (init_ends none) (installing t) template absent lawful whole safe = tt
  advance-IsGood (init_ends (some e)) (installing t) template absent lawful whole safe = tt
  advance-IsGood (init_ends none) (returned r) template absent lawful whole safe = tt
  advance-IsGood (init_ends (some e)) (returned r) template absent lawful whole safe = tt
  advance-IsGood (rename_ends none) (installing t) template absent lawful whole safe =
      (safe, (refl, λ h. refl))
  advance-IsGood (rename_ends (some e)) (installing t) template absent lawful whole safe =
      (whole, (tt, λ h. h))
  advance-IsGood (rename_ends none) entered template absent lawful whole safe = tt
  advance-IsGood (rename_ends (some e)) entered template absent lawful whole safe = tt
  advance-IsGood (rename_ends none) unmade template absent lawful whole safe = tt
  advance-IsGood (rename_ends (some e)) unmade template absent lawful whole safe = tt
  advance-IsGood (rename_ends none) (building t) template absent lawful whole safe = tt
  advance-IsGood (rename_ends (some e)) (building t) template absent lawful whole safe = tt
  advance-IsGood (rename_ends none) (built t) template absent lawful whole safe = tt
  advance-IsGood (rename_ends (some e)) (built t) template absent lawful whole safe = tt
  advance-IsGood (rename_ends none) (returned r) template absent lawful whole safe = tt
  advance-IsGood (rename_ends (some e)) (returned r) template absent lawful whole safe = tt
  advance-IsGood look (lost e) template absent lawful whole safe =
      looked (returned (some (codes "installing template: " ++ e))) template absent whole tt
  advance-IsGood (make_tmp (ok x)) (lost t) template absent lawful whole safe = tt
  advance-IsGood (make_tmp (err e)) (lost t) template absent lawful whole safe = tt
  advance-IsGood (write x) (lost t) template absent lawful whole safe = tt
  advance-IsGood (init_ends none) (lost t) template absent lawful whole safe = tt
  advance-IsGood (init_ends (some e)) (lost t) template absent lawful whole safe = tt
  advance-IsGood (rename_ends none) (lost t) template absent lawful whole safe = tt
  advance-IsGood (rename_ends (some e)) (lost t) template absent lawful whole safe = tt

  -- A template that stays there keeps the other boots safe.
  stays :
      (template after : Option Tree) (b : Boot Tree)
      → (is_some template ≡ true → is_some after ≡ true)
      → IsSafe template b
      → IsSafe after b
  stays template after entered keeps safe = tt
  stays template after unmade keeps safe = tt
  stays template after (building t) keeps safe = tt
  stays template after (built t) keeps safe = safe
  stays template after (installing t) keeps safe = safe
  stays template after (lost e) keeps safe = tt
  stays template after (returned none) keeps safe = keeps safe
  stays template after (returned (some e)) keeps safe = tt

  Step-IsAtomic :
      (w v : World Tree) → ready none ≡ false → Step ready Whole w v → IsAtomic w → IsAtomic v
  Step-IsAtomic w v absent (moves i event _ b template lawful h) a =
      let good : IsGood w.template (some (b, template)) =
        subst (IsGood w.template) h
          (advance-IsGood event (w.boots i) w.template absent lawful a.whole (a.safe i)) in
      record {
        whole = good.0;
        safe = λ j. elim (Bool-cases (nat_eq i j)) [
          | inl same ↦ rw same good.1.0
          | inr other ↦ rw other (stays w.template template (w.boots j) good.1.1 (a.safe j))
        ];
      }

  Reaches-IsAtomic :
      (w u : World Tree) → ready none ≡ false → Reaches ready Whole w u → IsAtomic w → IsAtomic u
  Reaches-IsAtomic w u absent (here _) a = a
  Reaches-IsAtomic w u absent (onward _ v _ first rest) a =
      Reaches-IsAtomic v u absent rest (Step-IsAtomic w v absent first a)

  -- However the steps of any number of boots interleave from a start without a template: the template
  -- is absent or one that some `init` finished, and once a boot has returned without an error it is
  -- there; if an absent directory is not ready, and an `init` that ends without an error leaves a
  -- whole template.
  pub start-IsAtomic :
      (w : World Tree) → ready none ≡ false → Reaches ready Whole (start ready) w → IsAtomic w
  start-IsAtomic w absent reaches =
      Reaches-IsAtomic (start ready) w absent reaches (record { whole = tt; safe = λ i. tt })
