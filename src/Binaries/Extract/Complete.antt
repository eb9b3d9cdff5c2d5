-- ===== src/Binaries/Extract/Complete.antt =====
-- When the walk over an archive succeeds, and what it has done by then.
use doze_sdk.Prelude.{
  All, Bool, List, Option, Text, [], if◌then◌else◌, is_some, none, refl, true, ◌++◌, ◌↔◌, ◌∷◌, ◌≡◌,
  Bool-cases, Option-cases, ap, inl, inr, some, sym,
}
use doze_sdk.Binaries.Extract.Under.{IsUnder, inside-IsUnder}
use doze_sdk.Binaries.Extract.{Header, Effect, Paths, Attempts, inside, run, walk}

-- What must not fail of some attempts does not.
abbrev pub Succeeds : (Effect → Option Text) → Attempts → Type 0
Succeeds fails es = All (λ (x : Effect × Bool). x.1 ≡ true → fails x.0 ≡ none) es

-- The effects of the attempts that do not fail
abbrev pub effective : (Effect → Option Text) → Attempts → List Effect
effective fails [] = []
effective fails ((e, must) ∷ es) =
    if is_some (fails e) then effective fails es else e ∷ effective fails es

run-Succeeds_iff :
    (fails : Effect → Option Text) (es : Attempts) → ((run fails es).1 ≡ none) ↔ Succeeds fails es
unfolding run
run-Succeeds_iff fails [] = (λ h. tt, λ h. refl)
run-Succeeds_iff fails ((e, must) ∷ es) = elim (Option-cases (fails e)) [
  | inl fine ↦
      rw (fine, run)
        ((
          λ h. (λ m. refl, (run-Succeeds_iff fails es).0 h),
          λ a. (run-Succeeds_iff fails es).1 a.1,
        ))
  | inr (t, bad) ↦ elim (Bool-cases must) [
    | inl needed ↦ rw (bad, run, needed) (λ h. (λ m. cc, absurd cc), λ a. a.0 refl)
    | inr optional ↦
        rw (bad, run, optional)
          ((
            λ h. (λ m. cc, (run-Succeeds_iff fails es).0 h),
            λ a. (run-Succeeds_iff fails es).1 a.1,
          ))
  ]
]

run-effective :
    (fails : Effect → Option Text) (es : Attempts)
    → Succeeds fails es
    → (run fails es).0 ≡ effective fails es
unfolding run
run-effective fails [] a = refl
run-effective fails ((e, must) ∷ es) a = elim (Option-cases (fails e)) [
  | inl fine ↦ rw (fine, run) (ap (λ r. e ∷ r) (run-effective fails es a.1))
  | inr (t, bad) ↦ elim (Bool-cases must) [
    | inl needed ↦ absurd (let no_fault : some t ≡ none = rw (sym bad) (a.0 needed) in cc)
    | inr optional ↦ rw (bad, run, optional) (run-effective fails es a.1)
  ]
]

-- An entry that is extracted: its name is the destination or below it, and what it needs does not fail.
abbrev pub Extracts :
    (Text → Header → Attempts) → (Effect → Option Text) → Paths → Text → Header → Type 0
Extracts attempts fails p dest h =
    IsUnder p dest (p.join dest h.name) × Succeeds fails (attempts (p.join dest h.name) h)

-- The effects of all entries, in their order
abbrev pub all_effective :
    (Text → Header → Attempts) → (Effect → Option Text) → Paths → Text → List Header → List Effect
all_effective attempts fails p dest [] = []
all_effective attempts fails p dest (h ∷ hs) =
    effective fails (attempts (p.join dest h.name) h) ++ all_effective attempts fails p dest hs

-- The walk over an archive succeeds only if its reading does, every name is the destination or below it,
-- and nothing that must be done fails; then it does succeed, and has done what every entry asks for, in order.
pub walk-Extracts :
    (attempts : Text → Header → Attempts) (fails : Effect → Option Text) (p : Paths) (dest : Text)
    (hs : List Header) (ending : Option Text)
    → ((walk attempts fails p dest hs ending).1 ≡ none
        → (ending ≡ none) × All (Extracts attempts fails p dest) hs)
      × ((ending ≡ none) × All (Extracts attempts fails p dest) hs
          → walk attempts fails p dest hs ending ≡ (all_effective attempts fails p dest hs, none))
unfolding walk
walk-Extracts attempts fails p dest [] ending = (λ h. (h, tt), λ h. rw h.0 refl)
walk-Extracts attempts fails p dest (h ∷ hs) ending =
    let target = p.join dest h.name in
    let (only, then_does) = walk-Extracts attempts fails p dest hs ending in
    let (needs, enough) = run-Succeeds_iff fails (attempts target h) in
    elim (Bool-cases (inside p dest target)) [
      | inr unsafe ↦ (
        λ done. absurd cc,
        λ a. absurd (let at = (inside-IsUnder p dest (p.join dest h.name)).1 a.1.0.0 in cc),
      )
      | inl safe ↦ elim (Option-cases (run fails (attempts target h)).1) [
        | inr (e, bad) ↦ (λ done. absurd cc, λ a. absurd (let at = enough a.1.0.1 in cc))
        | inl fine ↦ (
          λ done.
              let (ends, rest) = only cc in
              (ends, (((inside-IsUnder p dest target).0 safe, needs fine), rest)),
          λ a.
              rw
                (
                  safe,
                  walk,
                  fine,
                  run-effective fails (attempts target h) a.1.0.1,
                  then_does (a.0, a.1.1),
                )
                refl,
        )
      ]
    ]
