-- ===== src/Modtool/Majors.antt =====
-- What engineMajors of modtool/modtool.go gives.
use doze_sdk.Engine.Describe.{Description}
use doze_sdk.Modindex.Version.{major}
use doze_sdk.Modtool.{engine_majors, majors_after}
use doze_sdk.Prelude.{
  List, Text, [], ◌∷◌, ◌≡◌, ◌≢◌, ◌↔◌, In, Distinct, Bool-cases, arith, inl, inr, text_eq, contains,
  text_eq_iff, In→contains, contains→In, text_key, refl, false, int_key, subst, sym, ◌⊎◌, ap, ◌∙◌,
}

-- A major of one of the versions
abbrev pub IsMajorOf : Text → List Text → Type 0
IsMajorOf x vs = (v : Text) × (In v vs × (major v ≡ x))

-- A version that the loop passes over, and one whose major it takes
IsTaken : List Text → Text → Type 0
IsTaken seen v = (major v ≢ []) × ¬ In (major v) seen

majors_after-cases :
    (seen : List Text) (v : Text) (vs : List Text)
    → (((major v ≡ []) ⊎ In (major v) seen) × (majors_after seen (v ∷ vs) ≡ majors_after seen vs))
      ⊎ (IsTaken seen v × (majors_after seen (v ∷ vs) ≡ major v ∷ majors_after (major v ∷ seen) vs))
unfolding majors_after IsTaken
majors_after-cases seen v vs = elim (Bool-cases (text_eq (major v) [])) [
  | inl bare ↦ inl (inl ((text_eq_iff (major v) []).0 bare), rw bare refl)
  | inr ne ↦ elim (Bool-cases (contains seen (major v))) [
    | inl known ↦ inl (inr (contains→In seen (major v) known), rw (ne, known) refl)
    | inr new ↦ inr (
      (
        (λ e. ground (arith, text_eq_iff (major v) [])),
        λ i. ground (arith, In→contains seen (major v) i),
      ),
      rw (ne, new) refl,
    )
  ]
]

In-majors_after :
    (seen vs : List Text) (x : Text)
    → In x (majors_after seen vs)
    → (x ≢ []) × (¬ In x seen × IsMajorOf x vs)
unfolding IsTaken
In-majors_after seen [] x i = absurd (unfold majors_after in i)
In-majors_after seen (v ∷ vs) x i = elim (majors_after-cases seen v vs) [
  | inl (passed_over, e) ↦
      let (ne, (fresh, (w, (at, same)))) = In-majors_after seen vs x (subst (λ l. In x l) e i) in
      (ne, (fresh, (w, (inr at, same))))
  | inr (took, e) ↦ elim (subst (λ l. In x l) e i) [
    | inl same ↦ (
      subst (λ t. t ≢ []) (sym same) took.0,
      (subst (λ t. ¬ In t seen) (sym same) took.1, (v, (inl refl, sym same))),
    )
    | inr j ↦
        let (ne, (fresh, (w, (at, same)))) = In-majors_after (major v ∷ seen) vs x j in
        (ne, ((λ k. fresh (inr k)), (w, (inr at, same))))
  ]
]

majors_after-In :
    (seen vs : List Text) (x w : Text)
    → x ≢ []
    → ¬ In x seen
    → In w vs
    → major w ≡ x
    → In x (majors_after seen vs)
unfolding IsTaken
majors_after-In seen [] x w ne fresh i e = absurd i
majors_after-In seen (v ∷ vs) x w ne fresh i e = elim (majors_after-cases seen v vs) [
  | inl (passed_over, same) ↦
      subst (λ l. In x l) (sym same) (majors_after-In seen vs x w ne fresh (later passed_over i) e)
  | inr (took, same) ↦
      subst (λ l. In x l) (sym same)
        (elim (Bool-cases (text_eq x (major v))) [
          | inl here ↦ inl ((text_eq_iff x (major v)).0 here)
          | inr elsewhere ↦ inr (
              majors_after-In (major v ∷ seen) vs x w ne (unseen elsewhere) (further elsewhere i) e)
        ])
]
  where
    later : (major v ≡ []) ⊎ In (major v) seen → In w (v ∷ vs) → In w vs
    later p (inr j) = j
    later (inl bare) (inl at) = absurd (ne (sym e ∙ (ap major at ∙ bare)))
    later (inr known) (inl at) =
        absurd (fresh (subst (λ t. In t seen) (ap major (sym at) ∙ e) known))

    unseen : text_eq x (major v) ≡ false → ¬ In x (major v ∷ seen)
    unseen elsewhere (inl here) = ground (arith, text_eq_iff x (major v))
    unseen elsewhere (inr known) = fresh known

    further : text_eq x (major v) ≡ false → In w (v ∷ vs) → In w vs
    further elsewhere (inr j) = j
    further elsewhere (inl at) = absurd (unseen elsewhere (inl (sym e ∙ ap major at)))

majors_after-Distinct : (seen vs : List Text) → Distinct (majors_after seen vs)
unfolding IsTaken
majors_after-Distinct seen [] = unfold majors_after in tt
majors_after-Distinct seen (v ∷ vs) = elim (majors_after-cases seen v vs) [
  | inl (passed_over, same) ↦ subst (λ l. Distinct l) (sym same) (majors_after-Distinct seen vs)
  | inr (took, same) ↦
      subst (λ l. Distinct l) (sym same)
        (
          (λ i. (In-majors_after (major v ∷ seen) vs (major v) i).1.0 (inl refl)),
          majors_after-Distinct (major v ∷ seen) vs,
        )
]

-- The engine majors of a release are the majors of the versions that are described, but for an empty
-- one, each of them once.
pub engine_majors_lem :
    (d : Description) (x : Text)
    → (In x (engine_majors d) ↔ ((x ≢ []) × IsMajorOf x d.versions)) × Distinct (engine_majors d)
unfolding engine_majors
engine_majors_lem d x = (
  (
    (λ i. let (ne, (fresh, of)) = In-majors_after [] d.versions x i in (ne, of)),
    λ (ne, (v, (i, e))). majors_after-In [] d.versions x v ne (λ j. j) i e,
  ),
  majors_after-Distinct [] d.versions,
)
