-- ===== src/Plugin/Manager/Owned.antt =====
-- The processes of a map of hosts: what a write and a removal do to them (plugin/manager.go).
use doze_sdk.Prelude.{
  All, Bool, Bool-cases, Distinct, In, In-keep, List, Map, Text, UniqueKeys, [], arith, delete, inl,
  inr, insert, keep, lookup, nat_eq, none, not, refl, some, subst, suc, text_eq, ℕ, ◌++◌, ◌<◌, ◌∷◌,
  ◌≡◌, ◌≢◌, ◌⊎◌, text_key, int_key,
}

abbrev pub values : Map Text ℕ → List ℕ
values [] = []
values ((eng, h) ∷ hosts) = h ∷ values hosts

pub values-insert :
    (eng : Text) (n : ℕ) (hosts : Map Text ℕ)
    → lookup eng hosts ≡ none
    → values (insert eng n hosts) ≡ values hosts ++ n ∷ []
unfolding insert lookup
values-insert eng n [] gone = refl
values-insert eng n ((k, h) ∷ hosts) gone = ground (arith, values-insert eng n hosts)

pub keep_others : (h : ℕ) (xs : List ℕ) → ¬ In h xs → keep (λ x. not (nat_eq x h)) xs ≡ xs
unfolding keep
keep_others h [] out = refl
keep_others h (x ∷ xs) out =
    ground (arith, keep_others h xs (λ i. out (inr i)), λ (e : h ≡ x). out (inl e))

pub fresh-lookup :
    (eng : Text) (hosts : Map Text ℕ)
    → All (λ (x : Text × ℕ). x.0 ≢ eng) hosts
    → lookup eng hosts ≡ none
unfolding lookup
fresh-lookup eng [] a = refl
fresh-lookup eng ((k, h) ∷ hosts) a =
    ground (arith, fresh-lookup eng hosts a.1, text_key.beq_iff k eng, a.0)

pub fresh-delete :
    (eng : Text) (hosts : Map Text ℕ)
    → All (λ (x : Text × ℕ). x.0 ≢ eng) hosts
    → delete eng hosts ≡ hosts
unfolding delete
fresh-delete eng [] a = refl
fresh-delete eng ((k, h) ∷ hosts) a =
    ground (arith, fresh-delete eng hosts a.1, text_key.beq_iff k eng, a.0)

pub In-values :
    (eng : Text) (h : ℕ) (hosts : Map Text ℕ) → lookup eng hosts ≡ some h → In h (values hosts)
unfolding lookup
In-values eng h [] found = cc
In-values eng h ((k, x) ∷ hosts) found = ground (arith, In-values eng h hosts)

-- Closing the host of a type takes its process, and no other, out of the hosts.
pub values-delete :
    (eng : Text) (h : ℕ) (hosts : Map Text ℕ)
    → UniqueKeys hosts
    → Distinct (values hosts)
    → lookup eng hosts ≡ some h
    → values (delete eng hosts) ≡ keep (λ x. not (nat_eq x h)) (values hosts)
unfolding delete lookup keep
values-delete eng h [] u d found = cc
values-delete eng h ((k, x) ∷ hosts) u d found = elim (Bool-cases (text_eq k eng)) [
  | inl same ↦
      let at : k ≡ eng = (text_key.beq_iff k eng).0 same in
      let rest : delete eng hosts ≡ hosts =
        fresh-delete eng hosts (subst (λ z. All (λ (y : Text × ℕ). y.0 ≢ z) hosts) at u.0) in
      let out : ¬ In x (values hosts) = d.0 in
      ground (arith, rest, keep_others x (values hosts) out)
  | inr other ↦
      let later : lookup eng hosts ≡ some h = ground arith in
      let ne =
        λ (e : h ≡ x). d.0 (subst (λ y. In y (values hosts)) e (In-values eng h hosts later)) in
      ground (arith, values-delete eng h hosts u.1 d.1 later, ne)
]

pub Distinct-keep : (test : ℕ → Bool) (xs : List ℕ) → Distinct xs → Distinct (keep test xs)
unfolding keep
Distinct-keep test [] d = tt
Distinct-keep test (x ∷ xs) d =
    let out : ¬ In x (keep test xs) = λ i. d.0 (In-keep test x xs i).0 in
    ground (arith, Distinct-keep test xs d.1, out)

pub In-append_new : (n x : ℕ) (xs : List ℕ) → In x (xs ++ n ∷ []) → In x xs ⊎ (x ≡ n)
In-append_new n x [] (inl e) = inr e
In-append_new n x [] (inr i) = absurd i
In-append_new n x (y ∷ xs) (inl e) = inl (inl e)
In-append_new n x (y ∷ xs) (inr i) = ground (arith, In-append_new n x xs i)

pub Distinct-append_new :
    (n : ℕ) (xs : List ℕ) → All (λ h. h < n) xs → Distinct xs → Distinct (xs ++ n ∷ [])
Distinct-append_new n [] a d = (λ i. i, tt)
Distinct-append_new n (x ∷ xs) a d =
    (λ i. ground (arith, In-append_new n x xs i, d.0, a.0), Distinct-append_new n xs a.1 d.1)

pub older : (n : ℕ) (xs : List ℕ) → All (λ h. h < n) xs → All (λ h. h < suc n) (xs ++ n ∷ [])
older n [] a = (omega arith, tt)
older n (x ∷ xs) a = (ground (arith, a.0), older n xs a.1)
