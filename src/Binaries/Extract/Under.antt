-- ===== src/Binaries/Extract/Under.antt =====
-- The names that are a directory's or below it.
use doze_sdk.Strings.{cut_prefix}
use doze_sdk.Prelude.{
  Bool-cases, Text, [], ◌++◌, ◌∷◌, ◌≡◌, ◌⊎◌, ◌↔◌, codes, inl, inr, is_some, nat_eq, nat_eq_iff,
  refl, sym, text_eq, text_eq_iff, true, append_assoc, ◌∙◌,
}
use doze_sdk.Binaries.Extract.{Paths, inside}

-- A text begins with another.
abbrev pub Extends : Text → Text → Type 0
Extends front t = (rest : Text) × (t ≡ front ++ rest)

-- A name is that of a directory once it is cleaned, or is that name, a slash and something more.
abbrev pub IsUnder : Paths → Text → Text → Type 0
IsUnder p dest t = (t ≡ p.clean dest) ⊎ ((rest : Text) × (t ≡ p.clean dest ++ (codes "/" ++ rest)))

cut_prefix-Extends : (front t : Text) → (is_some (cut_prefix front t) ≡ true) ↔ Extends front t
unfolding cut_prefix
cut_prefix-Extends [] t = (λ h. (t, refl), λ h. refl)
cut_prefix-Extends (c ∷ front) [] = (λ h. absurd (cc), λ h. absurd (cc (h.1)))
cut_prefix-Extends (c ∷ front) (d ∷ t) = elim (Bool-cases (nat_eq c d)) [
  | inr differ ↦
      rw (differ, cut_prefix)
        (
          λ h. absurd (cc),
          λ h. absurd (let e : d ≡ c = cc (h.1) in let at = (nat_eq_iff c d).1 (sym e) in cc),
        )
  | inl same ↦
      let e : c ≡ d = (nat_eq_iff c d).0 same in
      let (only, then_does) = cut_prefix-Extends front t in
      rw (same, cut_prefix)
        (λ h. let (rest, is) = only h in (rest, cc (e, is)), λ h. then_does (h.0, cc (h.1)))
]

pub inside-IsUnder :
    (p : Paths) (dest target : Text) → (inside p dest target ≡ true) ↔ IsUnder p dest target
unfolding inside
inside-IsUnder p dest target =
    let (only, then_does) = cut_prefix-Extends (p.clean dest ++ codes "/") target in
    let same = text_eq_iff target (p.clean dest) in
    (
      λ h. elim (Bool-cases (text_eq target (p.clean dest))) [
        | inl at ↦ inl (same.0 at)
        | inr off ↦
            let (rest, is) = only (rw (off, inside) at h) in
            inr (rest, is ∙ append_assoc (p.clean dest) (codes "/") rest)
      ],
      λ u. elim u [
        | inl at ↦ rw (same.1 at, inside) refl
        | inr (rest, is) ↦ elim (Bool-cases (text_eq target (p.clean dest))) [
          | inl at ↦ rw (at, inside) refl
          | inr off ↦
              rw (off, inside)
                (then_does (rest, is ∙ sym (append_assoc (p.clean dest) (codes "/") rest)))
        ]
      ],
    )
