-- ===== src/Modtool/Platforms.antt =====
-- The platforms of modtool/modtool.go and of engine/platform.go.
use doze_sdk.Binaries.Cache.{named}
use mathlib.Core.Option.{some-injective}
use doze_sdk.Engine.Helpers.{target_triple}
use doze_sdk.Modtool.{triples}
use doze_sdk.Prelude.{
  Text, ◌≡◌, ◌↔◌, ◌&&◌, arith, codes, lookup, ok, some, text_eq, text_eq_iff, text_key, true,
  Bool-cases, inl, inr, subst, refl, ok_injective, err_apart, Option, none, int_key,
}

both : (a x b y : Text) → (text_eq a x && text_eq b y) ≡ true → (a ≡ x) × (b ≡ y)
both a x b y h = ground (arith, text_eq_iff a x, text_eq_iff b y)

-- The table at a platform
listed :
    (goos goarch triple here arch named : Text)
    → text_eq goos here && text_eq goarch arch ≡ true
    → named ≡ triple
    → lookup named triples ≡ some (here, arch)
    → lookup triple triples ≡ some (goos, goarch)
listed goos goarch triple here arch named h e at =
    let (o, a) = both goos here goarch arch h in rw (← e, o, a) at

target_triple-triples :
    (goos goarch triple : Text)
    → target_triple goos goarch ≡ ok triple
    → lookup triple triples ≡ some (goos, goarch)
unfolding target_triple lookup text_eq
target_triple-triples goos goarch triple h =
    elim (Bool-cases (text_eq goos (codes "linux") && text_eq goarch (codes "amd64"))) [
      | inl a ↦
          listed goos goarch triple (codes "linux") (codes "amd64")
            (codes "x86_64-unknown-linux-gnu") a (ok_injective (rw a at h)) refl
      | inr na ↦
          elim (Bool-cases (text_eq goos (codes "linux") && text_eq goarch (codes "arm64"))) [
            | inl b ↦
                listed goos goarch triple (codes "linux") (codes "arm64")
                  (codes "aarch64-unknown-linux-gnu") b (ok_injective (rw (na, b) at h)) refl
            | inr nb ↦
                elim (Bool-cases
                  (text_eq goos (codes "darwin") && text_eq goarch (codes "arm64"))) [
                    | inl c ↦
                        listed goos goarch triple (codes "darwin") (codes "arm64")
                          (codes "aarch64-apple-darwin") c (ok_injective (rw (na, nb, c) at h)) refl
                    | inr nc ↦
                        elim (Bool-cases
                          (text_eq goos (codes "darwin") && text_eq goarch (codes "amd64"))) [
                            | inl d ↦ absurd (err_apart _ _ (rw (na, nb, nc, d) at h))
                            | inr nd ↦ absurd (err_apart _ _ (rw (na, nb, nc, nd) at h))
                          ]
                  ]
          ]
    ]

none_apart : {A : Type 0} (a : A) → ◌≡◌ {A = Option A} none (some a) → ⊥
none_apart a h = cc

read_back :
    (goos goarch named triple : Text) (platform : Text × Text)
    → text_eq named triple ≡ true
    → target_triple platform.0 platform.1 ≡ ok named
    → ◌≡◌ {A = Option (Text × Text)} (some platform) (some (goos, goarch))
    → target_triple goos goarch ≡ ok triple
read_back goos goarch named triple platform same is h =
    subst (λ t. target_triple goos goarch ≡ ok t) ((text_eq_iff named triple).0 same)
      (subst (λ (p : Text × Text). target_triple p.0 p.1 ≡ ok named) (some-injective _ _ h) is)

triples-target_triple :
    (goos goarch triple : Text)
    → lookup triple triples ≡ some (goos, goarch)
    → target_triple goos goarch ≡ ok triple
unfolding target_triple lookup
triples-target_triple goos goarch triple h =
    elim (Bool-cases (text_eq (codes "aarch64-apple-darwin") triple)) [
      | inl a ↦
          read_back goos goarch (codes "aarch64-apple-darwin") triple
            (codes "darwin", codes "arm64") a (unfold text_eq in refl) (rw a at h)
      | inr na ↦ elim (Bool-cases (text_eq (codes "aarch64-unknown-linux-gnu") triple)) [
        | inl b ↦
            read_back goos goarch (codes "aarch64-unknown-linux-gnu") triple
              (codes "linux", codes "arm64") b (unfold text_eq in refl) (rw (na, b) at h)
        | inr nb ↦ elim (Bool-cases (text_eq (codes "x86_64-unknown-linux-gnu") triple)) [
          | inl c ↦
              read_back goos goarch (codes "x86_64-unknown-linux-gnu") triple
                (codes "linux", codes "amd64") c (unfold text_eq in refl) (rw (na, nb, c) at h)
          | inr nc ↦ absurd (none_apart _ (rw (na, nb, nc) at h))
        ]
      ]
    ]

-- A triple is that of a supported platform exactly if a module is named for it, and for that platform.
pub target_triple_iff :
    (goos goarch triple : Text)
    → (target_triple goos goarch ≡ ok triple) ↔ (lookup triple triples ≡ some (goos, goarch))
target_triple_iff goos goarch triple =
    (target_triple-triples goos goarch triple, triples-target_triple goos goarch triple)
