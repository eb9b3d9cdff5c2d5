-- ===== src/Binaries/Lock/Hashes.antt =====
-- The loop of `Record` over hashes (binaries/lock.go).
-- What is read at a key after a write.
use doze_sdk.Engine.Types.{text_at}
use doze_sdk.Binaries.Lock.{merge_hashes}
use doze_sdk.Prelude.{
  All, Bool, Bool-cases, Map, Option, Text, UniqueKeys, [], false, if◌then◌else◌, inl, inr, insert,
  lookup, lookup-insert, none, refl, some, subst, text_eq, text_eq_iff, true, ◌∙◌, ◌∷◌, ◌≡◌, ◌≢◌,
  text_key, int_key,
}

pub text_at-insert :
    (k j : Text) (v : Text) (m : Map Text Text)
    → text_at j (insert k v m) ≡ (if text_eq k j then v else text_at j m)
text_at-insert k j v m = go (text_eq k j) _ (lookup j m) (lookup-insert k j v m)
  where
    go :
        (b : Bool) (r s : Option Text)
        → r ≡ (if b then some v else s)
        → ◌≡◌ {A = Text}
            (elim r [ none ↦ [] | some w ↦ w ])
            (if b then v else elim s [ none ↦ [] | some w ↦ w ])
    go true r s h = rw h refl
    go false r s h = rw h refl

-- A key that the new hashes do not have keeps what it had.
pub merge_hashes_kept :
    (have new : Map Text Text) (dirty : Bool) (t : Text)
    → All (λ (x : Text × Text). x.0 ≢ t) new
    → text_at t (merge_hashes have new dirty).0 ≡ text_at t have
unfolding merge_hashes
merge_hashes_kept have [] dirty t a = refl
merge_hashes_kept have ((k, v) ∷ new) dirty t a = elim (Bool-cases (text_eq (text_at k have) v)) [
  | inl same ↦ rw same (merge_hashes_kept have new dirty t a.1)
  | inr other ↦
      let step = text_at-insert k t v have in
      let later = merge_hashes_kept (insert k v have) new true t a.1 in
      elim (Bool-cases (text_eq k t)) [
        | inl key ↦ absurd (a.0 ((text_eq_iff k t).0 key))
        | inr differs ↦ rw other (later ∙ (step ∙ rw differs refl))
      ]
]

merge_hashes_head :
    (have new : Map Text Text) (dirty : Bool) (k v : Text)
    → All (λ (x : Text × Text). x.0 ≢ k) new
    → text_at k (merge_hashes have ((k, v) ∷ new) dirty).0 ≡ v
unfolding merge_hashes
merge_hashes_head have new dirty k v a = elim (Bool-cases (text_eq (text_at k have) v)) [
  | inl same ↦
      rw same (merge_hashes_kept have new dirty k a ∙ (text_eq_iff (text_at k have) v).0 same)
  | inr other ↦
      let later = merge_hashes_kept (insert k v have) new true k a in
      let at = text_at-insert k k v have in
      rw other (later ∙ (at ∙ rw ((text_eq_iff k k).1 refl) refl))
]

-- Every new hash is in the result.
pub merge_hashes_new :
    (have new : Map Text Text) (dirty : Bool) (t sha : Text)
    → UniqueKeys new
    → lookup t new ≡ some sha
    → text_at t (merge_hashes have new dirty).0 ≡ sha
unfolding lookup merge_hashes
merge_hashes_new have [] dirty t sha u h = cc
merge_hashes_new have ((k, v) ∷ new) dirty t sha u h = elim (Bool-cases (text_eq k t)) [
  | inl key ↦
      let found = rw key at h in
      subst (λ x. text_at x (merge_hashes have ((k, v) ∷ new) dirty).0 ≡ sha)
        ((text_eq_iff k t).0 key) (merge_hashes_head have new dirty k v u.0 ∙ cc (found))
  | inr differs ↦
      let found = rw differs at h in
      elim (Bool-cases (text_eq (text_at k have) v)) [
        | inl same ↦ rw same (merge_hashes_new have new dirty t sha u.1 found)
        | inr other ↦ rw other (merge_hashes_new (insert k v have) new true t sha u.1 found)
      ]
]

-- A clean mark at the end: nothing was written.
pub merge_hashes_clean :
    (have new : Map Text Text) (dirty : Bool)
    → (merge_hashes have new dirty).1 ≡ false
    → ((merge_hashes have new dirty).0 ≡ have) × (dirty ≡ false)
unfolding merge_hashes
merge_hashes_clean have [] dirty h = (refl, h)
merge_hashes_clean have ((k, v) ∷ new) dirty h = elim (Bool-cases (text_eq (text_at k have) v)) [
  | inl same ↦ rw same (merge_hashes_clean have new dirty (rw same at h))
  | inr other ↦ absurd (cc ((merge_hashes_clean (insert k v have) new true (rw other at h)).1))
]
