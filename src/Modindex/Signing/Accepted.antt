-- ===== src/Modindex/Signing/Accepted.antt =====
-- What `Verify` of modindex/modindex.go accepts.
use doze_sdk.Modindex.Index.{Index}
use doze_sdk.Modindex.Signing.{
  Crypto, canonical_payload, check_payload, check_signature, payload, sign, verify, index_fields,
}
use doze_sdk.Modindex.Signing.Payload.{SameSigned, payload-SameSigned}
use doze_sdk.Prelude.{
  Bool-cases, Text, [], ◌≡◌, bind-ok, none, ok, text_eq, true, false, arith, refl, inl, inr, subst,
  ok_injective, err, Result, All, All-In, In, List, Result-cases, ap, sym, text_eq_iff, ◌∙◌, ◌∷◌,
  ◌≢◌, ◌⊎◌,
}

-- base64 reads back what it writes, no signature is empty in it, and a signature verifies under the
-- public key.
abbrev pub Signs : Crypto → Text → Text → Type 0
Signs c private public =
    ((t : Text) → c.from_base64 (c.to_base64 t) ≡ ok t)
    × (((t : Text) → text_eq (c.to_base64 (c.sign_text private t)) [] ≡ false)
        × ((t : Text) → c.verify_text public t (c.sign_text private t) ≡ true))

payload-signature :
    (c : Crypto) (idx : Index) (s : Text)
    → canonical_payload c (record idx { signature = s }) ≡ canonical_payload c idx
unfolding index_fields
payload-signature c idx s = refl

-- An index that Sign signs is accepted under the public key, if base64 reads back what it writes, no
-- signature is empty in it, and the scheme accepts its own signatures.
pub verify-sign :
    (c : Crypto) (private public : Text) (idx signed_index : Index)
    → Signs c private public
    → sign c private idx ≡ ok signed_index
    → verify c public signed_index ≡ none
unfolding sign verify check_signature check_payload
verify-sign c private public idx signed_index (back, (full, good)) h =
    let (bytes, (e, given)) = bind-ok (canonical_payload c idx) _ signed_index h in
    let sig = c.sign_text private (c.sha_hex bytes) in
    subst (λ i. verify c public i ≡ none) (ok_injective given)
      (rw
        (
          full (c.sha_hex bytes),
          back sig,
          payload-signature c idx (c.to_base64 sig),
          e,
          good (c.sha_hex bytes),
        )
        refl)

-- The text that is signed of an index, if its payload can be encoded
abbrev pub SignedText : Crypto → Index → Text → Type 0
SignedText c idx digest =
    (bytes : Text) × ((canonical_payload c idx ≡ ok bytes) × (c.sha_hex bytes ≡ digest))

-- The signature of an index is accepted, and for a text that is signed of none of some indexes.
abbrev pub IsForged : Crypto → Text → List Index → Index → Type 0
IsForged c public known other =
    (sig : Text) × (digest : Text) × ((c.from_base64 other.signature ≡ ok sig)
      × (SignedText c other digest
          × ((c.verify_text public digest sig ≡ true)
              × ((idx : Index) → In idx known → ¬ SignedText c idx digest))))

-- The payloads of two indexes are encoded as different texts with the same digest.
abbrev pub Collides : Crypto → Index → Index → Type 0
Collides c idx other =
    (s : Text) × (t : Text) × ((canonical_payload c idx ≡ ok s)
      × ((canonical_payload c other ≡ ok t) × ((s ≢ t) × (c.sha_hex s ≡ c.sha_hex t))))

-- The JSON text of an index's payload is that of no other payload.
abbrev pub IsLegible : Crypto → Index → Index → Type 0
IsLegible c other idx =
    (t : Text)
    → c.encode (payload idx) ≡ ok t
    → c.encode (payload other) ≡ ok t
    → payload idx ≡ payload other

-- One of some indexes that an accepted one agrees with, or that its payload collides with
abbrev pub Vouched : Crypto → List Index → Index → Type 0
Vouched c known other =
    (idx : Index) × (In idx known × (SameSigned idx other ⊎ Collides c idx other))

check_payload-none :
    (c : Crypto) (public sig : Text) (bytes : Result Text Text)
    → check_payload c public sig bytes ≡ none
    → (t : Text) × ((bytes ≡ ok t) × (c.verify_text public (c.sha_hex t) sig ≡ true))
unfolding check_payload
check_payload-none c public sig (err e) h = absurd (cc)
check_payload-none c public sig (ok t) h = (t, (refl, ground arith))

check_signature-none :
    (c : Crypto) (public : Text) (sig bytes : Result Text Text)
    → check_signature c public sig bytes ≡ none
    → (s : Text) × (t : Text) × ((sig ≡ ok s)
        × ((bytes ≡ ok t) × (c.verify_text public (c.sha_hex t) s ≡ true)))
unfolding check_signature
check_signature-none c public (err e) bytes h = absurd (cc)
check_signature-none c public (ok s) bytes h =
    let (t, found) = check_payload-none c public s bytes h in (s, t, (refl, found))

-- What is signed of an index is a text, or it is not.
SignedText-cases :
    (c : Crypto) (idx : Index) (digest : Text)
    → SignedText c idx digest ⊎ (¬ SignedText c idx digest)
SignedText-cases c idx digest = elim (Result-cases (canonical_payload c idx)) [
  | inr (e, failed) ↦ inr (λ at_hand. absurd (let (t, (given, is)) = at_hand in cc))
  | inl (bytes, given) ↦ elim (Bool-cases (text_eq (c.sha_hex bytes) digest)) [
    | inl same ↦ inl (bytes, (given, (text_eq_iff (c.sha_hex bytes) digest).0 same))
    | inr differ ↦ inr (λ at_hand.
        let (t, (again, is)) = at_hand in
        let e : bytes ≡ t = cc (given, again) in
        let at = (text_eq_iff (c.sha_hex bytes) digest).1 (ap (λ x. c.sha_hex x) e ∙ is) in
        absurd (cc))
  ]
]

agree_or_collide :
    (c : Crypto) (idx other : Index) (t : Text)
    → IsLegible c other idx
    → canonical_payload c other ≡ ok t
    → SignedText c idx (c.sha_hex t)
    → SameSigned idx other ⊎ Collides c idx other
agree_or_collide c idx other t legible encoded (s, (given, digest)) =
    elim (Bool-cases (text_eq s t)) [
      | inl same ↦
          let e : s ≡ t = (text_eq_iff s t).0 same in
          inl (payload-SameSigned idx other (legible t (rw (sym e) given) encoded))
      | inr differ ↦
          inr
            (s, t, (given, (encoded, (λ e. let at = (text_eq_iff s t).1 e in absurd (cc), digest))))
    ]

-- Among some indexes, one whose signed text is a digest, or none
find_signed :
    (c : Crypto) (known : List Index) (digest : Text)
    → ((idx : Index) × (In idx known × SignedText c idx digest))
      ⊎ ((idx : Index) → In idx known → ¬ SignedText c idx digest)
find_signed c [] digest = inr (λ idx i. absurd i)
find_signed c (x ∷ xs) digest = elim (SignedText-cases c x digest) [
  | inl at_hand ↦ inl (x, (inl refl, at_hand))
  | inr not_x ↦ elim (find_signed c xs digest) [
    | inl (idx, (i, at_hand)) ↦ inl (idx, (inr i, at_hand))
    | inr none_of ↦ inr (λ idx i. elim i [ inl e ↦ rw e not_x | inr later ↦ none_of idx later ])
  ]
]

-- An index that Verify accepts under a key, beside any indexes that the key is known to have signed: it
-- has the module, the namespace, the channels and the releases of one of them, with their protocols,
-- engine majors and artifacts, where only the case of a digest may differ; or its signature is a
-- forgery, for a text that is signed of none of them; or the payload of one of them is another text
-- with the same digest. The payloads are such that the same JSON text is the same payload.
pub verify-SameSigned :
    (c : Crypto) (public : Text) (known : List Index) (other : Index)
    → All (IsLegible c other) known
    → verify c public other ≡ none
    → Vouched c known other ⊎ IsForged c public known other
unfolding verify
verify-SameSigned c public known other legible h = elim (Bool-cases (text_eq other.signature [])) [
  | inl bare ↦ absurd (cc)
  | inr has ↦
      let (sig, t, (decoded, (encoded, good))) =
        check_signature-none c public (c.from_base64 other.signature) (canonical_payload c other)
          (rw has at h) in
      elim (find_signed c known (c.sha_hex t)) [
        | inl (idx, (i, at_hand)) ↦ inl (
          idx,
          (
            i,
            agree_or_collide c idx other t (All-In (IsLegible c other) known legible i) encoded
                at_hand,
          ),
        )
        | inr none_of ↦ inr (sig, c.sha_hex t, (decoded, ((t, (encoded, refl)), (good, none_of))))
      ]
]
