-- ===== src/Modindex/Signing/Examples.antt =====
-- Signatures that verify (modindex/modindex.go), with a JSON package that encodes one value and a
-- signature scheme that accepts one text.
use doze_sdk.Modindex.Index.{Index, Release}
use doze_sdk.Modindex.Signing.{
  json_object, members, sort_keys, index_fields, channels_payload, release_fields, artifact_fields,
  Crypto, Json, Members, json_number, json_text, json_texts, json_members, json_null, no_more,
  member, payload, canonical_payload, sign, verify, check_payload, check_signature,
}
use doze_sdk.Modindex.Signing.Accepted.{
  IsForged, IsLegible, Signs, Vouched, verify-sign, verify-SameSigned,
}
use doze_sdk.Strings.{to_lower}
use doze_sdk.Prelude.{
  map_values, text_compare, Bool, List, Text, [], ◌∷◌, ◌≡◌, ◌&&◌, arith, codes, eqb_ℤ, eqb_ℤ_iff,
  err, false, none, ok, pos, refl, some, text_eq, text_eq_iff, true, if◌then◌else◌, Bool-cases, inl,
  inr, ap, sym, ◌∙◌, err_apart, ◌++◌, ◌⊎◌,
}

unfoldable texts_same : List Text → List Text → Bool
texts_same [] [] = true
texts_same (s ∷ ss) (t ∷ ts) = text_eq s t && texts_same ss ts
texts_same _ _ = false

texts_same_lem : (s t : List Text) → texts_same s t ≡ true → s ≡ t
unfolding texts_same
texts_same_lem [] [] h = refl
texts_same_lem [] (t ∷ ts) h = absurd (cc)
texts_same_lem (s ∷ ss) [] h = absurd (cc)
texts_same_lem (s ∷ ss) (t ∷ ts) h = ground (arith, text_eq_iff s t, texts_same_lem ss ts)

unfoldable mutual
  json_same : Json → Json → Bool
  json_same json_null json_null = true
  json_same (json_number a) (json_number b) = eqb_ℤ a b
  json_same (json_text s) (json_text t) = text_eq s t
  json_same (json_texts s) (json_texts t) = texts_same s t
  json_same (json_members m) (json_members n) = members_same m n
  json_same _ _ = false

  members_same : Members → Members → Bool
  members_same no_more no_more = true
  members_same (member k v m) (member j w n) = text_eq k j && json_same v w && members_same m n
  members_same _ _ = false

three : (a b c : Bool) → (a && b && c) ≡ true → (a ≡ true) × ((b ≡ true) × (c ≡ true))
three a b c h = ground arith

member_path :
    {k j : Text} {v w : Json} {m n : Members} → k ≡ j → v ≡ w → m ≡ n → member k v m ≡ member j w n
member_path a b c = cc (a, b, c)

mutual
  unfolding json_same members_same

  json_same_lem : (j k : Json) → json_same j k ≡ true → j ≡ k
  json_same_lem json_null json_null h = refl
  json_same_lem json_null (json_number b) h = absurd (cc)
  json_same_lem json_null (json_text t) h = absurd (cc)
  json_same_lem json_null (json_texts ts) h = absurd (cc)
  json_same_lem json_null (json_members n) h = absurd (cc)
  json_same_lem (json_number a) json_null h = absurd (cc)
  json_same_lem (json_number a) (json_number b) h = ap json_number ((eqb_ℤ_iff a b).0 h)
  json_same_lem (json_number a) (json_text t) h = absurd (cc)
  json_same_lem (json_number a) (json_texts ts) h = absurd (cc)
  json_same_lem (json_number a) (json_members n) h = absurd (cc)
  json_same_lem (json_text s) json_null h = absurd (cc)
  json_same_lem (json_text s) (json_number b) h = absurd (cc)
  json_same_lem (json_text s) (json_text t) h = ap json_text ((text_eq_iff s t).0 h)
  json_same_lem (json_text s) (json_texts ts) h = absurd (cc)
  json_same_lem (json_text s) (json_members n) h = absurd (cc)
  json_same_lem (json_texts ss) json_null h = absurd (cc)
  json_same_lem (json_texts ss) (json_number b) h = absurd (cc)
  json_same_lem (json_texts ss) (json_text t) h = absurd (cc)
  json_same_lem (json_texts ss) (json_texts ts) h = ap json_texts (texts_same_lem ss ts h)
  json_same_lem (json_texts ss) (json_members n) h = absurd (cc)
  json_same_lem (json_members m) json_null h = absurd (cc)
  json_same_lem (json_members m) (json_number b) h = absurd (cc)
  json_same_lem (json_members m) (json_text t) h = absurd (cc)
  json_same_lem (json_members m) (json_texts ts) h = absurd (cc)
  json_same_lem (json_members m) (json_members n) h = ap json_members (members_same_lem m n h)

  members_same_lem : (m n : Members) → members_same m n ≡ true → m ≡ n
  members_same_lem no_more no_more h = refl
  members_same_lem no_more (member j w n) h = absurd (cc)
  members_same_lem (member k v m) no_more h = absurd (cc)
  members_same_lem (member k v m) (member j w n) h =
      let (a, (b, c)) = three (text_eq k j) (json_same v w) (members_same m n) h in
      member_path ((text_eq_iff k j).0 a) (json_same_lem v w b) (members_same_lem m n c)

abbrev release : Release
release = record {
  protocol = pos 1;
  engines = codes "16" ∷ [];
  artifacts = (codes "linux", record { url = codes "u"; sha256 = codes "AB"; sig = [] }) ∷ [];
  doze = codes "0.2.0";
}

abbrev index : Index
index = record {
  schema = pos 1;
  name = codes "pg";
  namespace = codes "doze";
  releases = (codes "0.2.0", release) ∷ [];
  channels = some ((codes "stable", codes "0.2.0") ∷ []);
  signature = [];
}

-- The same with another oldest doze and its digest in lower case
abbrev altered : Index
altered = record index {
  releases =
      (
        codes "0.2.0",
        record release {
          doze = codes "9";
          artifacts =
              (codes "linux", record { url = codes "u"; sha256 = codes "ab"; sig = [] }) ∷ [];
        },
      )
      ∷ [];
  signature = codes "=signed";
}

abbrev crypto : Crypto
crypto = record {
  encode = λ j. if json_same j (payload index) then ok (codes "json") else err (codes "no");
  sha_hex = λ t. t;
  to_base64 = λ t. codes "=" ++ t;
  from_base64 = λ t. elim t [ [] ↦ err (codes "short") | c ∷ rest ↦ ok rest ];
  sign_text = λ private t. codes "signed";
  verify_text = λ public t s. text_eq t (codes "json") && text_eq s (codes "signed");
}

-- A scheme that takes one signature for every text
abbrev accepting : Crypto
accepting = record crypto { verify_text = λ public t s. text_eq s (codes "signed") }

index_encoded : canonical_payload crypto index ≡ ok (codes "json")
unfolding json_same texts_same text_eq json_object members sort_keys index_fields text_compare
    channels_payload map_values release_fields artifact_fields to_lower
index_encoded = refl

index_is_signed :
    sign accepting (codes "private") index ≡ ok (record index { signature = codes "=signed" })
unfolding sign json_same texts_same text_eq json_object members sort_keys index_fields text_compare
    channels_payload map_values release_fields artifact_fields to_lower
index_is_signed = refl

altered_verifies : verify crypto (codes "public") altered ≡ none
unfolding verify check_signature check_payload json_same texts_same text_eq json_object members
    sort_keys index_fields text_compare channels_payload map_values release_fields artifact_fields
    to_lower
altered_verifies = refl

accepting-Signs : Signs accepting (codes "private") (codes "public")
unfolding text_eq
accepting-Signs = (λ t. refl, (λ t. refl, λ t. refl))

verify-sign_example :
    verify accepting (codes "public") (record index { signature = codes "=signed" }) ≡ none
verify-sign_example =
    verify-sign accepting (codes "private") (codes "public") index
      (record index { signature = codes "=signed" }) accepting-Signs index_is_signed

encode-json : (j : Json) (t : Text) → crypto.encode j ≡ ok t → j ≡ payload index
encode-json j t h = elim (Bool-cases (json_same j (payload index))) [
  | inl same ↦ json_same_lem j (payload index) same
  | inr other ↦ absurd (err_apart _ _ (rw other at h))
]

altered-IsLegible : IsLegible crypto altered index
altered-IsLegible t given same =
    encode-json (payload index) t given ∙ sym (encode-json (payload altered) t same)

verify-SameSigned_example :
    Vouched crypto (index ∷ []) altered ⊎ IsForged crypto (codes "public") (index ∷ []) altered
verify-SameSigned_example =
    verify-SameSigned crypto (codes "public") (index ∷ []) altered (altered-IsLegible, tt)
      altered_verifies
