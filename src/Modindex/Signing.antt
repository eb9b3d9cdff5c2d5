-- ===== src/Modindex/Signing.antt =====
-- The signature of modindex/modindex.go: `CanonicalPayload`, `Sign` and `Verify`. JSON's bytes, base64,
-- SHA-256 and ed25519 are parameters; that the encoder sorts an object's keys is in `json_object`.
pub mod Objects
pub mod Payload
pub mod Accepted
mod Examples
use Prim.Native.Nat.{Ordering}
use doze_sdk.Modindex.Index.{Artifact, Index, Release}
use doze_sdk.Prelude.{
  Bool, List, Map, Option, Result, Text, [], ◌∷◌, ◌>>=◌, ◌++◌, codes, err, if◌then◌else◌,
  map_values, none, ok, some, text_compare, text_eq, ℤ, true, false,
}
use doze_sdk.Strings.{to_lower}

-- The values of CanonicalPayload
mutual
  pub data Json : Type 0 where
    json_null : Json
    json_number : ℤ → Json
    json_text : Text → Json
    json_texts : List Text → Json
    json_members : Members → Json

  pub data Members : Type 0 where
    no_more : Members
    member : Text → Json → Members → Members

-- An entry goes before the first key that is not smaller.
unfoldable pub sorted_in : {V : Type 0} → Text → V → Map Text V → Map Text V
sorted_in k v [] = (k, v) ∷ []
sorted_in k v ((j, w) ∷ rest) =
    let later = sorted_in k v rest in
    elim (text_compare j k) [ Ordering.lt ↦ (j, w) ∷ later | _ ↦ (k, v) ∷ (j, w) ∷ rest ]

unfoldable pub sort_keys : {V : Type 0} → Map Text V → Map Text V
unfolding sorted_in
sort_keys [] = []
sort_keys ((k, v) ∷ m) = sorted_in k v (sort_keys m)

unfoldable pub members : Map Text Json → Members
members [] = no_more
members ((k, v) ∷ m) = member k v (members m)

-- A map as an object
unfoldable pub json_object : Map Text Json → Json
json_object m = json_members (members (sort_keys m))

-- A field that is left out where it is empty
abbrev field_unless : Bool → Text → Json → Map Text Json
field_unless true k v = []
field_unless false k v = (k, v) ∷ []

abbrev no_texts : List Text → Bool
no_texts [] = true
no_texts (t ∷ ts) = false

unfoldable pub artifact_fields : Artifact → Map Text Json
artifact_fields a =
    (codes "url", json_text a.url)
    ∷ (codes "sha256", json_text (to_lower a.sha256))
    ∷ field_unless (text_eq a.sig []) (codes "sig") (json_text a.sig)

abbrev pub artifact_payload : Artifact → Json
artifact_payload a = json_object (artifact_fields a)

unfoldable pub release_fields : Release → Map Text Json
release_fields r =
    (codes "protocol", json_number r.protocol)
    ∷ (field_unless (no_texts r.engines) (codes "engines") (json_texts r.engines)
        ++ (codes "artifacts", json_object (map_values artifact_payload r.artifacts)) ∷ [])

abbrev pub release_payload : Release → Json
release_payload r = json_object (release_fields r)

unfoldable pub channels_payload : Option (Map Text Text) → Json
channels_payload none = json_null
channels_payload (some m) = json_object (map_values json_text m)

unfoldable pub index_fields : Index → Map Text Json
index_fields idx =
    (codes "module", json_text idx.name)
    ∷ (codes "namespace", json_text idx.namespace)
    ∷ (codes "releases", json_object (map_values release_payload idx.releases))
    ∷ (codes "channels", channels_payload idx.channels)
    ∷ []

-- The map that CanonicalPayload encodes
abbrev pub payload : Index → Json
payload idx = json_object (index_fields idx)

-- The packages: JSON without its newline at the end, hexadecimal SHA-256, base64 and ed25519
pub record Crypto : Type 0 where
  pub encode : Json → Result Text Text
  pub sha_hex : Text → Text
  pub to_base64 : Text → Text
  pub from_base64 : Text → Result Text Text
  pub sign_text : Text → Text → Text
  pub verify_text : Text → Text → Text → Bool

-- CanonicalPayload
abbrev pub canonical_payload : Crypto → Index → Result Text Text
canonical_payload c idx = c.encode (payload idx)

-- Sign
unfoldable pub sign : Crypto → Text → Index → Result Text Index
sign c key idx = canonical_payload c idx >>= λ bytes.
    ok (record idx { signature = c.to_base64 (c.sign_text key (c.sha_hex bytes)) })

pub data VerifyError : Type 0 where
  unsigned : VerifyError
  malformed_signature : Text → VerifyError
  not_encoded : Text → VerifyError
  not_matching : VerifyError

-- Verify from the payload on; a nil error is none.
unfoldable pub check_payload : Crypto → Text → Text → Result Text Text → Option VerifyError
check_payload c key sig (err e) = some (not_encoded e)
check_payload c key sig (ok bytes) =
    if c.verify_text key (c.sha_hex bytes) sig then none else some not_matching

-- Verify once the index has a signature
unfoldable pub check_signature :
    Crypto → Text → Result Text Text → Result Text Text → Option VerifyError
unfolding check_payload
check_signature c key (err e) bytes = some (malformed_signature e)
check_signature c key (ok sig) bytes = check_payload c key sig bytes

-- Verify
unfoldable pub verify : Crypto → Text → Index → Option VerifyError
verify c key idx =
    if text_eq idx.signature []
    then some unsigned
    else check_signature c key (c.from_base64 idx.signature) (canonical_payload c idx)
