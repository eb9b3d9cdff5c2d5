-- ===== src/Modindex/Index.antt =====
-- The index of modindex/modindex.go: `Index`, `Release`, `Artifact` and `Parse`.
use doze_sdk.Prelude.{
  Option, none, some, List, [], Text, text_eq, Map, ℤ, pos, eqb_ℤ, Result, ok, err, if◌then◌else◌,
}

pub record Artifact : Type 0 where
  pub url : Text
  pub sha256 : Text
  pub sig : Text

pub record Release : Type 0 where
  pub protocol : ℤ
  pub engines : List Text
  pub artifacts : Map Text Artifact
  pub doze : Text

-- The field `Module` is `name`. Only of `Channels` a nil map and an empty one are told apart, by
-- the signed payload.
pub record Index : Type 0 where
  pub schema : ℤ
  pub name : Text
  pub namespace : Text
  pub releases : Map Text Release
  pub channels : Option (Map Text Text)
  pub signature : Text

-- The constant `Schema`.
abbrev pub schema_version : ℤ
schema_version = pos 1

pub data ParseError : Type 0 where
  malformed : ParseError
  wrong_schema : ℤ → ParseError
  no_module_name : ParseError

abbrev check_index : Index → Result ParseError Index
check_index idx =
    if eqb_ℤ idx.schema schema_version
    then (if text_eq idx.name [] then err no_module_name else ok idx)
    else err (wrong_schema idx.schema)

-- Parse, over the YAML package's `Unmarshal` into an `Index`.
unfoldable pub parse : (Text → Option Index) → Text → Result ParseError Index
parse unmarshal bytes = elim (unmarshal bytes) [ none ↦ err malformed | some idx ↦ check_index idx ]
