-- ===== src/Plugin/Decode.antt =====
-- DecodeConfig of plugin/server.go and DecodeRemote of plugin/adapter.go, with `InSourceOrder` of
-- engine/decode.go. hcl's parser and its bodies, of type B, and the driver's decoder are parameters.
pub mod Joined
mod Examples
use doze_sdk.Plugin.Adapter.{has}
use doze_sdk.Engine.Types.{config}
use doze_sdk.Binaries.Download.{after}
use Prim.Native.Nat.{Ordering}
use doze_sdk.Plugin.Conv.{Gob, encode_spec}
use doze_sdk.Plugin.Diag.{
  Decoded, Diagnostic, Failure, Range, decode_error_from, decode_failure, diag_error, text_alone,
}
use doze_sdk.Plugin.Rpc.{Grpc, HandlerError, plain, status_error, unimplemented, user_error}
use doze_sdk.Plugin.Server.{CtyJson, vars_from_json, vars_to_json}
use doze_sdk.Prelude.{
  Bool, List, Map, Option, Result, Text, [], ◌∷◌, ◌++◌, codes, err, false, if◌then◌else◌, ltb_ℤ,
  map, none, not, ok, some, text_compare, text_eq, true,
}
use doze_sdk.Strings.{join}

abbrev pub Diags : Type 0
Diags = List (Option Diagnostic)

-- hcl.Block
pub record Block (B : Type 0) : Type 0 where
  pub labels : List Text
  pub body : B
  pub def_range : Range

-- hcl: ParseHCL, PartialContent for the blocks of a type and for attributes, HasErrors, and the texts
-- of a diagnostic and of several
pub record Hcl (B : Type 0) : Type 0 where
  pub parse : Text → Text → B × Diags
  pub blocks : B → Text → List (Block B) × Diags
  pub strip : B → List Text → B × Diags
  pub has_errors : Diags → Bool
  pub diag_text : Option Diagnostic → Text
  pub diags_error : Diags → Text

-- How a driver's decoder fails: with hcl.Diagnostics, none of them nil, or with another error
pub data DriverError : Type 0 where
  with_diags : List Diagnostic → DriverError
  without_diags : Text → DriverError

-- ConfigDecoder
abbrev pub Decoder : Type 0 → Type 0 → Type 0 → Type 0
Decoder B C V = B → Map Text C → Text → Text → Result DriverError V

-- CoreArguments
abbrev pub core_arguments : List Text
core_arguments =
    codes "count"
    ∷ codes "for_each"
    ∷ codes "depends_on"
    ∷ codes "enabled"
    ∷ codes "after"
    ∷ codes "version"
    ∷ codes "listen"
    ∷ codes "port"
    ∷ codes "sleep"
    ∷ []

-- The order of InSourceOrder
unfoldable pub points_before : Option Range → Option Range → Bool
points_before none b = false
points_before (some a) none = true
points_before (some a) (some b) =
    if not (text_eq a.filename b.filename)
    then elim (text_compare a.filename b.filename) [ Ordering.lt ↦ true | _ ↦ false ]
    else ltb_ℤ a.from.byte b.from.byte

unfoldable pub insert_diag : Diagnostic → List Diagnostic → List Diagnostic
unfolding points_before
insert_diag d [] = d ∷ []
insert_diag d (e ∷ ds) =
    let later = insert_diag d ds in
    if points_before e.subject d.subject then e ∷ later else d ∷ e ∷ ds

-- InSourceOrder: a stable sort
unfoldable pub in_source_order : List Diagnostic → List Diagnostic
unfolding insert_diag
in_source_order [] = []
in_source_order (d ∷ ds) = insert_diag d (in_source_order ds)

-- DecodeRequest
pub record DecodeRequest : Type 0 where
  pub file : Text
  pub filename : Text
  pub block_type : Text
  pub block_label : Text
  pub variables : Map Text Text
  pub base_dir : Text
  pub engine_version : Text

-- How DecodeConfig ends: with the config's bytes, with decodeFailure, or with another error
pub data DecodeEnd : Type 0 where
  spec_bytes_of : Text → DecodeEnd
  failing : Failure → DecodeEnd
  failing_plainly : HandlerError → DecodeEnd

-- The loop over the blocks
unfoldable pub find_block : {B : Type 0} → Text → List (Block B) → Option (Block B)
find_block label [] = none
find_block label (b ∷ bs) =
    let later = find_block label bs in
    elim b.labels [
      | [] ↦ later
      | l ∷ ls ↦ elim ls [ [] ↦ if text_eq l label then some b else later | m ∷ ms ↦ later ]
    ]

module _ {B C V : Type 0} (hcl : Hcl B) (cty : CtyJson C) (gob : Gob V Text) (attached : Bool)
    (decode : Decoder B C V) where
  -- diagsText
  unfoldable pub diags_text : Diags → Text
  diags_text ds = join (codes "\n") (map hcl.diag_text ds)

  -- DecodeConfig once the driver has decoded
  unfoldable pub decoded_by : Block B → Result DriverError V → DecodeEnd
  unfolding diags_text
  decoded_by b (err (with_diags ds)) =
      let sorted : Diags = map some (in_source_order ds) in
      failing (decode_failure attached (diags_text sorted) sorted)
  decoded_by b (err (without_diags t)) = failing (
      decode_failure attached t (
        some (record {
          severity = diag_error;
          summary = t;
          detail = [];
          subject = some b.def_range;
          context = none;
        })
        ∷ []))
  decoded_by b (ok v) = elim (encode_spec gob (some v)) [
    | err e ↦ failing_plainly (plain (codes "encoding config: " ++ e))
    | ok bytes ↦ spec_bytes_of bytes
  ]

  -- DecodeConfig from the stripped body on
  unfoldable pub decode_stripped : DecodeRequest → Block B → B × Diags → DecodeEnd
  unfolding decoded_by
  decode_stripped req b (remain, ds) =
      if hcl.has_errors ds
      then failing (decode_failure attached (codes "stripping config: " ++ diags_text ds) ds)
      else elim (vars_from_json cty req.variables) [
        | err e ↦ failing_plainly (plain (codes "decoding variables: " ++ e))
        | ok vars ↦ decoded_by b (decode remain vars req.base_dir req.engine_version)
      ]

  abbrev pub not_found : DecodeRequest → Text
  not_found req =
      codes "block "
      ++ (req.block_type ++ (codes " " ++ (req.block_label ++ codes " not found in source")))

  -- DecodeConfig from the blocks on; the message on a missing block quotes its label, which the model
  -- leaves bare.
  unfoldable pub decode_blocks : DecodeRequest → List (Block B) × Diags → DecodeEnd
  unfolding decode_stripped
  decode_blocks req (bs, ds) =
      if hcl.has_errors ds
      then failing
          (decode_failure attached (codes "reading config blocks: " ++ hcl.diags_error ds) ds)
      else elim (find_block req.block_label bs) [
        | none ↦ failing_plainly (plain (not_found req))
        | some b ↦ decode_stripped req b (hcl.strip b.body core_arguments)
      ]

  -- DecodeConfig from the parsed file on
  unfoldable pub decode_parsed : DecodeRequest → B × Diags → DecodeEnd
  unfolding decode_blocks
  decode_parsed req (body, ds) =
      if hcl.has_errors ds
      then failing (decode_failure attached (codes "parsing config: " ++ diags_text ds) ds)
      else decode_blocks req (hcl.blocks body req.block_type)

abbrev pub file_named : DecodeRequest → Text
file_named req =
    if text_eq req.filename [] then req.block_label ++ codes ".doze.hcl" else req.filename

-- DecodeConfig, of a driver that may be no ConfigDecoder
unfoldable pub decode_config :
    {B C V : Type 0}
    → Hcl B
    → CtyJson C
    → Gob V Text
    → Bool
    → Option (Decoder B C V)
    → DecodeRequest
    → DecodeEnd
decode_config hcl cty gob attached none req =
    failing_plainly (status_error unimplemented (codes "engine has no config decoder"))
decode_config hcl cty gob attached (some decode) req =
    decode_parsed hcl cty gob attached decode req (hcl.parse req.file (file_named req))

-- The error or the bytes that the host's call of DecodeConfig gives, where the module is reached
unfoldable pub received_end : Grpc → DecodeEnd → Result Decoded Text
unfolding decode_error_from
received_end grpc (spec_bytes_of bytes) = ok bytes
received_end grpc (failing f) = err (decode_error_from grpc f)
received_end grpc (failing_plainly e) = err (text_alone (user_error grpc (grpc.deliver_error e)))

-- DecodeRemote: what it sends, and what it makes of the end of the call
unfoldable pub decode_remote :
    {C : Type 0}
    → Grpc
    → CtyJson C
    → (DecodeRequest → DecodeEnd)
    → Text
    → Text
    → Text
    → Text
    → Map Text C
    → Text
    → Text
    → Result Decoded Text
unfolding received_end
decode_remote grpc cty call file filename type label vars base version =
    elim (vars_to_json cty vars) [
      | err e ↦ err (text_alone e)
      | ok sent ↦ received_end grpc (
          call (record {
            file = file;
            filename = filename;
            block_type = type;
            block_label = label;
            variables = sent;
            base_dir = base;
            engine_version = version;
          }))
    ]
