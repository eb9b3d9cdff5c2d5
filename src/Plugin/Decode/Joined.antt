-- ===== src/Plugin/Decode/Joined.antt =====
-- DecodeRemote and DecodeConfig joined (plugin/adapter.go, plugin/server.go).
use doze_sdk.Plugin.Server.{CtyJson, vars_from_json, vars_to_json}
use doze_sdk.Strings.{join}
use doze_sdk.Plugin.Conv.{Gob, encode_spec}
use doze_sdk.Plugin.Decode.{
  Block, Decoder, DecodeRequest, Diags, DriverError, Hcl, find_block, in_source_order, with_diags,
  without_diags, core_arguments, diags_text, decoded_by, decode_stripped, decode_blocks, file_named,
  received_end, failing, failing_plainly, plain, decode_parsed, decode_config, decode_remote,
}
use doze_sdk.Plugin.Diag.{Decoded, diag_error, decode_failure}
use doze_sdk.Plugin.Diag.Crossing.{heard, present, decode_error_from-decode_failure}
use doze_sdk.Plugin.Rpc.{Grpc}
use doze_sdk.Prelude.{
  List, Result, Text, [], ◌∷◌, ◌++◌, codes, err, if◌then◌else◌, map, none, ok, some, Bool-cases,
  Map, Option-cases, Result-cases, ap, inl, inr, refl, true, ◌>>=◌, ◌≡◌, bind-ok, ok_injective,
}

-- A message with the diagnostics it is about
abbrev pub Complaint : Type 0
Complaint = Text × Diags

-- What the host is told
unfoldable pub told : Grpc → Result Complaint Text → Result Decoded Text
told grpc (ok bytes) = ok bytes
told grpc (err (msg, ds)) = err (heard grpc msg (present ds))

module _ {B C V : Type 0} (hcl : Hcl B) (gob : Gob V Text) (decode : Decoder B C V) where
  -- A step of hcl is passed if none of its diagnostics is an error.
  unfoldable pub passed_by : {A : Type 0} → (Diags → Text) → A × Diags → Result Complaint A
  passed_by msg (a, ds) = if hcl.has_errors ds then err (msg ds, ds) else ok a

  unfoldable pub the_block : DecodeRequest → List (Block B) → Result Complaint (Block B)
  the_block req bs = elim (find_block req.block_label bs) [
    | none ↦ err (
      codes "block "
          ++ (req.block_type ++ (codes " " ++ (req.block_label ++ codes " not found in source"))),
      [],
    )
    | some b ↦ ok b
  ]

  abbrev lines : Diags → Text
  lines ds = join (codes "\n") (map hcl.diag_text ds)

  unfoldable pub decoded_here : Block B → Result DriverError V → Result Complaint V
  decoded_here b (ok v) = ok v
  decoded_here b (err (with_diags ds)) =
      err (lines (map some (in_source_order ds)), map some (in_source_order ds))
  decoded_here b (err (without_diags t)) = err (
    t,
    some (record {
      severity = diag_error;
      summary = t;
      detail = [];
      subject = some b.def_range;
      context = none;
    })
        ∷ [],
  )

  unfoldable pub bytes_here : V → Result Complaint Text
  bytes_here v = elim (encode_spec gob (some v)) [
    | err e ↦ err (codes "encoding config: " ++ e, [])
    | ok bytes ↦ ok bytes
  ]

  -- What decoding in the host's own process gives: the file is parsed, the block of the type with the
  -- label is found, doze's own arguments are taken off, and the driver decodes what is left.
  unfoldable pub stripped_here : DecodeRequest → Map Text C → Block B → Result Complaint Text
  stripped_here req vars b =
      passed_by (λ ds. codes "stripping config: " ++ lines ds) (hcl.strip b.body core_arguments)
      >>= λ remain.
          decoded_here b (decode remain vars req.base_dir req.engine_version) >>= bytes_here

  unfoldable pub blocks_here : DecodeRequest → Map Text C → B → Result Complaint Text
  unfolding stripped_here
  blocks_here req vars body =
      passed_by (λ ds. codes "reading config blocks: " ++ hcl.diags_error ds)
        (hcl.blocks body req.block_type)
      >>= λ bs. the_block req bs >>= stripped_here req vars

  unfoldable pub decode_here : DecodeRequest → Map Text C → Result Complaint Text
  unfolding blocks_here
  decode_here req vars =
      passed_by (λ ds. codes "parsing config: " ++ lines ds) (hcl.parse req.file (file_named req))
      >>= blocks_here req vars

module _ {B C V : Type 0} (grpc : Grpc) (hcl : Hcl B) (cty : CtyJson C) (gob : Gob V Text)
    (decode : Decoder B C V) where
  failing-told :
      (msg : Text) (ds : Diags)
      → received_end grpc (failing (decode_failure true msg ds)) ≡ told grpc (err (msg, ds))
  unfolding received_end told
  failing-told msg ds = ap err (decode_error_from-decode_failure grpc true msg ds)

  plainly-told :
      (msg : Text) → received_end grpc (failing_plainly (plain msg)) ≡ told grpc (err (msg, []))
  unfolding received_end told
  plainly-told msg = rw (grpc.deliver_plain msg) refl

  bytes-told :
      (b : Block B) (v : V)
      → received_end grpc (decoded_by hcl cty gob true decode b (ok v))
        ≡ told grpc (bytes_here hcl gob decode v)
  unfolding decoded_by bytes_here
  bytes-told b v = elim (Result-cases (encode_spec gob (some v))) [
    | inl (bytes, e) ↦ rw (e, decoded_by, bytes_here) (unfold received_end told in refl)
    | inr (t, e) ↦ rw (e, decoded_by, bytes_here) (plainly-told (codes "encoding config: " ++ t))
  ]

  decoded_by-told :
      (b : Block B) (r : Result DriverError V)
      → received_end grpc (decoded_by hcl cty gob true decode b r)
        ≡ told grpc (decoded_here hcl gob decode b r >>= bytes_here hcl gob decode)
  decoded_by-told b (ok v) = unfold decoded_here in bytes-told b v
  decoded_by-told b (err (with_diags ds)) =
      unfold decoded_by diags_text decoded_here in failing-told _ _
  decoded_by-told b (err (without_diags t)) = unfold decoded_by decoded_here in failing-told _ _

  decode_stripped-told :
      (req : DecodeRequest) (vars : Map Text C) (b : Block B)
      → vars_from_json cty req.variables ≡ ok vars
      → received_end grpc
          (decode_stripped hcl cty gob true decode req b (hcl.strip b.body core_arguments))
        ≡ told grpc (stripped_here hcl gob decode req vars b)
  unfolding decode_stripped stripped_here passed_by diags_text
  decode_stripped-told req vars b read =
      let ds : Diags = (hcl.strip b.body core_arguments).1 in
      elim (Bool-cases (hcl.has_errors ds)) [
        | inl bad ↦ rw bad (failing-told _ _)
        | inr good ↦
            rw (good, read, decode_stripped)
              (decoded_by-told b
                (decode (hcl.strip b.body core_arguments).0 vars req.base_dir req.engine_version))
      ]

  decode_blocks-told :
      (req : DecodeRequest) (vars : Map Text C) (body : B)
      → vars_from_json cty req.variables ≡ ok vars
      → received_end grpc
          (decode_blocks hcl cty gob true decode req (hcl.blocks body req.block_type))
        ≡ told grpc (blocks_here hcl gob decode req vars body)
  unfolding decode_blocks blocks_here passed_by the_block
  decode_blocks-told req vars body read =
      let found = hcl.blocks body req.block_type in
      elim (Bool-cases (hcl.has_errors found.1)) [
        | inl bad ↦ rw bad (failing-told _ _)
        | inr good ↦ elim (Option-cases (find_block req.block_label found.0)) [
          | inl missing_one ↦ rw (good, missing_one, decode_blocks, the_block) (plainly-told _)
          | inr (b, at) ↦
              rw (good, at, decode_blocks, the_block) (decode_stripped-told req vars b read)
        ]
      ]

  decode_config-told :
      (req : DecodeRequest) (vars : Map Text C)
      → vars_from_json cty req.variables ≡ ok vars
      → received_end grpc (decode_config hcl cty gob true (some decode) req)
        ≡ told grpc (decode_here hcl gob decode req vars)
  unfolding decode_config decode_parsed decode_here passed_by diags_text
  decode_config-told req vars read =
      let parsed = hcl.parse req.file (file_named req) in
      elim (Bool-cases (hcl.has_errors parsed.1)) [
        | inl bad ↦ rw bad (failing-told _ _)
        | inr good ↦ rw good (decode_blocks-told req vars parsed.0 read)
      ]

  -- What ctyjson writes it reads back.
  abbrev pub ReadsBack : Type 0
  ReadsBack = (v : C) (b : Text) → cty.marshal v ≡ ok b → cty.unmarshal b ≡ ok v

  vars_from_json-vars_to_json :
      (vars : Map Text C) (sent : Map Text Text)
      → ReadsBack
      → vars_to_json cty vars ≡ ok sent
      → vars_from_json cty sent ≡ ok vars
  unfolding vars_to_json vars_from_json
  vars_from_json-vars_to_json [] sent back h = rw (← ok_injective h) refl
  vars_from_json-vars_to_json ((k, v) ∷ vars) sent back h =
      let (b, (e, rest)) = bind-ok (cty.marshal v) _ sent h in
      let (out, (e', is)) = bind-ok (vars_to_json cty vars) _ sent rest in
      rw (← ok_injective is, back v b e, vars_from_json-vars_to_json vars out back e') refl

  -- DecodeRemote on a module gives what decoding in the host's own process gives: the config's bytes, or
  -- the same message with the diagnostics that are not nil, in order and with their positions, where a
  -- severity that is no warning arrives as an error; if ctyjson reads back what it writes, the
  -- variables can be written, and diagnostics can be attached to a status.
  pub decode_remote-decode_config :
      (file filename type label base version : Text) (vars : Map Text C) (sent : Map Text Text)
      → ReadsBack
      → vars_to_json cty vars ≡ ok sent
      → decode_remote grpc cty
          (decode_config hcl cty gob true (some decode))
          file
          filename
          type
          label
          vars
          base
          version
        ≡ told grpc (
            decode_here hcl gob decode
              (record {
                file = file;
                filename = filename;
                block_type = type;
                block_label = label;
                variables = sent;
                base_dir = base;
                engine_version = version;
              })
              vars)
  unfolding decode_remote
  decode_remote-decode_config file filename type label base version vars sent back e =
      rw (e, decode_remote)
        (decode_config-told
          (record {
            file = file;
            filename = filename;
            block_type = type;
            block_label = label;
            variables = sent;
            base_dir = base;
            engine_version = version;
          })
          vars (vars_from_json-vars_to_json vars sent back e))
