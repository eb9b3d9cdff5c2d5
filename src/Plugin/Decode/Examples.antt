-- ===== src/Plugin/Decode/Examples.antt =====
-- A block that a driver rejects in two places (plugin/server.go, plugin/adapter.go).
use doze_sdk.Strings.{join}
use doze_sdk.Plugin.Conv.{Gob}
use doze_sdk.Plugin.Decode.{
  decode_parsed, find_block, in_source_order, Block, Decoder, Hcl, decode_config, decode_remote,
  with_diags,
}
use doze_sdk.Plugin.Decode.Joined.{decode_here, decode_remote-decode_config, told}
use doze_sdk.Plugin.Diag.{decode_failure, Diagnostic, Range, decode_error, diag_error}
use doze_sdk.Plugin.Rpc.{Grpc, plain, status, status_error, unknown}
use doze_sdk.Plugin.Server.{vars_from_json, CtyJson, vars_to_json}
use doze_sdk.Prelude.{
  sym, Text, [], ◌∷◌, ◌≡◌, codes, err, false, none, ok, pos, refl, some, true, ℕ, text_eq,
}

abbrev direct_grpc : Grpc
direct_grpc = record {
  deliver_error = λ e. elim e [ plain t ↦ status unknown t | status_error c t ↦ status c t ];
  framed = λ c t. t;
  deliver_plain = λ t. refl;
  deliver_status = λ c t. refl;
}

abbrev range_at : ℕ → Range
range_at n = record {
  filename = codes "doze.hcl";
  from = record { line = pos n; column = pos 1; byte = pos n };
  upto = record { line = pos n; column = pos 2; byte = pos n };
}

abbrev complaint_at : ℕ → Diagnostic
complaint_at n = record {
  severity = diag_error;
  summary = codes "bad";
  detail = [];
  subject = some (range_at n);
  context = none;
}

abbrev kv_block : Block Text
kv_block = record { labels = codes "main" ∷ []; body = codes "body"; def_range = range_at 1 }

abbrev small_hcl : Hcl Text
small_hcl = record {
  parse = λ file name. (file, []);
  blocks = λ body type. (kv_block ∷ [], []);
  strip = λ body names. (body, []);
  has_errors = λ ds. false;
  diag_text = λ d. codes "bad";
  diags_error = λ ds. [];
}

abbrev small_cty : CtyJson Text
small_cty = record { marshal = λ c. ok c; unmarshal = λ b. ok b }

abbrev small_gob : Gob Text Text
small_gob = record { encode = λ v. ok v; decode = λ b. ok b }

abbrev rejecting : Decoder Text Text Text
rejecting body vars base version = err (with_diags (complaint_at 9 ∷ complaint_at 4 ∷ []))

decode_remote-decode_config_example :
    decode_remote direct_grpc small_cty
      (decode_config small_hcl small_cty small_gob true (some rejecting))
      (codes "file")
      (codes "doze.hcl")
      (codes "kv")
      (codes "main")
      []
      []
      (codes "16")
    ≡ told direct_grpc (
        decode_here small_hcl small_gob rejecting
          (record {
            file = codes "file";
            filename = codes "doze.hcl";
            block_type = codes "kv";
            block_label = codes "main";
            variables = [];
            base_dir = [];
            engine_version = codes "16";
          })
          [])
decode_remote-decode_config_example =
    decode_remote-decode_config direct_grpc small_hcl small_cty small_gob rejecting (codes "file")
      (codes "doze.hcl") (codes "kv") (codes "main") [] (codes "16") [] [] (λ v b e. sym e)
      (unfold vars_to_json in refl)

rejected_in_order :
    decode_remote direct_grpc small_cty
      (decode_config small_hcl small_cty small_gob true (some rejecting))
      (codes "file")
      (codes "doze.hcl")
      (codes "kv")
      (codes "main")
      []
      []
      (codes "16")
    ≡ err (decode_error (codes "bad\nbad") (complaint_at 4 ∷ complaint_at 9 ∷ []))
unfolding decode_remote decode_config vars_to_json decode_parsed find_block text_eq vars_from_json
    decode_failure in_source_order join
rejected_in_order = refl
