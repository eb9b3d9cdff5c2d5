-- ===== src/Plugin/Diag/Crossing.antt =====
-- The diagnostics that a host reads are those of the module (plugin/diag.go).
use doze_sdk.Prelude.{
  Bool, List, Option, Text, [], false, if◌then◌else◌, none, refl, some, true, ◌∷◌, ◌≡◌, subst,
}
use doze_sdk.Plugin.Rpc.{Grpc, user_error, status, unknown}
use doze_sdk.Plugin.Diag.{
  Diagnostic, Range, Severity, diag_invalid, diag_error, diag_warning, range_to_proto,
  range_from_proto, diags_to_proto, diags_from_proto, diag_to_proto, diag_from_proto,
  decode_failure, decode_error_from, decode_error, text_alone, is_warning, Decoded, first_diags,
  DiagnosticMessage,
}

-- A severity that is neither is an error on the other side.
abbrev pub settled : Severity → Severity
settled diag_invalid = diag_error
settled diag_error = diag_error
settled diag_warning = diag_warning

-- The diagnostics that are not nil, with their severities settled
abbrev pub present : List (Option Diagnostic) → List Diagnostic
present [] = []
present (none ∷ ds) = present ds
present (some d ∷ ds) = record d { severity = settled d.severity } ∷ present ds

range_crosses : (r : Option Range) → range_from_proto (range_to_proto r) ≡ r
unfolding range_from_proto range_to_proto
range_crosses none = refl
range_crosses (some r) = refl

severity_crosses : (s : Severity) → (if is_warning s then diag_warning else diag_error) ≡ settled s
severity_crosses diag_invalid = refl
severity_crosses diag_error = refl
severity_crosses diag_warning = refl

diag_crosses :
    (d : Diagnostic)
    → diag_from_proto (diag_to_proto d) ≡ record d { severity = settled d.severity }
unfolding diag_from_proto diag_to_proto
diag_crosses d =
    rw (severity_crosses d.severity, range_crosses d.subject, range_crosses d.context) refl

diags_cross : (ds : List (Option Diagnostic)) → diags_from_proto (diags_to_proto ds) ≡ present ds
unfolding diags_from_proto diags_to_proto
diags_cross [] = refl
diags_cross (none ∷ ds) = diags_cross ds
diags_cross (some d ∷ ds) = rw (diag_crosses d, diags_cross ds) refl

-- What a host makes of a message and its diagnostics
abbrev pub heard : Grpc → Text → List Diagnostic → Decoded
heard grpc msg [] = text_alone (user_error grpc (status unknown msg))
heard grpc msg (d ∷ ds) = decode_error msg (d ∷ ds)

attached_lem :
    (grpc : Grpc) (msg : Text) (ms : List DiagnosticMessage)
    → decode_error_from grpc (record { message = msg; details = some ms ∷ [] })
      ≡ heard grpc msg (diags_from_proto ms)
unfolding decode_error_from first_diags diags_from_proto
attached_lem grpc msg [] = refl
attached_lem grpc msg (m ∷ ms) = refl

-- A failed DecodeConfig reaches the host as a DecodeError with its message and every diagnostic that is
-- not nil, positions included, in order, where a severity that is no warning arrives as an error; it
-- is its text alone if no diagnostic is there or the details could not be attached.
pub decode_error_from-decode_failure :
    (grpc : Grpc) (attached : Bool) (msg : Text) (ds : List (Option Diagnostic))
    → decode_error_from grpc (decode_failure attached msg ds)
      ≡ heard grpc msg (if attached then present ds else [])
unfolding decode_error_from decode_failure first_diags
decode_error_from-decode_failure grpc false msg [] = refl
decode_error_from-decode_failure grpc true msg [] = refl
decode_error_from-decode_failure grpc false msg (d ∷ ds) = refl
decode_error_from-decode_failure grpc true msg (d ∷ ds) =
    subst (λ p. decode_error_from grpc (decode_failure true msg (d ∷ ds)) ≡ heard grpc msg p)
      (diags_cross (d ∷ ds)) (attached_lem grpc msg (diags_to_proto (d ∷ ds)))
