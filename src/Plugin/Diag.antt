-- ===== src/Plugin/Diag.antt =====
-- plugin/diag.go: the diagnostics of a failed DecodeConfig across the wire. A Go int and an int64 have
-- the same range, so a position is a ℤ on both sides. The fields of hcl's types are those that the
-- code reads and sets. A status has its details, of which those of another type are none.
pub mod Crossing
mod Examples
use doze_sdk.Plugin.Rpc.{Grpc, user_error, unknown, status}
use doze_sdk.Prelude.{
  Bool, List, Option, Text, [], false, if◌then◌else◌, map, none, pos, some, true, ℤ, ◌∷◌,
}

-- hcl.Pos
pub record Pos : Type 0 where
  pub line : ℤ
  pub column : ℤ
  pub byte : ℤ

-- hcl.Range
pub record Range : Type 0 where
  pub filename : Text
  pub from : Pos
  pub upto : Pos

-- hcl.DiagnosticSeverity
pub data Severity : Type 0 where
  diag_invalid : Severity
  diag_error : Severity
  diag_warning : Severity

-- hcl.Diagnostic
pub record Diagnostic : Type 0 where
  pub severity : Severity
  pub summary : Text
  pub detail : Text
  pub subject : Option Range
  pub context : Option Range

-- SourcePos
pub record SourcePos : Type 0 where
  pub line : ℤ
  pub column : ℤ
  pub byte : ℤ

-- SourceRange
pub record SourceRange : Type 0 where
  pub filename : Text
  pub from : Option SourcePos
  pub upto : Option SourcePos

-- Diagnostic of the protocol
pub record DiagnosticMessage : Type 0 where
  pub warning : Bool
  pub summary : Text
  pub detail : Text
  pub subject : Option SourceRange
  pub context : Option SourceRange

-- posToProto
unfoldable pub pos_to_proto : Pos → SourcePos
pos_to_proto p = record { line = p.line; column = p.column; byte = p.byte }

-- posFromProto
unfoldable pub pos_from_proto : Option SourcePos → Pos
pos_from_proto none = record { line = pos 0; column = pos 0; byte = pos 0 }
pos_from_proto (some p) = record { line = p.line; column = p.column; byte = p.byte }

-- rangeToProto
unfoldable pub range_to_proto : Option Range → Option SourceRange
unfolding pos_to_proto
range_to_proto none = none
range_to_proto (some r) = some (record {
  filename = r.filename;
  from = some (pos_to_proto r.from);
  upto = some (pos_to_proto r.upto);
})

-- rangeFromProto
unfoldable pub range_from_proto : Option SourceRange → Option Range
unfolding pos_from_proto
range_from_proto none = none
range_from_proto (some r) =
    some
      (record { filename = r.filename; from = pos_from_proto r.from; upto = pos_from_proto r.upto })

abbrev pub is_warning : Severity → Bool
is_warning diag_invalid = false
is_warning diag_error = false
is_warning diag_warning = true

-- The message of one diagnostic
unfoldable pub diag_to_proto : Diagnostic → DiagnosticMessage
unfolding range_to_proto
diag_to_proto d = record {
  warning = is_warning d.severity;
  summary = d.summary;
  detail = d.detail;
  subject = range_to_proto d.subject;
  context = range_to_proto d.context;
}

-- diagsToProto, which leaves nil diagnostics out
unfoldable pub diags_to_proto : List (Option Diagnostic) → List DiagnosticMessage
unfolding diag_to_proto
diags_to_proto [] = []
diags_to_proto (none ∷ ds) = diags_to_proto ds
diags_to_proto (some d ∷ ds) = diag_to_proto d ∷ diags_to_proto ds

-- The diagnostic of one message
unfoldable pub diag_from_proto : DiagnosticMessage → Diagnostic
unfolding range_from_proto
diag_from_proto m = record {
  severity = if m.warning then diag_warning else diag_error;
  summary = m.summary;
  detail = m.detail;
  subject = range_from_proto m.subject;
  context = range_from_proto m.context;
}

-- diagsFromProto
unfoldable pub diags_from_proto : List DiagnosticMessage → List Diagnostic
unfolding diag_from_proto
diags_from_proto ms = map diag_from_proto ms

-- A status with its details
pub record Failure : Type 0 where
  pub message : Text
  pub details : List (Option (List DiagnosticMessage))

-- decodeFailure; `attached` says whether WithDetails ends without an error
unfoldable pub decode_failure : Bool → Text → List (Option Diagnostic) → Failure
unfolding diags_to_proto
decode_failure attached msg [] = record { message = msg; details = [] }
decode_failure attached msg (d ∷ ds) =
    if attached
    then record { message = msg; details = some (diags_to_proto (d ∷ ds)) ∷ [] }
    else record { message = msg; details = [] }

-- What DecodeRemote fails with: a DecodeError, or a text alone
pub data Decoded : Type 0 where
  decode_error : Text → List Diagnostic → Decoded
  text_alone : Text → Decoded

-- The loop of decodeErrorFrom over the details
unfoldable pub first_diags :
    List (Option (List DiagnosticMessage)) → Option (List DiagnosticMessage)
first_diags [] = none
first_diags (none ∷ ds) = first_diags ds
first_diags (some [] ∷ ds) = first_diags ds
first_diags (some (m ∷ ms) ∷ ds) = some (m ∷ ms)

-- decodeErrorFrom, of an error that is a status of the code Unknown
unfoldable pub decode_error_from : Grpc → Failure → Decoded
unfolding first_diags diags_from_proto user_error
decode_error_from grpc f = elim (first_diags f.details) [
  | some ms ↦ decode_error f.message (diags_from_proto ms)
  | none ↦ text_alone (user_error grpc (status unknown f.message))
]
