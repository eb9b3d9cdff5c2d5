-- ===== src/Plugin/Diag/Examples.antt =====
-- A block that a module rejects with a position, a warning and a nil diagnostic.
use doze_sdk.Prelude.{List, Option, [], codes, none, pos, refl, some, true, ◌∷◌, ◌≡◌}
use doze_sdk.Plugin.Rpc.{Grpc, unknown, status_error, status, plain}
use doze_sdk.Plugin.Diag.{
  Range, Diagnostic, diag_error, diag_warning, decode_failure, decode_error_from,
}
use doze_sdk.Plugin.Diag.Crossing.{heard, present}

abbrev bare_grpc : Grpc
bare_grpc = record {
  deliver_error = λ e. elim e [ plain t ↦ status unknown t | status_error c t ↦ status c t ];
  framed = λ c t. t;
  deliver_plain = λ t. refl;
  deliver_status = λ c t. refl;
}

abbrev at_line_three : Range
at_line_three = record {
  filename = codes "doze.hcl";
  from = record { line = pos 3; column = pos 1; byte = pos 40 };
  upto = record { line = pos 3; column = pos 5; byte = pos 44 };
}

abbrev complaints : List (Option Diagnostic)
complaints =
    some (record {
      severity = diag_error;
      summary = codes "no port";
      detail = [];
      subject = some at_line_three;
      context = none;
    })
    ∷ none
    ∷ some (record {
      severity = diag_warning;
      summary = codes "old";
      detail = [];
      subject = none;
      context = none;
    })
    ∷ []

complaints_cross :
    decode_error_from bare_grpc (decode_failure true (codes "no port") complaints)
    ≡ heard bare_grpc (codes "no port") (present complaints)
unfolding decode_error_from decode_failure
complaints_cross = refl
