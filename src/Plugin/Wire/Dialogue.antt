-- ===== src/Plugin/Wire/Dialogue.antt =====
-- The dialogue of Handoff with a module of this SDK (plugin/wire.go, plugin/wireserver.go).
use doze_sdk.Strings.{cut_prefix, is_space, skip_space, drop_space, trim_space}
use doze_sdk.Prelude.{
  some, Bool, List, Text, [], err, false, if◌then◌else◌, not, ok, refl, text_eq, true, ◌&&◌, ◌++◌,
  ◌||◌, ◌∷◌, ◌≡◌, Bool-cases, ap, codes, inl, inr, Result, Option, ◌∙◌, In,
}
use doze_sdk.Plugin.Wire.{
  WireHost, HostCall, HandoffEnd, Session, Handled, Handshake, PluginEvent, core_line, on_line,
  on_close, talk, after_handshake, one_line, wire_plugin, listening, closed, boot_called,
  acquire_called, release_called, returned_nil, returned_error, refused, handled, passed, dialed,
  replayed, cleaned, spliced, read_message, on_message, opened, Ended, serve_backend, on_answer,
  says_error, core_boot, Preamble, handle, msg_boot, Process, tell, hear,
}

-- The backend is reached and has what is to be replayed.
abbrev pub reaches : Handled → Text → Text → Bool
reaches f replay socket = f.dial socket && (text_eq replay [] || f.write)

abbrev pub is_served : Handshake → Bool
is_served hs = hs.ready && not hs.failed

-- What the host is asked for: nothing, where the preamble ends the connection; a boot; and the
-- accounting of the bytes that are copied, where the handshake with the backend succeeds.
abbrev pub expected_calls : WireHost → Handled → List HostCall
expected_calls h f = if not f.received then [] else elim f.preamble [
  | refused e ↦ []
  | handled ↦ []
  | passed replay ↦ elim h.boot [
    | err e ↦ boot_called ∷ []
    | ok socket ↦
        if reaches f replay socket && is_served f.handshake
        then boot_called ∷ acquire_called ∷ release_called ∷ []
        else boot_called ∷ []
  ]
]

-- How Handoff returns: with the preamble's error, or Boot's, or none.
abbrev pub expected_end : WireHost → Handled → HandoffEnd
expected_end h f = if not f.received then returned_nil else elim f.preamble [
  | refused e ↦ wire_plugin (one_line e)
  | handled ↦ returned_nil
  | passed replay ↦ elim h.boot [ err e ↦ returned_error e | ok socket ↦ returned_nil ]
]

-- What the module does: it dials the backend that Boot gave, replays what there is to replay, copies
-- if the handshake succeeds, and cleans up after a handshake.
abbrev pub expected_events : WireHost → Handled → List PluginEvent
expected_events h f = if not f.received then [] else elim f.preamble [
  | refused e ↦ []
  | handled ↦ []
  | passed replay ↦ elim h.boot [
    | err e ↦ []
    | ok socket ↦
        (if f.dial socket then dialed socket ∷ [] else [])
        ++ ((if f.dial socket && not (text_eq replay []) then replayed replay ∷ [] else [])
            ++ ((if reaches f replay socket && is_served f.handshake then spliced ∷ [] else [])
                ++ (if reaches f replay socket && f.handshake.has_cleanup
                    then cleaned ∷ []
                    else [])))
  ]
]

abbrev booted : Session
booted = record { core = listening; inbox = []; calls = boot_called ∷ [] }

-- The session after a boot, once the module is through
abbrev ended_session : Bool → Session
ended_session served = record {
  core = closed returned_nil;
  inbox = [];
  calls = if served then boot_called ∷ acquire_called ∷ release_called ∷ [] else boot_called ∷ [];
}

-- A text that is one line, which TrimSpace leaves as it is
abbrev pub IsLine : Text → Type 0
IsLine t = (trim_space t ≡ t) × ¬ In b'\n' t

talk-after_handshake :
    (h : WireHost) (ready has_cleanup failed : Bool)
    → let hs : Handshake = record { ready = ready; has_cleanup = has_cleanup; failed = failed } in
      talk h (after_handshake hs) booted ≡ record {
        events =
            (if is_served hs then spliced ∷ [] else [])
            ++ (if has_cleanup then cleaned ∷ [] else []);
        session = ended_session (is_served hs);
        stuck = false;
      }
unfolding talk after_handshake on_line on_close core_line read_message on_message trim_space
    skip_space drop_space is_space text_eq cut_prefix
talk-after_handshake h true true true = refl
talk-after_handshake h true true false = refl
talk-after_handshake h true false true = refl
talk-after_handshake h true false false = refl
talk-after_handshake h false true true = refl
talk-after_handshake h false true false = refl
talk-after_handshake h false false true = refl
talk-after_handshake h false false false = refl

talk-serve_backend :
    (h : WireHost) (f : Handled) (replay socket : Text)
    → talk h (serve_backend f replay socket) booted ≡ record {
      events =
          (if f.dial socket then dialed socket ∷ [] else [])
          ++ ((if f.dial socket && not (text_eq replay []) then replayed replay ∷ [] else [])
              ++ ((if reaches f replay socket && is_served f.handshake then spliced ∷ [] else [])
                  ++ (if reaches f replay socket && f.handshake.has_cleanup
                      then cleaned ∷ []
                      else [])));
      session = ended_session (reaches f replay socket && is_served f.handshake);
      stuck = false;
    }
unfolding serve_backend talk on_close text_eq
talk-serve_backend h f [] socket = elim (Bool-cases (f.dial socket)) [
  | inr unreached ↦ rw (unreached, serve_backend) refl
  | inl there ↦
      rw (there, serve_backend)
        (ap (λ (d : Ended). record d { events = dialed socket ∷ d.events })
          (talk-after_handshake h f.handshake.ready f.handshake.has_cleanup f.handshake.failed))
]
talk-serve_backend h f (c ∷ replay) socket = elim (Bool-cases (f.dial socket)) [
  | inr unreached ↦ rw (unreached, serve_backend) refl
  | inl there ↦ elim (Bool-cases f.write) [
    | inr unwritten ↦ rw (there, serve_backend, unwritten) refl
    | inl sent ↦
        rw (there, serve_backend, sent)
          (ap
            (λ (d : Ended). record d { events = dialed socket ∷ replayed (c ∷ replay) ∷ d.events })
            (talk-after_handshake h f.handshake.ready f.handshake.has_cleanup f.handshake.failed))
  ]
]

-- The lines that carry a text keep it, if TrimSpace does.
abbrev pub WellSpoken : WireHost → Handled → Type 0
WellSpoken h f =
    ((e : Text) → f.preamble ≡ refused e → IsLine (codes "error " ++ one_line e))
    × ((socket : Text) → h.boot ≡ ok socket → IsLine (codes "backend " ++ socket))

cut_prefix-line :
    (socket : Text)
    → IsLine (codes "backend " ++ socket)
    → cut_prefix (codes "backend ") (trim_space (codes "backend " ++ socket)) ≡ some socket
unfolding cut_prefix text_eq
cut_prefix-line socket line = rw line.0 refl

-- A connection that the driver passes on, from the answer to "boot"
talk-on_answer :
    (h : WireHost) (f : Handled) (replay : Text) (socket : Text)
    → IsLine (codes "backend " ++ socket)
    → talk h (on_answer f replay (some (codes "backend " ++ socket))) booted
      ≡ talk h (serve_backend f replay socket) booted
unfolding on_answer
talk-on_answer h f replay socket line = rw (cut_prefix-line socket line, on_answer) refl

-- A preamble's error
read_message-error :
    (text : Text)
    → IsLine (codes "error " ++ text)
    → read_message (codes "error " ++ text) ≡ says_error text
unfolding read_message cut_prefix text_eq
read_message-error text line = rw (line.0, read_message) refl

on_line-boot :
    (socket : Text)
    → on_line (record { boot = ok socket }) msg_boot opened
      ≡ record booted { inbox = (codes "backend " ++ socket) ∷ [] }
unfolding on_line core_line read_message on_message core_boot trim_space skip_space drop_space
    is_space text_eq cut_prefix
on_line-boot socket = refl

talk-hear :
    (h : WireHost) (k : Option Text → Process) (line : Text)
    → talk h (hear k) (record booted { inbox = line ∷ [] }) ≡ talk h (k (some line)) booted
unfolding talk
talk-hear h k line = refl

talk-boot :
    (socket : Text) (k : Option Text → Process)
    → talk (record { boot = ok socket }) (tell msg_boot (hear k)) opened
      ≡ talk (record { boot = ok socket }) (k (some (codes "backend " ++ socket))) booted
unfolding talk
talk-boot socket k =
    ap (λ s. talk (record { boot = ok socket }) (hear k) s) (on_line-boot socket)
    ∙ talk-hear (record { boot = ok socket }) k (codes "backend " ++ socket)

talk-passed :
    (socket replay : Text) (dial : Text → Bool) (can_write : Bool) (hs : Handshake)
    → let h : WireHost = record { boot = ok socket } in
      let f : Handled = record {
        received = true;
        preamble = passed replay;
        dial = dial;
        write = can_write;
        handshake = hs;
      } in
      IsLine (codes "backend " ++ socket)
      → talk h (handle f) opened ≡ talk h (serve_backend f replay socket) booted
unfolding handle
talk-passed socket replay dial can_write hs line =
    let f : Handled = record {
      received = true;
      preamble = passed replay;
      dial = dial;
      write = can_write;
      handshake = hs;
    } in
    talk-boot socket (on_answer f replay)
    ∙ talk-on_answer (record { boot = ok socket }) f replay socket line

talk-filtered :
    (boot : Result Text Text) (came : Bool) (p : Preamble) (dial : Text → Bool) (can_write : Bool)
    (hs : Handshake)
    → let h : WireHost = record { boot = boot } in
      let f : Handled = record {
        received = came;
        preamble = p;
        dial = dial;
        write = can_write;
        handshake = hs;
      } in
      WellSpoken h f
      → talk h (handle f) opened ≡ record {
        events = expected_events h f;
        session = record {
          core = closed (expected_end h f);
          inbox = [];
          calls = expected_calls h f;
        };
        stuck = false;
      }
unfolding talk handle on_answer on_line on_close core_line core_boot read_message on_message
    trim_space skip_space drop_space is_space text_eq cut_prefix
talk-filtered boot false p dial can_write hs well = refl
talk-filtered boot true handled dial can_write hs well = refl
talk-filtered boot true (refused e) dial can_write hs well =
    rw (read_message-error (one_line e) (well.0 e refl), core_line) refl
talk-filtered (err e) true (passed replay) dial can_write hs well = refl
talk-filtered (ok socket) true (passed replay) dial can_write hs well =
    talk-passed socket replay dial can_write hs (well.1 socket refl)
    ∙ talk-serve_backend (record { boot = ok socket })
        (record {
          received = true;
          preamble = passed replay;
          dial = dial;
          write = can_write;
          handshake = hs;
        })
        replay socket

-- A dialogue with such lines ends, neither side waiting for the other: no line is left unread, the
-- module does what is expected of it, the host is asked for what is expected of it, and Handoff
-- returns as expected.
pub talk-handle :
    (h : WireHost) (f : Handled)
    → WellSpoken h f
    → talk h (handle f) opened ≡ record {
      events = expected_events h f;
      session = record { core = closed (expected_end h f); inbox = []; calls = expected_calls h f };
      stuck = false;
    }
talk-handle h f well = talk-filtered h.boot f.received f.preamble f.dial f.write f.handshake well
