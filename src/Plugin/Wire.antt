-- ===== src/Plugin/Wire.antt =====
-- plugin/wire.go and plugin/wireserver.go: the lines that the host and a module exchange beside a
-- client's connection that the host hands off. Each side is what it does with the other's lines; what
-- the two do in between, such as copying bytes, is an event. A line is read when its reader waits for
-- it: either side reads its lines in order, so another timing gives the same dialogue.
pub mod Balanced
pub mod Dialogue
pub mod Registry
mod Examples
use doze_sdk.Plugin.Adapter.{asked}
use doze_sdk.Engine.Types.{raw}
use doze_sdk.Prelude.{
  Bool, List, Option, Result, Text, [], codes, err, false, if◌then◌else◌, none, not, ok, some,
  text_eq, true, ◌++◌, ◌||◌, ◌∷◌,
}
use doze_sdk.Strings.{trim_space, cut_prefix, replace_byte}

-- What the host's Boot gives: the backend's socket or an error
pub record WireHost : Type 0 where
  pub boot : Result Text Text

-- The calls of the host that a handoff makes
pub data HostCall : Type 0 where
  boot_called : HostCall
  acquire_called : HostCall
  release_called : HostCall

-- How Handoff returns: nil, ErrNoWireProxy, or an error's text
pub data HandoffEnd : Type 0 where
  returned_nil : HandoffEnd
  no_wire_proxy : HandoffEnd
  returned_error : Text → HandoffEnd

-- Where the loop of Handoff stands
pub data CoreState : Type 0 where
  listening : CoreState
  splicing : CoreState
  closed : HandoffEnd → CoreState

-- A dialogue: the host's side, its lines that the module has not read, and the calls it made.
pub record Session : Type 0 where
  pub core : CoreState
  pub inbox : List Text
  pub calls : List HostCall

abbrev pub opened : Session
opened = record { core = listening; inbox = []; calls = [] }

-- msgBoot, msgHandled, msgSplice
abbrev pub msg_boot : Text
msg_boot = codes "boot"

abbrev pub msg_handled : Text
msg_handled = codes "handled"

abbrev pub msg_splice : Text
msg_splice = codes "splice"

-- oneLine
unfoldable pub one_line : Text → Text
one_line s = replace_byte b'\n' b' ' s

-- The case of the loop for "boot"
unfoldable pub core_boot : WireHost → Session → Session
unfolding one_line
core_boot h s = elim h.boot [
  | err e ↦ record {
    core = closed (returned_error e);
    inbox = s.inbox ++ (codes "bootfail " ++ one_line e) ∷ [];
    calls = s.calls ++ boot_called ∷ [];
  }
  | ok socket ↦ record {
    core = listening;
    inbox = s.inbox ++ (codes "backend " ++ socket) ∷ [];
    calls = s.calls ++ boot_called ∷ [];
  }
]

abbrev pub wire_plugin : Text → HandoffEnd
wire_plugin text = returned_error (codes "wire plugin: " ++ text)

-- The cases of the switch of Handoff on a line
pub data Message : Type 0 where
  says_handled : Message
  says_boot : Message
  says_splice : Message
  says_error : Text → Message
  unexpected : Text → Message

unfoldable pub read_message : Text → Message
read_message said =
    let line = trim_space said in
    if text_eq line msg_handled
    then says_handled
    else if text_eq line msg_boot
    then says_boot
    else if text_eq line msg_splice
    then says_splice
    else elim (cut_prefix (codes "error ") line) [
      | some text ↦ says_error text
      | none ↦ unexpected line
    ]

-- A case of the switch; the message on an unexpected line quotes it, which the model leaves bare.
unfoldable pub on_message : WireHost → Message → Session → Session
unfolding core_boot
on_message h says_handled s = record s { core = closed returned_nil }
on_message h says_boot s = core_boot h s
on_message h says_splice s = record s { core = splicing; calls = s.calls ++ acquire_called ∷ [] }
on_message h (says_error text) s = record s { core = closed (wire_plugin text) }
on_message h (unexpected line) s = record s {
  core = closed (wire_plugin (codes "unexpected message " ++ line));
}

-- One round of the loop of Handoff, for a line
unfoldable pub core_line : WireHost → Text → Session → Session
core_line h said s = on_message h (read_message said) s

-- A line reaches the host: it is read by the loop, discarded while splicing, or not read any more.
unfoldable pub on_line : WireHost → Text → Session → Session
unfolding core_line
on_line h line s = elim s.core [ listening ↦ core_line h line s | splicing ↦ s | closed e ↦ s ]

-- What Handoff returns for a read that ends: nil on EOF, or else the read's error
abbrev pub read_end : Option Text → HandoffEnd
read_end none = returned_nil
read_end (some e) = returned_error e

-- The lines of the module's side end, with EOF or another error: of a read, or of the copy, which drops it.
unfoldable pub on_close : Option Text → Session → Session
on_close ending s = elim s.core [
  | listening ↦ record s { core = closed (read_end ending) }
  | splicing ↦ record s { core = closed returned_nil; calls = s.calls ++ release_called ∷ [] }
  | closed e ↦ s
]

-- What the module does beside the lines
pub data PluginEvent : Type 0 where
  dialed : Text → PluginEvent
  replayed : Text → PluginEvent
  cleaned : PluginEvent
  spliced : PluginEvent

-- A module's side: it ends and closes, its connection breaks off, it tells a line, waits for one (none is the end of the lines), or
-- does something else.
pub data Process : Type 0 where
  finish : Process
  break_off : Text → Process
  tell : Text → Process → Process
  hear : (Option Text → Process) → Process
  act : PluginEvent → Process → Process

-- How a dialogue ends: what the module did, how the host's side stands, and whether the two wait for
-- one another for ever.
pub record Ended : Type 0 where
  pub events : List PluginEvent
  pub session : Session
  pub stuck : Bool

abbrev pub is_closed : CoreState → Bool
is_closed listening = false
is_closed splicing = false
is_closed (closed e) = true

-- The dialogue of a module's side with the loop of Handoff
unfoldable pub talk : WireHost → Process → Session → Ended
unfolding on_line on_close
talk h finish s = record { events = []; session = on_close none s; stuck = false }
talk h (break_off e) s = record { events = []; session = on_close (some e) s; stuck = false }
talk h (tell line p) s = talk h p (on_line h line s)
talk h (act e p) s =
    let rest = talk h p s in
    record { events = e ∷ rest.events; session = rest.session; stuck = rest.stuck }
talk h (hear k) s =
    let ended = talk h (k none) s in
    let answered =
      λ (line : Text) (lines : List Text). talk h (k (some line)) (record s { inbox = lines }) in
    elim s.inbox [
      | line ∷ lines ↦ answered line lines
      | [] ↦ if is_closed s.core then ended else record { events = []; session = s; stuck = true }
    ]

-- What the driver's filter gives: for Preamble an error, Handled or what to replay, for Handshake its
-- readiness, a cleanup and an error.
pub data Preamble : Type 0 where
  refused : Text → Preamble
  handled : Preamble
  passed : Text → Preamble

pub record Handshake : Type 0 where
  pub ready : Bool
  pub has_cleanup : Bool
  pub failed : Bool

-- What `handle` meets: whether the client's connection arrives, the filter, whether the backend can be
-- dialed and written to.
pub record Handled : Type 0 where
  pub received : Bool
  pub preamble : Preamble
  pub dial : Text → Bool
  pub write : Bool
  pub handshake : Handshake

-- The end of handle, with the deferred cleanup
abbrev pub cleanup : Handshake → Process
cleanup hs = if hs.has_cleanup then act cleaned finish else finish

-- handle once the backend is dialed and has the replayed bytes
unfoldable pub after_handshake : Handshake → Process
after_handshake hs =
    if hs.failed || not hs.ready then cleanup hs else tell msg_splice (act spliced (cleanup hs))

-- handle from the dialing of the backend
unfoldable pub serve_backend : Handled → Text → Text → Process
unfolding after_handshake
serve_backend f replay socket =
    if not (f.dial socket)
    then finish
    else if text_eq replay []
    then act (dialed socket) (after_handshake f.handshake)
    else act (dialed socket)
        (act (replayed replay) (if f.write then after_handshake f.handshake else finish))

-- handle on the answer to "boot"
unfoldable pub on_answer : Handled → Text → Option Text → Process
on_answer f replay none = finish
on_answer f replay (some line) = elim (cut_prefix (codes "backend ") (trim_space line)) [
  | none ↦ finish
  | some socket ↦ serve_backend f replay socket
]

-- handle
unfoldable pub handle : Handled → Process
handle f = if not f.received then finish else elim f.preamble [
  | refused e ↦ tell (codes "error " ++ one_line e) finish
  | handled ↦ tell msg_handled finish
  | passed replay ↦ tell msg_boot (hear (on_answer f replay))
]

-- The path of the module's socket: it is asked for once, and "" stands for a failed call.
unfoldable pub wire_addr : Result Text Text → Option Text → Text × Option Text
wire_addr asked (some path) = (path, some path)
wire_addr (ok path) none = (path, some path)
wire_addr (err e) none = ([], some [])

-- What Handoff meets before its loop: whether the module advertised a filter, its socket's path,
-- whether the client's descriptor can be passed, and how dialing and sending end.
pub record Approach : Type 0 where
  pub advertised : Bool
  pub addr : Text
  pub passable : Bool
  pub dial_error : Option Text
  pub send_error : Option Text

-- Handoff: how it ends before the loop, if it does
unfoldable pub refusal : Approach → Option HandoffEnd
refusal a =
    if not a.advertised || (text_eq a.addr [] || not a.passable)
    then some no_wire_proxy
    else elim a.dial_error [
      | some e ↦ some (returned_error (codes "dialing wire socket: " ++ e))
      | none ↦ elim a.send_error [
        | some e ↦ some (returned_error (codes "handing off client fd: " ++ e))
        | none ↦ none
      ]
    ]

-- Handoff, with a module's side
unfoldable pub handoff : WireHost → Approach → Process → Ended
unfolding refusal talk
handoff h a p = elim (refusal a) [
  | some e ↦ record { events = []; session = record opened { core = closed e }; stuck = false }
  | none ↦ talk h p opened
]
