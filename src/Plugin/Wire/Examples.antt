-- ===== src/Plugin/Wire/Examples.antt =====
-- Handoffs and registrations that run (plugin/wire.go, plugin/wireserver.go).
use doze_sdk.Plugin.Wire.Registry.{
  CancelTarget, Registry, no_head, register, with_head, Registered, register_ends,
}
use doze_sdk.Plugin.Wire.Dialogue.{WellSpoken, talk-handle, IsLine}
use doze_sdk.Plugin.Wire.Balanced.{IsSettled, handoff-IsSettled}
use doze_sdk.Plugin.Wire.{
  finish, WireHost, opened, msg_boot, msg_splice, one_line, Process, talk, Handled, handle,
  Approach, handoff, boot_called, acquire_called, release_called, returned_nil, closed, dialed,
  replayed, cleaned, spliced, tell, hear, act, passed,
}
use doze_sdk.Prelude.{
  codes, ok, err, some, none, true, false, refl, [], ◌∷◌, ◌≡◌, Text, text_eq, length, ◌<◌, arith,
  List, insert, lookup, text_key, int_key, Distinct, FreshFrom-Distinct, nat_key, ap, subst, ◌++◌,
  In, In→contains, contains,
}
use doze_sdk.Strings.{is_space, skip_space, drop_space, trim_space}

abbrev host : WireHost
host = record { boot = ok (codes "/run/pg") }

abbrev direct : Approach
direct = record {
  advertised = true;
  addr = codes "/run/w";
  passable = true;
  dial_error = none;
  send_error = none;
}

abbrev client : Handled
client = record {
  received = true;
  preamble = passed (codes "hi");
  dial = λ socket. text_eq socket (codes "/run/pg");
  write = true;
  handshake = record { ready = true; has_cleanup = true; failed = false };
}

-- A module that asks for a boot twice before it copies
abbrev two_boots : Process
two_boots =
    tell msg_boot (hear (λ a. tell msg_boot (hear (λ b. tell msg_splice (act spliced finish)))))

handoff-IsSettled_example : IsSettled (handoff host direct two_boots)
handoff-IsSettled_example = handoff-IsSettled host direct two_boots

one_socket_line : ¬ In b'\n' (codes "backend /run/pg")
unfolding contains
one_socket_line i =
    let found : false ≡ true = In→contains (codes "backend /run/pg") b'\n' i in absurd (cc)

client-WellSpoken : WellSpoken host client
unfolding trim_space skip_space drop_space is_space one_line text_eq
client-WellSpoken = (
  λ e p. absurd (cc),
  λ socket p.
      subst (λ s. IsLine (codes "backend " ++ s)) (ap (λ r. elim r [ ok s ↦ s | err e ↦ [] ]) p)
        (refl, one_socket_line),
)

talk-handle_example : talk host (handle client) opened ≡ record {
  events = dialed (codes "/run/pg") ∷ replayed (codes "hi") ∷ spliced ∷ cleaned ∷ [];
  session = record {
    core = closed returned_nil;
    inbox = [];
    calls = boot_called ∷ acquire_called ∷ release_called ∷ [];
  };
  stuck = false;
}
unfolding text_eq
talk-handle_example = talk-handle host client client-WellSpoken

abbrev target : CancelTarget
target = record { backend_socket = codes "/run/pg"; key = 7 ∷ 7 ∷ [] }

abbrev first_key : Text
first_key = 0 ∷ 0 ∷ 0 ∷ 1 ∷ 0 ∷ 0 ∷ 0 ∷ 0 ∷ []

abbrev headless : Text
headless = 0 ∷ 0 ∷ 0 ∷ 0 ∷ 9 ∷ 0 ∷ 0 ∷ 0 ∷ []

abbrev second_key : Text
second_key = 1 ∷ 0 ∷ 0 ∷ 0 ∷ 0 ∷ 0 ∷ 0 ∷ 0 ∷ []

abbrev registry : Registry
registry = (first_key, target) ∷ []

abbrev draws : List Text
draws = headless ∷ first_key ∷ second_key ∷ []

draws-Distinct : Distinct draws
unfolding text_eq
draws-Distinct = ((FreshFrom-Distinct (λ x. false) draws).0 (refl, (refl, (refl, tt)))).0

draws_more : length registry < length (with_head draws)
unfolding with_head no_head
draws_more = omega arith

register_ends_example :
    (key : Text) × (later : Registry) × ((register target draws registry ≡ some (key, later))
      × Registered target draws registry key later)
register_ends_example = register_ends target draws registry draws-Distinct draws_more

second_draw :
    register target draws registry
    ≡ some (second_key, (first_key, target) ∷ (second_key, target) ∷ [])
unfolding register no_head lookup insert text_eq
second_draw = refl
