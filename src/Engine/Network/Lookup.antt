-- ===== src/Engine/Network/Lookup.antt =====
-- What a host looks up in a network and in a grant: `DefaultNetwork`, `Listener`, `Backend` and `Addr`
-- of engine/network.go.
use doze_sdk.Engine.Route.{label_chars, last_byte, is_label}
use doze_sdk.Engine.Network.{Listener, main_listener, protocol_tcp, validate_network}
use doze_sdk.Engine.Network.Contract.{validate_network-IsValid}
use doze_sdk.Engine.Network.Loop.{names_of}
use doze_sdk.Engine.Types.{Grant, GrantedListener}
use doze_sdk.Prelude.{
  Bool-cases, Distinct, In, List, Option, Text, [], ap, if◌then◌else◌, inl, inr, lookup, none, pos,
  refl, some, sym, text_eq, text_eq_iff, text_key, ◌∷◌, ◌≡◌, int_key,
}

-- DefaultNetwork
abbrev default_network : List Listener
default_network =
    record { name = main_listener; port = pos 0; protocol = protocol_tcp; routes = [] } ∷ []

-- Listener
unfoldable listener_named : List Listener → Text → Option Listener
listener_named [] name = none
listener_named (l ∷ ls) name = if text_eq l.name name then some l else listener_named ls name

-- A field of a granted listener, unless it is missing or empty
unfoldable unless_empty : (GrantedListener → Text) → Option GrantedListener → Option Text
unless_empty field none = none
unless_empty field (some l) = if text_eq (field l) [] then none else some (field l)

-- Backend
unfoldable granted_backend : Grant → Text → Option Text
granted_backend g name = unless_empty (λ l. l.backend) (lookup name g.listeners)

-- Addr
unfoldable granted_addr : Grant → Text → Option Text
granted_addr g name = unless_empty (λ l. l.addr) (lookup name g.listeners)

In-names_of : (l : Listener) (ls : List Listener) → In l ls → In l.name (names_of ls)
In-names_of l [] i = absurd i
In-names_of l (x ∷ xs) (inl same) = inl (ap (λ y. y.name) same)
In-names_of l (x ∷ xs) (inr i) = inr (In-names_of l xs i)

-- The listener of each name, if the names differ
listener_named-In :
    (l : Listener) (ls : List Listener)
    → Distinct (names_of ls)
    → In l ls
    → listener_named ls l.name ≡ some l
unfolding listener_named
listener_named-In l [] differ i = absurd i
listener_named-In l (x ∷ xs) (new, differ) (inl same) =
    rw (sym same, (text_eq_iff l.name l.name).1 refl) refl
listener_named-In l (x ∷ xs) (new, differ) (inr i) = elim (Bool-cases (text_eq x.name l.name)) [
  | inl same ↦ absurd (new (rw ((text_eq_iff x.name l.name).0 same) (In-names_of l xs i)))
  | inr other ↦ rw other (listener_named-In l xs differ i)
]

finds_name :
    (name : Text) (ls : List Listener)
    → In name (names_of ls)
    → (l : Listener) × (listener_named ls name ≡ some l)
unfolding listener_named
finds_name name [] i = absurd i
finds_name name (x ∷ xs) (inl same) = (x, rw ((text_eq_iff x.name name).1 (sym same)) refl)
finds_name name (x ∷ xs) (inr i) = elim (Bool-cases (text_eq x.name name)) [
  | inl first ↦ (x, rw first refl)
  | inr other ↦ rw other (finds_name name xs i)
]

-- In a network that ValidateNetwork accepts, Listener finds each listener under its name, and there
-- is one under the name main.
listener_named-IsValid :
    (ls : List Listener)
    → validate_network ls ≡ []
    → ((l : Listener) → In l ls → listener_named ls l.name ≡ some l)
      × ((l : Listener) × (listener_named ls main_listener ≡ some l))
listener_named-IsValid ls no_errors =
    let valid = (validate_network-IsValid ls).0 no_errors in
    (λ l i. listener_named-In l ls valid.names_differ i, finds_name main_listener ls valid.has_main)

-- ValidateNetwork accepts the default network.
validate_network-default_network : validate_network default_network ≡ []
unfolding is_label label_chars last_byte text_eq
validate_network-default_network = (validate_network-IsValid default_network).1 (record {
  labels = (refl, tt);
  names_differ = (λ i. absurd i, tt);
  in_range = tt;
  ports_differ = tt;
  protocols = (inr (refl, refl), tt);
  parsed = tt;
  routes_differ = tt;
  has_main = inl refl;
})
