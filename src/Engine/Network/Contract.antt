-- ===== src/Engine/Network/Contract.antt =====
-- `ValidateNetwork` reports no error exactly for the networks that are valid.
use doze_sdk.Engine.Network.Loop.{
  names_of, ports_of, routes_of, IsPort, SpeaksKnown, IsParsed, taken, PortOk,
  routes_after-FreshFrom, ports_after_declared, ports_after-FreshFrom, GoodFrom,
  check_listeners_iff,
}
use doze_sdk.Engine.Network.{
  Listener, main_listener, Seen, declared_port, ports_after, seen_after, validate_network,
}
use doze_sdk.Engine.Route.{is_label}
use doze_sdk.Prelude.{
  All, Bool-cases, Distinct, FreshFrom, In, List, contains, inl, inr, true, ◌↔◌, ◌∷◌, ◌≡◌, ◌⊎◌,
  text_key, int_key, [], false, subst, sym, All-append_iff, All-unseen, FreshFrom-Distinct, Text,
  arith, lookup, text_eq_iff, ℤ,
}

pub record IsValid (listeners : List Listener) : Type 0 where
  pub labels : All (λ (l : Listener). is_label l.name ≡ true) listeners
  pub names_differ : Distinct (names_of listeners)
  pub in_range : All IsPort (ports_of listeners)
  pub ports_differ : Distinct (ports_of listeners)
  pub protocols : All SpeaksKnown listeners
  pub parsed : All IsParsed (routes_of listeners)
  pub routes_differ : Distinct (routes_of listeners)
  pub has_main : In main_listener (names_of listeners)

-- The same, given what has been seen.
record IsValidFrom (seen : Seen) (ls : List Listener) : Type 0 where
  labels : All (λ (l : Listener). is_label l.name ≡ true) ls
  names : FreshFrom (contains seen.names) (names_of ls)
  in_range : All IsPort (ports_of ls)
  ports : FreshFrom (taken seen.ports) (ports_of ls)
  protocols : All SpeaksKnown ls
  parsed : All IsParsed (routes_of ls)
  routes : FreshFrom (contains seen.routes) (routes_of ls)
  has_main : (contains seen.names main_listener ≡ true) ⊎ In main_listener (names_of ls)

-- The ports of a list, after one more listener.
ports_from :
    (seen : Seen) (l : Listener) (ls : List Listener)
    → PortOk seen.ports l
    → (All IsPort (ports_of (l ∷ ls)) × FreshFrom (taken seen.ports) (ports_of (l ∷ ls)))
      ↔ (All IsPort (ports_of ls) × FreshFrom (taken (ports_after seen.ports l)) (ports_of ls))
ports_from seen l ls p = elim (Bool-cases (declared_port l)) [
  | inl declared ↦ rw (ports_after_declared seen.ports l declared, declared) (λ h. h, λ h. h)
  | inr named ↦
      let (port, free) = undeclared named p in
      let same = ports_after-FreshFrom seen.ports l (ports_of ls) named port free in
      rw named (
        (λ h. (h.0.1, subst (λ X. X) (sym same) h.1.1)),
        λ h. ((port, h.0), (free, subst (λ X. X) same h.1)),
      )
]
  where
    undeclared :
        declared_port l ≡ false
        → PortOk seen.ports l
        → IsPort l.port × (taken seen.ports l.port ≡ false)
    undeclared named (inl declared) = absurd (cc (named, declared))
    undeclared named (inr h) = h

main_among :
    (seen : Seen) (l : Listener) (ls : List Listener)
    → (contains (l.name ∷ seen.names) main_listener ≡ true) ⊎ In main_listener (names_of ls)
    → (contains seen.names main_listener ≡ true) ⊎ In main_listener (names_of (l ∷ ls))
unfolding contains
main_among seen l ls h = ground (arith, text_eq_iff l.name main_listener)

main_after :
    (seen : Seen) (l : Listener) (ls : List Listener)
    → (contains seen.names main_listener ≡ true) ⊎ In main_listener (names_of (l ∷ ls))
    → (contains (l.name ∷ seen.names) main_listener ≡ true) ⊎ In main_listener (names_of ls)
unfolding contains
main_after seen l ls h = ground (arith, text_eq_iff l.name main_listener)

port_from :
    (seen : Seen) (l : Listener) (ls : List Listener)
    → All IsPort (ports_of (l ∷ ls))
    → FreshFrom (taken seen.ports) (ports_of (l ∷ ls))
    → PortOk seen.ports l
port_from seen l ls r f = elim (Bool-cases (declared_port l)) [
  | inl declared ↦ inl declared
  | inr named ↦ inr ((rw named at r).0, (rw named at f).0)
]

GoodFrom-IsValidFrom : (seen : Seen) (ls : List Listener) → GoodFrom seen ls → IsValidFrom seen ls
unfolding contains
GoodFrom-IsValidFrom seen [] g = record {
  labels = tt;
  names = tt;
  in_range = tt;
  ports = tt;
  protocols = tt;
  parsed = tt;
  routes = tt;
  has_main = inl g;
}
GoodFrom-IsValidFrom seen (l ∷ ls) ((label, fresh, port, protocol, parsed, new), later) =
    let rest = GoodFrom-IsValidFrom (seen_after seen l) ls later in
    let ports = (ports_from seen l ls port).1 (rest.in_range, rest.ports) in
    record {
      labels = (label, rest.labels);
      names = (fresh, rest.names);
      in_range = ports.0;
      ports = ports.1;
      protocols = (protocol, rest.protocols);
      parsed = (All-append_iff IsParsed l.routes (routes_of ls)).1 (parsed, rest.parsed);
      routes =
          (routes_after-FreshFrom seen.routes l.routes (routes_of ls) parsed).1 (new, rest.routes);
      has_main = main_among seen l ls rest.has_main;
    }

IsValidFrom-GoodFrom : (seen : Seen) (ls : List Listener) → IsValidFrom seen ls → GoodFrom seen ls
unfolding contains
IsValidFrom-GoodFrom seen [] v = elim v.has_main [ inl h ↦ h | inr i ↦ absurd i ]
IsValidFrom-GoodFrom seen (l ∷ ls) v =
    let port = port_from seen l ls v.in_range v.ports in
    let (range, fresh) = (ports_from seen l ls port).0 (v.in_range, v.ports) in
    let (parsed, all_parsed) = (All-append_iff IsParsed l.routes (routes_of ls)).0 v.parsed in
    let (new, routes) =
      (routes_after-FreshFrom seen.routes l.routes (routes_of ls) parsed).0 v.routes in
    (
      (v.labels.0, v.names.0, port, v.protocols.0, parsed, new),
      IsValidFrom-GoodFrom (seen_after seen l) ls (record {
        labels = v.labels.1;
        names = v.names.1;
        in_range = range;
        ports = fresh;
        protocols = v.protocols.1;
        parsed = all_parsed;
        routes = routes;
        has_main = main_after seen l ls v.has_main;
      }),
    )

abbrev unseen : Seen
unseen = record { names = []; ports = []; routes = [] }

-- With nothing seen at the start, fresh means without repetition.
contains-Distinct : (xs : List Text) → FreshFrom (contains []) xs ↔ Distinct xs
unfolding contains
contains-Distinct xs = (
  λ h. ((FreshFrom-Distinct (contains []) xs).0 h).0,
  λ h. (FreshFrom-Distinct (contains []) xs).1 (h, All-unseen xs),
)

taken-Distinct : (xs : List ℤ) → FreshFrom (taken []) xs ↔ Distinct xs
unfolding lookup
taken-Distinct xs = (
  λ h. ((FreshFrom-Distinct (taken []) xs).0 h).0,
  λ h. (FreshFrom-Distinct (taken []) xs).1 (h, All-unseen xs),
)

main_at_start :
    (ls : List Listener)
    → (contains [] main_listener ≡ true) ⊎ In main_listener (names_of ls)
    → In main_listener (names_of ls)
unfolding contains
main_at_start ls (inl h) = cc
main_at_start ls (inr i) = i

-- `ValidateNetwork` reports no error exactly when every listener's name is a DNS label, the names
-- differ, the ports that are named lie in 1..65535 and differ, each listener is http, or tcp
-- without routes, every route has one of the three shapes, no route is given twice, and one
-- listener is named main.
pub validate_network-IsValid : (ls : List Listener) → (validate_network ls ≡ []) ↔ IsValid ls
unfolding validate_network
validate_network-IsValid ls = (
  (λ h.
      let v = GoodFrom-IsValidFrom unseen ls ((check_listeners_iff unseen ls).0 h) in
      record {
        labels = v.labels;
        names_differ = (contains-Distinct (names_of ls)).0 v.names;
        in_range = v.in_range;
        ports_differ = (taken-Distinct (ports_of ls)).0 v.ports;
        protocols = v.protocols;
        parsed = v.parsed;
        routes_differ = (contains-Distinct (routes_of ls)).0 v.routes;
        has_main = main_at_start ls v.has_main;
      }),
  λ v. (check_listeners_iff unseen ls).1 (
      IsValidFrom-GoodFrom unseen ls (record {
        labels = v.labels;
        names = (contains-Distinct (names_of ls)).1 v.names_differ;
        in_range = v.in_range;
        ports = (taken-Distinct (ports_of ls)).1 v.ports_differ;
        protocols = v.protocols;
        parsed = v.parsed;
        routes = (contains-Distinct (routes_of ls)).1 v.routes_differ;
        has_main = inr v.has_main;
      })),
)
