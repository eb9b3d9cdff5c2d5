-- ===== src/Engine/Network/Loop.antt =====
-- The loop of `ValidateNetwork`: what it accepts, given what it has seen.
use doze_sdk.Engine.Network.{
  Listener, main_listener, protocol_tcp, protocol_http, NetworkError, report, declared_port,
  port_errors, ports_after, protocol_errors, route_errors, routes_after, same_route, Seen,
  listener_errors, seen_after, check_listeners, bad_name, same_name,
}
use doze_sdk.Engine.Route.{is_label, Route, parse_route}
use doze_sdk.Prelude.{
  All, Bool, FreshFrom, List, Map, Result-cases, Text, [], also, contains, false, if◌then◌else◌,
  inl, inr, is_some, lookup, ok, pos, refl, true, ℤ, ◌++◌, ◌↔◌, ◌∷◌, ◌≡◌, ◌≤ℤ◌, ◌⊎◌, text_key,
  int_key, Bool-cases, ap, arith, eqb_ℤ_iff, fun_ext, lookup-insert, text_eq, text_eq_iff, not,
  subst, sym,
}

abbrev pub names_of : List Listener → List Text
names_of [] = []
names_of (l ∷ ls) = l.name ∷ names_of ls

-- The ports that the listeners name; the declared port is not among them.
abbrev pub ports_of : List Listener → List ℤ
ports_of [] = []
ports_of (l ∷ ls) = if declared_port l then ports_of ls else l.port ∷ ports_of ls

abbrev pub routes_of : List Listener → List Text
routes_of [] = []
routes_of (l ∷ ls) = l.routes ++ routes_of ls

abbrev pub IsPort : ℤ → Type 0
IsPort port = (pos 1 ≤ℤ port) × (port ≤ℤ pos 65535)

abbrev pub SpeaksKnown : Listener → Type 0
SpeaksKnown l = (l.protocol ≡ protocol_http) ⊎ ((l.protocol ≡ protocol_tcp) × (l.routes ≡ []))

abbrev pub IsParsed : Text → Type 0
IsParsed route = (r : Route) × (parse_route route ≡ ok r)

append-nil_iff : {A : Type 0} (xs ys : List A) → (xs ++ ys ≡ []) ↔ ((xs ≡ []) × (ys ≡ []))
append-nil_iff [] ys = (λ h. (refl, h), λ h. h.1)
append-nil_iff (x ∷ xs) ys = (λ h. cc, λ h. cc)

report-nil : (b : Bool) (e : NetworkError) → (report b e ≡ []) ↔ (b ≡ false)
report-nil true e = (λ h. cc, λ h. cc)
report-nil false e = (λ h. refl, λ h. refl)

-- The loop over the routes of one listener.
route_errors_sound :
    (name : Text) (seen rs : List Text)
    → route_errors name seen rs ≡ []
    → All IsParsed rs × FreshFrom (contains seen) rs
unfolding route_errors contains
route_errors_sound name seen [] h = (tt, tt)
route_errors_sound name seen (r ∷ rs) h = elim (Result-cases (parse_route r)) [
  | inl (kind, found) ↦
      let (first, later) =
        (append-nil_iff (report (contains seen r) (same_route r)) _).0
          (rw (found, route_errors) at h) in
      let (parsed, fresh) = route_errors_sound name (r ∷ seen) rs later in
      (((kind, found), parsed), ((report-nil _ (same_route r)).0 first, fresh))
  | inr (e, failed) ↦ let bad = rw (failed, route_errors) at h in cc bad
]

route_errors_complete :
    (name : Text) (seen rs : List Text)
    → All IsParsed rs
    → FreshFrom (contains seen) rs
    → route_errors name seen rs ≡ []
unfolding route_errors contains
route_errors_complete name seen [] p f = refl
route_errors_complete name seen (r ∷ rs) p f =
    rw (p.0.1, route_errors) (rw f.0 (route_errors_complete name (r ∷ seen) rs p.1 f.1))

routes_after_parsed :
    (seen : List Text) (r : Text) (rs : List Text) {kind : Route}
    → parse_route r ≡ ok kind
    → routes_after seen (r ∷ rs) ≡ routes_after (r ∷ seen) rs
unfolding routes_after
routes_after_parsed seen r rs found = rw (found, routes_after) refl

-- What the routes that are still to come must not repeat.
pub routes_after-FreshFrom :
    (seen rs later : List Text)
    → All IsParsed rs
    → FreshFrom (contains seen) (rs ++ later)
      ↔ (FreshFrom (contains seen) rs × FreshFrom (contains (routes_after seen rs)) later)
unfolding contains
routes_after-FreshFrom seen [] later p = unfold routes_after in (λ h. (tt, h), λ h. h.1)
routes_after-FreshFrom seen (r ∷ rs) later p =
    let ih = routes_after-FreshFrom (r ∷ seen) rs later p.1 in
    let same = routes_after_parsed seen r rs p.0.1 in
    (
      (λ h.
          let (a, b) = ih.0 h.1 in
          ((h.0, a), subst (λ s. FreshFrom (contains s) later) (sym same) b)),
      λ h. (h.0.0, ih.1 (h.0.1, subst (λ s. FreshFrom (contains s) later) same h.1)),
    )

-- Ports.
abbrev pub taken : Map ℤ Text → ℤ → Bool
taken ports port = is_some (lookup port ports)

abbrev pub PortOk : Map ℤ Text → Listener → Type 0
PortOk ports l = (declared_port l ≡ true) ⊎ (IsPort l.port × (taken ports l.port ≡ false))

port_errors_iff : (ports : Map ℤ Text) (l : Listener) → (port_errors ports l ≡ []) ↔ PortOk ports l
unfolding port_errors
port_errors_iff ports l = (λ h. ground (arith, Bool-cases (declared_port l)), λ h. ground arith)

pub ports_after_declared :
    (ports : Map ℤ Text) (l : Listener) → declared_port l ≡ true → ports_after ports l ≡ ports
unfolding ports_after
ports_after_declared ports l h = ground arith

pub ports_after-FreshFrom :
    (ports : Map ℤ Text) (l : Listener) (later : List ℤ)
    → declared_port l ≡ false
    → IsPort l.port
    → taken ports l.port ≡ false
    → FreshFrom (taken (ports_after ports l)) later ≡ FreshFrom (also l.port (taken ports)) later
unfolding ports_after
ports_after-FreshFrom ports l later d r f =
    ap (λ (seen : ℤ → Bool). FreshFrom seen later)
      (fun_ext
        λ port. ground (arith, lookup-insert l.port port l.name ports, eqb_ℤ_iff l.port port))

http-ne-tcp : text_eq protocol_http protocol_tcp ≡ false
unfolding text_eq
http-ne-tcp = refl

protocol_errors_iff : (l : Listener) → (protocol_errors l ≡ []) ↔ SpeaksKnown l
unfolding protocol_errors
protocol_errors_iff l = (
  λ h. ground (arith, text_eq_iff l.protocol protocol_tcp, text_eq_iff l.protocol protocol_http),
  λ h. ground (
    arith,
    text_eq_iff l.protocol protocol_tcp,
    text_eq_iff l.protocol protocol_http,
    http-ne-tcp,
  ),
)

abbrev pub ListenerOk : Seen → Listener → Type 0
ListenerOk seen l =
    (is_label l.name ≡ true)
    × (contains seen.names l.name ≡ false)
    × PortOk seen.ports l
    × SpeaksKnown l
    × All IsParsed l.routes
    × FreshFrom (contains seen.routes) l.routes

-- A listener is accepted exactly when it is in order by itself and repeats nothing seen before.
listener_errors_iff :
    (seen : Seen) (l : Listener) → (listener_errors seen l ≡ []) ↔ ListenerOk seen l
unfolding listener_errors
listener_errors_iff seen l = (
  (λ h.
      let (label, h₁) = (append-nil_iff (report (not (is_label l.name)) (bad_name l.name)) _).0 h in
      let (fresh, h₂) =
        (append-nil_iff (report (contains seen.names l.name) (same_name l.name)) _).0 h₁ in
      let (port, h₃) = (append-nil_iff (port_errors seen.ports l) _).0 h₂ in
      let (protocol, routes) = (append-nil_iff (protocol_errors l) _).0 h₃ in
      let (parsed, new) = route_errors_sound l.name seen.routes l.routes routes in
      (
        ground arith,
        (report-nil _ (same_name l.name)).0 fresh,
        (port_errors_iff seen.ports l).0 port,
        (protocol_errors_iff l).0 protocol,
        parsed,
        new,
      )),
  λ (label, fresh, port, protocol, parsed, new).
      rw (label, fresh, (port_errors_iff seen.ports l).1 port, (protocol_errors_iff l).1 protocol)
        (route_errors_complete l.name seen.routes l.routes parsed new),
)

-- What holds of the listeners that are still to come.
abbrev pub GoodFrom : Seen → List Listener → Type 0
GoodFrom seen [] = contains seen.names main_listener ≡ true
GoodFrom seen (l ∷ ls) = ListenerOk seen l × GoodFrom (seen_after seen l) ls

pub check_listeners_iff :
    (seen : Seen) (ls : List Listener) → (check_listeners seen ls ≡ []) ↔ GoodFrom seen ls
unfolding check_listeners
check_listeners_iff seen [] = (λ h. ground arith, λ h. ground arith)
check_listeners_iff seen (l ∷ ls) = (
  (λ h.
      let (now, later) = (append-nil_iff (listener_errors seen l) _).0 h in
      ((listener_errors_iff seen l).0 now, (check_listeners_iff (seen_after seen l) ls).0 later)),
  λ h.
      (append-nil_iff (listener_errors seen l) _).1
        ((listener_errors_iff seen l).1 h.0, (check_listeners_iff (seen_after seen l) ls).1 h.1),
)
