-- ===== src/Engine/Network.antt =====
-- `ValidateNetwork` of engine/network.go.
pub mod Loop
pub mod Contract
mod Lookup
use doze_sdk.Engine.Route.{RouteError, parse_route, is_label}
use doze_sdk.Prelude.{
  Text, List, Bool, ℤ, Map, ◌∷◌, codes, [], text_eq, ltb_ℤ, not, pos, contains, ◌&&◌, eqb_ℤ, ◌||◌,
  ◌++◌, text_key, err, false, if◌then◌else◌, insert, lookup, none, ok, some, true, int_key,
}

pub record Listener : Type 0 where
  pub name : Text
  pub port : ℤ
  pub protocol : Text
  pub routes : List Text

abbrev pub main_listener : Text
main_listener = codes "main"

abbrev pub protocol_tcp : Text
protocol_tcp = codes "tcp"

abbrev pub protocol_http : Text
protocol_http = codes "http"

pub data NetworkError : Type 0 where
  bad_name : Text → NetworkError
  same_name : Text → NetworkError
  bad_port : Text → ℤ → NetworkError
  same_port : Text → Text → ℤ → NetworkError
  tcp_routes : Text → NetworkError
  bad_protocol : Text → Text → NetworkError
  bad_route : Text → RouteError → NetworkError
  same_route : Text → NetworkError
  no_main : NetworkError

-- The maps `names`, `ports` and `routes` of the loop; of two of them only the keys are used.
pub record Seen : Type 0 where
  pub names : List Text
  pub ports : Map ℤ Text
  pub routes : List Text

abbrev pub report : Bool → NetworkError → List NetworkError
report true e = e ∷ []
report false e = []

-- The main listener at port 0 gets the declared port.
abbrev pub declared_port : Listener → Bool
declared_port l = text_eq l.name main_listener && eqb_ℤ l.port (pos 0)

abbrev pub out_of_range : ℤ → Bool
out_of_range port = ltb_ℤ port (pos 1) || ltb_ℤ (pos 65535) port

unfoldable pub port_errors : Map ℤ Text → Listener → List NetworkError
port_errors ports l =
    if declared_port l
    then []
    else if out_of_range l.port
    then bad_port l.name l.port ∷ []
    else elim (lookup l.port ports) [ none ↦ [] | some other ↦ same_port other l.name l.port ∷ [] ]

unfoldable pub ports_after : Map ℤ Text → Listener → Map ℤ Text
ports_after ports l =
    if declared_port l
    then ports
    else if out_of_range l.port
    then ports
    else elim (lookup l.port ports) [ none ↦ insert l.port l.name ports | some other ↦ ports ]

unfoldable pub protocol_errors : Listener → List NetworkError
protocol_errors l =
    if text_eq l.protocol protocol_tcp
    then (elim l.routes [ [] ↦ [] | _ ∷ _ ↦ tcp_routes l.name ∷ [] ])
    else if text_eq l.protocol protocol_http
    then []
    else bad_protocol l.name l.protocol ∷ []

-- The loop over a listener's routes; a route that is not one is not remembered.
unfoldable pub route_errors : Text → List Text → List Text → List NetworkError
route_errors name seen [] = []
route_errors name seen (r ∷ rs) =
    let skipped = route_errors name seen rs in
    let taken = route_errors name (r ∷ seen) rs in
    elim (parse_route r) [
      | err e ↦ bad_route name e ∷ skipped
      | ok kind ↦ report (contains seen r) (same_route r) ++ taken
    ]

unfoldable pub routes_after : List Text → List Text → List Text
routes_after seen [] = seen
routes_after seen (r ∷ rs) =
    let skipped = routes_after seen rs in
    let taken = routes_after (r ∷ seen) rs in
    elim (parse_route r) [ err e ↦ skipped | ok kind ↦ taken ]

unfoldable pub listener_errors : Seen → Listener → List NetworkError
listener_errors seen l =
    report (not (is_label l.name)) (bad_name l.name)
    ++ (report (contains seen.names l.name) (same_name l.name)
        ++ (port_errors seen.ports l
            ++ (protocol_errors l ++ route_errors l.name seen.routes l.routes)))

abbrev pub seen_after : Seen → Listener → Seen
seen_after seen l = record {
  names = l.name ∷ seen.names;
  ports = ports_after seen.ports l;
  routes = routes_after seen.routes l.routes;
}

-- The loop over the listeners, and the check that the main one is among them.
unfoldable pub check_listeners : Seen → List Listener → List NetworkError
check_listeners seen [] = report (not (contains seen.names main_listener)) no_main
check_listeners seen (l ∷ ls) =
    let rest = check_listeners (seen_after seen l) ls in listener_errors seen l ++ rest

-- ValidateNetwork: the errors that are joined, none for a nil error.
unfoldable pub validate_network : List Listener → List NetworkError
unfolding check_listeners
validate_network listeners =
    check_listeners (record { names = []; ports = []; routes = [] }) listeners
