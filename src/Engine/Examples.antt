-- ===== src/Engine/Examples.antt =====
-- Runs of engine/network.go at concrete inputs.
use doze_sdk.Engine.Helpers.Stale.{IsCleared, clear_stale_lock-IsCleared}
use doze_sdk.Engine.Helpers.{
  Processes, process_alive, require_version, clear_stale_lock, register_driver, driver_types,
  category, requires_version, already_running,
}
use doze_sdk.Strings.Atoi.{atoi}
use doze_sdk.Modindex.Version.{major}
use doze_sdk.Modindex.Signing.{sorted_in}
use doze_sdk.Strings.{index_byte, cut, is_space, skip_space, drop_space, trim_space}
use doze_sdk.Engine.Route.Hosts.{print_route, IsRoute, parse_route_iff, parse_route_iff}
use doze_sdk.Engine.Network.Contract.{IsValid, validate_network-IsValid}
use doze_sdk.Engine.Network.{Listener, validate_network}
use doze_sdk.Engine.Route.{parse_route, child}
use doze_sdk.Prelude.{
  ℕ, [], codes, ok, pos, ◌↔◌, ◌∷◌, ◌≡◌, eqb_ℤ, insert, lookup, none, refl, some, text_compare,
  text_eq, text_key, int_key, if◌then◌else◌,
}

parse_route_iff_example :
    (parse_route (codes "@.api") ≡ ok (child (codes "api")))
    ↔ ((print_route (child (codes "api")) ≡ codes "@.api") × IsRoute (child (codes "api")))
parse_route_iff_example = parse_route_iff (codes "@.api") (child (codes "api"))

abbrev web : Listener
web = record {
  name = codes "main";
  port = pos 8080;
  protocol = codes "http";
  routes = codes "@" ∷ [];
}

validate_network-IsValid_example : (validate_network (web ∷ []) ≡ []) ↔ IsValid (web ∷ [])
validate_network-IsValid_example = validate_network-IsValid (web ∷ [])

-- The pid file of a process that runs, and of one that does not
abbrev pid_7 : Processes
pid_7 = record {
  find_process = λ pid. none;
  signal_zero =
      λ pid. if eqb_ℤ pid (pos 7) then none else some (codes "os: process already finished");
}

clear_stale_lock-IsCleared_example :
    IsCleared pid_7 none none
      (codes "pg")
      (some (codes "9\n5432"))
      (clear_stale_lock pid_7 none none (codes "pg") (some (codes "9\n5432")))
clear_stale_lock-IsCleared_example =
    clear_stale_lock-IsCleared pid_7 none none (codes "pg") (some (codes "9\n5432"))

live_kept :
    clear_stale_lock pid_7 none none (codes "pg") (some (codes "7\n5432"))
    ≡ (some (already_running (codes "pg") (pos 7)), some (codes "7\n5432"))
unfolding clear_stale_lock process_alive atoi trim_space skip_space drop_space is_space cut text_eq
live_kept = refl

spec_gated :
    require_version (codes "16.14") (pos 18) (codes "io_method")
    ≡ some (requires_version (codes "io_method") (pos 18) (codes "16.14"))
unfolding require_version atoi major index_byte
spec_gated = refl

types_sorted :
    driver_types {D = ℕ} (
      register_driver
        (codes "s3")
        2
        (register_driver (codes "pg") 1 (record { drivers = []; plugin_resolver = none })))
    ≡ codes "pg" ∷ codes "s3" ∷ []
unfolding driver_types sorted_in text_compare insert text_eq
types_sorted = refl

kafka_queues : category (codes "kafka") ≡ codes "queue"
unfolding category lookup text_eq
kafka_queues = refl
