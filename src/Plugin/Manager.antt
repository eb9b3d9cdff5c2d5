-- ===== src/Plugin/Manager.antt =====
-- plugin/manager.go: the Manager of launched modules, and the resolvers it is given. A launched host
-- is the number of its launch; `running` are the processes that are launched and not closed, which
-- the code keeps in the hosts alone. The mutex makes each call one step.
pub mod Owned
pub mod Tidy
pub mod Calls
mod Examples
use doze_sdk.Plugin.Adapter.{answer}
use doze_sdk.Prelude.{
  Bool, List, Map, Option, Text, [], codes, delete, false, if◌then◌else◌, insert, is_some, keep,
  lookup, nat_eq, none, not, some, suc, text_eq, true, ℕ, ◌++◌, ◌∷◌, text_key, int_key,
}

-- Resolver: the binary's path and environment for an engine type
abbrev pub Resolver : Type 0
Resolver = Text → Option (Text × Option (List Text))

-- Chain, whose resolvers may be nil
unfoldable pub chain : List (Option Resolver) → Resolver
chain [] eng = none
chain (none ∷ rs) eng = chain rs eng
chain (some r ∷ rs) eng =
    let later = chain rs eng in elim (r eng) [ none ↦ later | some found ↦ some found ]

-- EnvResolver: `getenv` gives "" for a variable that is not set, `is_file` says whether a path is
-- there and is no directory; case mapping is that of ASCII.
unfoldable pub env_resolver : (Text → Text) → (Text → Bool) → (Text → Text) → Resolver
env_resolver getenv is_file to_upper eng =
    let path = getenv (codes "DOZE_" ++ (to_upper eng ++ codes "_PLUGIN")) in
    if text_eq path [] then none else if is_file path then some (path, none) else none

-- Manager
pub record Manager : Type 0 where
  pub hosts : Map Text ℕ
  pub failed : Map Text Text
  pub running : List ℕ
  pub next : ℕ

-- NewManager
abbrev pub new_manager : Manager
new_manager = record { hosts = []; failed = []; running = []; next = 0 }

-- What Driver returns: the host whose driver it is, whether the engine is a module, and the error.
pub record Found : Type 0 where
  pub host : Option ℕ
  pub found : Bool
  pub error : Option Text

-- What Driver meets: the processes that are alive, and how a launch ends.
pub record World : Type 0 where
  pub alive : ℕ → Bool
  pub launch : Text → Option (List Text) → Option Text

-- Close of one host, and its removal from the map
abbrev pub drop_host : Text → ℕ → Manager → Manager
drop_host eng h m = record m {
  hosts = delete eng m.hosts;
  running = keep (λ x. not (nat_eq x h)) m.running;
}

abbrev pub launching : Text → Text → Text
launching eng e = codes "launching " ++ (eng ++ (codes " plugin: " ++ e))

-- The end of Driver: Launch and what it leaves.
unfoldable pub relaunch : Option Text → Text → Manager → Found × Manager
relaunch (some e) eng m = (
  record { host = none; found = true; error = some (launching eng e) },
  record m { failed = insert eng (launching eng e) m.failed },
)
relaunch none eng m = (
  record { host = some m.next; found = true; error = none },
  record {
    hosts = insert eng m.next m.hosts;
    failed = delete eng m.failed;
    running = m.running ++ m.next ∷ [];
    next = suc m.next;
  },
)

-- Driver
unfoldable pub driver : Resolver → World → Text → Manager → Found × Manager
unfolding relaunch
driver resolver world eng m = elim (resolver eng) [
  | none ↦ (
    record { host = none; found = false; error = none },
    record m { failed = delete eng m.failed },
  )
  | some (path, env) ↦ elim (lookup eng m.hosts) [
    | none ↦ relaunch (world.launch path env) eng m
    | some h ↦
        if world.alive h
        then (record { host = some h; found = true; error = none }, m)
        else relaunch (world.launch path env) eng (drop_host eng h m)
  ]
]

-- Lookup
unfoldable pub lookup_driver : Resolver → World → Text → Manager → (Option ℕ × Bool) × Manager
unfolding driver
lookup_driver resolver world eng m =
    let (answer, m') = driver resolver world eng m in
    (if is_some answer.error then (none, false) else (answer.host, answer.found), m')

-- LaunchError
unfoldable pub launch_error : Text → Manager → Option Text
launch_error eng m = lookup eng m.failed

-- The loop of Close over the hosts
unfoldable pub close_all : Map Text ℕ → Manager → Manager
close_all [] m = m
close_all ((eng, h) ∷ hosts) m = close_all hosts (drop_host eng h m)

-- Close
unfoldable pub close : Manager → Manager
unfolding close_all
close m = close_all m.hosts m
