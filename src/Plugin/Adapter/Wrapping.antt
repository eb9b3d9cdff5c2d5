-- ===== src/Plugin/Adapter/Wrapping.antt =====
-- plugin/adapter.go: newPluginDriver and wrapCaps, which give a module's driver the interfaces that
-- the host looks for.
use doze_sdk.Plugin.Server.{milliseconds}
use doze_sdk.Plugin.Adapter.{PluginDriver, has}
use doze_sdk.Plugin.Rpc.{Grpc, user_error, EngineClient}
use doze_sdk.Strings.Atoi.{negate}
use doze_sdk.Prelude.{
  Bool, Result, Text, arith, codes, err, false, if◌then◌else◌, ltb_ℤ, negsuc, not, ok, pos, suc,
  to_int64, true, ℕ, ℤ, ◌&&◌, ◌*◌, ◌++◌, ◌/◌, ◌^◌, ◌≡◌, ◌≤ℤ◌, ◌≤◌,
}

-- The types that wrapCaps returns.
pub data Wrapper : Type 0 where
  plugin_driver : Wrapper
  versionless_driver : Wrapper
  templater_driver : Wrapper
  versionless_templater_driver : Wrapper
  admin_driver : Wrapper
  versionless_admin_driver : Wrapper
  templater_admin_driver : Wrapper
  versionless_templater_admin_driver : Wrapper
  structural_driver : Wrapper
  versionless_structural_driver : Wrapper
  templater_structural_driver : Wrapper
  versionless_templater_structural_driver : Wrapper
  admin_structural_driver : Wrapper
  versionless_admin_structural_driver : Wrapper
  templater_admin_structural_driver : Wrapper
  versionless_templater_admin_structural_driver : Wrapper

-- The interfaces that the host finds by a type assertion on such a type.
pub record Interfaces : Type 0 where
  pub versionless : Bool
  pub templater : Bool
  pub admin : Bool
  pub structural : Bool

-- What the methods of each embedded part add.
abbrev base : Interfaces
base = record { versionless = false; templater = false; admin = false; structural = false }

abbrev plus_versionless : Interfaces → Interfaces
plus_versionless i = record i { versionless = true }

abbrev plus_templater : Interfaces → Interfaces
plus_templater i = record i { templater = true }

abbrev plus_admin : Interfaces → Interfaces
plus_admin i = record i { admin = true }

abbrev plus_structural : Interfaces → Interfaces
plus_structural i = record i { structural = true }

unfoldable pub interfaces : Wrapper → Interfaces
interfaces plugin_driver = base
interfaces versionless_driver = plus_versionless base
interfaces templater_driver = plus_templater base
interfaces versionless_templater_driver = plus_templater (plus_versionless base)
interfaces admin_driver = plus_admin base
interfaces versionless_admin_driver = plus_versionless (plus_admin base)
interfaces templater_admin_driver = plus_templater (plus_admin base)
interfaces versionless_templater_admin_driver = plus_versionless (plus_templater (plus_admin base))
interfaces structural_driver = plus_structural base
interfaces versionless_structural_driver = plus_structural (plus_versionless base)
interfaces templater_structural_driver = plus_structural (plus_templater base)
interfaces versionless_templater_structural_driver =
    plus_structural (plus_templater (plus_versionless base))
interfaces admin_structural_driver = plus_structural (plus_admin base)
interfaces versionless_admin_structural_driver =
    plus_structural (plus_versionless (plus_admin base))
interfaces templater_admin_structural_driver = plus_structural (plus_templater (plus_admin base))
interfaces versionless_templater_admin_structural_driver =
    plus_structural (plus_versionless (plus_templater (plus_admin base)))

-- wrapCaps, given which of the four capabilities are there
unfoldable pub choose_wrapper : Bool → Bool → Bool → Bool → Wrapper
choose_wrapper v t a s =
    if not s
    then (if v && (t && a)
        then versionless_templater_admin_driver
        else if v && t
        then versionless_templater_driver
        else if v && a
        then versionless_admin_driver
        else if t && a
        then templater_admin_driver
        else if v
        then versionless_driver
        else if t
        then templater_driver
        else if a
        then admin_driver
        else plugin_driver)
    else (if v && (t && a)
        then versionless_templater_admin_structural_driver
        else if v && t
        then versionless_templater_structural_driver
        else if v && a
        then versionless_admin_structural_driver
        else if t && a
        then templater_admin_structural_driver
        else if v
        then versionless_structural_driver
        else if t
        then templater_structural_driver
        else if a
        then admin_structural_driver
        else structural_driver)

unfoldable pub wrap_caps : PluginDriver → Wrapper
unfolding choose_wrapper
wrap_caps d =
    choose_wrapper (has d (codes "versionless")) (has d (codes "templater")) (has d (codes "admin"))
      (has d (codes "converger"))

-- maxBootBudget, in nanoseconds
abbrev pub max_boot_budget : ℤ
max_boot_budget = pos (3600 * 10 ^ 9)

-- time.Duration(ms) * time.Millisecond, which wraps in 64 bits
unfoldable pub from_milliseconds : ℤ → ℤ
unfolding to_int64
from_milliseconds (pos n) = to_int64 (pos (n * 10 ^ 6))
from_milliseconds (negsuc n) = to_int64 (negate (suc n * 10 ^ 6))

unfoldable pub budget_of : ℤ → ℤ
unfolding from_milliseconds
budget_of ms =
    let budget = from_milliseconds ms in
    if ltb_ℤ max_boot_budget budget then max_boot_budget else budget

-- newPluginDriver
unfoldable pub new_plugin_driver : Grpc → EngineClient → Result Text (PluginDriver × Wrapper)
unfolding budget_of wrap_caps
new_plugin_driver grpc c = elim c.type [
  | err e ↦ err (codes "asking the module its type: " ++ user_error grpc e)
  | ok type ↦ elim c.capabilities [
    | err e ↦
        err
          (codes "asking the " ++ (type ++ (codes " module what it can do: " ++ user_error grpc e)))
    | ok (caps, ms) ↦
        let d : PluginDriver = record {
          client = c;
          engine_type = type;
          caps = caps;
          boot_budget = budget_of ms;
        } in
        ok (d, wrap_caps d)
  ]
]

-- The host finds a module's driver Versionless, a Templater or Admin exactly if the module
-- advertised that capability, and finds Converger, Inventory and Pruner in it exactly if the module
-- advertised converger.
pub interfaces-wrap_caps :
    (d : PluginDriver)
    → interfaces (wrap_caps d) ≡ record {
      versionless = has d (codes "versionless");
      templater = has d (codes "templater");
      admin = has d (codes "admin");
      structural = has d (codes "converger");
    }
unfolding interfaces wrap_caps
interfaces-wrap_caps d =
    go (has d (codes "versionless")) (has d (codes "templater")) (has d (codes "admin"))
      (has d (codes "converger"))
  where
    go :
        (v t a s : Bool)
        → interfaces (choose_wrapper v t a s)
          ≡ record { versionless = v; templater = t; admin = a; structural = s }
    go v t a s = ground arith

-- A boot budget is never above an hour, whatever the module asks for.
pub budget_of_bound : (ms : ℤ) → budget_of ms ≤ℤ max_boot_budget
unfolding budget_of
budget_of_bound ms = ground arith

-- A budget that a driver asks for in the range of 0 to an hour arrives, to the millisecond.
pub budget_of-milliseconds :
    (n : ℕ) → n ≤ 3600 * 10 ^ 9 → budget_of (milliseconds (pos n)) ≡ pos (n / 10 ^ 6 * 10 ^ 6)
unfolding budget_of milliseconds
budget_of-milliseconds n h = ground arith
