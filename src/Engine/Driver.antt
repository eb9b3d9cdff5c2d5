-- ===== src/Engine/Driver.antt =====
-- The interfaces of engine/driver.go, engine/admin.go, engine/spawn.go and engine/console.go, as a
-- module's driver implements them. A method gives how it ends at the time of the call: an error is
-- its text, and `none` is a nil error. An optional interface is an `Option`, which a type assertion
-- reads. `V` is the driver's own config, `C` the cty values.
use doze_sdk.Engine.Services.{SpawnPlan, RestartSpec, Action, Resource, ConsoleSpec}
use doze_sdk.Engine.Types.{Toolchain, Object, Endpoint, Instance}
use doze_sdk.Engine.Network.{Listener}
use doze_sdk.Prelude.{Bool, List, Map, Option, Result, Text, ℤ}

-- Hooked
pub record Hooks (V : Type 0) : Type 0 where
  pub pre_start : Instance V → Option Text
  pub post_start : Instance V → Option Text
  pub pre_stop : Instance V → Option Text

-- Templater
pub record Templates : Type 0 where
  pub ensure_template : Toolchain → Text → Option Text
  pub clone_template : Text → Text → Option Text

-- Admin
pub record Admin (V : Type 0) : Type 0 where
  pub resources : Instance V → Endpoint → Result Text (List Resource)
  pub actions : List Action
  pub run : Instance V → Endpoint → Text → Text → Text → Result Text Text

-- Driver with the interfaces that it may implement beside.
pub record Driver (V C : Type 0) : Type 0 where
  pub type : Text
  pub provision : Instance V → Toolchain → Option Text
  pub provisioned : Text → Bool
  pub backend_socket : Text → ℤ → Text
  pub conn_string : Instance V → Endpoint → Text × Text
  pub converger : Option (Instance V → Toolchain → Endpoint → Option Text)
  pub inventory : Option (Instance V → List Object)
  pub pruner : Option (Instance V → Toolchain → Endpoint → List Object → Option Text)
  pub attributer : Option (Instance V → Endpoint → Map Text C)
  pub backend_provider : Option (Instance V → Text)
  pub lifecycle : Option (Instance V → Bool)
  pub hooked : Option (Hooks V)
  pub health_checker : Option (Instance V → Option Text)
  pub restartable : Option (Instance V → RestartSpec)
  pub port_binder : Option (Instance V → Text × Bool)
  pub spawner : Option (Instance V → Toolchain → Result Text SpawnPlan)
  pub versionless : Bool
  pub templater : Option Templates
  pub proxy_filter : Bool
  pub admin : Option (Admin V)
  pub console : Option ConsoleSpec
  pub networked : Option (Instance V → List Listener)
  pub slow_booter : Option ℤ
