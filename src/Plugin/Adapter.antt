-- ===== src/Plugin/Adapter.antt =====
-- plugin/adapter.go: `pluginDriver`, the host's driver for a module behind gRPC.
pub mod Wrapping
use doze_sdk.Plugin.Server.{CtyJson, vars_from_json}
use doze_sdk.Plugin.Conv.{
  toolchain_to_proto, endpoint_to_proto, network_from_proto, Gob, instance_to_proto,
}
use doze_sdk.Plugin.Answers.{
  plan_from_proto, objects_to_proto, objects_from_proto, no_restart, restart_from_proto,
  actions_from_proto, resources_from_proto,
}
use doze_sdk.Plugin.Screens.{console_spec_from_proto}
use doze_sdk.Plugin.Rpc.{RpcError, Grpc, user_error, EngineClient}
use doze_sdk.Engine.Services.{SpawnPlan, RestartSpec, Action, Resource, ConsoleSpec}
use doze_sdk.Engine.Types.{Toolchain, Object, Endpoint, Instance}
use doze_sdk.Engine.Network.{Listener}
use doze_sdk.Prelude.{
  Bool, List, Map, Option, Result, Text, [], codes, contains, err, false, if◌then◌else◌, none, ok,
  some, to_int32, true, ℤ, ◌>>=◌, text_key, int_key,
}
use doze_sdk.Plugin.Proto
use doze_sdk.Plugin.ProtoConsole

-- pluginDriver, but the console that it keeps (`ConsoleCache`) and the sockets
pub record PluginDriver : Type 0 where
  pub client : EngineClient
  pub engine_type : Text
  pub caps : List Text
  pub boot_budget : ℤ

-- has
abbrev pub has : PluginDriver → Text → Bool
has d cap = contains d.caps cap

-- The error of a call that has no error to return, as `report` passes it on (plugin/report.go).
pub data CallError : Type 0 where
  unsent : Text → CallError
  failed : RpcError → CallError

pub record Report : Type 0 where
  pub engine_type : Text
  pub call : Text
  pub error : CallError

-- The answer of such a call, with what it reports.
pub record Answer (A : Type 0) : Type 0 where
  pub value : A
  pub reported : Option Report

abbrev pub answer : {A : Type 0} → A → Answer A
answer a = record { value = a; reported = none }

-- An answer from a call: what it read, or the fallback and a report.
abbrev pub answer_or :
    {A B : Type 0} → PluginDriver → Text → B → (A → B) → Result RpcError A → Answer B
answer_or d call fallback read (ok a) = answer (read a)
answer_or d call fallback read (err e) = record {
  value = fallback;
  reported = some (record { engine_type = d.engine_type; call = call; error = failed e });
}

-- The answer where the instance cannot be written; some methods report it and others do not.
abbrev pub unsent_report : {A : Type 0} → PluginDriver → Text → A → Text → Answer A
unsent_report d call fallback e = record {
  value = fallback;
  reported = some (record { engine_type = d.engine_type; call = call; error = unsent e });
}

abbrev pub read_if :
    {A : Type 0} → (Text → A) → (Proto.Instance → A) → Result Text Proto.Instance → A
read_if bad good (ok p) = good p
read_if bad good (err e) = bad e

-- The error of a call, without gRPC's framing.
abbrev pub asked : {A : Type 0} → Grpc → Result RpcError A → Result Text A
asked grpc (ok a) = ok a
asked grpc (err e) = err (user_error grpc e)

abbrev pub error_of : {A : Type 0} → Grpc → Result RpcError A → Option Text
error_of grpc (ok a) = none
error_of grpc (err e) = some (user_error grpc e)

-- Type, Provisioned, BackendSocket
unfoldable pub type_of : PluginDriver → Text
type_of d = d.engine_type

unfoldable pub provisioned : PluginDriver → Text → Answer Bool
provisioned d data_dir =
    answer_or d (codes "Provisioned") false (λ b. b) (d.client.provisioned data_dir)

unfoldable pub backend_socket : PluginDriver → Text → ℤ → Answer Text
backend_socket d socket_dir port =
    answer_or d (codes "BackendSocket") [] (λ path. path)
      (d.client.backend_socket socket_dir (to_int32 port))

-- actions
unfoldable pub actions : PluginDriver → Answer (List Action)
actions d = answer_or d (codes "Actions") [] actions_from_proto d.client.actions

module _ (grpc : Grpc) (d : PluginDriver) where
  -- ensureTemplate, cloneTemplate
  unfoldable pub ensure_template : Toolchain → Text → Option Text
  ensure_template tc dir =
      error_of grpc (d.client.ensure_template (some (toolchain_to_proto tc)) dir)

  unfoldable pub clone_template : Text → Text → Option Text
  clone_template dir dest = error_of grpc (d.client.clone_template dir dest)

module _ {V : Type 0} (grpc : Grpc) (gob : Gob V Text) (d : PluginDriver) where
  -- Provision
  unfoldable pub provision : Instance V → Toolchain → Option Text
  provision inst tc =
      read_if some (λ p. error_of grpc (d.client.provision (some p) (some (toolchain_to_proto tc))))
        (instance_to_proto gob inst)

  -- The method Plan of a Spawner
  unfoldable pub plan : Instance V → Toolchain → Result Text SpawnPlan
  plan inst tc = instance_to_proto gob inst >>= λ p.
      asked grpc (d.client.plan (some p) (some (toolchain_to_proto tc))) >>= λ out.
      ok (plan_from_proto (some out))

  -- converge
  unfoldable pub converge : Instance V → Toolchain → Endpoint → Option Text
  converge inst tc ep =
      read_if some
        (λ p.
          error_of grpc (
            d.client.converge (some p) (some (toolchain_to_proto tc))
              (some (endpoint_to_proto ep))))
        (instance_to_proto gob inst)

  -- prune
  unfoldable pub prune : Instance V → Toolchain → Endpoint → List Object → Option Text
  prune inst tc ep removed =
      read_if some
        (λ p. error_of grpc (
          d.client.prune (some p) (some (toolchain_to_proto tc)) (some (endpoint_to_proto ep))
            (objects_to_proto removed)))
        (instance_to_proto gob inst)

  -- resources
  unfoldable pub resources : Instance V → Endpoint → Result Text (List Resource)
  resources inst ep = instance_to_proto gob inst >>= λ p.
      asked grpc (d.client.resources (some p) (some (endpoint_to_proto ep))) >>= λ out.
      ok (resources_from_proto out)

  -- runAction
  unfoldable pub run_action : Instance V → Endpoint → Text → Text → Text → Result Text Text
  run_action inst ep action resource input = instance_to_proto gob inst >>= λ p.
      asked grpc (d.client.run_action (some p) (some (endpoint_to_proto ep)) action resource input)

  -- hook, which PreStart, PostStart and PreStop call with their phase
  unfoldable pub hook : Instance V → Text → Option Text
  hook inst phase =
      let called =
        read_if some (λ p. error_of grpc (d.client.hook (some p) phase))
          (instance_to_proto gob inst) in
      if has d (codes "hooked") then called else none

  unfoldable pub pre_start : Instance V → Option Text
  unfolding hook
  pre_start inst = hook inst (codes "pre_start")

  unfoldable pub post_start : Instance V → Option Text
  unfolding hook
  post_start inst = hook inst (codes "post_start")

  unfoldable pub pre_stop : Instance V → Option Text
  unfolding hook
  pre_stop inst = hook inst (codes "pre_stop")

  -- CheckHealth
  unfoldable pub check_health : Instance V → Option Text
  check_health inst =
      let called =
        read_if some (λ p. error_of grpc (d.client.check_health (some p)))
          (instance_to_proto gob inst) in
      if has d (codes "health") then called else none

module _ {V : Type 0} (gob : Gob V Text) (d : PluginDriver) where
  -- ConnString
  unfoldable pub conn_string : Instance V → Endpoint → Answer (Text × Text)
  conn_string inst ep =
      read_if (unsent_report d (codes "ConnString") ([], []))
        (λ p.
          answer_or d (codes "ConnString") ([], []) (λ r. r)
            (d.client.conn_string (some p) (some (endpoint_to_proto ep))))
        (instance_to_proto gob inst)

  -- objects
  unfoldable pub objects : Instance V → Answer (List Object)
  objects inst =
      read_if (λ e. answer [])
        (λ p. answer_or d (codes "Objects") [] objects_from_proto (d.client.objects (some p)))
        (instance_to_proto gob inst)

  -- BackendURL
  unfoldable pub backend_url : Instance V → Answer Text
  backend_url inst =
      let called =
        read_if (λ e. answer [])
          (λ p. answer_or d (codes "BackendURL") [] (λ url. url) (d.client.backend_url (some p)))
          (instance_to_proto gob inst) in
      if has d (codes "backend_url") then called else answer []

  -- Supervised
  unfoldable pub supervised : Instance V → Answer Bool
  supervised inst =
      let called =
        read_if (λ e. answer false)
          (λ p. answer_or d (codes "Supervised") false (λ b. b) (d.client.supervised (some p)))
          (instance_to_proto gob inst) in
      if has d (codes "lifecycle") then called else answer false

  -- RestartPolicy
  unfoldable pub restart_policy : Instance V → Answer RestartSpec
  restart_policy inst =
      let called =
        read_if (λ e. answer no_restart)
          (λ p.
            answer_or d (codes "RestartPolicy") no_restart (λ r. restart_from_proto (some r))
              (d.client.restart_policy (some p)))
          (instance_to_proto gob inst) in
      if has d (codes "restartable") then called else answer no_restart

  -- AdvertisedAddr
  unfoldable pub advertised_addr : Instance V → Answer (Text × Bool)
  advertised_addr inst =
      let called =
        read_if (λ e. answer ([], false))
          (λ p.
            answer_or d (codes "AdvertisedAddr") ([], false) (λ r. r)
              (d.client.advertised_addr (some p)))
          (instance_to_proto gob inst) in
      if has d (codes "port_binder") then called else answer ([], false)

  -- Network
  unfoldable pub network : Instance V → Answer (List Listener)
  network inst =
      let called =
        read_if (λ e. answer [])
          (λ p. answer_or d (codes "Network") [] network_from_proto (d.client.network (some p)))
          (instance_to_proto gob inst) in
      if has d (codes "networked") then called else answer []

  -- The end of `Attributes`: the values are read from JSON.
  abbrev pub attributes_read : {C : Type 0} → Result Text (Map Text C) → Answer (Map Text C)
  attributes_read (ok m) = answer m
  attributes_read (err e) = unsent_report d (codes "Attributes") [] e

  abbrev pub attributes_from :
      {C : Type 0} → CtyJson C → Result RpcError (Map Text Text) → Answer (Map Text C)
  attributes_from cty (ok attrs) = attributes_read (vars_from_json cty attrs)
  attributes_from cty (err e) = answer_or {A = Text} d (codes "Attributes") [] (λ t. []) (err e)

  -- Attributes
  unfoldable pub attributes : {C : Type 0} → CtyJson C → Instance V → Endpoint → Answer (Map Text C)
  attributes cty inst ep =
      let called =
        read_if (unsent_report d (codes "Attributes") [])
          (λ p. attributes_from cty (d.client.attributes (some p) (some (endpoint_to_proto ep))))
          (instance_to_proto gob inst) in
      if has d (codes "attributer") then called else answer []

-- consoleOnce and console
pub record ConsoleCache : Type 0 where
  pub asked_once : Bool
  pub console : ConsoleSpec

-- describeConsole, with what it keeps
unfoldable pub describe_console : PluginDriver → ConsoleCache → Answer ConsoleSpec × ConsoleCache
describe_console d c =
    let got =
      if has d (codes "console")
      then answer_or d (codes "DescribeConsole") c.console (λ s. console_spec_from_proto (some s))
          d.client.describe_console
      else answer c.console in
    if c.asked_once
    then (answer c.console, c)
    else (got, record { asked_once = true; console = got.value })
