-- ===== src/Plugin/Server.antt =====
-- plugin/server.go: the handlers of the service Engine, in a module's process. `gob` reads the
-- driver's own config, `cty` writes the attributes' values.
use doze_sdk.Strings.Atoi.{negate}
use doze_sdk.Plugin.Conv.{
  toolchain_from_proto, endpoint_from_proto, network_to_proto, Gob, instance_from_proto,
}
use doze_sdk.Plugin.Answers.{
  plan_to_proto, objects_to_proto, objects_from_proto, no_restart, restart_to_proto,
  actions_to_proto, resources_to_proto,
}
use doze_sdk.Plugin.Screens.{console_spec_to_proto}
use doze_sdk.Plugin.Rpc.{
  HandlerError, Empty, unimplemented, invalid_argument, status_error, empty, plain,
}
use doze_sdk.Engine.Driver.{Hooks, Driver}
use doze_sdk.Engine.Types.{Instance}
use doze_sdk.Prelude.{
  Bool, List, Map, Option, Result, Text, [], codes, err, false, if◌then◌else◌, is_some, negsuc,
  none, ok, pos, some, suc, text_eq, true, ℤ, ◌++◌, ◌/◌, ◌>>=◌, ◌^◌, ◌∷◌,
}
use doze_sdk.Plugin.Proto
use doze_sdk.Plugin.ProtoConsole

-- ctyjson, as far as the code relies on it
pub record CtyJson (C : Type 0) : Type 0 where
  pub marshal : C → Result Text Text
  pub unmarshal : Text → Result Text C

-- varsToJSON, varsFromJSON (plugin/ctyconv.go)
unfoldable pub vars_to_json : {C : Type 0} → CtyJson C → Map Text C → Result Text (Map Text Text)
vars_to_json cty [] = ok []
vars_to_json cty ((k, v) ∷ vars) =
    cty.marshal v >>= λ b. vars_to_json cty vars >>= λ out. ok ((k, b) ∷ out)

unfoldable pub vars_from_json : {C : Type 0} → CtyJson C → Map Text Text → Result Text (Map Text C)
vars_from_json cty [] = ok []
vars_from_json cty ((k, b) ∷ vars) =
    cty.unmarshal b >>= λ v. vars_from_json cty vars >>= λ out. ok ((k, v) ∷ out)

abbrev pub missing : {A : Type 0} → Text → Result HandlerError A
missing what = err (status_error unimplemented what)

-- `return &proto.Empty{}, err`
abbrev pub done : Option Text → Result HandlerError Empty
done none = ok empty
done (some e) = err (plain e)

-- A handler's own errors are its Go errors.
abbrev pub own : {A : Type 0} → Result Text A → Result HandlerError A
own (ok a) = ok a
own (err e) = err (plain e)

-- time.Duration's Milliseconds
unfoldable pub milliseconds : ℤ → ℤ
milliseconds (pos n) = pos (n / 10 ^ 6)
milliseconds (negsuc n) = negate (suc n / 10 ^ 6)

-- `add` of `Capabilities`, for each pair of a type assertion's answer and its id
unfoldable pub listed : List (Bool × Text) → List Text
listed [] = []
listed ((true, id) ∷ asserted) = id ∷ listed asserted
listed ((false, id) ∷ asserted) = listed asserted

module _ {V C : Type 0} (drv : Driver V C) where
  -- The type assertions of `Capabilities`, in its order.
  abbrev pub asserted : List (Bool × Text)
  asserted =
      (is_some drv.converger, codes "converger")
      ∷ (is_some drv.inventory, codes "inventory")
      ∷ (is_some drv.pruner, codes "pruner")
      ∷ (is_some drv.attributer, codes "attributer")
      ∷ (is_some drv.backend_provider, codes "backend_url")
      ∷ (is_some drv.lifecycle, codes "lifecycle")
      ∷ (is_some drv.hooked, codes "hooked")
      ∷ (is_some drv.health_checker, codes "health")
      ∷ (is_some drv.restartable, codes "restartable")
      ∷ (is_some drv.port_binder, codes "port_binder")
      ∷ (is_some drv.spawner, codes "spawner")
      ∷ (drv.versionless, codes "versionless")
      ∷ (is_some drv.templater, codes "templater")
      ∷ (drv.proxy_filter, codes "proxy_filter")
      ∷ (is_some drv.admin, codes "admin")
      ∷ (is_some drv.console, codes "console")
      ∷ (is_some drv.networked, codes "networked")
      ∷ []

  unfoldable pub advertised : List Text
  unfolding listed
  advertised = listed asserted

  -- Capabilities
  unfoldable pub capabilities : Result HandlerError (List Text × ℤ)
  unfolding advertised
  capabilities =
      ok (advertised, elim drv.slow_booter [ none ↦ pos 0 | some budget ↦ milliseconds budget ])

module _ {V C : Type 0} (gob : Gob V Text) (drv : Driver V C) where
  -- What most handlers do with a request's instance: decode it, then call the driver.
  abbrev pub with_instance :
      {A : Type 0}
      → Option Proto.Instance
      → (Instance V → Result HandlerError A)
      → Result HandlerError A
  with_instance p f = own (instance_from_proto gob p) >>= f

  -- Provision
  unfoldable pub provision :
      Option Proto.Instance → Option Proto.Toolchain → Result HandlerError Empty
  provision p tc = with_instance p (λ inst. done (drv.provision inst (toolchain_from_proto tc)))

  -- Provisioned, BackendSocket
  unfoldable pub provisioned : Text → Result HandlerError Bool
  provisioned data_dir = ok (drv.provisioned data_dir)

  unfoldable pub backend_socket : Text → ℤ → Result HandlerError Text
  backend_socket socket_dir port = ok (drv.backend_socket socket_dir port)

  -- ConnString
  unfoldable pub conn_string :
      Option Proto.Instance → Option Proto.Endpoint → Result HandlerError (Text × Text)
  conn_string p ep = with_instance p (λ inst. ok (drv.conn_string inst (endpoint_from_proto ep)))

  -- The method Plan of a Spawner
  unfoldable pub plan :
      Option Proto.Instance → Option Proto.Toolchain → Result HandlerError Proto.SpawnPlan
  plan p tc = elim drv.spawner [
    | none ↦ missing (codes "engine is not a Spawner")
    | some sp ↦
        with_instance p
          (λ inst. own (sp inst (toolchain_from_proto tc)) >>= λ out. ok (plan_to_proto out))
  ]

  -- EnsureTemplate, CloneTemplate
  unfoldable pub ensure_template : Option Proto.Toolchain → Text → Result HandlerError Empty
  ensure_template tc dir = elim drv.templater [
    | none ↦ missing (codes "not a Templater")
    | some t ↦ done (t.ensure_template (toolchain_from_proto tc) dir)
  ]

  unfoldable pub clone_template : Text → Text → Result HandlerError Empty
  clone_template dir dest = elim drv.templater [
    | none ↦ missing (codes "not a Templater")
    | some t ↦ done (t.clone_template dir dest)
  ]

  -- Attributes
  unfoldable pub attributes :
      CtyJson C
      → Option Proto.Instance
      → Option Proto.Endpoint
      → Result HandlerError (Map Text Text)
  attributes cty p ep = elim drv.attributer [
    | none ↦ ok []
    | some a ↦ with_instance p (λ inst. own (vars_to_json cty (a inst (endpoint_from_proto ep))))
  ]

  -- Converge
  unfoldable pub converge :
      Option Proto.Instance
      → Option Proto.Toolchain
      → Option Proto.Endpoint
      → Result HandlerError Empty
  converge p tc ep = elim drv.converger [
    | none ↦ missing (codes "not a Converger")
    | some c ↦
        with_instance p (λ inst. done (c inst (toolchain_from_proto tc) (endpoint_from_proto ep)))
  ]

  -- Objects
  unfoldable pub objects : Option Proto.Instance → Result HandlerError (List Proto.Object)
  objects p = elim drv.inventory [
    | none ↦ missing (codes "not an Inventory")
    | some inv ↦ with_instance p (λ inst. ok (objects_to_proto (inv inst)))
  ]

  -- Prune
  unfoldable pub prune :
      Option Proto.Instance
      → Option Proto.Toolchain
      → Option Proto.Endpoint
      → List Proto.Object
      → Result HandlerError Empty
  prune p tc ep removed = elim drv.pruner [
    | none ↦ missing (codes "not a Pruner")
    | some pr ↦ with_instance p (λ inst.
        done
          (pr inst (toolchain_from_proto tc) (endpoint_from_proto ep) (objects_from_proto removed)))
  ]

  -- BackendURL
  unfoldable pub backend_url : Option Proto.Instance → Result HandlerError Text
  backend_url p = elim drv.backend_provider [
    | none ↦ missing (codes "not a BackendProvider")
    | some bp ↦ with_instance p (λ inst. ok (bp inst))
  ]

  -- Supervised
  unfoldable pub supervised : Option Proto.Instance → Result HandlerError Bool
  supervised p = elim drv.lifecycle [
    | none ↦ ok false
    | some lc ↦ with_instance p (λ inst. ok (lc inst))
  ]

  -- The switch of `Hook`
  abbrev pub hook_phase : Hooks V → Text → Instance V → Result HandlerError Empty
  hook_phase h phase inst =
      if text_eq phase (codes "pre_start")
      then done (h.pre_start inst)
      else if text_eq phase (codes "post_start")
      then done (h.post_start inst)
      else if text_eq phase (codes "pre_stop")
      then done (h.pre_stop inst)
      else err (status_error invalid_argument (codes "unknown hook phase " ++ phase))

  -- Hook; the message quotes the phase, which the model leaves bare
  unfoldable pub hook : Option Proto.Instance → Text → Result HandlerError Empty
  hook p phase = elim drv.hooked [
    | none ↦ missing (codes "not Hooked")
    | some h ↦ with_instance p (hook_phase h phase)
  ]

  -- CheckHealth
  unfoldable pub check_health : Option Proto.Instance → Result HandlerError Empty
  check_health p = elim drv.health_checker [
    | none ↦ missing (codes "not a HealthChecker")
    | some hc ↦ with_instance p (λ inst. done (hc inst))
  ]

  -- RestartPolicy
  unfoldable pub restart_policy : Option Proto.Instance → Result HandlerError Proto.RestartSpec
  restart_policy p = elim drv.restartable [
    | none ↦ ok (restart_to_proto no_restart)
    | some rs ↦ with_instance p (λ inst. ok (restart_to_proto (rs inst)))
  ]

  -- AdvertisedAddr
  unfoldable pub advertised_addr : Option Proto.Instance → Result HandlerError (Text × Bool)
  advertised_addr p = elim drv.port_binder [
    | none ↦ ok ([], false)
    | some pb ↦ with_instance p (λ inst. ok (pb inst))
  ]

  -- Network
  unfoldable pub network : Option Proto.Instance → Result HandlerError Proto.NetworkResponse
  network p = elim drv.networked [
    | none ↦ ok (record { listeners = [] })
    | some nw ↦ with_instance p (λ inst. ok (network_to_proto (nw inst)))
  ]

  -- Actions
  unfoldable pub actions : Result HandlerError (List ProtoConsole.Action)
  actions = elim drv.admin [
    | none ↦ missing (codes "not an Admin")
    | some a ↦ ok (actions_to_proto a.actions)
  ]

  -- Resources
  unfoldable pub resources :
      Option Proto.Instance
      → Option Proto.Endpoint
      → Result HandlerError (List ProtoConsole.Resource)
  resources p ep = elim drv.admin [
    | none ↦ missing (codes "not an Admin")
    | some a ↦ with_instance p (λ inst.
        own (a.resources inst (endpoint_from_proto ep)) >>= λ out. ok (resources_to_proto out))
  ]

  -- RunAction
  unfoldable pub run_action :
      Option Proto.Instance → Option Proto.Endpoint → Text → Text → Text → Result HandlerError Text
  run_action p ep action resource input = elim drv.admin [
    | none ↦ missing (codes "not an Admin")
    | some a ↦
        with_instance p (λ inst. own (a.run inst (endpoint_from_proto ep) action resource input))
  ]

  -- DescribeConsole
  unfoldable pub describe_console : Result HandlerError ProtoConsole.ConsoleSpec
  describe_console = elim drv.console [
    | none ↦ missing (codes "not a Console")
    | some spec ↦ ok (console_spec_to_proto spec)
  ]
