-- ===== src/Plugin/Connection.antt =====
-- plugin/plugin.go: the two sides joined. `connect` is the client of a module that runs `drv`.
use doze_sdk.Plugin.Server.{CtyJson, asserted, capabilities}
use doze_sdk.Plugin.Adapter.Wrapping.{wrap_caps, budget_of, new_plugin_driver}
use doze_sdk.Plugin.Conv.{Gob}
use doze_sdk.Plugin.Adapter.{PluginDriver}
use doze_sdk.Plugin.Rpc.{Grpc, deliver, EngineClient}
use doze_sdk.Engine.Driver.{Driver}
use doze_sdk.Prelude.{
  Bool, List, Text, arith, codes, contains, false, if◌then◌else◌, is_some, none, ok, pos, refl,
  some, text_eq, true, ◌||◌, ◌≡◌, text_key, int_key, [], ◌∙◌, ◌∷◌,
}
use doze_sdk.Plugin.Server

module _ {V C : Type 0} (grpc : Grpc) (gob : Gob V Text) (cty : CtyJson C) (drv : Driver V C) where
  unfoldable pub connect : EngineClient
  connect = record {
    type = ok drv.type;
    capabilities = deliver grpc (Server.capabilities drv);
    provision = λ p tc. deliver grpc (Server.provision gob drv p tc);
    provisioned = λ dir. deliver grpc (Server.provisioned gob drv dir);
    backend_socket = λ dir port. deliver grpc (Server.backend_socket gob drv dir port);
    conn_string = λ p ep. deliver grpc (Server.conn_string gob drv p ep);
    plan = λ p tc. deliver grpc (Server.plan gob drv p tc);
    ensure_template = λ tc dir. deliver grpc (Server.ensure_template gob drv tc dir);
    clone_template = λ dir dest. deliver grpc (Server.clone_template gob drv dir dest);
    attributes = λ p ep. deliver grpc (Server.attributes gob drv cty p ep);
    converge = λ p tc ep. deliver grpc (Server.converge gob drv p tc ep);
    objects = λ p. deliver grpc (Server.objects gob drv p);
    prune = λ p tc ep removed. deliver grpc (Server.prune gob drv p tc ep removed);
    backend_url = λ p. deliver grpc (Server.backend_url gob drv p);
    supervised = λ p. deliver grpc (Server.supervised gob drv p);
    hook = λ p phase. deliver grpc (Server.hook gob drv p phase);
    check_health = λ p. deliver grpc (Server.check_health gob drv p);
    restart_policy = λ p. deliver grpc (Server.restart_policy gob drv p);
    advertised_addr = λ p. deliver grpc (Server.advertised_addr gob drv p);
    network = λ p. deliver grpc (Server.network gob drv p);
    actions = deliver grpc (Server.actions gob drv);
    resources = λ p ep. deliver grpc (Server.resources gob drv p ep);
    run_action = λ p ep action resource input.
        deliver grpc (Server.run_action gob drv p ep action resource input);
    describe_console = deliver grpc (Server.describe_console gob drv);
  }

  -- The host's driver for that module.
  unfoldable pub hosted : PluginDriver
  unfolding connect
  hosted = record {
    client = connect;
    engine_type = drv.type;
    caps = Server.advertised drv;
    boot_budget =
        budget_of (elim drv.slow_booter [ none ↦ pos 0 | some b ↦ Server.milliseconds b ]);
  }

  -- The launch of such a module gives the host that driver, wrapped by what it advertised.
  new_plugin_driver-connect : new_plugin_driver grpc connect ≡ ok (hosted, wrap_caps hosted)
  unfolding new_plugin_driver hosted Server.capabilities connect
  new_plugin_driver-connect = refl

-- Whether an id is among those that are listed.
abbrev pub flag : Text → List (Bool × Text) → Bool
flag k [] = false
flag k ((b, id) ∷ asserted) = if text_eq id k then b || flag k asserted else flag k asserted

contains-listed :
    (asserted : List (Bool × Text)) (k : Text)
    → contains (Server.listed asserted) k ≡ flag k asserted
unfolding contains Server.listed
contains-listed [] k = refl
contains-listed ((true, id) ∷ asserted) k = ground (arith, contains-listed asserted k)
contains-listed ((false, id) ∷ asserted) k = ground (arith, contains-listed asserted k)

or_false : (b : Bool) → (b || false) ≡ b
or_false true = refl
or_false false = refl

module _ {V C : Type 0} (drv : Driver V C) where
  pub advertised_converger :
      contains (Server.advertised drv) (codes "converger") ≡ is_some drv.converger
  unfolding Server.advertised text_eq
  advertised_converger =
      contains-listed (Server.asserted drv) (codes "converger") ∙ or_false (is_some drv.converger)

  pub advertised_inventory :
      contains (Server.advertised drv) (codes "inventory") ≡ is_some drv.inventory
  unfolding Server.advertised text_eq
  advertised_inventory =
      contains-listed (Server.asserted drv) (codes "inventory") ∙ or_false (is_some drv.inventory)

  pub advertised_pruner : contains (Server.advertised drv) (codes "pruner") ≡ is_some drv.pruner
  unfolding Server.advertised text_eq
  advertised_pruner =
      contains-listed (Server.asserted drv) (codes "pruner") ∙ or_false (is_some drv.pruner)

  pub advertised_attributer :
      contains (Server.advertised drv) (codes "attributer") ≡ is_some drv.attributer
  unfolding Server.advertised text_eq
  advertised_attributer =
      contains-listed (Server.asserted drv) (codes "attributer") ∙ or_false (is_some drv.attributer)

  pub advertised_backend_url :
      contains (Server.advertised drv) (codes "backend_url") ≡ is_some drv.backend_provider
  unfolding Server.advertised text_eq
  advertised_backend_url =
      contains-listed (Server.asserted drv) (codes "backend_url")
      ∙ or_false (is_some drv.backend_provider)

  pub advertised_lifecycle :
      contains (Server.advertised drv) (codes "lifecycle") ≡ is_some drv.lifecycle
  unfolding Server.advertised text_eq
  advertised_lifecycle =
      contains-listed (Server.asserted drv) (codes "lifecycle") ∙ or_false (is_some drv.lifecycle)

  pub advertised_hooked : contains (Server.advertised drv) (codes "hooked") ≡ is_some drv.hooked
  unfolding Server.advertised text_eq
  advertised_hooked =
      contains-listed (Server.asserted drv) (codes "hooked") ∙ or_false (is_some drv.hooked)

  pub advertised_health :
      contains (Server.advertised drv) (codes "health") ≡ is_some drv.health_checker
  unfolding Server.advertised text_eq
  advertised_health =
      contains-listed (Server.asserted drv) (codes "health") ∙ or_false (is_some drv.health_checker)

  pub advertised_restartable :
      contains (Server.advertised drv) (codes "restartable") ≡ is_some drv.restartable
  unfolding Server.advertised text_eq
  advertised_restartable =
      contains-listed (Server.asserted drv) (codes "restartable")
      ∙ or_false (is_some drv.restartable)

  pub advertised_port_binder :
      contains (Server.advertised drv) (codes "port_binder") ≡ is_some drv.port_binder
  unfolding Server.advertised text_eq
  advertised_port_binder =
      contains-listed (Server.asserted drv) (codes "port_binder")
      ∙ or_false (is_some drv.port_binder)

  pub advertised_spawner : contains (Server.advertised drv) (codes "spawner") ≡ is_some drv.spawner
  unfolding Server.advertised text_eq
  advertised_spawner =
      contains-listed (Server.asserted drv) (codes "spawner") ∙ or_false (is_some drv.spawner)

  pub advertised_versionless :
      contains (Server.advertised drv) (codes "versionless") ≡ drv.versionless
  unfolding Server.advertised text_eq
  advertised_versionless =
      contains-listed (Server.asserted drv) (codes "versionless") ∙ or_false (drv.versionless)

  pub advertised_templater :
      contains (Server.advertised drv) (codes "templater") ≡ is_some drv.templater
  unfolding Server.advertised text_eq
  advertised_templater =
      contains-listed (Server.asserted drv) (codes "templater") ∙ or_false (is_some drv.templater)

  pub advertised_proxy_filter :
      contains (Server.advertised drv) (codes "proxy_filter") ≡ drv.proxy_filter
  unfolding Server.advertised text_eq
  advertised_proxy_filter =
      contains-listed (Server.asserted drv) (codes "proxy_filter") ∙ or_false (drv.proxy_filter)

  pub advertised_admin : contains (Server.advertised drv) (codes "admin") ≡ is_some drv.admin
  unfolding Server.advertised text_eq
  advertised_admin =
      contains-listed (Server.asserted drv) (codes "admin") ∙ or_false (is_some drv.admin)

  pub advertised_console : contains (Server.advertised drv) (codes "console") ≡ is_some drv.console
  unfolding Server.advertised text_eq
  advertised_console =
      contains-listed (Server.asserted drv) (codes "console") ∙ or_false (is_some drv.console)

  pub advertised_networked :
      contains (Server.advertised drv) (codes "networked") ≡ is_some drv.networked
  unfolding Server.advertised text_eq
  advertised_networked =
      contains-listed (Server.asserted drv) (codes "networked") ∙ or_false (is_some drv.networked)
