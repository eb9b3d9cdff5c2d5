-- ===== src/Plugin/Transparency.antt =====
-- A module behind gRPC answers as its driver would: the methods of plugin/adapter.go over the
-- handlers of plugin/server.go.
pub mod Mirrored
use doze_sdk.Plugin.Conv.{Gob}
use doze_sdk.Plugin.Answers.Crossing.{crossed_ready}
use doze_sdk.Plugin.Adapter.{PluginDriver}
use doze_sdk.Plugin.Rpc.{Grpc, unknown}
use doze_sdk.Engine.Driver.{Admin, Driver}
use doze_sdk.Engine.Services.{RestartSpec, SpawnPlan, SpawnSpec}
use doze_sdk.Engine.Types.{Toolchain, Object, Endpoint, Instance}
use doze_sdk.Engine.Network.{Listener}
use doze_sdk.Prelude.{
  List, Option, Result, Text, [], codes, err, false, map, none, not, ok, pos, some, to_int32, ◌∷◌,
  ◌≡◌,
}
use doze_sdk.Plugin.Server
use doze_sdk.Plugin.Adapter

-- The text that the host shows for an error of the driver's: its own, or if that is empty the text of
-- gRPC's error
abbrev pub told : Grpc → Text → Text
told grpc [] = grpc.framed unknown []
told grpc (c ∷ t) = c ∷ t

abbrev pub told_error : Grpc → Option Text → Option Text
told_error grpc none = none
told_error grpc (some e) = some (told grpc e)

abbrev pub told_result : {A : Type 0} → Grpc → Result Text A → Result Text A
told_result grpc (ok a) = ok a
told_result grpc (err e) = err (told grpc e)

-- A plan as the host has it: the numbers of retries have become int32, and all else is as it was.
abbrev pub told_plan : Grpc → Result Text SpawnPlan → Result Text SpawnPlan
told_plan grpc (ok plan) = ok (record {
  specs = map (λ (s : SpawnSpec). record s { ready = crossed_ready s.ready }) plan.specs;
})
told_plan grpc (err e) = err (told grpc e)

-- What the host falls back to for a driver without a restart policy
abbrev pub never_restart : RestartSpec
never_restart = record { policy = codes "no"; backoff = pos 0; max_retries = pos 0 }

-- `d` answers for `inst` as `drv` does for `inst'`. A method that the driver lacks gives its error
-- or the answer that the host falls back to.
pub record Mirrors {V C : Type 0} (grpc : Grpc) (gob : Gob V Text) (drv : Driver V C)
    (d : PluginDriver) (inst inst' : Instance V) : Type 0 where
  pub provision :
      (tc : Toolchain)
      → Adapter.provision grpc gob d inst tc ≡ told_error grpc (drv.provision inst' tc)
  pub plan :
      (tc : Toolchain)
      → Adapter.plan grpc gob d inst tc ≡ elim drv.spawner [
        | none ↦ err (codes "engine is not a Spawner")
        | some sp ↦ told_plan grpc (sp inst' tc)
      ]
  pub conn_string :
      (ep : Endpoint)
      → Adapter.conn_string gob d inst ep ≡ Adapter.answer (drv.conn_string inst' ep)
  pub converge :
      (tc : Toolchain) (ep : Endpoint)
      → Adapter.converge grpc gob d inst tc ep ≡ elim drv.converger [
        | none ↦ some (codes "not a Converger")
        | some c ↦ told_error grpc (c inst' tc ep)
      ]
  pub objects :
      (Adapter.objects gob d inst).value
      ≡ elim drv.inventory [ none ↦ [] | some inventory ↦ inventory inst' ]
  pub prune :
      (tc : Toolchain) (ep : Endpoint) (removed : List Object)
      → Adapter.prune grpc gob d inst tc ep removed ≡ elim drv.pruner [
        | none ↦ some (codes "not a Pruner")
        | some pruner ↦ told_error grpc (pruner inst' tc ep removed)
      ]
  pub backend_url :
      Adapter.backend_url gob d inst
      ≡ Adapter.answer (elim drv.backend_provider [ none ↦ [] | some bp ↦ bp inst' ])
  pub supervised :
      Adapter.supervised gob d inst
      ≡ Adapter.answer (elim drv.lifecycle [ none ↦ false | some lc ↦ lc inst' ])
  pub pre_start :
      Adapter.pre_start grpc gob d inst
      ≡ elim drv.hooked [ none ↦ none | some h ↦ told_error grpc (h.pre_start inst') ]
  pub post_start :
      Adapter.post_start grpc gob d inst
      ≡ elim drv.hooked [ none ↦ none | some h ↦ told_error grpc (h.post_start inst') ]
  pub pre_stop :
      Adapter.pre_stop grpc gob d inst
      ≡ elim drv.hooked [ none ↦ none | some h ↦ told_error grpc (h.pre_stop inst') ]
  pub check_health :
      Adapter.check_health grpc gob d inst
      ≡ elim drv.health_checker [ none ↦ none | some hc ↦ told_error grpc (hc inst') ]
  pub restart_policy :
      Adapter.restart_policy gob d inst
      ≡ Adapter.answer (elim drv.restartable [
        | none ↦ never_restart
        | some rs ↦ record (rs inst') { max_retries = to_int32 (rs inst').max_retries }
      ])
  pub advertised_addr :
      Adapter.advertised_addr gob d inst
      ≡ Adapter.answer (elim drv.port_binder [ none ↦ ([], false) | some pb ↦ pb inst' ])
  pub network :
      Adapter.network gob d inst
      ≡ Adapter.answer (elim drv.networked [
        | none ↦ []
        | some nw ↦ map (λ (l : Listener). record l { port = to_int32 l.port }) (nw inst')
      ])
  pub resources :
      (ep : Endpoint)
      → Adapter.resources grpc gob d inst ep ≡ elim drv.admin [
        | none ↦ err (codes "not an Admin")
        | some a ↦ told_result grpc (a.resources inst' ep)
      ]
  pub run_action :
      (ep : Endpoint) (action resource input : Text)
      → Adapter.run_action grpc gob d inst ep action resource input ≡ elim drv.admin [
        | none ↦ err (codes "not an Admin")
        | some a ↦ told_result grpc (a.run inst' ep action resource input)
      ]
