-- ===== src/Plugin/Transparency/Mirrored.antt =====
-- Each method of a module's driver over its handler (plugin/adapter.go, plugin/server.go).
use doze_sdk.Plugin.Adapter.{pre_start, post_start, pre_stop}
use doze_sdk.Plugin.Conv.Crossing.{network_from_proto-network_to_proto}
use doze_sdk.Plugin.Answers.Crossing.{
  objects_from_proto-objects_to_proto, resources_from_proto-resources_to_proto,
  plan_from_proto-plan_to_proto,
}
use doze_sdk.Plugin.Server.{CtyJson}
use doze_sdk.Plugin.Conv.{
  toolchain_to_proto, toolchain_from_proto, endpoint_to_proto, endpoint_from_proto, Gob,
  instance_to_proto, instance_from_proto,
}
use doze_sdk.Plugin.Answers.{
  plan_to_proto, plan_from_proto, objects_to_proto, objects_from_proto, restart_to_proto,
  restart_from_proto, resources_to_proto, resources_from_proto,
}
use doze_sdk.Plugin.Transparency.{told, told_error, told_result, told_plan, never_restart, Mirrors}
use doze_sdk.Plugin.Connection.{
  hosted, advertised_backend_url, advertised_lifecycle, advertised_hooked, advertised_health,
  advertised_restartable, advertised_port_binder, advertised_networked,
}
use doze_sdk.Plugin.Rpc.{Grpc, deliver, shown, user_error, status_error, unimplemented}
use doze_sdk.Engine.Driver.{Driver}
use doze_sdk.Engine.Services.{SpawnPlan, Resource}
use doze_sdk.Engine.Types.{Toolchain, Object, Endpoint, Instance}
use doze_sdk.Engine.Network.{Listener}
use doze_sdk.Prelude.{
  List, Option, Option-cases, Result, Text, [], ap, codes, err, false, inl, inr, map, none, ok,
  refl, some, text_eq, to_int32, ℕ, ◌>>=◌, ◌∷◌, ◌≡◌,
}
use doze_sdk.Plugin.Proto
use doze_sdk.Plugin.Server
use doze_sdk.Plugin.Adapter

shown-told : (grpc : Grpc) (t : Text) → shown grpc t ≡ told grpc t
unfolding user_error text_eq
shown-told grpc [] = rw (grpc.deliver_plain []) refl
shown-told grpc (c ∷ t) = rw (grpc.deliver_plain (c ∷ t)) refl

-- The host shows what the server says of a capability that the driver lacks.
lacking-told :
    (grpc : Grpc) (c : ℕ) (t : Text)
    → user_error grpc (grpc.deliver_error (status_error unimplemented (c ∷ t))) ≡ c ∷ t
unfolding user_error text_eq
lacking-told grpc c t = rw (grpc.deliver_status unimplemented (c ∷ t)) refl

error_of-done :
    (grpc : Grpc) (e : Option Text)
    → Adapter.error_of grpc (deliver grpc (Server.done e)) ≡ told_error grpc e
error_of-done grpc none = refl
error_of-done grpc (some e) = ap some (shown-told grpc e)

asked-own :
    {A : Type 0} (grpc : Grpc) (r : Result Text A)
    → Adapter.asked grpc (deliver grpc (Server.own r)) ≡ told_result grpc r
asked-own grpc (ok a) = refl
asked-own grpc (err e) = ap err (shown-told grpc e)

module _ {V C : Type 0} (grpc : Grpc) (gob : Gob V Text) (cty : CtyJson C) (drv : Driver V C)
    (inst inst' : Instance V) (p : Proto.Instance) (sent : instance_to_proto gob inst ≡ ok p)
    (read : instance_from_proto gob (some p) ≡ ok inst') where
  mirrored_provision :
      (tc : Toolchain)
      → Adapter.provision grpc gob (hosted grpc gob cty drv) inst tc
        ≡ told_error grpc (drv.provision inst' tc)
  unfolding Adapter.provision Server.provision hosted toolchain_to_proto toolchain_from_proto
  mirrored_provision tc = rw (sent, read) (error_of-done grpc (drv.provision inst' tc))

  mirrored_conn_string :
      (ep : Endpoint)
      → Adapter.conn_string gob (hosted grpc gob cty drv) inst ep
        ≡ Adapter.answer (drv.conn_string inst' ep)
  unfolding Adapter.conn_string Server.conn_string hosted endpoint_to_proto endpoint_from_proto
  mirrored_conn_string ep = rw (sent, read) refl

  mirrored_converge :
      (tc : Toolchain) (ep : Endpoint)
      → Adapter.converge grpc gob (hosted grpc gob cty drv) inst tc ep ≡ elim drv.converger [
        | none ↦ some (codes "not a Converger")
        | some c ↦ told_error grpc (c inst' tc ep)
      ]
  unfolding Adapter.converge Server.converge hosted toolchain_to_proto toolchain_from_proto
      endpoint_to_proto endpoint_from_proto
  mirrored_converge tc ep = elim (Option-cases drv.converger) [
    | inl e ↦ rw (sent, e) (ap some (lacking-told grpc _ _))
    | inr (c, e) ↦ rw (sent, e, read) (error_of-done grpc (c inst' tc ep))
  ]

  mirrored_objects :
      (Adapter.objects gob (hosted grpc gob cty drv) inst).value
      ≡ elim drv.inventory [ none ↦ [] | some inventory ↦ inventory inst' ]
  unfolding Adapter.objects Server.objects hosted objects_to_proto objects_from_proto
  mirrored_objects = elim (Option-cases drv.inventory) [
    | inl e ↦ rw (sent, e) refl
    | inr (inventory, e) ↦
        rw (sent, e, read) (objects_from_proto-objects_to_proto (inventory inst'))
  ]

  mirrored_prune :
      (tc : Toolchain) (ep : Endpoint) (removed : List Object)
      → Adapter.prune grpc gob (hosted grpc gob cty drv) inst tc ep removed ≡ elim drv.pruner [
        | none ↦ some (codes "not a Pruner")
        | some pruner ↦ told_error grpc (pruner inst' tc ep removed)
      ]
  unfolding Adapter.prune Server.prune hosted toolchain_to_proto toolchain_from_proto
      endpoint_to_proto endpoint_from_proto
  mirrored_prune tc ep removed = elim (Option-cases drv.pruner) [
    | inl e ↦ rw (sent, e) (ap some (lacking-told grpc _ _))
    | inr (pruner, e) ↦
        rw (sent, e, read)
          (rw (objects_from_proto-objects_to_proto removed)
            (error_of-done grpc (pruner inst' tc ep removed)))
  ]

  mirrored_backend_url :
      Adapter.backend_url gob (hosted grpc gob cty drv) inst
      ≡ Adapter.answer (elim drv.backend_provider [ none ↦ [] | some bp ↦ bp inst' ])
  unfolding Adapter.backend_url Server.backend_url hosted
  mirrored_backend_url = elim (Option-cases drv.backend_provider) [
    | inl e ↦ rw (advertised_backend_url drv, sent, e) refl
    | inr (bp, e) ↦ rw (advertised_backend_url drv, sent, e, read) refl
  ]

  mirrored_supervised :
      Adapter.supervised gob (hosted grpc gob cty drv) inst
      ≡ Adapter.answer (elim drv.lifecycle [ none ↦ false | some lc ↦ lc inst' ])
  unfolding Adapter.supervised Server.supervised hosted
  mirrored_supervised = elim (Option-cases drv.lifecycle) [
    | inl e ↦ rw (advertised_lifecycle drv, sent, e) refl
    | inr (lc, e) ↦ rw (advertised_lifecycle drv, sent, e, read) refl
  ]

  mirrored_pre_start :
      Adapter.pre_start grpc gob (hosted grpc gob cty drv) inst
      ≡ elim drv.hooked [ none ↦ none | some h ↦ told_error grpc (h.pre_start inst') ]
  unfolding Adapter.pre_start Adapter.hook Server.hook hosted text_eq
  mirrored_pre_start = elim (Option-cases drv.hooked) [
    | inl e ↦ rw (advertised_hooked drv, sent, e) refl
    | inr (h, e) ↦
        rw (advertised_hooked drv, sent, e, read) (error_of-done grpc (h.pre_start inst'))
  ]

  mirrored_post_start :
      Adapter.post_start grpc gob (hosted grpc gob cty drv) inst
      ≡ elim drv.hooked [ none ↦ none | some h ↦ told_error grpc (h.post_start inst') ]
  unfolding Adapter.post_start Adapter.hook Server.hook hosted text_eq
  mirrored_post_start = elim (Option-cases drv.hooked) [
    | inl e ↦ rw (advertised_hooked drv, sent, e) refl
    | inr (h, e) ↦
        rw (advertised_hooked drv, sent, e, read) (error_of-done grpc (h.post_start inst'))
  ]

  mirrored_pre_stop :
      Adapter.pre_stop grpc gob (hosted grpc gob cty drv) inst
      ≡ elim drv.hooked [ none ↦ none | some h ↦ told_error grpc (h.pre_stop inst') ]
  unfolding Adapter.pre_stop Adapter.hook Server.hook hosted text_eq
  mirrored_pre_stop = elim (Option-cases drv.hooked) [
    | inl e ↦ rw (advertised_hooked drv, sent, e) refl
    | inr (h, e) ↦ rw (advertised_hooked drv, sent, e, read) (error_of-done grpc (h.pre_stop inst'))
  ]

  mirrored_check_health :
      Adapter.check_health grpc gob (hosted grpc gob cty drv) inst
      ≡ elim drv.health_checker [ none ↦ none | some hc ↦ told_error grpc (hc inst') ]
  unfolding Adapter.check_health Server.check_health hosted
  mirrored_check_health = elim (Option-cases drv.health_checker) [
    | inl e ↦ rw (advertised_health drv, sent, e) refl
    | inr (hc, e) ↦ rw (advertised_health drv, sent, e, read) (error_of-done grpc (hc inst'))
  ]

  mirrored_restart_policy :
      Adapter.restart_policy gob (hosted grpc gob cty drv) inst
      ≡ Adapter.answer (elim drv.restartable [
        | none ↦ never_restart
        | some rs ↦ record (rs inst') { max_retries = to_int32 (rs inst').max_retries }
      ])
  unfolding Adapter.restart_policy Server.restart_policy hosted restart_from_proto restart_to_proto
  mirrored_restart_policy = elim (Option-cases drv.restartable) [
    | inl e ↦ rw (advertised_restartable drv, sent, e) refl
    | inr (rs, e) ↦ rw (advertised_restartable drv, sent, e, read) refl
  ]

  mirrored_advertised_addr :
      Adapter.advertised_addr gob (hosted grpc gob cty drv) inst
      ≡ Adapter.answer (elim drv.port_binder [ none ↦ ([], false) | some pb ↦ pb inst' ])
  unfolding Adapter.advertised_addr Server.advertised_addr hosted
  mirrored_advertised_addr = elim (Option-cases drv.port_binder) [
    | inl e ↦ rw (advertised_port_binder drv, sent, e) refl
    | inr (pb, e) ↦ rw (advertised_port_binder drv, sent, e, read) refl
  ]

  mirrored_network :
      Adapter.network gob (hosted grpc gob cty drv) inst
      ≡ Adapter.answer (elim drv.networked [
        | none ↦ []
        | some nw ↦ map (λ (l : Listener). record l { port = to_int32 l.port }) (nw inst')
      ])
  unfolding Adapter.network Server.network hosted
  mirrored_network = elim (Option-cases drv.networked) [
    | inl e ↦ rw (advertised_networked drv, sent, e) refl
    | inr (nw, e) ↦
        rw (advertised_networked drv, sent, e, read)
          (rw (network_from_proto-network_to_proto (nw inst')) refl)
  ]

  plan_read :
      (r : Result Text SpawnPlan)
      → (Adapter.asked grpc (deliver grpc (Server.own r >>= λ out. ok (plan_to_proto out)))
          >>= λ out. ok (plan_from_proto (some out)))
        ≡ told_plan grpc r
  plan_read (ok plan) = ap (λ ss. ok (record { specs = ss })) (plan_from_proto-plan_to_proto plan)
  plan_read (err e) = ap err (shown-told grpc e)

  resources_read :
      (r : Result Text (List Resource))
      → (Adapter.asked grpc (deliver grpc (Server.own r >>= λ out. ok (resources_to_proto out)))
          >>= λ out. ok (resources_from_proto out))
        ≡ told_result grpc r
  resources_read (ok rs) = ap ok (resources_from_proto-resources_to_proto rs)
  resources_read (err e) = ap err (shown-told grpc e)

  mirrored_plan :
      (tc : Toolchain)
      → Adapter.plan grpc gob (hosted grpc gob cty drv) inst tc ≡ elim drv.spawner [
        | none ↦ err (codes "engine is not a Spawner")
        | some sp ↦ told_plan grpc (sp inst' tc)
      ]
  unfolding Adapter.plan Server.plan hosted toolchain_to_proto toolchain_from_proto
  mirrored_plan tc = elim (Option-cases drv.spawner) [
    | inl e ↦ rw (sent, e) (ap err (lacking-told grpc _ _))
    | inr (sp, e) ↦ rw (sent, e, read) (plan_read (sp inst' tc))
  ]

  mirrored_resources :
      (ep : Endpoint)
      → Adapter.resources grpc gob (hosted grpc gob cty drv) inst ep ≡ elim drv.admin [
        | none ↦ err (codes "not an Admin")
        | some a ↦ told_result grpc (a.resources inst' ep)
      ]
  unfolding Adapter.resources Server.resources hosted endpoint_to_proto endpoint_from_proto
  mirrored_resources ep = elim (Option-cases drv.admin) [
    | inl e ↦ rw (sent, e) (ap err (lacking-told grpc _ _))
    | inr (a, e) ↦ rw (sent, e, read) (resources_read (a.resources inst' ep))
  ]

  mirrored_run_action :
      (ep : Endpoint) (action resource input : Text)
      → Adapter.run_action grpc gob (hosted grpc gob cty drv) inst ep action resource input
        ≡ elim drv.admin [
          | none ↦ err (codes "not an Admin")
          | some a ↦ told_result grpc (a.run inst' ep action resource input)
        ]
  unfolding Adapter.run_action Server.run_action hosted endpoint_to_proto endpoint_from_proto
  mirrored_run_action ep action resource input = elim (Option-cases drv.admin) [
    | inl e ↦ rw (sent, e) (ap err (lacking-told grpc _ _))
    | inr (a, e) ↦ rw (sent, e, read) (asked-own grpc (a.run inst' ep action resource input))
  ]

  -- A module behind gRPC mirrors its driver: for an instance that arrives as `inst'`, each of
  -- Provision, Plan, ConnString, Converge, Objects, Prune, BackendURL, Supervised, the three hooks,
  -- CheckHealth, RestartPolicy, AdvertisedAddr, Network, Resources and RunAction of the host's driver
  -- gives what the module's driver gives for `inst'`, but for the numbers that cross as an int32
  -- (retries and ports). An error has the driver's text, or gRPC's if that is empty, and a method
  -- that the driver lacks gives an error that says so or what the host falls back to.
  pub hosted-Mirrors : Mirrors grpc gob drv (hosted grpc gob cty drv) inst inst'
  hosted-Mirrors = record {
    provision = mirrored_provision;
    plan = mirrored_plan;
    conn_string = mirrored_conn_string;
    converge = mirrored_converge;
    objects = mirrored_objects;
    prune = mirrored_prune;
    backend_url = mirrored_backend_url;
    supervised = mirrored_supervised;
    pre_start = mirrored_pre_start;
    post_start = mirrored_post_start;
    pre_stop = mirrored_pre_stop;
    check_health = mirrored_check_health;
    restart_policy = mirrored_restart_policy;
    advertised_addr = mirrored_advertised_addr;
    network = mirrored_network;
    resources = mirrored_resources;
    run_action = mirrored_run_action;
  }
