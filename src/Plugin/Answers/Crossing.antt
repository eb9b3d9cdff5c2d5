-- ===== src/Plugin/Answers/Crossing.antt =====
-- What arrives of a driver's answers (plugin/conv.go).
use doze_sdk.Plugin.Answers.{
  ready_to_proto, ready_from_proto, spawn_to_proto, spawn_from_proto, plan_to_proto,
  plan_from_proto, object_to_proto, object_from_proto, objects_to_proto, objects_from_proto,
  restart_to_proto, restart_from_proto, action_to_proto, action_from_proto, actions_to_proto,
  actions_from_proto, resource_to_proto, resource_from_proto, resources_to_proto,
  resources_from_proto, Ready, SpawnPlan, Object, Action, Resource, RestartSpec, SpawnSpec,
}
use doze_sdk.Prelude.{List, Option, [], map, none, refl, some, to_int32, ◌∷◌, ◌≡◌}

abbrev pub crossed_ready : Option Ready → Option Ready
crossed_ready none = none
crossed_ready (some r) = some (record r { retries = to_int32 r.retries })

ready_inverse : (r : Option Ready) → ready_from_proto (ready_to_proto r) ≡ crossed_ready r
unfolding ready_from_proto ready_to_proto
ready_inverse none = refl
ready_inverse (some r) = refl

spawn_inverse :
    (s : SpawnSpec)
    → spawn_from_proto (spawn_to_proto s) ≡ record s { ready = crossed_ready s.ready }
unfolding spawn_from_proto spawn_to_proto
spawn_inverse s = rw (ready_inverse s.ready) refl

-- A spawn plan arrives with each spec in its place, unchanged but for the number of retries, which
-- is an int32.
pub plan_from_proto-plan_to_proto :
    (plan : SpawnPlan)
    → (plan_from_proto (some (plan_to_proto plan))).specs
      ≡ map (λ (s : SpawnSpec). record s { ready = crossed_ready s.ready }) plan.specs
unfolding plan_from_proto plan_to_proto
plan_from_proto-plan_to_proto plan = go plan.specs
  where
    go :
        (ss : List SpawnSpec)
        → map spawn_from_proto (map spawn_to_proto ss)
          ≡ map (λ (s : SpawnSpec). record s { ready = crossed_ready s.ready }) ss
    go [] = refl
    go (s ∷ ss) = rw (spawn_inverse s, go ss) refl

-- A driver's objects arrive as they are.
pub objects_from_proto-objects_to_proto :
    (os : List Object) → objects_from_proto (objects_to_proto os) ≡ os
unfolding objects_from_proto objects_to_proto object_from_proto object_to_proto
objects_from_proto-objects_to_proto [] = refl
objects_from_proto-objects_to_proto (o ∷ os) = rw (objects_from_proto-objects_to_proto os) refl

pub actions_from_proto-actions_to_proto :
    (as' : List Action) → actions_from_proto (actions_to_proto as') ≡ as'
unfolding actions_from_proto actions_to_proto action_from_proto action_to_proto
actions_from_proto-actions_to_proto [] = refl
actions_from_proto-actions_to_proto (a ∷ as') = rw (actions_from_proto-actions_to_proto as') refl

pub resources_from_proto-resources_to_proto :
    (rs : List Resource) → resources_from_proto (resources_to_proto rs) ≡ rs
unfolding resources_from_proto resources_to_proto resource_from_proto resource_to_proto
resources_from_proto-resources_to_proto [] = refl
resources_from_proto-resources_to_proto (r ∷ rs) =
    rw (resources_from_proto-resources_to_proto rs) refl

pub restart_from_proto-restart_to_proto :
    (r : RestartSpec)
    → restart_from_proto (some (restart_to_proto r))
      ≡ record r { max_retries = to_int32 r.max_retries }
unfolding restart_from_proto restart_to_proto
restart_from_proto-restart_to_proto r = refl
