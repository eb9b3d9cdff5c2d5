-- ===== src/Plugin/Answers.antt =====
-- plugin/conv.go, the part that turns what a driver answers into messages and back.
pub mod Crossing
use doze_sdk.Engine.Services.{Ready, SpawnSpec, SpawnPlan, RestartSpec, Action, Resource}
use doze_sdk.Engine.Types.{Object}
use doze_sdk.Prelude.{List, Option, Text, [], codes, map, none, pos, some, to_int32}
use doze_sdk.Plugin.Proto
use doze_sdk.Plugin.ProtoConsole

-- readyToProto, readyFromProto
unfoldable pub ready_to_proto : Option Ready → Option Proto.Ready
ready_to_proto none = none
ready_to_proto (some r) = some (record {
  kind = r.kind;
  target = r.target;
  interval_ns = r.interval;
  timeout_ns = r.timeout;
  retries = to_int32 r.retries;
})

unfoldable pub ready_from_proto : Option Proto.Ready → Option Ready
ready_from_proto none = none
ready_from_proto (some r) = some (record {
  kind = r.kind;
  target = r.target;
  interval = r.interval_ns;
  timeout = r.timeout_ns;
  retries = r.retries;
})

-- planToProto, planFromProto, with the bodies of their loops
unfoldable pub spawn_to_proto : SpawnSpec → Proto.SpawnSpec
unfolding ready_to_proto
spawn_to_proto s = record {
  name = s.name;
  dir = s.dir;
  bin = s.bin;
  args = s.args;
  env = s.env;
  tree = s.tree;
  after = s.after;
  ready = ready_to_proto s.ready;
  hooks = s.hooks;
}

unfoldable pub spawn_from_proto : Proto.SpawnSpec → SpawnSpec
unfolding ready_from_proto
spawn_from_proto s = record {
  name = s.name;
  dir = s.dir;
  bin = s.bin;
  args = s.args;
  env = s.env;
  tree = s.tree;
  after = s.after;
  ready = ready_from_proto s.ready;
  hooks = s.hooks;
}

unfoldable pub plan_to_proto : SpawnPlan → Proto.SpawnPlan
plan_to_proto plan = record { specs = map spawn_to_proto plan.specs }

unfoldable pub plan_from_proto : Option Proto.SpawnPlan → SpawnPlan
plan_from_proto none = record { specs = [] }
plan_from_proto (some p) = record { specs = map spawn_from_proto p.specs }

-- objectsToProto, objectsFromProto, with the bodies of their loops
unfoldable pub object_to_proto : Object → Proto.Object
object_to_proto o = record { kind = o.kind; name = o.name; hash = o.hash }

unfoldable pub object_from_proto : Proto.Object → Object
object_from_proto o = record { kind = o.kind; name = o.name; hash = o.hash }

unfoldable pub objects_to_proto : List Object → List Proto.Object
objects_to_proto os = map object_to_proto os

unfoldable pub objects_from_proto : List Proto.Object → List Object
objects_from_proto ps = map object_from_proto ps

-- RestartNo
abbrev pub restart_no : Text
restart_no = codes "no"

abbrev pub no_restart : RestartSpec
no_restart = record { policy = restart_no; backoff = pos 0; max_retries = pos 0 }

-- restartToProto, restartFromProto
unfoldable pub restart_to_proto : RestartSpec → Proto.RestartSpec
restart_to_proto r = record {
  policy = r.policy;
  backoff_ns = r.backoff;
  max_retries = to_int32 r.max_retries;
}

unfoldable pub restart_from_proto : Option Proto.RestartSpec → RestartSpec
restart_from_proto none = no_restart
restart_from_proto (some r) = record {
  policy = r.policy;
  backoff = r.backoff_ns;
  max_retries = r.max_retries;
}

-- actionsToProto, actionsFromProto, with the bodies of their loops
unfoldable pub action_to_proto : Action → ProtoConsole.Action
action_to_proto a = record {
  id = a.id;
  label = a.label;
  kind = a.kind;
  destructive = a.destructive;
  input_hint = a.input_hint;
}

unfoldable pub action_from_proto : ProtoConsole.Action → Action
action_from_proto a = record {
  id = a.id;
  label = a.label;
  kind = a.kind;
  destructive = a.destructive;
  input_hint = a.input_hint;
}

unfoldable pub actions_to_proto : List Action → List ProtoConsole.Action
actions_to_proto as' = map action_to_proto as'

unfoldable pub actions_from_proto : List ProtoConsole.Action → List Action
actions_from_proto ps = map action_from_proto ps

-- resourcesToProto, resourcesFromProto, with the bodies of their loops
unfoldable pub resource_to_proto : Resource → ProtoConsole.Resource
resource_to_proto r = record { kind = r.kind; name = r.name; status = r.status; info = r.info }

unfoldable pub resource_from_proto : ProtoConsole.Resource → Resource
resource_from_proto r = record { kind = r.kind; name = r.name; status = r.status; info = r.info }

unfoldable pub resources_to_proto : List Resource → List ProtoConsole.Resource
resources_to_proto rs = map resource_to_proto rs

unfoldable pub resources_from_proto : List ProtoConsole.Resource → List Resource
resources_from_proto ps = map resource_from_proto ps
