-- ===== src/Plugin/Examples.antt =====
-- A module at concrete values: its config is a text, which gob writes behind one byte.
use doze_sdk.Plugin.Transparency.Mirrored.{hosted-Mirrors}
use doze_sdk.Plugin.Conv.Crossing.{arrives, instance_from_proto-instance_to_proto}
use doze_sdk.Plugin.Adapter.Wrapping.{
  interfaces, wrap_caps, budget_of, interfaces-wrap_caps, budget_of-milliseconds,
}
use doze_sdk.Plugin.Server.{CtyJson, milliseconds}
use doze_sdk.Plugin.Conv.{
  toolchain_to_proto, toolchain_from_proto, endpoint_to_proto, endpoint_from_proto, grant_to_proto,
  grant_from_proto, Gob, decode_spec, spec_bytes, instance_to_proto, instance_from_proto,
}
use doze_sdk.Plugin.Adapter.{has}
use doze_sdk.Plugin.Transparency.{Mirrors}
use doze_sdk.Plugin.Connection.{hosted}
use doze_sdk.Plugin.Rpc.{Grpc, unknown, status_error, status, plain}
use doze_sdk.Engine.Driver.{Hooks, Driver}
use doze_sdk.Engine.Services.{SpawnSpec, ConsoleSpec, Node, Nodes}
use doze_sdk.Engine.Types.{Grant, Instance, raw, config}
use doze_sdk.Prelude.{
  Text, [], arith, codes, err, false, map_values, none, ok, pos, refl, some, text_eq, to_int32,
  true, ◌*◌, ◌++◌, ◌>>=◌, ◌^◌, ◌∷◌, ◌≡◌,
}
use doze_sdk.Plugin.Proto

abbrev grpc : Grpc
grpc = record {
  deliver_error = λ e. elim e [ plain t ↦ status unknown t | status_error c t ↦ status c t ];
  framed = λ c t. codes "rpc error: " ++ t;
  deliver_plain = λ t. refl;
  deliver_status = λ c t. refl;
}

abbrev gob : Gob Text Text
gob = record {
  encode = λ v. ok (7 ∷ v);
  decode = λ b. elim b [ [] ↦ err (codes "empty") | c ∷ v ↦ ok v ];
}

abbrev cty : CtyJson Text
cty = record { marshal = λ v. ok v; unmarshal = λ b. ok b }

abbrev hooks : Hooks Text
hooks = record {
  pre_start = λ inst. none;
  post_start = λ inst. some inst.name;
  pre_stop = λ inst. none;
}

abbrev drv : Driver Text Text
drv = record {
  type = codes "kv";
  provision = λ inst tc. none;
  provisioned = λ dir. true;
  backend_socket = λ dir port. dir;
  conn_string = λ inst ep. (codes "KV_URL", ep.tcp_addr);
  converger = none;
  inventory = none;
  pruner = none;
  attributer = none;
  backend_provider = none;
  lifecycle = some (λ inst. true);
  hooked = some hooks;
  health_checker = none;
  restartable = none;
  port_binder = none;
  spawner = some (λ inst tc. ok (record { specs = [] }));
  versionless = true;
  templater = none;
  proxy_filter = false;
  admin = none;
  console = none;
  networked = none;
  slow_booter = some (pos (90 * 10 ^ 9));
}

abbrev grant : Grant
grant = record { host = codes "kv.doze"; listeners = [] }

abbrev inst : Instance Text
inst = record {
  name = codes "shop";
  type = codes "kv";
  version = codes "1";
  data_dir = [];
  socket_dir = [];
  port = pos 7000;
  endpoint = record { unix_socket = []; tcp_addr = []; backend = [] };
  spec = raw (7 ∷ codes "c");
  deps = [];
  toolchain = record { engine = []; full = []; bin_dir = []; tools = [] };
  grant = grant;
}

-- What crosses the wire, and what arrives.
abbrev message : Proto.Instance
message = record {
  name = codes "shop";
  type = codes "kv";
  version = codes "1";
  data_dir = [];
  socket_dir = [];
  port = pos 7000;
  endpoint = some (record { unix_socket = []; tcp_addr = []; backend = [] });
  spec = 7 ∷ codes "c";
  deps = [];
  toolchain = some (record { engine = []; full = []; bin_dir = []; tools = [] });
  grant = some (record { host = codes "kv.doze"; listeners = [] });
}

abbrev arrived : Instance Text
arrived = record inst { spec = config (codes "c") }

inst_sent : instance_to_proto gob inst ≡ ok message
unfolding instance_to_proto spec_bytes to_int32 endpoint_to_proto toolchain_to_proto grant_to_proto
    text_eq map_values
inst_sent = refl

message_read : instance_from_proto gob (some message) ≡ ok arrived
unfolding instance_from_proto decode_spec endpoint_from_proto toolchain_from_proto grant_from_proto
    map_values
message_read = refl

hosted-Mirrors_example : Mirrors grpc gob drv (hosted grpc gob cty drv) inst arrived
hosted-Mirrors_example = hosted-Mirrors grpc gob cty drv inst arrived message inst_sent message_read

instance_from_proto-instance_to_proto_example :
    (instance_to_proto gob inst >>= λ p. instance_from_proto gob (some p)) ≡ (
      arrives gob inst.spec >>= λ spec. ok (record inst { port = to_int32 inst.port; spec = spec }))
instance_from_proto-instance_to_proto_example = instance_from_proto-instance_to_proto gob inst

interfaces-wrap_caps_example : interfaces (wrap_caps (hosted grpc gob cty drv)) ≡ record {
  versionless = has (hosted grpc gob cty drv) (codes "versionless");
  templater = has (hosted grpc gob cty drv) (codes "templater");
  admin = has (hosted grpc gob cty drv) (codes "admin");
  structural = has (hosted grpc gob cty drv) (codes "converger");
}
interfaces-wrap_caps_example = interfaces-wrap_caps (hosted grpc gob cty drv)

budget_of-milliseconds_example : budget_of (milliseconds (pos (90 * 10 ^ 9))) ≡ pos (90 * 10 ^ 9)
budget_of-milliseconds_example = budget_of-milliseconds (90 * 10 ^ 9) (omega arith)

abbrev screen : ConsoleSpec
screen = record {
  front = codes "console";
  web_url = [];
  panels = [];
  tabs =
      record {
        id = codes "t";
        title = [];
        body =
            Node.node
              (record {
                kind = codes "row";
                id = [];
                title = [];
                weight = pos 2;
                panel = [];
                from = [];
                text = [];
                actions = [];
              })
              Nodes.no_nodes;
      }
      ∷ [];
  extend = [];
}

abbrev boot : SpawnSpec
boot = record {
  name = codes "kv";
  dir = [];
  bin = codes "kvd";
  args = [];
  env = [];
  tree = false;
  after = [];
  ready = some (record {
    kind = codes "tcp";
    target = [];
    interval = pos 0;
    timeout = pos 0;
    retries = pos 3;
  });
  hooks = [];
}
