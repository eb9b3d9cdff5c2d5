-- ===== src/Plugin/Conv.antt =====
-- plugin/conv.go, the part that turns the host's values into messages and back. gob is a parameter:
-- what its encoder and its decoder give for a driver's own config.
pub mod Crossing
use doze_sdk.Engine.Network.{Listener}
use doze_sdk.Engine.Types.{
  Spec, nil, raw, config, Platform, Toolchain, Pin, LockEntry, Endpoint, GrantedListener, Grant,
  Dep, Instance,
}
use doze_sdk.Prelude.{
  Bool, List, Option, Result, Text, [], if◌then◌else◌, length, map, map_values, nat_eq, none, not,
  ok, pos, some, text_eq, to_int32, ◌&&◌, ◌>>=◌, ◌∷◌,
}
use doze_sdk.Plugin.Proto

-- platformToProto, platformFromProto
unfoldable pub platform_to_proto : Platform → Proto.Platform
platform_to_proto p = record { os = p.os; arch = p.arch; triple = p.triple }

unfoldable pub platform_from_proto : Option Proto.Platform → Platform
platform_from_proto none = record { os = []; arch = []; triple = [] }
platform_from_proto (some p) = record { os = p.os; arch = p.arch; triple = p.triple }

-- toolchainToProto, toolchainFromProto
unfoldable pub toolchain_to_proto : Toolchain → Proto.Toolchain
toolchain_to_proto t = record {
  engine = t.engine;
  full = t.full;
  bin_dir = t.bin_dir;
  tools = t.tools;
}

unfoldable pub toolchain_from_proto : Option Proto.Toolchain → Toolchain
toolchain_from_proto none = record { engine = []; full = []; bin_dir = []; tools = [] }
toolchain_from_proto (some t) = record {
  engine = t.engine;
  full = t.full;
  bin_dir = t.bin_dir;
  tools = t.tools;
}

-- pinToProto, pinFromProto
unfoldable pub pin_to_proto : Pin → Proto.Pin
pin_to_proto p = record { resolved = p.resolved; source = p.source; hashes = p.hashes }

unfoldable pub pin_from_proto : Option Proto.Pin → Pin
pin_from_proto none = record { resolved = []; source = []; hashes = [] }
pin_from_proto (some p) = record { resolved = p.resolved; source = p.source; hashes = p.hashes }

-- lockEntriesToProto, lockEntriesFromProto, with the body of each loop
unfoldable pub lock_entry_to_proto : LockEntry → Proto.LockEntry
unfolding pin_to_proto
lock_entry_to_proto e = record { engine = e.engine; spec = e.spec; pin = some (pin_to_proto e.pin) }

unfoldable pub lock_entry_from_proto : Proto.LockEntry → LockEntry
unfolding pin_from_proto
lock_entry_from_proto e = record { engine = e.engine; spec = e.spec; pin = pin_from_proto e.pin }

unfoldable pub lock_entries_to_proto : List LockEntry → List Proto.LockEntry
lock_entries_to_proto es = map lock_entry_to_proto es

unfoldable pub lock_entries_from_proto : List Proto.LockEntry → List LockEntry
lock_entries_from_proto es = map lock_entry_from_proto es

-- endpointToProto, endpointFromProto
unfoldable pub endpoint_to_proto : Endpoint → Proto.Endpoint
endpoint_to_proto e = record {
  unix_socket = e.unix_socket;
  tcp_addr = e.tcp_addr;
  backend = e.backend;
}

unfoldable pub endpoint_from_proto : Option Proto.Endpoint → Endpoint
endpoint_from_proto none = record { unix_socket = []; tcp_addr = []; backend = [] }
endpoint_from_proto (some e) = record {
  unix_socket = e.unix_socket;
  tcp_addr = e.tcp_addr;
  backend = e.backend;
}

-- networkToProto, networkFromProto; a network is its listeners
unfoldable pub listener_to_proto : Listener → Proto.Listener
listener_to_proto l = record {
  name = l.name;
  port = to_int32 l.port;
  protocol = l.protocol;
  routes = l.routes;
}

unfoldable pub listener_from_proto : Proto.Listener → Listener
listener_from_proto l = record {
  name = l.name;
  port = l.port;
  protocol = l.protocol;
  routes = l.routes;
}

unfoldable pub network_to_proto : List Listener → Proto.NetworkResponse
network_to_proto ls = record { listeners = map listener_to_proto ls }

unfoldable pub network_from_proto : Proto.NetworkResponse → List Listener
network_from_proto p = map listener_from_proto p.listeners

-- grantToProto, grantFromProto, with the bodies of their loops
unfoldable pub granted_to_proto : GrantedListener → Proto.GrantedListener
granted_to_proto l = record { addr = l.addr; url = l.url; hosts = l.hosts; backend = l.backend }

unfoldable pub granted_from_proto : Proto.GrantedListener → GrantedListener
granted_from_proto l = record { addr = l.addr; url = l.url; hosts = l.hosts; backend = l.backend }

-- Named (engine/network.go)
abbrev pub is_named : Grant → Bool
is_named g = not (text_eq g.host [])

unfoldable pub grant_to_proto : Grant → Option Proto.Grant
grant_to_proto g =
    if not (is_named g) && nat_eq (length g.listeners) 0
    then none
    else some (record { host = g.host; listeners = map_values granted_to_proto g.listeners })

unfoldable pub grant_from_proto : Option Proto.Grant → Grant
grant_from_proto none = record { host = []; listeners = [] }
grant_from_proto (some p) = record {
  host = p.host;
  listeners = map_values granted_from_proto p.listeners;
}

-- The loops over `Deps` in instanceToProto and instanceFromProto
unfoldable pub dep_to_proto : Dep → Proto.Dep
dep_to_proto d = record {
  name = d.name;
  engine = d.engine;
  socket_dir = d.socket_dir;
  backend = d.backend;
  url = d.url;
}

unfoldable pub dep_from_proto : Proto.Dep → Dep
dep_from_proto d = record {
  name = d.name;
  engine = d.engine;
  socket_dir = d.socket_dir;
  backend = d.backend;
  url = d.url;
}

-- gob, as far as the code relies on it.
pub record Gob (V E : Type 0) : Type 0 where
  pub encode : V → Result E Text
  pub decode : Text → Result E V

module _ {V E : Type 0} (gob : Gob V E) where
  -- encodeSpec
  unfoldable pub encode_spec : Option V → Result E Text
  encode_spec none = ok []
  encode_spec (some v) = gob.encode v

  -- decodeSpec
  unfoldable pub decode_spec : Text → Result E (Spec V)
  decode_spec [] = ok nil
  decode_spec (b ∷ bytes) = gob.decode (b ∷ bytes) >>= λ v. ok (config v)

  -- The bytes of a config: a RawSpec is sent as it is.
  unfoldable pub spec_bytes : Spec V → Result E Text
  unfolding encode_spec
  spec_bytes (raw bytes) = ok bytes
  spec_bytes nil = encode_spec none
  spec_bytes (config v) = encode_spec (some v)

  -- instanceToProto
  unfoldable pub instance_to_proto : Instance V → Result E Proto.Instance
  instance_to_proto inst = spec_bytes inst.spec >>= λ spec. ok (record {
    name = inst.name;
    type = inst.type;
    version = inst.version;
    data_dir = inst.data_dir;
    socket_dir = inst.socket_dir;
    port = to_int32 inst.port;
    endpoint = some (endpoint_to_proto inst.endpoint);
    spec = spec;
    deps = map_values dep_to_proto inst.deps;
    toolchain = some (toolchain_to_proto inst.toolchain);
    grant = grant_to_proto inst.grant;
  })

  -- The instance of a nil message.
  abbrev pub zero_instance : Instance V
  zero_instance = record {
    name = [];
    type = [];
    version = [];
    data_dir = [];
    socket_dir = [];
    port = pos 0;
    endpoint = endpoint_from_proto none;
    spec = nil;
    deps = [];
    toolchain = toolchain_from_proto none;
    grant = grant_from_proto none;
  }

  -- instanceFromProto
  unfoldable pub instance_from_proto : Option Proto.Instance → Result E (Instance V)
  instance_from_proto none = ok zero_instance
  instance_from_proto (some p) = decode_spec p.spec >>= λ spec. ok (record {
    name = p.name;
    type = p.type;
    version = p.version;
    data_dir = p.data_dir;
    socket_dir = p.socket_dir;
    port = p.port;
    endpoint = endpoint_from_proto p.endpoint;
    spec = spec;
    deps = map_values dep_from_proto p.deps;
    toolchain = toolchain_from_proto p.toolchain;
    grant = grant_from_proto p.grant;
  })
