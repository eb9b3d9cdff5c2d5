-- ===== src/Plugin/Resolving.antt =====
-- Resolve across the wire: the locker and the handler of plugin/server.go, the fetcher of
-- plugin/fetch.go, and the call of plugin/adapter.go. A driver's Resolve is a parameter: what it
-- gives, and the locker it leaves, for the fetcher and the locker it is handed.
pub mod Seeds
pub mod Remote
pub mod Whole
mod Examples
use doze_sdk.Plugin.Server.{done}
use doze_sdk.Plugin.Conv.{
  platform_to_proto, platform_from_proto, toolchain_to_proto, toolchain_from_proto,
  lock_entries_to_proto, lock_entries_from_proto,
}
use doze_sdk.Plugin.Rpc.{HandlerError, RpcError, Grpc, deliver}
use doze_sdk.Engine.Types.{Platform, Toolchain, Pin, LockEntry}
use doze_sdk.Engine.Resolve.{Locker, Fetcher}
use doze_sdk.Modindex.Version.{major, older}
use doze_sdk.Binaries.Lock.Layers.{download}
use doze_sdk.Binaries.Lock.{get, record_pin, entries}
use doze_sdk.Strings.{cut}
use doze_sdk.Prelude.{
  List, Map, Option, Result, Text, [], codes, contains, err, if◌then◌else◌, insert, is_some, lookup,
  map, none, not, ok, some, ◌++◌, ◌>>=◌, ◌∷◌, text_key, int_key,
}
use doze_sdk.Plugin.Proto
use doze_sdk.Plugin.Server
use doze_sdk.Plugin.Adapter

-- mapLocker
pub record MapLocker : Type 0 where
  pub pins : Map Text Pin
  pub order : List Text

-- lockKey
abbrev pub lock_key : Text → Text → Text
lock_key eng spec = eng ++ 0 ∷ spec

-- The loop of newMapLocker
unfoldable pub seed_pins : List LockEntry → Map Text Pin → Map Text Pin
seed_pins [] pins = pins
seed_pins (e ∷ es) pins = seed_pins es (insert (lock_key e.engine e.spec) e.pin pins)

-- newMapLocker
unfoldable pub new_map_locker : List LockEntry → MapLocker
unfolding seed_pins
new_map_locker seed = record { pins = seed_pins seed []; order = [] }

-- Get
unfoldable pub map_get : MapLocker → Text → Text → Option Pin
map_get l eng spec = lookup (lock_key eng spec) l.pins

-- The order after a key is recorded
abbrev pub order_with : Text → MapLocker → List Text
order_with k l =
    if not (is_some (lookup k l.pins))
    then l.order ++ k ∷ []
    else if not (contains l.order k)
    then l.order ++ k ∷ []
    else l.order

-- Record
unfoldable pub map_record : MapLocker → Text → Text → Pin → MapLocker
map_record l eng spec pin = record {
  pins = insert (lock_key eng spec) pin l.pins;
  order = order_with (lock_key eng spec) l;
}

abbrev zero_pin : Pin
zero_pin = record { resolved = []; source = []; hashes = [] }

-- The entry of a key: the key is cut at its first NUL.
unfoldable pub entry_at : Map Text Pin → Text → LockEntry
entry_at pins k = record {
  engine = (cut 0 k).0;
  spec = (cut 0 k).1;
  pin = elim (lookup k pins) [ none ↦ zero_pin | some p ↦ p ];
}

-- recorded
unfoldable pub recorded : MapLocker → List LockEntry
unfolding entry_at
recorded l = map (entry_at l.pins) l.order

-- mapLocker as the Locker of a driver
unfoldable pub map_locker : {E : Type 0} → Locker MapLocker E
map_locker = record { get = λ l eng spec. ok (map_get l eng spec); record_pin = map_record }

-- fetcherServer behind gRPC, as fetcherClient calls it
unfoldable pub remote_fetcher : Grpc → Fetcher Text → Fetcher Text
remote_fetcher grpc f = record {
  resolve_major =
      λ eng major. Adapter.asked grpc (deliver grpc (Server.own (f.resolve_major eng major)));
  ensure = λ eng full plat sha. Adapter.asked grpc (
      deliver grpc
        (Server.own (f.ensure eng full (platform_from_proto (some (platform_to_proto plat))) sha)));
}

-- oldHostFetcher
abbrev pub old_host : Text
old_host =
    codes
      "this doze is older than the module and can't download engine binaries for it: upgrade doze"

abbrev pub old_host_fetcher : Fetcher Text
old_host_fetcher = record {
  resolve_major = λ eng major. err old_host;
  ensure = λ eng full plat sha. err old_host;
}

-- dialFetcher: no fetcher is served where the id is 0, and the dial may fail.
unfoldable pub dial_fetcher :
    Grpc → Option (Fetcher Text) → Option Text → Result Text (Fetcher Text)
unfolding remote_fetcher
dial_fetcher grpc none dial_error = ok old_host_fetcher
dial_fetcher grpc (some f) (some e) = err (codes "reaching doze to download engine binaries: " ++ e)
dial_fetcher grpc (some f) none = ok (remote_fetcher grpc f)

-- A driver's Resolve
abbrev pub DriverResolve : Type 0
DriverResolve = Fetcher Text → Text → Platform → MapLocker → Result Text (Toolchain × MapLocker)

-- Resolve (plugin/server.go)
unfoldable pub resolve_handler :
    Grpc
    → DriverResolve
    → Option (Fetcher Text)
    → Option Text
    → Text
    → Option Proto.Platform
    → List Proto.LockEntry
    → Result HandlerError (Proto.Toolchain × List Proto.LockEntry)
unfolding dial_fetcher new_map_locker recorded
resolve_handler grpc resolve served dial_error spec plat locked =
    Server.own (dial_fetcher grpc served dial_error) >>= λ fetch.
    Server.own (
      resolve fetch spec (platform_from_proto plat)
        (new_map_locker (lock_entries_from_proto locked)))
    >>= λ done. ok (toolchain_to_proto done.0, lock_entries_to_proto (recorded done.1))

-- The host's locker, which may be able to list its entries (LockLister).
pub record HostLocker (S Fault : Type 0) : Type 0 where
  pub ops : Locker S Fault
  pub lister : Option (S → List LockEntry)

-- The loop over `resp.Recorded`
unfoldable pub record_all : {S Fault : Type 0} → Locker S Fault → List LockEntry → S → S
record_all lk [] s = s
record_all lk (e ∷ es) s = record_all lk es (lk.record_pin s e.engine e.spec e.pin)

abbrev one_pin : Text → Text → Option Pin → List LockEntry
one_pin eng spec none = []
one_pin eng spec (some p) = record { engine = eng; spec = spec; pin = p } ∷ []

abbrev pub embedded : {A Fault : Type 0} → (Text → Fault) → Result Text A → Result Fault A
embedded embed (ok a) = ok a
embedded embed (err e) = err (embed e)

-- What the host ships of its lock
abbrev pub shipped :
    {S Fault : Type 0} → HostLocker S Fault → S → Text → Text → Result Fault (List LockEntry)
shipped lk s eng spec = elim lk.lister [
  | none ↦ lk.ops.get s eng spec >>= λ held. ok (one_pin eng spec held)
  | some entries ↦ ok (entries s)
]

-- Resolve (plugin/adapter.go), with the lock that it leaves: the broker may refuse to serve the
-- fetcher, and `call` is the client's method. `embed` takes an error's text to what the host's
-- locker fails with.
unfoldable pub resolve :
    {S Fault : Type 0}
    → (Text → Fault)
    → Grpc
    → HostLocker S Fault
    → Text
    → Option Text
    → (Text
        → Option Proto.Platform
        → List Proto.LockEntry
        → Result RpcError (Proto.Toolchain × List Proto.LockEntry))
    → Text
    → Platform
    → S
    → Result Fault (Toolchain × S)
unfolding record_all
resolve embed grpc lk eng (some e) call spec plat s = err (embed e)
resolve embed grpc lk eng none call spec plat s = shipped lk s eng spec >>= λ locked.
    embedded embed (
      Adapter.asked grpc (call spec (some (platform_to_proto plat)) (lock_entries_to_proto locked)))
    >>= λ resp.
        ok
          (toolchain_from_proto (some resp.0), record_all lk.ops (lock_entries_from_proto resp.1) s)
