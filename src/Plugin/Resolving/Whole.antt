-- ===== src/Plugin/Resolving/Whole.antt =====
-- Resolve across the wire over the lockfile itself (plugin/adapter.go, plugin/server.go,
-- plugin/fetch.go, engine/resolve.go, binaries/lock.go).
use doze_sdk.Plugin.Resolving.Remote.{relayed_fetcher, via, resolve-via}
use doze_sdk.Plugin.Resolving.Seeds.{NulFree, cut-lock_key, IsProper, map_get-entries}
use doze_sdk.Plugin.Resolving.{resolve_handler, HostLocker, resolve}
use doze_sdk.Plugin.Adapter.{has}
use doze_sdk.Plugin.Rpc.{RpcError, Grpc, deliver}
use doze_sdk.Engine.Types.{Platform, Pin}
use doze_sdk.Engine.Resolve.{Fetcher, resolve_via}
use doze_sdk.Binaries.Lock.Locking.{lock_locker}
use doze_sdk.Binaries.Lock.{Lock, Panic, get, entries}
use doze_sdk.Prelude.{List, Option, Result, Text, inr, none, ok, refl, some, ◌≡◌, ◌⊎◌}
use doze_sdk.Plugin.Proto

-- The lockfile as the host's locker, which lists its entries.
abbrev pub lock_host : HostLocker Lock (Panic ⊎ Text)
lock_host = record { ops = lock_locker; lister = some (λ l. entries (some l)) }

-- The client's method Resolve of a module whose driver resolves through ResolveVia, served with
-- the host's fetcher.
abbrev pub module_call :
    Grpc
    → Fetcher Text
    → Text
    → (Text → Option Text)
    → Text
    → Option Proto.Platform
    → List Proto.LockEntry
    → Result RpcError (Proto.Toolchain × List Proto.LockEntry)
module_call grpc f eng exact_full spec plat locked =
    deliver grpc (resolve_handler grpc (via eng exact_full) (some f) none spec plat locked)

-- A module that resolves through ResolveVia gives the host the toolchain and leaves the lockfile
-- as ResolveVia in the host itself would, or fails with its error as the two sides show it; if the
-- lock is one that Go can hold with engine types without NUL, and reading its pin does not panic.
pub resolve-module_call :
    (grpc : Grpc) (f : Fetcher Text) (plat : Platform) (eng spec : Text)
    (exact_full : Text → Option Text) (l : Lock) (held : Option Pin)
    → NulFree eng
    → IsProper l.engines
    → get (some l) eng spec ≡ ok held
    → resolve inr grpc lock_host eng none (module_call grpc f eng exact_full) spec plat l
      ≡ resolve_via lock_locker (relayed_fetcher inr grpc f) plat eng spec exact_full l
unfolding lock_locker
resolve-module_call grpc f plat eng spec exact_full l held free proper has =
    resolve-via inr grpc f lock_locker plat eng spec exact_full l held (λ l. entries (some l))
      (rw has refl) (map_get-entries l eng spec held free proper has) (cut-lock_key eng spec free)
