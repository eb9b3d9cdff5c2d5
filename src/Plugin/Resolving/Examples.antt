-- ===== src/Plugin/Resolving/Examples.antt =====
-- A lock with one pin, and a module that resolves it again.
use doze_sdk.Plugin.Resolving.Remote.{relayed_fetcher}
use doze_sdk.Plugin.Resolving.Whole.{lock_host, module_call, resolve-module_call}
use doze_sdk.Plugin.Resolving.Seeds.{IsProper}
use doze_sdk.Plugin.Resolving.{resolve}
use doze_sdk.Plugin.Rpc.{Grpc, unknown, status_error, status, plain}
use doze_sdk.Engine.Types.{Platform, Pin}
use doze_sdk.Engine.Resolve.{Fetcher, exact_dots, resolve_via}
use doze_sdk.Binaries.Lock.Locking.{lock_locker}
use doze_sdk.Binaries.Lock.{Lock, get}
use doze_sdk.Strings.{contains_byte}
use doze_sdk.Prelude.{
  Text, [], codes, err, false, inr, lookup, none, ok, refl, some, text_eq, ◌∷◌, ◌≡◌, text_key,
  int_key,
}

abbrev pinned_at : Pin
pinned_at = record { resolved = codes "8.1.8"; source = codes "mirror"; hashes = [] }

abbrev small_lock : Lock
small_lock = record {
  engines = (codes "valkey", (codes "8", some pinned_at) ∷ []) ∷ [];
  modules = [];
  downloads = [];
  path = codes "doze.lock";
  dirty = false;
}

abbrev bare_grpc : Grpc
bare_grpc = record {
  deliver_error = λ e. elim e [ plain t ↦ status unknown t | status_error c t ↦ status c t ];
  framed = λ c t. t;
  deliver_plain = λ t. refl;
  deliver_status = λ c t. refl;
}

abbrev one_mirror : Fetcher Text
one_mirror = record {
  resolve_major = λ eng major. err (codes "no such major");
  ensure = λ eng full plat sha. ok (codes "/bin", codes "sha256:d");
}

abbrev here : Platform
here = record { os = codes "linux"; arch = codes "arm64"; triple = codes "a" }

small_lock-IsProper : IsProper small_lock.engines
unfolding contains_byte
small_lock-IsProper = ((tt, tt), ((refl, (tt, tt)), tt))

resolve-module_call_example :
    resolve inr bare_grpc lock_host
      (codes "valkey")
      none
      (module_call bare_grpc one_mirror (codes "valkey") (exact_dots 2))
      (codes "8")
      here
      small_lock
    ≡ resolve_via lock_locker
        (relayed_fetcher inr bare_grpc one_mirror)
        here
        (codes "valkey")
        (codes "8")
        (exact_dots 2)
        small_lock
unfolding get lookup text_eq contains_byte
resolve-module_call_example =
    resolve-module_call bare_grpc one_mirror here (codes "valkey") (codes "8") (exact_dots 2)
      small_lock (some pinned_at) refl small_lock-IsProper refl
