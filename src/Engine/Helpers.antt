-- ===== src/Engine/Helpers.antt =====
-- engine/version.go, engine/platform.go, engine/stalelock.go, engine/registry.go and engine/category.go:
-- what drivers and hosts share beside the interfaces.
pub mod Stale
use doze_sdk.Modindex.Select.{supports}
use doze_sdk.Modindex.Version.{major}
use doze_sdk.Modindex.Signing.{sort_keys}
use doze_sdk.Prelude.{
  Bool, List, Map, Option, Result, Text, [], ◌∷◌, ◌++◌, ◌&&◌, ◌||◌, codes, err, if◌then◌else◌,
  insert, lookup, ltb_ℤ, none, not, ok, some, text_eq, text_key, true, false, ℤ, pos, map, ◌/◌,
  int_key,
}
use doze_sdk.Strings.{trim_space, cut}
use doze_sdk.Strings.Atoi.{atoi}

-- The errors of the version gates: the argument, the bound and the spec
pub data GateError : Type 0 where
  requires_version : Text → ℤ → Text → GateError
  removed_in : Text → ℤ → Text → GateError

-- RequireVersion
unfoldable pub require_version : Text → ℤ → Text → Option GateError
require_version spec min what = elim (atoi (major spec)) [
  | none ↦ none
  | some m ↦ if ltb_ℤ m min then some (requires_version what min spec) else none
]

-- RequireVersionBelow
unfoldable pub require_version_below : Text → ℤ → Text → Option GateError
require_version_below spec max what = elim (atoi (major spec)) [
  | none ↦ none
  | some m ↦ if ltb_ℤ m max then none else some (removed_in what max spec)
]

abbrev pub intel_mac : Text
intel_mac =
    codes
      "Intel Macs (darwin/amd64) are not supported — doze runs on Apple Silicon Macs and x86-64/arm64 Linux; on an Intel Mac, use a Linux devcontainer or VM"

abbrev pub unsupported_platform : Text → Text → Text
unsupported_platform goos goarch =
    codes "unsupported platform "
    ++ (goos
        ++ (codes "/"
            ++ (goarch ++ codes " (doze supports Apple Silicon macOS and x86-64/arm64 Linux)")))

-- targetTriple
unfoldable pub target_triple : Text → Text → Result Text Text
target_triple goos goarch =
    if text_eq goos (codes "linux") && text_eq goarch (codes "amd64")
    then ok (codes "x86_64-unknown-linux-gnu")
    else if text_eq goos (codes "linux") && text_eq goarch (codes "arm64")
    then ok (codes "aarch64-unknown-linux-gnu")
    else if text_eq goos (codes "darwin") && text_eq goarch (codes "arm64")
    then ok (codes "aarch64-apple-darwin")
    else if text_eq goos (codes "darwin") && text_eq goarch (codes "amd64")
    then err intel_mac
    else err (unsupported_platform goos goarch)

-- The errors of ClearStaleLock; `already_running` is the message with the pid.
pub data StaleError : Type 0 where
  unreadable : Text → StaleError
  already_running : Text → ℤ → StaleError
  not_removed : Text → StaleError

-- What ProcessAlive relies on in package os: how FindProcess of a pid ends, and how sending signal 0
-- to the process that it gives ends. Signal 0 reaches a process of another user with EPERM.
pub record Processes : Type 0 where
  pub find_process : ℤ → Option Text
  pub signal_zero : ℤ → Option Text

-- ProcessAlive
unfoldable pub process_alive : Processes → ℤ → Bool
process_alive os pid = elim (os.find_process pid) [
  | some e ↦ false
  | none ↦ elim (os.signal_zero pid) [ some e ↦ false | none ↦ true ]
]

-- The pid in the first line of a lock file, if it is positive and its process is alive
unfoldable pub live_pid : Processes → Text → Option ℤ
unfolding cut process_alive
live_pid os body = elim (atoi (trim_space (cut b'\n' body).0)) [
  | none ↦ none
  | some pid ↦ if ltb_ℤ (pos 0) pid && process_alive os pid then some pid else none
]

-- ClearStaleLock once the file is read: the error, and the file that is left. A file that is gone
-- when it is to be removed counts as removed.
unfoldable pub clear_read : Processes → Option Text → Text → Text → Option StaleError × Option Text
unfolding live_pid
clear_read os remove_error what body = elim (live_pid os body) [
  | some pid ↦ (some (already_running what pid), some body)
  | none ↦ elim remove_error [ some e ↦ (some (not_removed e), some body) | none ↦ (none, none) ]
]

-- ClearStaleLock: the processes, how reading and removing the file fail, if they do, and the file. That
-- there is no file is told by the file, and is no failure of the read.
unfoldable pub clear_stale_lock :
    Processes → Option Text → Option Text → Text → Option Text → Option StaleError × Option Text
unfolding clear_read
clear_stale_lock os (some e) remove_error what file = (some (unreadable e), file)
clear_stale_lock os none remove_error what none = (none, none)
clear_stale_lock os none remove_error what (some body) = clear_read os remove_error what body

-- drivers and pluginResolver, for a type of drivers
pub record Drivers (D : Type 0) : Type 0 where
  pub drivers : Map Text D
  pub plugin_resolver : Option (Text → Option D)

-- Register of a driver with its Type()
abbrev pub register_driver : {D : Type 0} → Text → D → Drivers D → Drivers D
register_driver type d r = record r { drivers = insert type d r.drivers }

-- SetPluginResolver
abbrev pub set_plugin_resolver : {D : Type 0} → Option (Text → Option D) → Drivers D → Drivers D
set_plugin_resolver resolver r = record r { plugin_resolver = resolver }

-- Lookup
unfoldable pub lookup_driver : {D : Type 0} → Text → Drivers D → Option D
lookup_driver type r = elim r.plugin_resolver [
  | none ↦ lookup type r.drivers
  | some resolve ↦ elim (resolve type) [ some d ↦ some d | none ↦ lookup type r.drivers ]
]

-- Types
unfoldable pub driver_types : {D : Type 0} → Drivers D → List Text
unfolding sort_keys
driver_types r = map (λ x. x.0) (sort_keys r.drivers)

-- Category
abbrev pub categories : Map Text Text
categories =
    (codes "postgres", codes "database")
    ∷ (codes "documentdb", codes "database")
    ∷ (codes "mysql", codes "database")
    ∷ (codes "valkey", codes "cache")
    ∷ (codes "kvrocks", codes "cache")
    ∷ (codes "redis", codes "cache")
    ∷ (codes "sqs", codes "queue")
    ∷ (codes "sns", codes "queue")
    ∷ (codes "kafka", codes "queue")
    ∷ (codes "s3", codes "storage")
    ∷ (codes "minio", codes "storage")
    ∷ (codes "process", codes "services")
    ∷ []

unfoldable pub category : Text → Text
category type = elim (lookup type categories) [ some c ↦ c | none ↦ codes "other" ]

-- CategoryOrder
abbrev pub category_order : List Text
category_order =
    codes "database"
    ∷ codes "cache"
    ∷ codes "queue"
    ∷ codes "storage"
    ∷ codes "services"
    ∷ codes "other"
    ∷ []
