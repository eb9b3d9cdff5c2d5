-- ===== src/Binaries/Examples.antt =====
-- Runs of the lockfile at concrete inputs.
use doze_sdk.Binaries.Lock.Pins.{IsPinned, get-record_pin}
use doze_sdk.Engine.Resolve.Frozen.{resolve_via_again, resolve_via_keeps}
use doze_sdk.Engine.Resolve.{Fetcher, exact_dots, resolve_via}
use doze_sdk.Binaries.Lock.Locking.{lock_locker, lock_locker-IsLawful}
use doze_sdk.Strings.{count_byte}
use doze_sdk.Engine.Types.{Pin, Platform, Toolchain}
use doze_sdk.Binaries.Lock.Layers.{run, run-get_download, drop}
use doze_sdk.Binaries.Lock.File.{
  empty_lock, Content, content_of, load_lock, save, load_lock-save, contents,
}
use doze_sdk.Binaries.Lock.{Lock, specs_at, get, record_pin, get_download, Panic, merge_hashes}
use doze_sdk.Prelude.{
  [], arith, codes, lookup, none, ok, refl, some, text_eq, ◌∷◌, ◌≡◌, text_key, int_key, Text, false,
  insert, true, ◌≢◌, ◌⊎◌,
}

abbrev start : Lock
start = empty_lock (codes "doze.lock")

abbrev bare : Pin
bare = record { resolved = codes "16.14.0"; source = codes "mirror"; hashes = [] }

run-get_download_example :
    get_download
      (run
        (drop (codes "a") ∷ [])
        (some (record start { downloads = (codes "u", some (codes "d")) ∷ [] })))
      (codes "u")
    ≡ some (codes "d")
unfolding get_download lookup text_eq
run-get_download_example =
    run-get_download (drop (codes "a") ∷ [])
      (some (record start { downloads = (codes "u", some (codes "d")) ∷ [] })) (codes "u")
      (codes "d") refl

get-record_pin_example :
    (stored : Pin) × ((get
          (record_pin (some start) (codes "pg") (codes "16") bare)
          (codes "pg")
          (codes "16")
        ≡ ok (some stored))
      × IsPinned (lookup (codes "16") (specs_at (codes "pg") start)) bare stored)
get-record_pin_example = get-record_pin start (codes "pg") (codes "16") bare tt

-- A mirror whose major 16 is 16.14, and what it serves.
abbrev mirror : Fetcher (Panic ⊎ Text)
mirror = record {
  resolve_major = λ eng major. ok (codes "16.14");
  ensure = λ eng full plat sha. ok (codes "/bin", codes "d");
}

-- The same mirror a release later.
abbrev later_mirror : Fetcher (Panic ⊎ Text)
later_mirror = record {
  resolve_major = λ eng major. ok (codes "16.15");
  ensure = λ eng full plat sha. ok (codes "/bin", codes "d");
}

abbrev host_platform : Platform
host_platform = record { os = codes "linux"; arch = codes "arm64"; triple = codes "a" }

abbrev tools_found : Toolchain
tools_found = record {
  engine = codes "pg";
  full = codes "16.14";
  bin_dir = codes "/bin";
  tools = [];
}

abbrev found : Pin
found = record {
  resolved = codes "16.14";
  source = codes "mirror";
  hashes = (codes "a", codes "d") ∷ [];
}

abbrev after : Lock
after = record start { engines = (codes "pg", (codes "16", some found) ∷ []) ∷ []; dirty = true }

first_resolve :
    resolve_via lock_locker mirror host_platform (codes "pg") (codes "16") (exact_dots 1) start
    ≡ ok (tools_found, after)
unfolding resolve_via exact_dots get record_pin merge_hashes lookup insert count_byte lock_locker
    text_eq
first_resolve = refl

second_resolve :
    resolve_via lock_locker later_mirror host_platform
      (codes "pg")
      (codes "16")
      (exact_dots 1)
      after
    ≡ ok (tools_found, after)
unfolding resolve_via exact_dots get record_pin merge_hashes lookup insert count_byte lock_locker
    text_eq
second_resolve = refl

resolve_via_again_example :
    (tools_found.full ≡ tools_found.full)
    × ((expected digest digest' : Text) × ((mirror.ensure
              (codes "pg")
              tools_found.full
              host_platform
              expected
            ≡ ok (tools_found.bin_dir, digest))
          × (digest ≢ []
              → later_mirror.ensure (codes "pg") tools_found.full host_platform digest
                ≡ ok (tools_found.bin_dir, digest'))))
resolve_via_again_example =
    resolve_via_again lock_locker lock_locker-IsLawful mirror later_mirror host_platform
      (codes "pg") (codes "16") (exact_dots 1) (exact_dots 1) start tools_found after tools_found
      after (λ h. ground arith) first_resolve second_resolve

resolve_via_keeps_example :
    (q : Pin) × (((lock_locker {E = Text}).get after (codes "pg") (codes "16") ≡ ok (some q))
      × (q.resolved ≡ found.resolved))
unfolding lock_locker get lookup text_eq
resolve_via_keeps_example =
    resolve_via_keeps lock_locker lock_locker-IsLawful later_mirror host_platform (codes "pg")
      (codes "16") (codes "pg") (codes "16") (exact_dots 1) after tools_found after found refl
      (λ h. ground arith) second_resolve

abbrev yaml_content : Content
yaml_content = content_of after

load_lock-save_example :
    (text : Text) × (((save {E = Text} (λ c. ok (codes "y")) none none (some after)).written
        ≡ some text)
      × (load_lock {E = Text} (λ t. ok (content_of after)) after.path (contents text)
          ≡ ok (record after { dirty = false })))
unfolding save text_eq
load_lock-save_example =
    load_lock-save (λ t. ok (content_of after)) (λ c. ok (codes "y")) none none after (λ t h. refl)
      refl (λ h. ground arith) refl refl
