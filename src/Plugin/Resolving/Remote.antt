-- ===== src/Plugin/Resolving/Remote.antt =====
-- A Resolve that goes through `ResolveVia` in a module does what it does in the host
-- (plugin/adapter.go, plugin/server.go, plugin/fetch.go, engine/resolve.go).
use doze_sdk.Plugin.Conv.Crossing.{lock_entries_from_proto-lock_entries_to_proto}
use doze_sdk.Binaries.Lock.{entries}
use doze_sdk.Plugin.Conv.{
  platform_to_proto, platform_from_proto, toolchain_to_proto, toolchain_from_proto,
}
use doze_sdk.Plugin.Resolving.{
  lock_key, new_map_locker, map_record, recorded, map_locker, remote_fetcher, DriverResolve,
  map_get, order_with, entry_at, resolve_handler, resolve, dial_fetcher, record_all,
}
use doze_sdk.Plugin.Rpc.{Grpc, deliver, shown}
use doze_sdk.Engine.Types.{Platform, Pin, LockEntry}
use doze_sdk.Engine.Resolve.{Locker, Fetcher, unpinned, version_from, resolve_via, digest_for}
use doze_sdk.Strings.{cut}
use doze_sdk.Prelude.{
  Bool-cases, List, Option, Result, Result-cases, Text, [], contains, err, inl, inr, none, ok, refl,
  some, text_eq, ◌∷◌, ◌≡◌, text_key, int_key, Map, codes, insert, is_some, lookup,
  lookup-insert_self,
}
use doze_sdk.Plugin.Server
use doze_sdk.Plugin.Adapter

-- The host's fetcher as the host would see it from beyond the module: an error's text has been
-- shown by the module and by the host.
abbrev pub relayed : {A Fault : Type 0} → (Text → Fault) → Grpc → Result Text A → Result Fault A
relayed embed grpc (ok a) = ok a
relayed embed grpc (err e) = err (embed (shown grpc (shown grpc e)))

unfoldable pub relayed_fetcher :
    {Fault : Type 0} → (Text → Fault) → Grpc → Fetcher Text → Fetcher Fault
relayed_fetcher embed grpc f = record {
  resolve_major = λ eng major. relayed embed grpc (f.resolve_major eng major);
  ensure = λ eng full plat sha. relayed embed grpc (f.ensure eng full plat sha);
}

-- A driver whose Resolve is a call of ResolveVia
abbrev pub via : Text → (Text → Option Text) → DriverResolve
via eng exact_full fetch spec plat s = resolve_via map_locker fetch plat eng spec exact_full s

-- What the host makes of an error that the module returns.
abbrev back : {A Fault : Type 0} → (Text → Fault) → Grpc → Result Text A → Result Fault A
back embed grpc (ok a) = ok a
back embed grpc (err e) = err (embed (shown grpc e))

relayed-back :
    {A Fault : Type 0} (embed : Text → Fault) (grpc : Grpc) (r : Result Text A)
    → relayed embed grpc r ≡ back embed grpc (Adapter.asked grpc (deliver grpc (Server.own r)))
relayed-back embed grpc (ok a) = refl
relayed-back embed grpc (err e) = refl

order_once : (es : List LockEntry) (k : Text) → order_with k (new_map_locker es) ≡ k ∷ []
unfolding new_map_locker contains
order_once es k = elim (Bool-cases (is_some (lookup k (new_map_locker es).pins))) [
  | inl seen ↦ rw seen refl
  | inr fresh ↦ rw fresh refl
]

entry_after :
    (pins : Map Text Pin) (eng spec : Text) (pin : Pin)
    → cut 0 (lock_key eng spec) ≡ (eng, spec)
    → entry_at (insert (lock_key eng spec) pin pins) (lock_key eng spec)
      ≡ record { engine = eng; spec = spec; pin = pin }
unfolding entry_at
entry_after pins eng spec pin splits =
    rw (splits, lookup-insert_self (lock_key eng spec) pin pins) refl

-- A driver that records one pin reports that pin.
recorded_once :
    (es : List LockEntry) (eng spec : Text) (pin : Pin)
    → cut 0 (lock_key eng spec) ≡ (eng, spec)
    → recorded (map_record (new_map_locker es) eng spec pin)
      ≡ record { engine = eng; spec = spec; pin = pin } ∷ []
unfolding recorded map_record
recorded_once es eng spec pin splits =
    rw (order_once es (lock_key eng spec), entry_after (new_map_locker es).pins eng spec pin splits)
      refl

module _ {S Fault : Type 0} (embed : Text → Fault) (grpc : Grpc) (f : Fetcher Text)
    (host : Locker S Fault) (plat : Platform) (eng spec : Text)
    (exact_full : Text → Option Text) where
  unpinned-back :
      (v : Option Text)
      → unpinned host (relayed_fetcher embed grpc f) eng spec v
        ≡ back embed grpc (unpinned (map_locker {E = Text}) (remote_fetcher grpc f) eng spec v)
  unfolding relayed_fetcher remote_fetcher
  unpinned-back (some v) = refl
  unpinned-back none = elim (Result-cases (f.resolve_major eng spec)) [
    | inl (v, e) ↦ rw e refl
    | inr (v, e) ↦ rw e refl
  ]

  version_back :
      (held : Option Pin)
      → version_from host held (relayed_fetcher embed grpc f) plat eng spec exact_full
        ≡ back embed grpc (
            version_from
              (map_locker {E = Text})
              held
              (remote_fetcher grpc f)
              plat
              eng
              spec
              exact_full)
  version_back none = unpinned-back (exact_full spec)
  version_back (some p) = elim (Bool-cases (text_eq p.resolved [])) [
    | inl unnamed ↦ rw unnamed (unpinned-back (exact_full spec))
    | inr named ↦ rw named refl
  ]

  ensure_back :
      (full sha : Text)
      → (relayed_fetcher embed grpc f).ensure eng full plat sha
        ≡ back embed grpc ((remote_fetcher grpc f).ensure eng full plat sha)
  unfolding relayed_fetcher remote_fetcher platform_from_proto platform_to_proto
  ensure_back full sha = relayed-back embed grpc (f.ensure eng full plat sha)

  -- What the module's handler gives for a version that it found and ensured.
  abbrev new_pin : Text → Text → Pin
  new_pin full digest = record {
    resolved = full;
    source = codes "mirror";
    hashes = digest_for plat.triple digest;
  }

  -- A Resolve through ResolveVia in a module leaves the host with the toolchain and the lock that
  -- ResolveVia gives in the host itself, or with its error, if the host can list its lock, the
  -- rows agree with what the lock has for the engine and spec, and the engine's name has no NUL.
  pub resolve-via :
      (s : S) (held : Option Pin) (entries : S → List LockEntry)
      → host.get s eng spec ≡ ok held
      → map_get (new_map_locker (entries s)) eng spec ≡ held
      → cut 0 (lock_key eng spec) ≡ (eng, spec)
      → resolve embed grpc
          (record { ops = host; lister = some entries })
          eng
          none
          (λ spec' plat' locked.
            deliver grpc
              (resolve_handler grpc (via eng exact_full) (some f) none spec' plat' locked))
          spec
          plat
          s
        ≡ resolve_via host (relayed_fetcher embed grpc f) plat eng spec exact_full s
  unfolding resolve resolve_handler resolve_via map_locker dial_fetcher platform_from_proto
      platform_to_proto toolchain_to_proto toolchain_from_proto record_all
  resolve-via s held entries host_has agree splits =
      elim (Result-cases (
        version_from (map_locker {E = Text}) held (remote_fetcher grpc f) plat eng spec
          exact_full)) [
            | inr (e, fails) ↦
                rw
                  (
                    lock_entries_from_proto-lock_entries_to_proto (entries s),
                    agree,
                    fails,
                    host_has,
                    version_back held,
                    fails,
                  )
                  refl
            | inl ((full, sha), chosen) ↦
                elim (Result-cases ((remote_fetcher grpc f).ensure eng full plat sha)) [
                  | inr (e, fails) ↦
                      rw
                        (
                          lock_entries_from_proto-lock_entries_to_proto (entries s),
                          agree,
                          chosen,
                          fails,
                          host_has,
                          version_back held,
                          chosen,
                          ensure_back full sha,
                          fails,
                        )
                        refl
                  | inl ((dir, digest), ensured) ↦
                      rw
                        (
                          lock_entries_from_proto-lock_entries_to_proto (entries s),
                          agree,
                          chosen,
                          ensured,
                          host_has,
                          version_back held,
                          chosen,
                          ensure_back full sha,
                          ensured,
                          recorded_once (entries s) eng spec (new_pin full digest) splits,
                          lock_entries_from_proto-lock_entries_to_proto (
                              record { engine = eng; spec = spec; pin = new_pin full digest } ∷ []),
                        )
                        refl
                ]
          ]
