-- ===== src/Plugin/Conv/Crossing.antt =====
-- What arrives of a value that crosses the wire (plugin/conv.go).
use doze_sdk.Plugin.Conv.{
  platform_to_proto, platform_from_proto, toolchain_to_proto, toolchain_from_proto,
  lock_entry_to_proto, lock_entry_from_proto, lock_entries_to_proto, lock_entries_from_proto,
  endpoint_to_proto, endpoint_from_proto, listener_to_proto, listener_from_proto, network_to_proto,
  network_from_proto, granted_to_proto, granted_from_proto, grant_to_proto, grant_from_proto,
  dep_to_proto, dep_from_proto, Gob, decode_spec, spec_bytes, instance_to_proto,
  instance_from_proto,
}
use doze_sdk.Engine.Types.{
  Spec, raw, config, Platform, Toolchain, Endpoint, LockEntry, Grant, Dep, Instance,
  GrantedListener,
}
use doze_sdk.Engine.Network.{Listener}
use doze_sdk.Prelude.{
  List, Map, Result, Result-cases, Text, [], inl, inr, map, ok, refl, some, text_eq, to_int32, ℕ,
  ◌>>=◌, ◌∷◌, ◌≡◌, ap, map_values, map_values_inverse, arith,
}

pub platform_from_proto-platform_to_proto :
    (p : Platform) → platform_from_proto (some (platform_to_proto p)) ≡ p
unfolding platform_from_proto platform_to_proto
platform_from_proto-platform_to_proto p = refl

pub toolchain_from_proto-toolchain_to_proto :
    (t : Toolchain) → toolchain_from_proto (some (toolchain_to_proto t)) ≡ t
unfolding toolchain_from_proto toolchain_to_proto
toolchain_from_proto-toolchain_to_proto t = refl

pub endpoint_from_proto-endpoint_to_proto :
    (e : Endpoint) → endpoint_from_proto (some (endpoint_to_proto e)) ≡ e
unfolding endpoint_from_proto endpoint_to_proto
endpoint_from_proto-endpoint_to_proto e = refl

lock_entry_inverse : (e : LockEntry) → lock_entry_from_proto (lock_entry_to_proto e) ≡ e
unfolding lock_entry_from_proto lock_entry_to_proto
lock_entry_inverse e = refl

-- The rows of a lock cross the wire unchanged.
pub lock_entries_from_proto-lock_entries_to_proto :
    (es : List LockEntry) → lock_entries_from_proto (lock_entries_to_proto es) ≡ es
unfolding lock_entries_from_proto lock_entries_to_proto
lock_entries_from_proto-lock_entries_to_proto [] = refl
lock_entries_from_proto-lock_entries_to_proto (e ∷ es) =
    rw (lock_entry_inverse e, lock_entries_from_proto-lock_entries_to_proto es) refl

listener_inverse :
    (l : Listener) → listener_from_proto (listener_to_proto l) ≡ record l { port = to_int32 l.port }
unfolding listener_from_proto listener_to_proto
listener_inverse l = refl

-- The listeners of a network arrive as they are, but a port as the int32 of its low 32 bits.
pub network_from_proto-network_to_proto :
    (ls : List Listener)
    → network_from_proto (network_to_proto ls)
      ≡ map (λ (l : Listener). record l { port = to_int32 l.port }) ls
unfolding network_from_proto network_to_proto
network_from_proto-network_to_proto [] = refl
network_from_proto-network_to_proto (l ∷ ls) =
    rw (listener_inverse l, network_from_proto-network_to_proto ls) refl

grant_sent :
    (host : Text) (ls : Map Text GrantedListener)
    → grant_from_proto (some (record { host = host; listeners = map_values granted_to_proto ls }))
      ≡ record { host = host; listeners = ls }
unfolding grant_from_proto granted_to_proto granted_from_proto
grant_sent host ls =
    ap {B = Grant} (λ (m : Map Text GrantedListener). record { host = host; listeners = m })
      (map_values_inverse granted_to_proto granted_from_proto (λ v. refl) ls)

grant_parts :
    (host : Text) (ls : Map Text GrantedListener)
    → grant_from_proto (grant_to_proto (record { host = host; listeners = ls }))
      ≡ record { host = host; listeners = ls }
unfolding grant_to_proto text_eq
grant_parts [] [] = unfold grant_from_proto in refl
grant_parts [] (l ∷ ls) = ground (arith, grant_sent [] (l ∷ ls))
grant_parts (c ∷ host) ls = grant_sent (c ∷ host) ls

-- A grant crosses the wire unchanged, although one without a name and listeners is not sent.
pub grant_from_proto-grant_to_proto : (g : Grant) → grant_from_proto (grant_to_proto g) ≡ g
grant_from_proto-grant_to_proto g = grant_parts g.host g.listeners

dep_inverse : (d : Dep) → dep_from_proto (dep_to_proto d) ≡ d
unfolding dep_from_proto dep_to_proto
dep_inverse d = refl

module _ {V E : Type 0} (gob : Gob V E) where
  -- The config that arrives: the value that its bytes decode to.
  abbrev pub arrives : Spec V → Result E (Spec V)
  arrives spec = spec_bytes gob spec >>= decode_spec gob

  -- An instance arrives with its port as an int32, with the config that its bytes decode to, and
  -- with all else as it was; it fails to arrive only where gob fails.
  pub instance_from_proto-instance_to_proto :
      (inst : Instance V)
      → (instance_to_proto gob inst >>= λ p. instance_from_proto gob (some p)) ≡ (
          arrives inst.spec >>= λ spec. ok (record inst { port = to_int32 inst.port; spec = spec }))
  unfolding instance_from_proto instance_to_proto
  instance_from_proto-instance_to_proto inst = elim (Result-cases (spec_bytes gob inst.spec)) [
    | inr (e, fails) ↦ rw fails refl
    | inl (bytes, sent) ↦ rw sent (elim (Result-cases (decode_spec gob bytes)) [
      | inr (e, fails) ↦ rw fails refl
      | inl (spec, read) ↦
          rw
            (
              read,
              map_values_inverse dep_to_proto dep_from_proto dep_inverse inst.deps,
              grant_from_proto-grant_to_proto inst.grant,
              endpoint_from_proto-endpoint_to_proto inst.endpoint,
              toolchain_from_proto-toolchain_to_proto inst.toolchain,
            )
            refl
    ])
  ]

  -- If gob reads back what it writes, and writes at least one byte, a driver's config arrives, and
  -- one that the host has as bytes arrives as what the module made those bytes from.
  pub arrives_config :
      (v : V) (b : ℕ) (bytes : Text)
      → gob.encode v ≡ ok (b ∷ bytes)
      → gob.decode (b ∷ bytes) ≡ ok v
      → (arrives (config v) ≡ ok (config v)) × (arrives (raw (b ∷ bytes)) ≡ ok (config v))
  unfolding spec_bytes decode_spec
  arrives_config v b bytes written read = (rw (written, read) refl, rw read refl)
