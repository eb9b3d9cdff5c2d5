-- ===== src/Plugin/Manager/Tidy.antt =====
-- What Driver keeps of a Manager, and the ways it ends (plugin/manager.go).
-- The running processes are those of the hosts, one for each, and no engine type that has a host
-- has a launch failure.
use doze_sdk.Plugin.Manager.Owned.{
  values, values-insert, values-delete, Distinct-keep, Distinct-append_new, older,
}
use doze_sdk.Plugin.Manager.{Resolver, Manager, World, drop_host, launching, relaunch, driver}
use doze_sdk.Prelude.{
  All, All-In, All-of_In, Bool-cases, Distinct, In-keep, Option, Option-cases, Text, UniqueKeys,
  arith, delete, delete-UniqueKeys, false, inl, inr, insert-UniqueKeys, is_some, lookup,
  lookup-delete, lookup-insert, none, refl, some, true, ℕ, ◌<◌, ◌≡◌, text_key, int_key,
}

pub record IsTidy (m : Manager) : Type 0 where
  pub unique : UniqueKeys m.hosts
  pub owned : m.running ≡ values m.hosts
  pub old : All (λ h. h < m.next) (values m.hosts)
  pub apart : Distinct (values m.hosts)
  pub unfailed : (eng : Text) (h : ℕ) → lookup eng m.hosts ≡ some h → lookup eng m.failed ≡ none

pub relaunch-IsTidy :
    (answer : Option Text) (eng : Text) (m : Manager)
    → IsTidy m
    → lookup eng m.hosts ≡ none
    → IsTidy (relaunch answer eng m).1
unfolding relaunch
relaunch-IsTidy (some e) eng m t gone = record {
  unique = t.unique;
  owned = t.owned;
  old = t.old;
  apart = t.apart;
  unfailed = λ other h found. ground (
    arith,
    t.unfailed other h found,
    lookup-insert eng other (launching eng e) m.failed,
    text_key.beq_iff eng other,
  );
}
relaunch-IsTidy none eng m t gone = record {
  unique = insert-UniqueKeys eng m.next m.hosts t.unique;
  owned = rw (values-insert eng m.next m.hosts gone, t.owned) refl;
  old = rw (values-insert eng m.next m.hosts gone) (older m.next _ t.old);
  apart = rw (values-insert eng m.next m.hosts gone) (Distinct-append_new m.next _ t.old t.apart);
  unfailed = λ other h found. ground (
    arith,
    t.unfailed other h,
    lookup-delete eng other m.failed,
    lookup-insert eng other m.next m.hosts,
  );
}

pub drop_host-IsTidy :
    (eng : Text) (h : ℕ) (m : Manager)
    → IsTidy m
    → lookup eng m.hosts ≡ some h
    → IsTidy (drop_host eng h m)
drop_host-IsTidy eng h m t found =
    let less = values-delete eng h m.hosts t.unique t.apart found in
    record {
      unique = delete-UniqueKeys eng m.hosts t.unique;
      owned = rw (less, t.owned) refl;
      old = rw less (All-of_In _ _ (λ x i. All-In (λ x. x < m.next) _ t.old (In-keep _ x _ i).0));
      apart = rw less (Distinct-keep _ _ t.apart);
      unfailed = λ other x at. ground (arith, t.unfailed other x, lookup-delete eng other m.hosts);
    }

-- The ways Driver ends: no module, a host that is warm, or a launch once no host is there.
pub data Ends (resolver : Resolver) (world : World) (eng : Text) (m : Manager) : Type 0 where
  absent :
      resolver eng ≡ none
      → driver resolver world eng m ≡ (
        record { host = none; found = false; error = none },
        record m { failed = delete eng m.failed },
      )
      → Ends resolver world eng m
  warm :
      is_some (resolver eng) ≡ true
      → (h : ℕ) → lookup eng m.hosts ≡ some h
      → driver resolver world eng m ≡ (record { host = some h; found = true; error = none }, m)
      → Ends resolver world eng m
  started :
      is_some (resolver eng) ≡ true
      → (ended : Option Text) (before : Manager) → lookup eng before.hosts ≡ none
      → before.failed ≡ m.failed
      → (IsTidy m → IsTidy before)
      → driver resolver world eng m ≡ relaunch ended eng before
      → Ends resolver world eng m

pub driver-Ends :
    (resolver : Resolver) (world : World) (eng : Text) (m : Manager) → Ends resolver world eng m
unfolding driver
driver-Ends resolver world eng m = elim (Option-cases (resolver eng)) [
  | inl unresolved ↦ absent unresolved (rw (unresolved, driver) refl)
  | inr ((path, env), known) ↦ elim (Option-cases (lookup eng m.hosts)) [
    | inl gone ↦
        started (rw known refl) (world.launch path env) m gone refl (λ t. t)
          (rw (known, driver, gone) refl)
    | inr (h, found) ↦ elim (Bool-cases (world.alive h)) [
      | inl up ↦ warm (rw known refl) h found (rw (known, driver, found, up) refl)
      | inr down ↦
          started (rw known refl) (world.launch path env) (drop_host eng h m)
            (ground (arith, lookup-delete eng eng m.hosts, text_key.beq_iff eng eng)) refl
            (λ t. drop_host-IsTidy eng h m t found) (rw (known, driver, found, down) refl)
    ]
  ]
]

pub absent-IsTidy :
    (eng : Text) (m : Manager) → IsTidy m → IsTidy (record m { failed = delete eng m.failed })
absent-IsTidy eng m t = record {
  unique = t.unique;
  owned = t.owned;
  old = t.old;
  apart = t.apart;
  unfailed = λ other h at. ground (arith, t.unfailed other h at, lookup-delete eng other m.failed);
}

pub driver-IsTidy :
    (resolver : Resolver) (world : World) (eng : Text) (m : Manager)
    → IsTidy m
    → IsTidy (driver resolver world eng m).1
driver-IsTidy resolver world eng m t = elim (driver-Ends resolver world eng m) [
  | absent unresolved e ↦ rw e (absent-IsTidy eng m t)
  | warm known h found e ↦ rw e t
  | started known ended before gone same tidy e ↦
      rw e (relaunch-IsTidy ended eng before (tidy t) gone)
]
