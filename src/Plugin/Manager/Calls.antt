-- ===== src/Plugin/Manager/Calls.antt =====
-- A Manager after any calls (plugin/manager.go).
-- The calls of a Manager
use doze_sdk.Plugin.Manager.Owned.{values, fresh-delete, In-values}
use doze_sdk.Plugin.Manager.Tidy.{
  IsTidy, drop_host-IsTidy, driver-Ends, driver-IsTidy, absent, warm, started,
}
use doze_sdk.Plugin.Manager.{
  Resolver, Manager, new_manager, World, drop_host, launching, relaunch, driver, launch_error,
  close_all, close,
}
use doze_sdk.Plugin.Adapter.{answer}
use doze_sdk.Prelude.{
  In, List, Map, Option-cases, Text, UniqueKeys, [], arith, delete, if◌then◌else◌, inl, inr,
  is_some, lookup, lookup-delete, lookup-insert, lookup-insert_self, none, refl, some, subst,
  text_eq, true, ℕ, ◌∷◌, ◌≡◌, text_key, int_key,
}

pub data Call : Type 0 where
  ask : Resolver → World → Text → Call
  close_hosts : Call

unfoldable pub after_call : Call → Manager → Manager
unfolding driver close
after_call (ask resolver world eng) m = (driver resolver world eng m).1
after_call close_hosts m = close m

unfoldable pub after_calls : List Call → Manager → Manager
after_calls [] m = m
after_calls (c ∷ cs) m = after_calls cs (after_call c m)

-- Closing the hosts of a tidy manager one by one leaves none.
close_all-empty :
    (m : Manager) (hosts : Map Text ℕ)
    → m.hosts ≡ hosts
    → IsTidy m
    → IsTidy (close_all hosts m) × ((close_all hosts m).hosts ≡ [])
unfolding close_all lookup delete
close_all-empty m [] e t = (t, e)
close_all-empty m ((eng, h) ∷ hosts) e t =
    let unique : UniqueKeys ((eng, h) ∷ hosts) = subst UniqueKeys e t.unique in
    let found : lookup eng m.hosts ≡ some h = rw e (ground (arith, text_key.beq_iff eng eng)) in
    let rest : delete eng m.hosts ≡ hosts =
      rw e (ground (arith, text_key.beq_iff eng eng, fresh-delete eng hosts unique.0)) in
    close_all-empty (drop_host eng h m) hosts rest (drop_host-IsTidy eng h m t found)

after_call-IsTidy : (c : Call) (m : Manager) → IsTidy m → IsTidy (after_call c m)
unfolding after_call close
after_call-IsTidy (ask resolver world eng) m t = driver-IsTidy resolver world eng m t
after_call-IsTidy close_hosts m t = (close_all-empty m m.hosts refl t).0

after_calls_keep : (cs : List Call) (m : Manager) → IsTidy m → IsTidy (after_calls cs m)
unfolding after_calls
after_calls_keep [] m t = t
after_calls_keep (c ∷ cs) m t = after_calls_keep cs (after_call c m) (after_call-IsTidy c m t)

empty_unfailed :
    (eng : Text) (h : ℕ)
    → lookup eng new_manager.hosts ≡ some h
    → lookup eng new_manager.failed ≡ none
unfolding lookup
empty_unfailed eng h found = refl

-- A manager that starts empty is tidy after any calls: its processes are those of its hosts, one
-- each, an engine type has one host, and none that has a host has a launch failure.
pub after_calls-IsTidy : (cs : List Call) → IsTidy (after_calls cs new_manager)
after_calls-IsTidy cs = after_calls_keep cs new_manager record {
  unique = tt;
  owned = refl;
  old = tt;
  apart = tt;
  unfailed = λ eng h found. empty_unfailed eng h found;
}

-- Close leaves no host and no process of any module that was ever launched.
pub close-after_calls :
    (cs : List Call)
    → let m = close (after_calls cs new_manager) in (m.hosts ≡ []) × (m.running ≡ [])
unfolding close
close-after_calls cs =
    let (tidy, gone) =
      close_all-empty (after_calls cs new_manager) _ refl (after_calls-IsTidy cs) in
    (
      gone,
      subst (λ hosts. (close (after_calls cs new_manager)).running ≡ values hosts) gone tidy.owned,
    )

driver_tells :
    (resolver : Resolver) (world : World) (eng other : Text) (m : Manager)
    → IsTidy m
    → lookup other (driver resolver world eng m).1.failed
      ≡ (if text_eq eng other then (driver resolver world eng m).0.error else lookup other m.failed)
unfolding relaunch
driver_tells resolver world eng other m t = elim (driver-Ends resolver world eng m) [
  | absent unresolved e ↦ rw e (lookup-delete eng other m.failed)
  | warm known h found e ↦ rw e (ground (arith, t.unfailed eng h found, text_key.beq_iff eng other))
  | started known none before gone same tidy e ↦ rw (e, same) (lookup-delete eng other m.failed)
  | started known (some ended) before gone same tidy e ↦
      rw (e, same) (lookup-insert eng other (launching eng ended) m.failed)
]

-- After Driver, whatever was called before, LaunchError tells for that engine type the error that
-- Driver returned, and for every other type what it told before.
pub launch_error-driver :
    (cs : List Call) (resolver : Resolver) (world : World) (eng other : Text)
    → let m = after_calls cs new_manager in
      let (answer, later) = driver resolver world eng m in
      launch_error other later ≡ (if text_eq eng other then answer.error else launch_error other m)
unfolding launch_error
launch_error-driver cs resolver world eng other =
    driver_tells resolver world eng other _ (after_calls-IsTidy cs)

hands_out :
    (resolver : Resolver) (world : World) (eng : Text) (h : ℕ) (m : Manager)
    → (driver resolver world eng m).0.host ≡ some h
    → (is_some (resolver eng) ≡ true) × (lookup eng (driver resolver world eng m).1.hosts ≡ some h)
unfolding relaunch
hands_out resolver world eng h m given = elim (driver-Ends resolver world eng m) [
  | absent unresolved e ↦
      let got : none ≡ some h = subst (λ r. r.0.host ≡ some h) e given in (cc, cc)
  | warm known x found e ↦
      let got : some x ≡ some h = subst (λ r. r.0.host ≡ some h) e given in
      (known, rw (e, found) got)
  | started known none before gone same tidy e ↦
      let got : some before.next ≡ some h = subst (λ r. r.0.host ≡ some h) e given in
      (known, rw (e, lookup-insert_self eng before.next before.hosts) got)
  | started known (some ended) before gone same tidy e ↦
      let got : none ≡ some h = subst (λ r. r.0.host ≡ some h) e given in (known, cc)
]

warm_again :
    (resolver : Resolver) (world : World) (eng : Text) (h : ℕ) (m : Manager)
    → is_some (resolver eng) ≡ true
    → lookup eng m.hosts ≡ some h
    → world.alive h ≡ true
    → driver resolver world eng m ≡ (record { host = some h; found = true; error = none }, m)
unfolding driver
warm_again resolver world eng h m known at up = elim (Option-cases (resolver eng)) [
  | inl unresolved ↦ cc
  | inr ((path, env), found) ↦ rw (found, driver, at, up) refl
]

-- A host that Driver returns, after any calls, is one of the running processes, and while it is
-- alive Driver returns it again and changes nothing.
pub driver_again :
    (cs : List Call) (resolver : Resolver) (world later : World) (eng : Text) (h : ℕ)
    → let m = after_calls cs new_manager in
      (driver resolver world eng m).0.host ≡ some h
      → later.alive h ≡ true
      → let m' = (driver resolver world eng (after_calls cs new_manager)).1 in
        In h m'.running
        × (driver resolver later eng m'
            ≡ (record { host = some h; found = true; error = none }, m'))
unfolding driver
driver_again cs resolver world later eng h given up =
    let (known, at) = hands_out resolver world eng h _ given in
    let tidy = driver-IsTidy resolver world eng _ (after_calls-IsTidy cs) in
    (rw tidy.owned (In-values eng h _ at), warm_again resolver later eng h _ known at up)
