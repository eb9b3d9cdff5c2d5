-- ===== src/Engine/Helpers/Stale.antt =====
-- What ClearStaleLock of engine/stalelock.go does to a lock file.
use doze_sdk.Engine.Helpers.{
  Processes, StaleError, clear_read, clear_stale_lock, live_pid, process_alive, unreadable,
  already_running, not_removed,
}
use doze_sdk.Strings.{cut, trim_space}
use doze_sdk.Strings.Atoi.{atoi}
use doze_sdk.Prelude.{
  Option, Option-cases, Text, ◌≡◌, ◌⊎◌, inl, inr, none, refl, some, ℤ, pos, ltb_ℤ, ◌↔◌, Bool-cases,
  true,
}

-- The first line of a lock file is a positive pid.
abbrev pub NamesPid : Text → ℤ → Type 0
NamesPid body pid = (atoi (trim_space (cut b'\n' body).0) ≡ some pid) × (ltb_ℤ (pos 0) pid ≡ true)

-- The process is found, and signal 0 can be sent to it.
abbrev pub Answers : Processes → ℤ → Type 0
Answers os pid = (os.find_process pid ≡ none) × (os.signal_zero pid ≡ none)

-- How a call of ClearStaleLock ends, by its error
abbrev pub IsCleared :
    Processes
    → Option Text
    → Option Text
    → Text
    → Option Text
    → Option StaleError × Option Text
    → Type 0
IsCleared os read_error remove_error what file r =
    ((r.0 ≡ none)
      × ((r.1 ≡ none)
          × ((read_error ≡ none)
              × ((body : Text)
                  → file ≡ some body
                  → (remove_error ≡ none) × ((pid : ℤ) → NamesPid body pid → ¬ Answers os pid)))))
    ⊎ ((r.1 ≡ file)
        × (((body : Text) × (pid : ℤ) × ((r.0 ≡ some (already_running what pid))
                × ((file ≡ some body) × (NamesPid body pid × Answers os pid))))
            ⊎ ((e : Text) × (((r.0 ≡ some (not_removed e)) × (remove_error ≡ some e))
                  ⊎ ((r.0 ≡ some (unreadable e)) × (read_error ≡ some e))))))

process_alive_iff : (os : Processes) (pid : ℤ) → (process_alive os pid ≡ true) ↔ Answers os pid
unfolding process_alive
process_alive_iff os pid = elim (Option-cases (os.find_process pid)) [
  | inr (e, no_process) ↦
      rw (no_process, process_alive) (λ h. absurd cc, λ h. absurd (let a = h.0 in cc))
  | inl found ↦ elim (Option-cases (os.signal_zero pid)) [
    | inr (e, refused) ↦
        rw (found, refused, process_alive) (λ h. absurd cc, λ h. absurd (let a = h.1 in cc))
    | inl sent ↦ rw (found, sent, process_alive) (λ h. (refl, refl), λ h. refl)
  ]
]

abbrev IsLive : Processes → Text → ℤ → Type 0
IsLive os body pid = NamesPid body pid × Answers os pid

live_pid-cases :
    (os : Processes) (body : Text)
    → ((pid : ℤ) × ((live_pid os body ≡ some pid) × IsLive os body pid))
      ⊎ ((live_pid os body ≡ none) × ((pid : ℤ) → NamesPid body pid → ¬ Answers os pid))
unfolding live_pid
live_pid-cases os body = elim (Option-cases (atoi (trim_space (cut b'\n' body).0))) [
  | inl no_pid ↦ inr (rw (no_pid, live_pid) refl, λ pid named. absurd (let a = named.0 in cc))
  | inr (pid, reads) ↦ elim (Bool-cases (ltb_ℤ (pos 0) pid)) [
    | inr small ↦ inr (
      rw (reads, small, live_pid) refl,
      λ q named. absurd (let a : pid ≡ q = cc (reads, named.0) in let b = named.1 in cc),
    )
    | inl positive ↦ elim (Bool-cases (process_alive os pid)) [
      | inl lives ↦ inl (
        pid,
        (
          rw (reads, positive, lives, live_pid) refl,
          ((reads, positive), (process_alive_iff os pid).0 lives),
        ),
      )
      | inr dead ↦ inr (
        rw (reads, positive, dead, live_pid) refl,
        λ q named answers.
            let same : pid ≡ q = cc (reads, named.0) in
            let there = (process_alive_iff os q).1 answers in absurd cc,
      )
    ]
  ]
]

clear_read-IsCleared :
    (os : Processes) (remove_error : Option Text) (what body : Text)
    → IsCleared os none remove_error what (some body) (clear_read os remove_error what body)
unfolding clear_read
clear_read-IsCleared os remove_error what body = elim (live_pid-cases os body) [
  | inl (pid, (lives, live)) ↦
      inr (rw (lives, clear_read) (refl, inl (body, pid, (refl, (refl, live)))))
  | inr (dead, gone) ↦ elim (Option-cases remove_error) [
    | inr (e, stuck) ↦ inr (rw (dead, clear_read, stuck) (refl, inr (e, inl (refl, refl))))
    | inl fine ↦ inl (
        rw (dead, clear_read, fine)
          (
            refl,
            (
              refl,
              (
                refl,
                λ other same.
                    (refl, λ pid named. gone pid (let b : body ≡ other = cc same in rw b named)),
              ),
            ),
          ))
  ]
]

-- ClearStaleLock returns nil only if the file is gone and, if it was there, was read and removed, and its
-- first line was no positive pid of a process that FindProcess finds and signal 0 can be sent to. On an error the
-- file is as it was, and the error is that of the read, that of the removal, or names such a process
-- that the file names.
pub clear_stale_lock-IsCleared :
    (os : Processes) (read_error remove_error : Option Text) (what : Text) (file : Option Text)
    → IsCleared os read_error remove_error what file
        (clear_stale_lock os read_error remove_error what file)
unfolding clear_stale_lock
clear_stale_lock-IsCleared os (some e) remove_error what file =
    inr (refl, inr (e, inr (refl, refl)))
clear_stale_lock-IsCleared os none remove_error what none =
    inl (refl, (refl, (refl, λ body h. absurd (cc))))
clear_stale_lock-IsCleared os none remove_error what (some body) =
    clear_read-IsCleared os remove_error what body
