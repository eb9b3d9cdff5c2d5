-- ===== src/Plugin/Wire/Balanced.antt =====
-- The accounting of a handoff, whatever the module's side does (plugin/wire.go).
use doze_sdk.Prelude.{
  All, All-append_iff, List, Option, Result-cases, Text, [], ap, inl, inr, refl, ◌++◌, ◌∷◌, ◌≡◌,
  ◌⊎◌, Bool-cases, List-cases, Option-cases, false, none, some, subst, true, sym,
}
use doze_sdk.Plugin.Wire.{
  WireHost, HostCall, HandoffEnd, CoreState, Session, Process, Ended, opened, core_boot, core_line,
  on_line, on_close, talk, handoff, refusal, Approach, is_closed, listening, splicing, closed,
  boot_called, acquire_called, release_called, break_off, finish, tell, hear, act, Message,
  read_message, on_message, says_handled, says_boot, says_splice, says_error, unexpected,
}

abbrev pub Boots : List HostCall → Type 0
Boots calls = All (λ (c : HostCall). c ≡ boot_called) calls

-- The calls that stand with each state of the loop: only Boot while it listens, one Acquire after that
-- while it splices, and in the end no Acquire, or one with its Release.
abbrev pub Accounted : CoreState → List HostCall → Type 0
Accounted listening calls = Boots calls
Accounted splicing calls =
    (boots : List HostCall) × (Boots boots × (calls ≡ boots ++ acquire_called ∷ []))
Accounted (closed e) calls =
    Boots calls
    ⊎ ((boots : List HostCall) × (Boots boots
          × (calls ≡ boots ++ acquire_called ∷ release_called ∷ [])))

Boots-append : (calls : List HostCall) → Boots calls → Boots (calls ++ boot_called ∷ [])
Boots-append calls b =
    (All-append_iff (λ (c : HostCall). c ≡ boot_called) calls (boot_called ∷ [])).1 (b, (refl, tt))

append_release :
    (boots : List HostCall)
    → (boots ++ acquire_called ∷ []) ++ release_called ∷ []
      ≡ boots ++ acquire_called ∷ release_called ∷ []
append_release [] = refl
append_release (b ∷ bs) = ap (λ r. b ∷ r) (append_release bs)

core_boot-Accounted :
    (h : WireHost) (s : Session)
    → Boots s.calls
    → Accounted (core_boot h s).core (core_boot h s).calls
unfolding core_boot
core_boot-Accounted h s b = elim (Result-cases h.boot) [
  | inl (socket, e) ↦ rw (e, core_boot) (Boots-append s.calls b)
  | inr (text, e) ↦ rw (e, core_boot) (inl (Boots-append s.calls b))
]

on_message-Accounted :
    (h : WireHost) (m : Message) (s : Session)
    → Boots s.calls
    → Accounted (on_message h m s).core (on_message h m s).calls
unfolding on_message
on_message-Accounted h says_handled s b = inl b
on_message-Accounted h says_boot s b = core_boot-Accounted h s b
on_message-Accounted h says_splice s b = (s.calls, (b, refl))
on_message-Accounted h (says_error text) s b = inl b
on_message-Accounted h (unexpected line) s b = inl b

CoreState-cases :
    (c : CoreState) → (c ≡ listening) ⊎ ((c ≡ splicing) ⊎ ((e : HandoffEnd) × (c ≡ closed e)))
CoreState-cases listening = inl refl
CoreState-cases splicing = inr (inl refl)
CoreState-cases (closed e) = inr (inr (e, refl))

on_line-Accounted :
    (h : WireHost) (said : Text) (s : Session)
    → Accounted s.core s.calls
    → Accounted (on_line h said s).core (on_line h said s).calls
unfolding on_line core_line
on_line-Accounted h said s a = elim (CoreState-cases s.core) [
  | inl e ↦
      rw (e, on_line)
        (on_message-Accounted h (read_message said) s (subst (λ c. Accounted c s.calls) e a))
  | inr (inl e) ↦ rw (e, on_line) a
  | inr (inr (end, e)) ↦ rw (e, on_line) a
]

on_close-Accounted :
    (ending : Option Text) (s : Session)
    → Accounted s.core s.calls
    → Accounted (on_close ending s).core (on_close ending s).calls
      × (is_closed (on_close ending s).core ≡ true)
unfolding on_close
on_close-Accounted ending s a = elim (CoreState-cases s.core) [
  | inl e ↦ rw (e, on_close) (inl (subst (λ c. Accounted c s.calls) e a), refl)
  | inr (inl e) ↦
      let (boots, (b, same)) : Accounted splicing s.calls = subst (λ c. Accounted c s.calls) e a in
      rw (e, on_close) (inr (boots, (b, rw same (append_release boots))), refl)
  | inr (inr (end, e)) ↦ rw (e, on_close) (a, subst (λ c. is_closed c ≡ true) (sym e) refl)
]

-- What holds of the end of a dialogue
abbrev pub IsSettled : Ended → Type 0
IsSettled d =
    Accounted d.session.core d.session.calls × (d.stuck ≡ false → is_closed d.session.core ≡ true)

talk-IsSettled :
    (h : WireHost) (p : Process) (s : Session) → Accounted s.core s.calls → IsSettled (talk h p s)
unfolding talk
talk-IsSettled h finish s a = let (acc, shut) = on_close-Accounted none s a in (acc, λ free. shut)
talk-IsSettled h (break_off e) s a =
    let (acc, shut) = on_close-Accounted (some e) s a in (acc, λ free. shut)
talk-IsSettled h (tell line p) s a =
    talk-IsSettled h p (on_line h line s) (on_line-Accounted h line s a)
talk-IsSettled h (act e p) s a = talk-IsSettled h p s a
talk-IsSettled h (hear k) s a = elim (List-cases s.inbox) [
  | inr (line, lines, e) ↦
      rw (e, talk) (talk-IsSettled h (k (some line)) (record s { inbox = lines }) a)
  | inl e ↦ elim (Bool-cases (is_closed s.core)) [
    | inl shut ↦ rw (e, talk, shut) (talk-IsSettled h (k none) s a)
    | inr open_still ↦ rw (e, talk, open_still) (a, λ free. absurd (cc))
  ]
]

-- Whatever a module's side does, Handoff calls Boot any number of times and then Acquire at most once,
-- with a Release behind it; when the module's side is through or has gone, unless it waits for a line
-- for ever, the handoff has returned and what was acquired is released.
pub handoff-IsSettled : (h : WireHost) (a : Approach) (p : Process) → IsSettled (handoff h a p)
unfolding handoff
handoff-IsSettled h a p = elim (Option-cases (refusal a)) [
  | inr (end, e) ↦ rw (e, handoff) (inl tt, λ free. refl)
  | inl e ↦ rw (e, handoff) (talk-IsSettled h p opened tt)
]
