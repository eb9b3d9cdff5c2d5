-- ===== src/Binaries/Lock/Locking.antt =====
-- The lockfile as the Locker of engine/resolve.go.
use doze_sdk.Engine.Types.{Pin}
use doze_sdk.Engine.Resolve.{Locker, IsLawful}
use doze_sdk.Binaries.Lock.Pins.{get-record_pin, get-record_pin_other}
use doze_sdk.Binaries.Lock.{Lock, Panic, get, record_pin}
use doze_sdk.Prelude.{Result, Text, ap, err, inl, none, ok, refl, some, ◌∙◌, ◌≡◌, ◌⊎◌}

abbrev pub faulty : {E A : Type 0} → Result Panic A → Result (Panic ⊎ E) A
faulty (ok a) = ok a
faulty (err p) = err (inl p)

abbrev pub pin_into : Lock → Text → Text → Pin → Lock
pin_into l eng spec p = elim (record_pin (some l) eng spec p) [ none ↦ l | some l' ↦ l' ]

pub some-pin_into :
    (l : Lock) (eng spec : Text) (p : Pin)
    → some (pin_into l eng spec p) ≡ record_pin (some l) eng spec p
unfolding record_pin
some-pin_into l eng spec p = refl

unfoldable pub lock_locker : {E : Type 0} → Locker Lock (Panic ⊎ E)
lock_locker {E} = record {
  get = λ l eng spec. faulty {E = E} (get (some l) eng spec);
  record_pin = pin_into;
}

pub lock_locker-IsLawful : {E : Type 0} → IsLawful (lock_locker {E = E})
unfolding lock_locker
lock_locker-IsLawful {E} = record {
  get-record_pin = λ l eng spec p u.
      let (stored, (found, pinned)) = get-record_pin l eng spec p u in
      let read = ap (λ x. get x eng spec) (some-pin_into l eng spec p) ∙ found in
      (stored, (ap (λ r. faulty {E = E} r) read, (pinned.resolved, pinned.given)));
  get-record_pin_other = λ l eng spec eng' spec' p differ.
      let kept = get-record_pin_other l eng spec eng' spec' p differ in
      ap (λ r. faulty {E = E} r) (ap (λ x. get x eng' spec') (some-pin_into l eng spec p) ∙ kept);
}
