-- ===== src/Binaries/Lock/Pins.antt =====
-- What `Get` reads after `Record` (binaries/lock.go).
use doze_sdk.Engine.Types.{text_at, Pin}
use doze_sdk.Binaries.Lock.Hashes.{merge_hashes_kept, merge_hashes_new}
use doze_sdk.Binaries.Lock.{Lock, specs_at, current, fill_source, next_pin, get, record_pin}
use doze_sdk.Prelude.{
  Bool, Option, Text, UniqueKeys, [], ap, arith, false, if◌then◌else◌, insert, lookup,
  lookup-insert, lookup-none, none, refl, some, text_eq, text_eq_iff, ◌&&◌, ◌||◌, ◌∙◌, ◌≡◌,
  text_key, int_key, ok,
}

-- The pin that `Record` stores for `new` over what was there.
pub record IsPinned (old : Option (Option Pin)) (new stored : Pin) : Type 0 where
  pub resolved : stored.resolved ≡ new.resolved
  pub given : (t sha : Text) → lookup t new.hashes ≡ some sha → text_at t stored.hashes ≡ sha
  pub kept :
      (p : Pin) (t : Text)
      → old ≡ some (some p)
      → p.resolved ≡ new.resolved
      → lookup t new.hashes ≡ none
      → text_at t stored.hashes ≡ text_at t p.hashes

current_resolved :
    (old : Option (Option Pin)) (new : Pin) → (current old new).0.resolved ≡ new.resolved
current_resolved none new = refl
current_resolved (some none) new = refl
current_resolved (some (some p)) new = ground (arith, text_eq_iff p.resolved new.resolved)

current_same : (p new : Pin) → p.resolved ≡ new.resolved → current (some (some p)) new ≡ (p, false)
current_same p new h = ground (arith, text_eq_iff p.resolved new.resolved)

fill_source_resolved :
    (p new : Pin) (dirty : Bool) → (fill_source p new dirty).0.resolved ≡ p.resolved
fill_source_resolved p new dirty = ground arith

fill_source_hashes : (p new : Pin) (dirty : Bool) → (fill_source p new dirty).0.hashes ≡ p.hashes
fill_source_hashes p new dirty = ground arith

next_pin-IsPinned :
    (old : Option (Option Pin)) (new : Pin) (dirty : Bool)
    → UniqueKeys new.hashes
    → IsPinned old new (next_pin old new dirty).0
unfolding next_pin
next_pin-IsPinned old new dirty u =
    let (p, fresh) = current old new in
    let (q, marked) = fill_source p new (fresh || dirty) in
    record {
      resolved = fill_source_resolved p new (fresh || dirty) ∙ current_resolved old new;
      given = λ t sha h. merge_hashes_new q.hashes new.hashes marked t sha u h;
      kept = λ before t was same out.
          let start = fill_source_hashes p new (fresh || dirty) ∙ was_hashes before was same in
          merge_hashes_kept q.hashes new.hashes marked t (lookup-none t new.hashes out)
          ∙ ap (text_at t) start;
    }
  where
    was_hashes :
        (before : Pin)
        → old ≡ some (some before)
        → before.resolved ≡ new.resolved
        → (current old new).0.hashes ≡ before.hashes
    was_hashes before was same =
        rw was (ap (λ (x : Pin × Bool). x.0.hashes) (current_same before new same))

-- What the two maps hold after a pin is written.
specs_at-insert :
    (l : Lock) (eng other spec k : Text) (stored : Pin)
    → lookup k
        (elim (lookup other (insert eng (insert spec (some stored) (specs_at eng l)) l.engines)) [
          | none ↦ []
          | some specs ↦ specs
        ])
      ≡ (if text_eq eng other && text_eq spec k
          then some (some stored)
          else lookup k (specs_at other l))
specs_at-insert l eng other spec k stored = ground (
  arith,
  lookup-insert eng other (insert spec (some stored) (specs_at eng l)) l.engines,
  lookup-insert spec k (some stored) (specs_at eng l),
  text_eq_iff eng other,
)

-- A pin that is recorded is read back: `Get` returns the version that was given, with each hash
-- that was given, and with the hashes it had for other triples if the version stays.
pub get-record_pin :
    (l : Lock) (eng spec : Text) (pin : Pin)
    → UniqueKeys pin.hashes
    → (stored : Pin) × ((get (record_pin (some l) eng spec pin) eng spec ≡ ok (some stored))
        × IsPinned (lookup spec (specs_at eng l)) pin stored)
unfolding get record_pin
get-record_pin l eng spec pin u =
    let old = lookup spec (specs_at eng l) in
    let stored = (next_pin old pin l.dirty).0 in
    let here = specs_at-insert l eng eng spec spec stored in
    let found : _ ≡ some (some stored) =
      here ∙ rw ((text_eq_iff eng eng).1 refl, (text_eq_iff spec spec).1 refl) refl in
    (stored, (rw (found, get) refl, next_pin-IsPinned old pin l.dirty u))

-- Recording a pin leaves what `Get` reads for every other engine and version spec.
pub get-record_pin_other :
    (l : Lock) (eng spec eng' spec' : Text) (pin : Pin)
    → ¬ ((eng ≡ eng') × (spec ≡ spec'))
    → get (record_pin (some l) eng spec pin) eng' spec' ≡ get (some l) eng' spec'
unfolding get record_pin
get-record_pin_other l eng spec eng' spec' pin differ =
    let stored = (next_pin (lookup spec (specs_at eng l)) pin l.dirty).0 in
    let here = specs_at-insert l eng eng' spec spec' stored in
    let off : (text_eq eng eng' && text_eq spec spec') ≡ false =
      ground (arith, text_eq_iff eng eng', text_eq_iff spec spec', differ) in
    let found : _ ≡ lookup spec' (specs_at eng' l) = here ∙ rw off refl in rw (found, get) refl
