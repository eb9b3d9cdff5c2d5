-- ===== src/Plugin/Resolving/Seeds.antt =====
-- The lock that a module gets holds the pins of the host's (plugin/server.go, binaries/lock.go).
use doze_sdk.Plugin.Adapter.{has}
use doze_sdk.Plugin.Resolving.{lock_key, seed_pins, new_map_locker, map_get}
use doze_sdk.Engine.Types.{Pin, LockEntry}
use doze_sdk.Binaries.Lock.{entries_of, Lock, get, all_entries, entries, Panic}
use doze_sdk.Strings.{contains_byte, cut}
use doze_sdk.Prelude.{
  All, Bool-cases, List, Map, Option, Text, UniqueKeys, [], ap, arith, false, inl, inr, insert,
  lookup, lookup-insert_ne, none, refl, some, sym, text_eq, text_eq_iff, ◌++◌, ◌∙◌, ◌∷◌, ◌≡◌, ◌≢◌,
  text_key, int_key, lookup-insert_self, ok, subst, Option-cases, ok_injective,
}

-- A name without NUL, as every engine type is.
abbrev pub NulFree : Text → Type 0
NulFree eng = contains_byte 0 eng ≡ false

-- A key is cut into the engine and the spec that it was made of.
pub cut-lock_key : (eng spec : Text) → NulFree eng → cut 0 (lock_key eng spec) ≡ (eng, spec)
unfolding cut contains_byte
cut-lock_key [] spec h = refl
cut-lock_key (c ∷ eng) spec h = ground (arith, cut-lock_key eng spec)

lock_key_injective :
    (eng spec eng' spec' : Text)
    → NulFree eng
    → NulFree eng'
    → lock_key eng spec ≡ lock_key eng' spec'
    → (eng ≡ eng') × (spec ≡ spec')
lock_key_injective eng spec eng' spec' h h' same =
    let pairs = sym (cut-lock_key eng spec h) ∙ (ap (cut 0) same ∙ cut-lock_key eng' spec' h') in
    (ap (λ (p : Text × Text). p.0) pairs, ap (λ (p : Text × Text). p.1) pairs)

abbrev key_of : LockEntry → Text
key_of e = lock_key e.engine e.spec

seed_absent :
    (es : List LockEntry) (m : Map Text Pin) (k : Text)
    → All (λ (e : LockEntry). key_of e ≢ k) es
    → lookup k (seed_pins es m) ≡ lookup k m
unfolding seed_pins
seed_absent [] m k h = refl
seed_absent (e ∷ es) m k h =
    seed_absent es (insert (key_of e) e.pin m) k h.1 ∙ lookup-insert_ne (key_of e) k e.pin m h.0

seed_append :
    (es fs : List LockEntry) (m : Map Text Pin)
    → seed_pins (es ++ fs) m ≡ seed_pins fs (seed_pins es m)
unfolding seed_pins
seed_append [] fs m = refl
seed_append (e ∷ es) fs m = seed_append es fs (insert (key_of e) e.pin m)

-- The pin that is there, or what was there before.
abbrev pick : Option (Option Pin) → Option Pin → Option Pin
pick none before = before
pick (some none) before = before
pick (some (some p)) before = some p

unseen :
    {V : Type 0} (k : Text) (m : Map Text V) → All (λ (x : Text × V). x.0 ≢ k) m → lookup k m ≡ none
unfolding lookup
unseen k [] a = refl
unseen k ((j, v) ∷ m) a = ground (arith, unseen k m, text_eq_iff j k)

lookup_head : {V : Type 0} (k : Text) (v : V) (m : Map Text V) → lookup k ((k, v) ∷ m) ≡ some v
unfolding lookup
lookup_head k v m = ground (arith, text_eq_iff k k)

lookup_tail :
    {V : Type 0} (j k : Text) (v : V) (m : Map Text V) → j ≢ k → lookup k ((j, v) ∷ m) ≡ lookup k m
unfolding lookup
lookup_tail j k v m h = ground (arith, text_eq_iff j k)

-- The first entry of a map is the only one at its key.
module _ {V : Type 0} (j k : Text) (v : V) (m : Map Text V) (same : j ≡ k) where
  only_head : UniqueKeys ((j, v) ∷ m) → (lookup k ((j, v) ∷ m) ≡ some v) × (lookup k m ≡ none)
  only_head u = (
    subst (λ x. lookup x ((j, v) ∷ m) ≡ some v) same (lookup_head j v m),
    subst (λ x. lookup x m ≡ none) same (unseen j m u.0),
  )

-- The rows of one engine
seed-entries_of :
    (eng spec : Text) (specs : Map Text (Option Pin)) (m : Map Text Pin)
    → NulFree eng
    → UniqueKeys specs
    → lookup (lock_key eng spec) (seed_pins (entries_of eng specs) m)
      ≡ pick (lookup spec specs) (lookup (lock_key eng spec) m)
unfolding seed_pins entries_of
seed-entries_of eng spec [] m h u = unfold lookup in refl
seed-entries_of eng spec ((j, none) ∷ specs) m h u = elim (Bool-cases (text_eq j spec)) [
  | inl same ↦
      let (head, gone) = only_head j spec none specs ((text_eq_iff j spec).0 same) u in
      seed-entries_of eng spec specs m h u.1 ∙ rw (gone, head) refl
  | inr other ↦
      let tail = lookup_tail j spec none specs (λ e. cc (other, (text_eq_iff j spec).1 e)) in
      seed-entries_of eng spec specs m h u.1 ∙ rw tail refl
]
seed-entries_of eng spec ((j, some p) ∷ specs) m h u = elim (Bool-cases (text_eq j spec)) [
  | inl same ↦
      let e = (text_eq_iff j spec).0 same in
      let (head, gone) = only_head j spec (some p) specs e u in
      let at =
        subst (λ x. lookup (lock_key eng x) (insert (lock_key eng j) p m) ≡ some p) e
          (lookup-insert_self (lock_key eng j) p m) in
      seed-entries_of eng spec specs (insert (lock_key eng j) p m) h u.1 ∙ rw (gone, head, at) refl
  | inr other ↦
      let ne : j ≢ spec = λ e. cc (other, (text_eq_iff j spec).1 e) in
      let tail = lookup_tail j spec (some p) specs ne in
      let off =
        lookup-insert_ne (lock_key eng j) (lock_key eng spec) p m
          (λ k. ne (lock_key_injective eng j eng spec h h k).1) in
      seed-entries_of eng spec specs (insert (lock_key eng j) p m) h u.1 ∙ rw (tail, off) refl
]

-- The rows of another engine leave a key alone.
other_rows :
    (eng eng' spec : Text) (specs : Map Text (Option Pin))
    → NulFree eng
    → NulFree eng'
    → eng' ≢ eng
    → All (λ (e : LockEntry). key_of e ≢ lock_key eng spec) (entries_of eng' specs)
unfolding entries_of
other_rows eng eng' spec [] h h' ne = tt
other_rows eng eng' spec ((j, none) ∷ specs) h h' ne = other_rows eng eng' spec specs h h' ne
other_rows eng eng' spec ((j, some p) ∷ specs) h h' ne =
    (λ k. ne (lock_key_injective eng' j eng spec h' h k).0, other_rows eng eng' spec specs h h' ne)

-- A lock as Go keeps one: each key once, and engine types without NUL
abbrev pub IsProper : Map Text (Map Text (Option Pin)) → Type 0
IsProper engines =
    UniqueKeys engines
    × All (λ (x : Text × Map Text (Option Pin)). NulFree x.0 × UniqueKeys x.1) engines

abbrev pick_at : Option (Map Text (Option Pin)) → Text → Option Pin → Option Pin
pick_at none spec before = before
pick_at (some specs) spec before = pick (lookup spec specs) before

seed-all_entries :
    (eng spec : Text) (engines : Map Text (Map Text (Option Pin))) (m : Map Text Pin)
    → NulFree eng
    → IsProper engines
    → lookup (lock_key eng spec) (seed_pins (all_entries engines) m)
      ≡ pick_at (lookup eng engines) spec (lookup (lock_key eng spec) m)
unfolding all_entries
seed-all_entries eng spec [] m h w = unfold lookup seed_pins in refl
seed-all_entries eng spec ((e', specs) ∷ engines) m h w =
    let rest = seed_pins (entries_of e' specs) m in
    let later = seed-all_entries eng spec engines rest h (w.0.1, w.1.1) in
    let both =
      ap (λ x. lookup (lock_key eng spec) x)
        (seed_append (entries_of e' specs) (all_entries engines) m)
      ∙ later in
    elim (Bool-cases (text_eq e' eng)) [
      | inl same ↦
          let e = (text_eq_iff e' eng).0 same in
          let (head, gone) = only_head e' eng specs engines e w.0 in
          let rows =
            subst
              (λ x.
                lookup (lock_key eng spec) (seed_pins (entries_of x specs) m)
                ≡ pick (lookup spec specs) (lookup (lock_key eng spec) m))
              (sym e) (seed-entries_of eng spec specs m h w.1.0.1) in
          both ∙ rw (gone, head) rows
      | inr other ↦
          let ne : e' ≢ eng = λ e. cc (other, (text_eq_iff e' eng).1 e) in
          let kept =
            seed_absent (entries_of e' specs) m (lock_key eng spec)
              (other_rows eng e' spec specs h w.1.0.0 ne) in
          both ∙ rw (lookup_tail e' eng specs engines ne, kept) refl
    ]

-- A module's locker, seeded with the rows that the host's lock lists, has for an engine and a spec
-- what the host's lock has, if reading that does not panic.
pub map_get-entries :
    (l : Lock) (eng spec : Text) (held : Option Pin)
    → NulFree eng
    → IsProper l.engines
    → get (some l) eng spec ≡ ok held
    → map_get (new_map_locker (entries (some l))) eng spec ≡ held
unfolding map_get new_map_locker entries get lookup
map_get-entries l eng spec held h w has =
    seed-all_entries eng spec l.engines [] h w ∙ elim (Option-cases (lookup eng l.engines)) [
      | inl e ↦ rw e (ok_injective {E = Panic} (rw (e, get) at has))
      | inr (specs, e) ↦ rw e (elim (Option-cases (lookup spec specs)) [
        | inl f ↦ rw f (ok_injective {E = Panic} (rw (e, f, get) at has))
        | inr (none, f) ↦ absurd (cc (rw (e, f, get) at has))
        | inr (some p, f) ↦ rw f (ok_injective {E = Panic} (rw (e, f, get) at has))
      ])
    ]
