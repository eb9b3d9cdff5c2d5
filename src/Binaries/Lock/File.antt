-- ===== src/Binaries/Lock/File.antt =====
-- The lockfile on disk (binaries/lock.go): `LoadLock` and `Save`, with `Resolved` and `Specs`. YAML
-- and the file system are parameters: what `yaml.Unmarshal` gives for a text, what `yaml.Marshal`
-- gives for the exported fields, and how each call of package os ends.
use doze_sdk.Engine.Types.{Pin}
use doze_sdk.Binaries.Lock.{ModulePin, Lock, get_module, versioned}
use doze_sdk.Prelude.{
  Bool, List, Map, Option, Result, Text, UniqueKeys, [], all, arith, err, false, if◌then◌else◌,
  keep, none, not, ok, refl, some, text_eq, true, ◌>>=◌, ◌||◌, ◌∷◌, ◌≡◌, ◌≢◌, text_key, int_key,
  Result-cases, inl, inr, lookup, lookup-keep, text_eq_iff, ap,
}

-- The exported fields, which YAML carries.
pub record Content : Type 0 where
  pub engines : Map Text (Map Text (Option Pin))
  pub modules : Map Text (Option ModulePin)
  pub downloads : Map Text (Option Text)

-- How os.ReadFile ends.
pub data ReadOutcome (E : Type 0) : Type 0 where
  missing : ReadOutcome E
  failed : E → ReadOutcome E
  contents : Text → ReadOutcome E

abbrev pub has_version : Text × Option ModulePin → Bool
has_version (source, none) = false
has_version (source, some p) = not (text_eq p.version [])

abbrev pub empty_lock : Text → Lock
empty_lock path = record { engines = []; modules = []; downloads = []; path = path; dirty = false }

abbrev pub loaded : Text → Content → Lock
loaded path c = record {
  engines = c.engines;
  modules = keep has_version c.modules;
  downloads = c.downloads;
  path = path;
  dirty = not (all has_version c.modules);
}

abbrev pub content_of : Lock → Content
content_of l = record { engines = l.engines; modules = l.modules; downloads = l.downloads }

-- What `Save` leaves: its error, the lock, and the text it wrote.
pub record Saved (E : Type 0) : Type 0 where
  pub outcome : Option E
  pub lock : Option Lock
  pub written : Option Text

module _ {E : Type 0} where
  -- LoadLock
  unfoldable pub load_lock : (Text → Result E Content) → Text → ReadOutcome E → Result E Lock
  load_lock unmarshal path missing = ok (empty_lock path)
  load_lock unmarshal path (failed e) = err e
  load_lock unmarshal path (contents data_read) = unmarshal data_read >>= λ c. ok (loaded path c)

  abbrev stored : Lock → Text → Option E → Saved E
  stored l text (none) = record {
    outcome = none;
    lock = some (record l { dirty = false });
    written = some text;
  }
  stored l text (some e) = record { outcome = some e; lock = some l; written = none }

  abbrev made : Lock → Text → Option E → Option E → Saved E
  made l text (none) write = stored l text write
  made l text (some e) write = record { outcome = some e; lock = some l; written = none }

  abbrev marshalled : Lock → Result E Text → Option E → Option E → Saved E
  marshalled l (ok text) mkdir write = made l text mkdir write
  marshalled l (err e) mkdir write = record { outcome = some e; lock = some l; written = none }

  -- Save, given how os.MkdirAll and os.WriteFile end.
  unfoldable pub save : (Content → Result E Text) → Option E → Option E → Option Lock → Saved E
  save marshal mkdir write none = record { outcome = none; lock = none; written = none }
  save marshal mkdir write (some l) =
      if not l.dirty || text_eq l.path []
      then record { outcome = none; lock = some l; written = none }
      else marshalled l (marshal (content_of l)) mkdir write

-- Resolved
unfoldable pub resolved_of : Map Text (Option Pin) → List Text
resolved_of [] = []
resolved_of ((spec, none) ∷ m) = resolved_of m
resolved_of ((spec, some p) ∷ m) =
    let rest = resolved_of m in if text_eq p.resolved [] then rest else p.resolved ∷ rest

keep-all : {A : Type 0} (test : A → Bool) (xs : List A) → all test xs ≡ true → keep test xs ≡ xs
unfolding keep
keep-all test [] h = refl
keep-all test (x ∷ xs) h = ground (arith, keep-all test xs)

module _ {E : Type 0} where
  -- A save with changes that ends well wrote what YAML makes of the lock.
  save_writes :
      (marshal : Content → Result E Text) (mkdir write : Option E) (l : Lock)
      → l.dirty ≡ true
      → l.path ≢ []
      → (save marshal mkdir write (some l)).outcome ≡ none
      → (text : Text) × (((save marshal mkdir write (some l)).written ≡ some text)
          × (marshal (content_of l) ≡ ok text))
  unfolding save
  save_writes marshal mkdir write l changed named fine =
      let path = text_eq_iff l.path [] in
      elim (Result-cases (marshal (content_of l))) [
        | inl (text, good) ↦ (text, (ground (arith, path), good))
        | inr (e, broke) ↦ absurd (ground (arith, path))
      ]

  -- A lock with changes whose modules all have versions, once saved without an error, has written a
  -- text that loads as that lock, unmarked, if YAML reads back what it writes of that lock.
  pub load_lock-save :
      (unmarshal : Text → Result E Content) (marshal : Content → Result E Text)
      → (mkdir write : Option E) (l : Lock)
      → ((t : Text) → marshal (content_of l) ≡ ok t → unmarshal t ≡ ok (content_of l))
      → l.dirty ≡ true
      → l.path ≢ []
      → all has_version l.modules ≡ true
      → (save marshal mkdir write (some l)).outcome ≡ none
      → (text : Text) × (((save marshal mkdir write (some l)).written ≡ some text)
          × (load_lock unmarshal l.path (contents text) ≡ ok (record l { dirty = false })))
  unfolding save load_lock
  load_lock-save unmarshal marshal mkdir write l back changed named versions fine =
      let (text, (wrote, read)) = save_writes marshal mkdir write l changed named fine in
      (
        text,
        (
          wrote,
          rw (back text read) (
              rw versions (
                ap (λ m. ok (record l { modules = m; dirty = false }))
                  (keep-all has_version l.modules versions))),
        ),
      )

  -- A save that fails keeps the lock as it was, its mark of unsaved changes included.
  pub save_fails :
      (marshal : Content → Result E Text) (mkdir write : Option E) (l : Option Lock) (e : E)
      → (save marshal mkdir write l).outcome ≡ some e
      → (save marshal mkdir write l).lock ≡ l
  unfolding save
  save_fails marshal mkdir write none e h = cc
  save_fails marshal mkdir write (some l) e h = ground arith

-- The module pins that `LoadLock` drops are those that `GetModule` reads as absent: it reads the
-- same from the loaded lock as from the file.
pub get_module-loaded :
    (path source : Text) (c : Content)
    → UniqueKeys c.modules
    → get_module (some (loaded path c)) source
      ≡ get_module (some (record (loaded path c) { modules = c.modules })) source
unfolding get_module
get_module-loaded path source c u =
    go (lookup source c.modules) (lookup source (keep has_version c.modules)) refl refl
  where
    go :
        (r k : Option (Option ModulePin))
        → lookup source c.modules ≡ r
        → lookup source (keep has_version c.modules) ≡ k
        → ◌≡◌ {A = Option ModulePin}
            (elim k [ none ↦ none | some p ↦ versioned p ])
            (elim r [ none ↦ none | some p ↦ versioned p ])
    go r (some p) hr hk = ground (arith, (lookup-keep source p has_version c.modules u).0 hk)
    go none none hr hk = refl
    go (some none) none hr hk = refl
    go (some (some p)) none hr hk =
        ground (arith, (lookup-keep source (some p) has_version c.modules u).1)
