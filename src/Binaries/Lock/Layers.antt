-- ===== src/Binaries/Lock/Layers.antt =====
-- The lock under every sequence of the operations that change it (binaries/lock.go,
-- binaries/download.go).
use doze_sdk.Engine.Types.{Pin}
use doze_sdk.Binaries.Lock.Hashes.{merge_hashes_clean}
use doze_sdk.Binaries.Lock.{
  ModulePin, Lock, record_pin, record_module, drop_module, get_download, record_download, specs_at,
  merge_hashes, current, fill_source, next_pin,
}
use doze_sdk.Prelude.{
  List, Map, Option, Text, [], arith, false, insert, lookup, lookup-insert, lookup-insert_self,
  none, refl, some, subst, text_eq_iff, ◌∙◌, ◌∷◌, ◌≡◌, ◌≢◌, text_key, int_key, Bool, ap, sym, ◌||◌,
}

pub data Change : Type 0 where
  engine_pin : Text → Text → Pin → Change
  module_pin : Text → ModulePin → Change
  drop : Text → Change
  download : Text → Text → Change

unfoldable pub apply : Change → Option Lock → Option Lock
apply (engine_pin eng spec p) l = record_pin l eng spec p
apply (module_pin source p) l = record_module l source p
apply (drop source) l = drop_module l source
apply (download url digest) l = record_download l url digest

unfoldable pub run : List Change → Option Lock → Option Lock
run [] l = l
run (c ∷ cs) l = run cs (apply c l)

abbrev pub IsClean : Option Lock → Type 0
IsClean none = Unit
IsClean (some l) = l.dirty ≡ false

-- A write of what a map holds changes nothing.
insert-lookup :
    {V : Type 0} (k : Text) (v : V) (m : Map Text V) → lookup k m ≡ some v → insert k v m ≡ m
unfolding insert lookup
insert-lookup k v [] h = cc
insert-lookup k v ((j, w) ∷ m) h = ground (arith, insert-lookup k v m)

engine_held :
    (l : Lock) (eng spec : Text) (v : Option Pin)
    → lookup spec (specs_at eng l) ≡ some v
    → lookup eng l.engines ≡ some (specs_at eng l)
unfolding lookup
engine_held l eng spec v h = ground arith

current_clean :
    (old : Option (Option Pin)) (p : Pin)
    → (current old p).1 ≡ false
    → old ≡ some (some (current old p).0)
current_clean none p h = cc
current_clean (some none) p h = cc
current_clean (some (some q)) p h = ground arith

fill_source_clean :
    (q p : Pin) (dirty : Bool)
    → (fill_source q p dirty).1 ≡ false
    → ((fill_source q p dirty).0 ≡ q) × (dirty ≡ false)
fill_source_clean q p dirty h = ground arith

-- What is stored under a clean mark was there before.
next_pin_clean :
    (old : Option (Option Pin)) (p : Pin) (dirty : Bool)
    → (next_pin old p dirty).1 ≡ false
    → (old ≡ some (some (next_pin old p dirty).0)) × (dirty ≡ false)
unfolding next_pin
next_pin_clean old p dirty h =
    let now = current old p in
    let filled = fill_source now.0 p (now.1 || dirty) in
    let (hashes, marked) = merge_hashes_clean filled.0.hashes p.hashes filled.1 h in
    let (source, started) = fill_source_clean now.0 p (now.1 || dirty) marked in
    let before : old ≡ some (some now.0) = current_clean old p (ground arith) in
    let stored : record filled.0 { hashes = (merge_hashes filled.0.hashes p.hashes filled.1).0 }
        ≡ now.0 =
      ap (λ h. record filled.0 { hashes = h }) hashes ∙ source in
    (before ∙ ap (λ q. some (some q)) (sym stored), ground arith)

record_pin_clean :
    (l : Lock) (eng spec : Text) (p : Pin)
    → IsClean (record_pin (some l) eng spec p)
    → record_pin (some l) eng spec p ≡ some l
unfolding record_pin
record_pin_clean l eng spec p h =
    let (held, clean) = next_pin_clean (lookup spec (specs_at eng l)) p l.dirty h in
    let same = insert-lookup spec _ (specs_at eng l) held in
    let whole = insert-lookup eng (specs_at eng l) l.engines (engine_held l eng spec _ held) in
    let engines = ap (λ m. insert eng m l.engines) same ∙ whole in
    ap
      (λ e.
        some
          (record l { engines = e; dirty = (next_pin (lookup spec (specs_at eng l)) p l.dirty).1 }))
      engines
    ∙ ap (λ d. some (record l { dirty = d })) (h ∙ sym clean)

record_module_clean :
    (l : Lock) (source : Text) (p : ModulePin)
    → IsClean (record_module (some l) source p)
    → record_module (some l) source p ≡ some l
unfolding record_module
record_module_clean l source p h = ground arith

drop_module_clean :
    (l : Lock) (source : Text)
    → IsClean (drop_module (some l) source)
    → drop_module (some l) source ≡ some l
unfolding drop_module
drop_module_clean l source h = ground arith

record_download_clean :
    (l : Lock) (url digest : Text)
    → IsClean (record_download (some l) url digest)
    → record_download (some l) url digest ≡ some l
unfolding record_download
record_download_clean l url digest h = ground arith

apply_clean : (c : Change) (l : Option Lock) → IsClean (apply c l) → apply c l ≡ l
unfolding record_pin record_module drop_module record_download apply
apply_clean (engine_pin eng spec p) none h = refl
apply_clean (module_pin source p) none h = refl
apply_clean (drop source) none h = refl
apply_clean (download url digest) none h = refl
apply_clean (engine_pin eng spec p) (some l) h = record_pin_clean l eng spec p h
apply_clean (module_pin source p) (some l) h = record_module_clean l source p h
apply_clean (drop source) (some l) h = drop_module_clean l source h
apply_clean (download url digest) (some l) h = record_download_clean l url digest h

-- If a lock is clean after any sequence of changes, the sequence changed nothing, so a `Save`
-- that skips a clean lock loses no change.
pub run_clean : (cs : List Change) (l : Option Lock) → IsClean (run cs l) → run cs l ≡ l
unfolding run
run_clean [] l h = refl
run_clean (c ∷ cs) l h =
    let later = run_clean cs (apply c l) h in later ∙ apply_clean c l (subst IsClean later h)

-- A download, once pinned, keeps its digest.
apply_download :
    (c : Change) (l : Option Lock) (url sha : Text)
    → get_download l url ≡ some sha
    → get_download (apply c l) url ≡ some sha
unfolding get_download record_pin record_module drop_module record_download apply
apply_download (engine_pin eng spec p) none url sha h = h
apply_download (module_pin source p) none url sha h = h
apply_download (drop source) none url sha h = h
apply_download (download url' digest) none url sha h = h
apply_download (engine_pin eng spec p) (some l) url sha h = h
apply_download (module_pin source p) (some l) url sha h = ground arith
apply_download (drop source) (some l) url sha h = ground arith
apply_download (download url' digest) (some l) url sha h =
    ground (arith, lookup-insert url' url (some digest) l.downloads, text_eq_iff url' url)

-- Whatever is done to a lock, a download that is pinned keeps the digest of its first pin.
pub run-get_download :
    (cs : List Change) (l : Option Lock) (url sha : Text)
    → get_download l url ≡ some sha
    → get_download (run cs l) url ≡ some sha
unfolding run
run-get_download [] l url sha h = h
run-get_download (c ∷ cs) l url sha h =
    run-get_download cs (apply c l) url sha (apply_download c l url sha h)

-- The first digest that is recorded for a URL is the one that is read back.
pub get_download-record_download :
    (l : Lock) (url digest : Text)
    → digest ≢ []
    → get_download (record_download (some l) url digest) url
      ≡ elim (get_download (some l) url) [ none ↦ some digest | some sha ↦ some sha ]
unfolding get_download record_download
get_download-record_download l url digest given =
    ground (arith, lookup-insert_self url (some digest) l.downloads, text_eq_iff digest [])
