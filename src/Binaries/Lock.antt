-- ===== src/Binaries/Lock.antt =====
-- binaries/lock.go and the pins of binaries/download.go: `Lock` and its methods. A pointer that may
-- be nil is an `Option`, the receiver too; a nil map is an empty one, which no method tells apart.
pub mod Hashes
pub mod Pins
pub mod Layers
pub mod File
pub mod Locking
mod Listing
use doze_sdk.Engine.Types.{text_at, Pin, LockEntry}
use doze_sdk.Prelude.{
  Bool, List, Map, Option, Result, Text, [], all, delete, eqb_ℤ, err, false, if◌then◌else◌, insert,
  is_some, length, lookup, nat_eq, none, not, ok, some, text_eq, true, ℤ, ◌&&◌, ◌++◌, ◌||◌, ◌∷◌,
  text_key, int_key,
}

pub record ModulePin : Type 0 where
  pub version : Text
  pub protocol : ℤ
  pub engines : List Text
  pub hashes : Map Text Text

-- `downloads` maps a URL to the SHA256 of its `DownloadPin`.
pub record Lock : Type 0 where
  pub engines : Map Text (Map Text (Option Pin))
  pub modules : Map Text (Option ModulePin)
  pub downloads : Map Text (Option Text)
  pub path : Text
  pub dirty : Bool

pub data Panic : Type 0 where
  nil_pointer : Panic

-- `l.Engines[eng]`, nil where the key is missing
abbrev pub specs_at : Text → Lock → Map Text (Option Pin)
specs_at eng l = elim (lookup eng l.engines) [ none ↦ [] | some specs ↦ specs ]

-- Get: a pin that is there as a nil pointer is dereferenced.
unfoldable pub get : Option Lock → Text → Text → Result Panic (Option Pin)
get none eng spec = ok none
get (some l) eng spec = elim (lookup spec (specs_at eng l)) [
  | none ↦ ok none
  | some none ↦ err nil_pointer
  | some (some p) ↦ ok (some p)
]

-- The loop of `Record` over the hashes of the new pin, with the dirty mark.
unfoldable pub merge_hashes : Map Text Text → Map Text Text → Bool → Map Text Text × Bool
merge_hashes have [] dirty = (have, dirty)
merge_hashes have ((triple, sha) ∷ rest) dirty =
    let kept = merge_hashes have rest dirty in
    let set = merge_hashes (insert triple sha have) rest true in
    if text_eq (text_at triple have) sha then kept else set

-- The pin that `Record` goes on with, and whether it is a new one.
abbrev pub current : Option (Option Pin) → Pin → Pin × Bool
current none pin = (record { resolved = pin.resolved; source = pin.source; hashes = [] }, true)
current (some none) pin =
    (record { resolved = pin.resolved; source = pin.source; hashes = [] }, true)
current (some (some p)) pin =
    if text_eq p.resolved pin.resolved
    then (p, false)
    else (record { resolved = pin.resolved; source = pin.source; hashes = [] }, true)

-- `if p.Source == "" && pin.Source != ""`
abbrev pub fill_source : Pin → Pin → Bool → Pin × Bool
fill_source p pin dirty =
    if text_eq p.source [] && not (text_eq pin.source [])
    then (record p { source = pin.source }, true)
    else (p, dirty)

-- The steps of `Record` on one pin: the pin that is stored, and the dirty mark.
unfoldable pub next_pin : Option (Option Pin) → Pin → Bool → Pin × Bool
unfolding merge_hashes
next_pin old pin dirty =
    let (p, fresh) = current old pin in
    let (q, marked) = fill_source p pin (fresh || dirty) in
    let (hashes, marked') = merge_hashes q.hashes pin.hashes marked in
    (record q { hashes = hashes }, marked')

-- Record
unfoldable pub record_pin : Option Lock → Text → Text → Pin → Option Lock
unfolding next_pin
record_pin none eng spec pin = none
record_pin (some l) eng spec pin =
    let (p, dirty) = next_pin (lookup spec (specs_at eng l)) pin l.dirty in
    some (record l {
      engines = insert eng (insert spec (some p) (specs_at eng l)) l.engines;
      dirty = dirty;
    })

unfoldable pub entries_of : Text → Map Text (Option Pin) → List LockEntry
entries_of eng [] = []
entries_of eng ((spec, none) ∷ m) = entries_of eng m
entries_of eng ((spec, some p) ∷ m) =
    record { engine = eng; spec = spec; pin = p } ∷ entries_of eng m

unfoldable pub all_entries : Map Text (Map Text (Option Pin)) → List LockEntry
unfolding entries_of
all_entries [] = []
all_entries ((eng, specs) ∷ m) = entries_of eng specs ++ all_entries m

-- Entries
unfoldable pub entries : Option Lock → List LockEntry
unfolding all_entries
entries none = []
entries (some l) = all_entries l.engines

abbrev pub versioned : Option ModulePin → Option ModulePin
versioned none = none
versioned (some p) = if text_eq p.version [] then none else some p

-- GetModule: a pin without a version reads as absent.
unfoldable pub get_module : Option Lock → Text → Option ModulePin
get_module none source = none
get_module (some l) source = elim (lookup source l.modules) [ none ↦ none | some p ↦ versioned p ]

-- slices.Equal
unfoldable pub texts_equal : List Text → List Text → Bool
texts_equal [] [] = true
texts_equal (s ∷ ss) (t ∷ ts) = text_eq s t && texts_equal ss ts
texts_equal _ _ = false

-- maps.Equal
unfoldable pub maps_equal : Map Text Text → Map Text Text → Bool
maps_equal a b =
    nat_eq (length a) (length b)
    && all (λ (x : Text × Text). elim (lookup x.0 b) [ none ↦ false | some v ↦ text_eq x.1 v ]) a

abbrev pub same_module : Option (Option ModulePin) → ModulePin → Bool
same_module none pin = false
same_module (some none) pin = false
same_module (some (some p)) pin =
    text_eq p.version pin.version
    && (eqb_ℤ p.protocol pin.protocol
        && (texts_equal p.engines pin.engines && maps_equal p.hashes pin.hashes))

-- RecordModule
unfoldable pub record_module : Option Lock → Text → ModulePin → Option Lock
record_module none source pin = none
record_module (some l) source pin =
    if text_eq pin.version [] || same_module (lookup source l.modules) pin
    then some l
    else some (record l { modules = insert source (some pin) l.modules; dirty = true })

-- DropModule
unfoldable pub drop_module : Option Lock → Text → Option Lock
drop_module none source = none
drop_module (some l) source =
    if is_some (lookup source l.modules)
    then some (record l { modules = delete source l.modules; dirty = true })
    else some l

abbrev pub pinned_digest : Option (Option Text) → Option Text
pinned_digest none = none
pinned_digest (some none) = none
pinned_digest (some (some sha)) = if text_eq sha [] then none else some sha

-- GetDownload
unfoldable pub get_download : Option Lock → Text → Option Text
get_download none url = none
get_download (some l) url = pinned_digest (lookup url l.downloads)

-- RecordDownload
unfoldable pub record_download : Option Lock → Text → Text → Option Lock
unfolding get_download
record_download none url digest = none
record_download (some l) url digest =
    if text_eq digest [] || is_some (get_download (some l) url)
    then some l
    else some (record l { downloads = insert url (some digest) l.downloads; dirty = true })
