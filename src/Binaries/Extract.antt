-- ===== src/Binaries/Extract.antt =====
-- The walk over an archive's entries: extractTarGz (binaries/binaries.go), and unpack, untar and
-- unzip (binaries/download.go). Reading gzip, tar and zip is a parameter, which gives the entries
-- and the error that the reading ends with, if any; so are filepath.Join, Dir and Clean, the
-- URL's path, and how each call of package os ends. A call is told by its effect, and a
-- symbolic link by the name it is made at: the model does not follow links. A
-- call that fails counts as having done nothing.
pub mod Under
pub mod Below
pub mod Complete
mod Examples
use doze_sdk.Binaries.Lock.Layers.{download}
use doze_sdk.Strings.{cut_prefix}
use doze_sdk.Prelude.{
  Bool, List, Option, Result, Text, [], codes, err, false, if◌then◌else◌, is_some, nat_eq, none,
  not, ok, some, text_eq, true, ℕ, ◌%◌, ◌++◌, ◌/◌, ◌||◌, ◌∷◌,
}

-- The type of an entry
pub data Kind : Type 0 where
  directory : Kind
  regular : Kind
  symlink : Kind
  special : Kind

pub record Header : Type 0 where
  pub name : Text
  pub kind : Kind
  pub mode : ℕ
  pub body : Text
  pub linkname : Text

-- A call of package os: MkdirAll, OpenFile with the writes, Symlink; or Open of an entry of a zip
pub data Effect : Type 0 where
  make_dir : Text → Effect
  write_file : Text → ℕ → Text → Effect
  make_link : Text → Text → Effect
  open_entry : Text → Effect

-- filepath.Join, filepath.Dir and filepath.Clean
pub record Paths : Type 0 where
  pub join : Text → Text → Text
  pub dir : Text → Text
  pub clean : Text → Text

-- What is attempted, in order, and whether its failure ends the extraction
abbrev pub Attempts : Type 0
Attempts = List (Effect × Bool)

-- inside; extractTarGz has the same test in place
unfoldable pub inside : Paths → Text → Text → Bool
unfolding cut_prefix
inside p dest target =
    text_eq target (p.clean dest) || is_some (cut_prefix (p.clean dest ++ codes "/") target)

-- writeFile
abbrev pub written : Paths → Text → ℕ → Text → Attempts
written p target mode body =
    (make_dir (p.dir target), true)
    ∷ (write_file target (if nat_eq (mode % 512) 0 then 420 else mode % 512) body, true)
    ∷ []

-- The switch of extractTarGz, for an entry of a type
abbrev pub tar_gz_by : Paths → Kind → Text → Header → Attempts
tar_gz_by p directory target h = (make_dir target, true) ∷ []
tar_gz_by p regular target h =
    (make_dir (p.dir target), true) ∷ (write_file target (h.mode % 512) h.body, true) ∷ []
tar_gz_by p symlink target h = (make_link target h.linkname, false) ∷ []
tar_gz_by p special target h = []

abbrev pub tar_gz_attempts : Paths → Text → Header → Attempts
tar_gz_attempts p target h = tar_gz_by p h.kind target h

-- The switch of untar, for an entry of a type
abbrev pub tar_by : Paths → Kind → Text → Header → Attempts
tar_by p directory target h = (make_dir target, true) ∷ []
tar_by p regular target h = written p target h.mode h.body
tar_by p symlink target h =
    (make_dir (p.dir target), true) ∷ (make_link target h.linkname, false) ∷ []
tar_by p special target h = []

abbrev pub tar_attempts : Paths → Text → Header → Attempts
tar_attempts p target h = tar_by p h.kind target h

-- The body of unzip's loop, for an entry of a type
abbrev pub zip_by : Paths → Kind → Text → Header → Attempts
zip_by p directory target h = (make_dir target, true) ∷ []
zip_by p regular target h = (open_entry target, true) ∷ written p target h.mode h.body
zip_by p symlink target h = (open_entry target, true) ∷ written p target h.mode h.body
zip_by p special target h = (open_entry target, true) ∷ written p target h.mode h.body

abbrev pub zip_attempts : Paths → Text → Header → Attempts
zip_attempts p target h = zip_by p h.kind target h

-- The attempts of one entry: what was done, and the error that ended them
unfoldable pub run : (Effect → Option Text) → Attempts → List Effect × Option Text
run fails [] = ([], none)
run fails ((e, must) ∷ es) =
    let rest = run fails es in
    elim (fails e) [ none ↦ (e ∷ rest.0, rest.1) | some t ↦ if must then ([], some t) else rest ]

-- The loop over the entries
unfoldable pub walk :
    (Text → Header → Attempts)
    → (Effect → Option Text)
    → Paths
    → Text
    → List Header
    → Option Text
    → List Effect × Option Text
unfolding inside run
walk attempts fails p dest [] ending = ([], ending)
walk attempts fails p dest (h ∷ hs) ending =
    let rest = walk attempts fails p dest hs ending in
    let target = p.join dest h.name in
    if not (inside p dest target)
    then ([], some (codes "unsafe path in archive: " ++ h.name))
    else elim (run fails (attempts target h)).1 [
      | some e ↦ ((run fails (attempts target h)).0, some e)
      | none ↦ ((run fails (attempts target h)).0 ++ rest.0, rest.1)
    ]

-- What reading an archive gives: its entries, and the error that ends them
abbrev pub Entries : Type 0
Entries = Result Text (List Header × Option Text)

abbrev pub over :
    (List Header → Option Text → List Effect × Option Text) → Entries → List Effect × Option Text
over loop (err e) = ([], some e)
over loop (ok (hs, ending)) = loop hs ending

-- extractTarGz
unfoldable pub extract_tar_gz :
    (Effect → Option Text) → Paths → Text → Entries → List Effect × Option Text
unfolding walk
extract_tar_gz fails p dest archive = over (walk (tar_gz_attempts p) fails p dest) archive

-- untar
unfoldable pub untar : (Effect → Option Text) → Paths → Text → Entries → List Effect × Option Text
unfolding walk
untar fails p dest archive = over (walk (tar_attempts p) fails p dest) archive

-- unzip
unfoldable pub unzip : (Effect → Option Text) → Paths → Text → Entries → List Effect × Option Text
unfolding walk
unzip fails p dest archive = over (walk (zip_attempts p) fails p dest) archive

-- What unpack relies on: the readers, url.Parse with the path of what it gives, and path.Base.
pub record Readers : Type 0 where
  pub read_tar : Text → Entries
  pub read_zip : Text → Entries
  pub url_path : Text → Option Text
  pub base : Text → Text

-- The name of a single executable
unfoldable pub executable_name : Readers → Text → Text
executable_name r url = elim (r.url_path url) [
  | none ↦ codes "download"
  | some path ↦
      if text_eq (r.base path) []
        || (text_eq (r.base path) (codes ".") || text_eq (r.base path) (codes "/"))
      then codes "download"
      else r.base path
]

abbrev gzip_magic : Text
gzip_magic = 31 ∷ 139 ∷ []

abbrev zip_magic : Text
zip_magic = 80 ∷ 75 ∷ 3 ∷ 4 ∷ []

-- unpack, of the bytes of a file
unfoldable pub unpack :
    (Effect → Option Text) → Paths → Readers → Text → Text → Text → List Effect × Option Text
unfolding untar unzip run executable_name cut_prefix
unpack fails p r bytes dest url =
    if is_some (cut_prefix gzip_magic bytes)
    then untar fails p dest (r.read_tar bytes)
    else if is_some (cut_prefix zip_magic bytes)
    then unzip fails p dest (r.read_zip bytes)
    else run fails ((write_file (p.join dest (executable_name r url)) 493 bytes, true) ∷ [])
