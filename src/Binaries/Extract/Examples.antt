-- ===== src/Binaries/Extract/Examples.antt =====
-- Archives with a link, a file that cannot be written, and a name that leads outside.
use doze_sdk.Strings.{cut_prefix}
use doze_sdk.Prelude.{
  All, List, Option, Text, [], codes, if◌then◌else◌, none, ok, refl, some, text_eq, ◌++◌, ◌∷◌, ◌≡◌,
}
use doze_sdk.Binaries.Extract.{
  Header, Effect, Paths, inside, tar_attempts, extract_tar_gz, untar, unzip, walk, directory,
  regular, symlink, write_file, make_dir, make_link, Kind, run,
}
use doze_sdk.Binaries.Extract.Below.{IsBelow, extract_tar_gz-IsBelow}
use doze_sdk.Binaries.Extract.Complete.{Extracts, all_effective, walk-Extracts}

abbrev slashed : Paths
slashed = record {
  join = λ d n. if text_eq n (codes "../x") then codes "/x" else d ++ (codes "/" ++ n);
  dir = λ t. if text_eq t (codes "/d/bin") then codes "/d" else codes "/d/bin";
  clean = λ d. d;
}

abbrev entry : Text → Kind → Header
entry name kind = record {
  name = name;
  kind = kind;
  mode = 493;
  body = codes "#!";
  linkname = codes "sh";
}

abbrev tools_archive : List Header
tools_archive =
    entry (codes "bin") directory
    ∷ entry (codes "bin/sh") regular
    ∷ entry (codes "bin/ash") symlink
    ∷ []

abbrev bad_archive : List Header
bad_archive = entry (codes "bin") directory ∷ entry (codes "../x") regular ∷ []

abbrev all_work : Effect → Option Text
all_work e = none

extract_tar_gz-IsBelow_example :
    IsBelow slashed
      (codes "/d")
      (extract_tar_gz all_work slashed (codes "/d") (ok (bad_archive, none))).0
    × (IsBelow slashed (codes "/d") (untar all_work slashed (codes "/d") (ok (bad_archive, none))).0
        × IsBelow slashed
            (codes "/d")
            (unzip all_work slashed (codes "/d") (ok (bad_archive, none))).0)
extract_tar_gz-IsBelow_example =
    extract_tar_gz-IsBelow all_work slashed (codes "/d") (ok (bad_archive, none))

walk-Extracts_example :
    ((walk (tar_attempts slashed) all_work slashed (codes "/d") tools_archive none).1 ≡ none
      → (◌≡◌ {A = Option Text} none none)
        × All (Extracts (tar_attempts slashed) all_work slashed (codes "/d")) tools_archive)
    × ((◌≡◌ {A = Option Text} none none)
          × All (Extracts (tar_attempts slashed) all_work slashed (codes "/d")) tools_archive
        → walk (tar_attempts slashed) all_work slashed (codes "/d") tools_archive none ≡ (
          all_effective (tar_attempts slashed) all_work slashed (codes "/d") tools_archive,
          none,
        ))
walk-Extracts_example =
    walk-Extracts (tar_attempts slashed) all_work slashed (codes "/d") tools_archive none

-- The name outside ends the walk; what stands before it is there.
stops_outside :
    untar all_work slashed (codes "/d") (ok (bad_archive, none))
    ≡ (make_dir (codes "/d/bin") ∷ [], some (codes "unsafe path in archive: ../x"))
unfolding untar walk inside run cut_prefix text_eq
stops_outside = refl

extracts_all : untar all_work slashed (codes "/d") (ok (tools_archive, none)) ≡ (
  make_dir (codes "/d/bin")
      ∷ make_dir (codes "/d/bin")
      ∷ write_file (codes "/d/bin/sh") 493 (codes "#!")
      ∷ make_dir (codes "/d/bin")
      ∷ make_link (codes "/d/bin/ash") (codes "sh")
      ∷ [],
  none,
)
unfolding untar walk inside run cut_prefix text_eq
extracts_all = refl
