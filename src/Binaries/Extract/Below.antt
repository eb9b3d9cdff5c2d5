-- ===== src/Binaries/Extract/Below.antt =====
-- What the walk over an archive touches, and when it succeeds.
use doze_sdk.Prelude.{
  All, Bool, List, Option, Text, [], ◌∷◌, ◌≡◌, All-append_iff, Bool-cases, Option-cases, inl, inr,
  refl, err, ok, ◌⊎◌,
}
use doze_sdk.Binaries.Extract.Under.{IsUnder, inside-IsUnder}
use doze_sdk.Binaries.Extract.{
  make_dir, write_file, make_link, open_entry, Header, Effect, Paths, Attempts, inside,
  tar_gz_attempts, tar_attempts, zip_attempts, run, walk, Entries, over, extract_tar_gz, untar,
  unzip, directory, regular, symlink, special, Kind, tar_gz_by, tar_by, zip_by,
}

-- A name that an entry has in the destination: filepath.Join made it, and it is the destination or below
abbrev pub IsEntry : Paths → Text → Text → Type 0
IsEntry p dest t = ((name : Text) × (t ≡ p.join dest name)) × IsUnder p dest t

-- A call is about the name of an entry, but for a MkdirAll, which may be of that name's directory.
abbrev pub IsPlaced : Paths → Text → Effect → Type 0
IsPlaced p dest (make_dir t) =
    IsEntry p dest t ⊎ ((target : Text) × ((t ≡ p.dir target) × IsEntry p dest target))
IsPlaced p dest (write_file t mode body) = IsEntry p dest t
IsPlaced p dest (make_link t to) = IsEntry p dest t
IsPlaced p dest (open_entry t) = IsEntry p dest t

-- Each attempt of an entry is about the name that the entry has in the destination.
abbrev Named : Paths → (Text → Header → Attempts) → Type 0
Named p attempts =
    (dest target : Text) (h : Header)
    → IsEntry p dest target
    → All (λ (x : Effect × Bool). IsPlaced p dest x.0) (attempts target h)

run-All :
    (P : Effect → Type 0) (fails : Effect → Option Text) (es : Attempts)
    → All (λ (x : Effect × Bool). P x.0) es
    → All P (run fails es).0
unfolding run
run-All P fails [] a = tt
run-All P fails ((e, must) ∷ es) a = elim (Option-cases (fails e)) [
  | inl fine ↦ rw (fine, run) (a.0, run-All P fails es a.1)
  | inr (t, bad) ↦ elim (Bool-cases must) [
    | inl needed ↦ rw (bad, run, needed) tt
    | inr optional ↦ rw (bad, run, optional) (run-All P fails es a.1)
  ]
]

abbrev pub IsBelow : Paths → Text → List Effect → Type 0
IsBelow p dest es = All (λ e. IsPlaced p dest e) es

walk-IsBelow :
    (attempts : Text → Header → Attempts) (fails : Effect → Option Text) (p : Paths) (dest : Text)
    (hs : List Header) (ending : Option Text)
    → Named p attempts
    → IsBelow p dest (walk attempts fails p dest hs ending).0
unfolding walk
walk-IsBelow attempts fails p dest [] ending each_named = tt
walk-IsBelow attempts fails p dest (h ∷ hs) ending each_named =
    elim (Bool-cases (inside p dest (p.join dest h.name))) [
      | inr unsafe ↦ rw (unsafe, walk) tt
      | inl safe ↦
          let target = p.join dest h.name in
          let entry : IsEntry p dest target =
            ((h.name, refl), (inside-IsUnder p dest target).0 safe) in
          let here : IsBelow p dest (run fails (attempts target h)).0 =
            run-All (λ e. IsPlaced p dest e) fails (attempts target h)
              (each_named dest target h entry) in
          elim (Option-cases (run fails (attempts (p.join dest h.name) h)).1) [
            | inr (e, bad) ↦ rw (safe, walk, bad) here
            | inl fine ↦
                rw (safe, walk, fine)
                  ((All-append_iff (λ e. IsPlaced p dest e)
                      (run fails (attempts (p.join dest h.name) h)).0 _).1
                    (here, walk-IsBelow attempts fails p dest hs ending each_named))
          ]
    ]

tar_gz_by-Named :
    (p : Paths) (k : Kind) (dest target : Text) (h : Header)
    → IsEntry p dest target
    → All (λ (x : Effect × Bool). IsPlaced p dest x.0) (tar_gz_by p k target h)
tar_gz_by-Named p directory dest target h e = (inl e, tt)
tar_gz_by-Named p regular dest target h e = (inr (target, (refl, e)), (e, tt))
tar_gz_by-Named p symlink dest target h e = (e, tt)
tar_gz_by-Named p special dest target h e = tt

tar_by-Named :
    (p : Paths) (k : Kind) (dest target : Text) (h : Header)
    → IsEntry p dest target
    → All (λ (x : Effect × Bool). IsPlaced p dest x.0) (tar_by p k target h)
tar_by-Named p directory dest target h e = (inl e, tt)
tar_by-Named p regular dest target h e = (inr (target, (refl, e)), (e, tt))
tar_by-Named p symlink dest target h e = (inr (target, (refl, e)), (e, tt))
tar_by-Named p special dest target h e = tt

zip_by-Named :
    (p : Paths) (k : Kind) (dest target : Text) (h : Header)
    → IsEntry p dest target
    → All (λ (x : Effect × Bool). IsPlaced p dest x.0) (zip_by p k target h)
zip_by-Named p directory dest target h e = (inl e, tt)
zip_by-Named p regular dest target h e = (e, (inr (target, (refl, e)), (e, tt)))
zip_by-Named p symlink dest target h e = (e, (inr (target, (refl, e)), (e, tt)))
zip_by-Named p special dest target h e = (e, (inr (target, (refl, e)), (e, tt)))

over-IsBelow :
    (p : Paths) (dest : Text) (loop : List Header → Option Text → List Effect × Option Text)
    (archive : Entries)
    → ((hs : List Header) (ending : Option Text) → IsBelow p dest (loop hs ending).0)
    → IsBelow p dest (over loop archive).0
over-IsBelow p dest loop (err e) each = tt
over-IsBelow p dest loop (ok (hs, ending)) each = each hs ending

-- Whatever an archive holds, and however the calls of package os end: every file and link that
-- extractTarGz, untar and unzip make, and every directory of an entry, has a name that filepath.Join
-- gave for the destination, and that is the cleaned destination, or that with a slash and something more;
-- and any other MkdirAll is that of such a name's directory.
pub extract_tar_gz-IsBelow :
    (fails : Effect → Option Text) (p : Paths) (dest : Text) (archive : Entries)
    → IsBelow p dest (extract_tar_gz fails p dest archive).0
      × (IsBelow p dest (untar fails p dest archive).0
          × IsBelow p dest (unzip fails p dest archive).0)
unfolding extract_tar_gz untar unzip
extract_tar_gz-IsBelow fails p dest archive = (
  over-IsBelow p dest (walk (tar_gz_attempts p) fails p dest) archive (λ hs ending.
      walk-IsBelow (tar_gz_attempts p) fails p dest hs ending
        (λ d target h. tar_gz_by-Named p h.kind d target h)),
  (
    over-IsBelow p dest (walk (tar_attempts p) fails p dest) archive (λ hs ending.
        walk-IsBelow (tar_attempts p) fails p dest hs ending
          (λ d target h. tar_by-Named p h.kind d target h)),
    over-IsBelow p dest (walk (zip_attempts p) fails p dest) archive (λ hs ending.
        walk-IsBelow (zip_attempts p) fails p dest hs ending
          (λ d target h. zip_by-Named p h.kind d target h)),
  ),
)
