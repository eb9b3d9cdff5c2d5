-- ===== src/Modindex/Select.antt =====
-- `Select`, `SelectFor` and `Supports` of modindex/modindex.go.
pub mod Sorting
pub mod Choice
pub mod Winner
pub mod Gate
use doze_sdk.Prelude.{
  ◌≡◌, Bool, true, false, ◌&&◌, ◌||◌, Option, none, some, List, [], ◌∷◌, map, Text, codes, text_eq,
  text_key, Map, lookup, insert, ℤ, pos, eqb_ℤ, ltb_ℤ, Result, ok, err, if◌then◌else◌, keep, all,
  contains, not,
}
use doze_sdk.Strings.{trim_prefix}
use doze_sdk.Modindex.Index.{Index, Release}
use doze_sdk.Modindex.Version.{newer, older, is_doze_version}

pub data SelectError : Type 0 where
  no_releases : Text → SelectError
  protocol_error : (module_name : Text) (host lowest highest : ℤ) → SelectError
  engine_error :
      (module_name : Text) (majors : List Text) (latest : Text) (supported : List Text)
      → SelectError
  doze_error : (module_name : Text) (majors : List Text) (need have : Text) → SelectError

abbrev pub covers : List Text → Text → Bool
covers engines major = text_eq major [] || contains engines major

-- The test of `Supports`, on the release's `Engines`.
pub gate : List Text → List Text → Bool
gate [] majors = true
gate (m ∷ ms) majors = all (covers (m ∷ ms)) majors

-- Supports
unfoldable pub supports : Release → List Text → Bool
unfolding gate
supports r majors = gate r.engines majors

-- What a missing key of `Releases` gives.
abbrev pub zero_release : Release
zero_release = record { protocol = pos 0; engines = []; artifacts = []; doze = [] }

abbrev pub release_at : Index → Text → Release
release_at idx v = elim (lookup v idx.releases) [ none ↦ zero_release | some r ↦ r ]

-- The loop that finds the lowest and the highest protocol of a release.
unfoldable pub protocol_span : ℤ → ℤ → Map Text Release → ℤ × ℤ
protocol_span lo hi [] = (lo, hi)
protocol_span lo hi ((v, r) ∷ m) =
    protocol_span (if eqb_ℤ lo (pos 0) || ltb_ℤ r.protocol lo then r.protocol else lo)
      (if ltb_ℤ hi r.protocol then r.protocol else hi) m

-- The versions that speak the host's protocol, in the order of the walk.
unfoldable pub speaking : ℤ → Map Text Release → List Text
speaking host m =
    map (λ (x : Text × Release). x.0) (keep (λ (x : Text × Release). eqb_ℤ x.1.protocol host) m)

-- sort.Slice by `CompareVersions(…) > 0`; versions that compare equal come in any order there.
unfoldable pub insert_newest : Text → List Text → List Text
insert_newest v [] = v ∷ []
insert_newest v (w ∷ ws) =
    let rest = insert_newest v ws in if newer w v then w ∷ rest else v ∷ w ∷ ws

unfoldable pub sort_newest : List Text → List Text
unfolding insert_newest
sort_newest [] = []
sort_newest (v ∷ vs) = insert_newest v (sort_newest vs)

abbrev pub channel_head : Index → Text → Option Text
channel_head idx channel = elim idx.channels [ none ↦ none | some m ↦ lookup channel m ]

-- The channel head when it is a candidate, else the first candidate.
pub pick : Index → Option Text → Text → List Text → Text × Release
pick idx none first rest = (first, release_at idx first)
pick idx (some head) first rest =
    if contains (first ∷ rest) head
    then (head, release_at idx head)
    else (first, release_at idx first)

choose : Index → List Text → Option Text → Text → List Text → Result SelectError (Text × Release)
unfolding pick
choose idx majors head latest [] =
    err (engine_error idx.name majors latest (release_at idx latest).engines)
choose idx majors head latest (first ∷ rest) = ok (pick idx head first rest)

select_sorted :
    Index → ℤ → List Text → Option Text → List Text → Result SelectError (Text × Release)
unfolding choose protocol_span
select_sorted idx host majors head [] =
    let (lo, hi) = protocol_span (pos 0) (pos 0) idx.releases in
    err (protocol_error idx.name host lo hi)
select_sorted idx host majors head (latest ∷ older) =
    choose idx majors head latest (keep (λ v. supports (release_at idx v) majors) (latest ∷ older))

abbrev pub or_stable : Text → Text
or_stable [] = codes "stable"
or_stable (c ∷ s) = c ∷ s

-- `Select` behind its default for the channel; the last argument is the index's releases.
pub select_from :
    Index → ℤ → List Text → Option Text → Map Text Release → Result SelectError (Text × Release)
unfolding select_sorted
select_from idx host majors head [] = err (no_releases idx.name)
select_from idx host majors head (x ∷ m) =
    select_sorted idx host majors head (sort_newest (speaking host (x ∷ m)))

-- Select
unfoldable pub select : Index → ℤ → List Text → Text → Result SelectError (Text × Release)
unfolding select_from
select idx host majors channel =
    select_from idx host majors (channel_head idx (or_stable channel)) idx.releases

pub record Host : Type 0 where
  pub protocol : ℤ
  pub doze : Text

-- `r.Doze != "" && CompareVersions(r.Doze, host.Doze) > 0`
abbrev pub too_new : Text → Release → Bool
too_new have r = not (text_eq r.doze []) && newer r.doze have

-- The test on a release that is too new: would it fit otherwise, and is it the oldest need so far?
abbrev pub lowers_need : Host → List Text → Text → Release → Bool
lowers_need host majors need r =
    eqb_ℤ r.protocol host.protocol && (supports r majors && (text_eq need [] || older r.doze need))

abbrev pub next_need : Host → List Text → Text → Release → Text
next_need host majors need r =
    if too_new host.doze r && lowers_need host majors need r then r.doze else need

-- What the loop of `SelectFor` keeps in `need`.
unfoldable pub oldest_need : Host → List Text → Text → Map Text Release → Text
oldest_need host majors need [] = need
oldest_need host majors need ((v, r) ∷ m) = oldest_need host majors (next_need host majors need r) m

-- `need != ""` turns the error of `Select` into a `DozeError`.
abbrev explain :
    Index
    → Host
    → List Text
    → Text
    → Result SelectError (Text × Release)
    → Result SelectError (Text × Release)
explain idx host majors need (ok found) = ok found
explain idx host majors need (err e) =
    if text_eq need [] then err e else err (doze_error idx.name majors need host.doze)

-- The index `fits`, with the releases that this doze runs.
abbrev pub fitting : Text → Index → Index
fitting have idx = record {
  schema = idx.schema;
  name = idx.name;
  namespace = idx.namespace;
  releases = keep (λ (x : Text × Release). not (too_new have x.1)) idx.releases;
  channels = idx.channels;
  signature = [];
}

-- SelectFor
unfoldable pub select_for : Index → Host → List Text → Text → Result SelectError (Text × Release)
unfolding oldest_need
select_for idx host majors channel =
    if is_doze_version host.doze
    then (let h = record host { doze = trim_prefix (codes "v") host.doze } in
        explain idx h majors (oldest_need h majors [] idx.releases)
          (select (fitting h.doze idx) h.protocol majors channel))
    else select idx host.protocol majors channel
