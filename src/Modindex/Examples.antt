-- ===== src/Modindex/Examples.antt =====
-- Runs of the module index on a small index, and the theorems at such inputs.
use doze_sdk.Strings.{trim_prefix}
use Prim.Native.Nat.{Ordering}
use doze_sdk.Modindex.Version.Order.{compare_versions_cycle}
use doze_sdk.Strings.Split.{split}
use doze_sdk.Modindex.Select.Gate.{Runs, select_for_finds, select_for-Runs, select_for_needs}
use doze_sdk.Strings.Atoi.{atoi}
use doze_sdk.Modindex.Select.Choice.{IsCompatible}
use doze_sdk.Modindex.Version.{compare_versions, is_doze_version, compare_segment}
use doze_sdk.Prelude.{
  ℤ, List, pos, Map, codes, [], UniqueKeys, Text, ◌∷◌, ◌≡◌, some, ok, text_key, refl, lookup, true,
  text_eq, err, keep, Result, inr, false, inl, In, text_compare, ◌≢◌, contains, ap, subst,
  lookup-In, unique_keys, unique_keys→UniqueKeys, int_key,
}
use doze_sdk.Modindex.Index.{Index, Release}
use doze_sdk.Modindex.Select.{
  supports, select, sort_newest, select_for, Host, too_new, speaking, doze_error, SelectError,
  channel_head, or_stable,
}

abbrev release : ℤ → List Text → Text → Release
release protocol engines doze = record {
  protocol = protocol;
  engines = engines;
  artifacts = [];
  doze = doze;
}

abbrev majors_16 : List Text
majors_16 = codes "16" ∷ []

abbrev first_release : Release
first_release = release (pos 1) (codes "15" ∷ codes "16" ∷ []) []

abbrev second_release : Release
second_release = release (pos 1) (codes "16" ∷ codes "17" ∷ []) (codes "0.2.0")

abbrev third_release : Release
third_release = release (pos 2) [] (codes "0.3.0")

abbrev index : Map Text Text → Index
index channels = record {
  schema = pos 1;
  name = codes "postgres";
  namespace = codes "doze";
  releases =
      (codes "0.9.0", first_release)
      ∷ (codes "0.10.0", second_release)
      ∷ (codes "1.0.0", third_release)
      ∷ [];
  channels = some channels;
  signature = [];
}

abbrev pinned : Index
pinned = index ((codes "stable", codes "0.9.0") ∷ [])

abbrev unpinned : Index
unpinned = index []

unique : (channels : Map Text Text) → UniqueKeys (index channels).releases
unfolding unique_keys text_eq
unique channels = unique_keys→UniqueKeys (index channels).releases refl

-- `Select` with what it calls.
run : Index → ℤ → List Text → Text → Result SelectError (Text × Release)
unfolding select supports sort_newest speaking keep compare_versions compare_segment atoi lookup
    text_eq contains
run = select

run_for : Index → Host → List Text → Text → Result SelectError (Text × Release)
unfolding run select_for is_doze_version
run_for = select_for

select-pinned : select pinned (pos 1) majors_16 [] ≡ ok (codes "0.9.0", first_release)
unfolding run
select-pinned = refl

select-unpinned : select unpinned (pos 1) majors_16 [] ≡ ok (codes "0.10.0", second_release)
unfolding run
select-unpinned = refl

first_IsCompatible : IsCompatible pinned (pos 1) majors_16 (codes "0.9.0") first_release
unfolding lookup text_eq
first_IsCompatible = (refl, refl, inr (inr (inr (inl refl)), tt))

second_IsCompatible : IsCompatible unpinned (pos 1) majors_16 (codes "0.10.0") second_release
unfolding lookup text_eq
second_IsCompatible = (refl, refl, inr (inr (inl refl), tt))

first_unpinned : IsCompatible unpinned (pos 1) majors_16 (codes "0.9.0") first_release
unfolding lookup text_eq
first_unpinned = (refl, refl, inr (inr (inr (inl refl)), tt))

stable_head : channel_head pinned (or_stable []) ≡ some (codes "0.9.0")
unfolding lookup text_eq
stable_head = refl

-- A doze of version 0.1.5 and one of version 0.1.0 with a leading v.
abbrev old_host : Host
old_host = record { protocol = pos 1; doze = codes "v0.1.5" }

abbrev new_host : Host
new_host = record { protocol = pos 2; doze = codes "0.2.9" }

old_released : is_doze_version old_host.doze ≡ true
unfolding is_doze_version
old_released = refl

new_released : is_doze_version new_host.doze ≡ true
unfolding is_doze_version
new_released = refl

select_for_old : select_for unpinned old_host majors_16 [] ≡ ok (codes "0.9.0", first_release)
unfolding run_for
select_for_old = refl

select_for-Runs_example :
    IsCompatible unpinned (pos 1) majors_16 (codes "0.9.0") first_release
    × Runs old_host first_release
select_for-Runs_example =
    select_for-Runs unpinned old_host majors_16 (unique []) old_released [] (codes "0.9.0")
      first_release select_for_old

first_Runs : Runs old_host first_release
unfolding text_eq
first_Runs = refl

select_for_finds_example :
    (w : Text) × (s : Release) × (select_for unpinned old_host majors_16 [] ≡ ok (w, s))
select_for_finds_example =
    select_for_finds unpinned old_host majors_16 (unique []) old_released [] (codes "0.9.0")
      first_release first_unpinned first_Runs

third_IsCompatible : IsCompatible unpinned (pos 2) majors_16 (codes "1.0.0") third_release
unfolding lookup text_eq
third_IsCompatible = (refl, refl, inl refl)

third_needs : too_new (codes "0.2.9") third_release ≡ true
unfolding run_for
third_needs = refl

third_only :
    (w : Text) (s : Release) → IsCompatible unpinned (pos 2) majors_16 w s → ¬ Runs new_host s
unfolding trim_prefix
third_only w s c runs = go (lookup-In w s unpinned.releases c.0)
  where
    go : In (w, s) unpinned.releases → ⊥
    go (inl e) = cc (ap (λ (x : Text × Release). x.1.protocol) e, c.1)
    go (inr (inl e)) = cc (ap (λ (x : Text × Release). x.1.protocol) e, c.1)
    go (inr (inr (inl e))) =
        let at : s ≡ third_release = ap (λ (x : Text × Release). x.1) e in
        cc (third_needs, subst (λ (x : Release). too_new (codes "0.2.9") x ≡ false) at runs)
    go (inr (inr (inr i))) = i

select_for_needs_example :
    (need : Text) × (select_for unpinned new_host majors_16 []
      ≡ err (doze_error unpinned.name majors_16 need (codes "0.2.9")))
    × (w : Text) × (s : Release) × IsCompatible unpinned (pos 2) majors_16 w s
    × (s.doze ≡ need)
unfolding run_for
select_for_needs_example =
    select_for_needs unpinned new_host majors_16 (unique []) new_released [] (codes "1.0.0")
      third_release third_IsCompatible third_only

nine-ten : compare_versions (codes "0.9.1") (codes "0.10.0") ≢ Ordering.gt
unfolding run
nine-ten e = cc

ten-one : compare_versions (codes "0.10.0") (codes "1.0") ≢ Ordering.gt
unfolding run
ten-one e = cc

compare_versions_cycle_example :
    (compare_versions (codes "1.0.9") (codes "1.0.10") ≡ Ordering.lt)
    × (compare_versions (codes "1.0.10") (codes "1.0.10-rc1") ≡ Ordering.lt)
    × (compare_versions (codes "1.0.10-rc1") (codes "1.0.9") ≡ Ordering.lt)
unfolding run split text_compare
compare_versions_cycle_example =
    compare_versions_cycle (codes "1" ∷ codes "0" ∷ []) (codes "1.0.9") (codes "1.0.10")
      (codes "1.0.10-rc1") (codes "9") (codes "10") (codes "10-rc1") {m = pos 9} {n = pos 10} refl
      refl refl refl refl refl refl refl refl
