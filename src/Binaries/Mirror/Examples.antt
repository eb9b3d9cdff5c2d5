-- ===== src/Binaries/Mirror/Examples.antt =====
-- URLs and manifests at concrete inputs.
use doze_sdk.Strings.{cut_prefix, trim_left, trim_right}
use doze_sdk.Prelude.{
  [], codes, err, false, if◌then◌else◌, insert, lookup, none, ok, refl, text_eq, true, ◌∷◌, ◌≡◌,
  text_key, int_key,
}
use doze_sdk.Binaries.Mirror.{
  Settings, Outside, mirror_base, get_url, contains_text, artifact_url, resolve_major, Manifest,
  served_manifest, fetch_manifest, major_of,
}

abbrev doze_home : Settings
doze_home = record { home = codes "/h"; mirror_root = []; signing_key = none }

abbrev two_majors : Manifest
two_majors = record {
  engines =
      (codes "pg", record { versions = (codes "16", codes "16.14.0") ∷ []; artifacts = [] }) ∷ [];
}

abbrev disk : Outside
disk = record {
  getenv = λ name. if text_eq name (codes "DOZE_MIRROR") then codes "file:///m/" else [];
  to_upper = λ t. t;
  read_file = λ path.
      if text_eq path (codes "/m/pg/index.yaml") then ok (codes "y") else err (codes "none");
  http_get = λ url. err (codes "offline");
  unmarshal = λ body. ok two_majors;
}

base_of_pg : mirror_base doze_home disk (codes "pg") ≡ codes "file:///m/pg"
unfolding mirror_base text_eq trim_right
base_of_pg = refl

finds_scheme : contains_text (codes "://") (codes "http://x") ≡ true
unfolding contains_text cut_prefix text_eq
finds_scheme = refl

no_scheme : contains_text (codes "://") (codes "a/b:/c") ≡ false
unfolding contains_text cut_prefix text_eq
no_scheme = refl

relative_artifact :
    artifact_url doze_home disk
      (codes "pg")
      (record { url = codes "/a.tgz"; sha256 = []; sig = [] })
    ≡ codes "file:///m/pg/a.tgz"
unfolding artifact_url mirror_base contains_text cut_prefix text_eq trim_right trim_left
relative_artifact = refl

major_on_disk : (resolve_major doze_home disk (codes "pg") (codes "16") []).0 ≡ ok (codes "16.14.0")
unfolding resolve_major fetch_manifest served_manifest get_url mirror_base major_of cut_prefix
    text_eq trim_right lookup insert
major_on_disk = refl
