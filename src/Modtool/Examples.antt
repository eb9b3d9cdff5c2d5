-- ===== src/Modtool/Examples.antt =====
-- Releases that run (modtool/modtool.go).
use doze_sdk.Engine.Describe.{Description}
use doze_sdk.Modindex.Index.{parse, Index, Release}
use doze_sdk.Modindex.Version.{newer, compare_versions, compare_segment, major}
use doze_sdk.Strings.{index_byte}
use doze_sdk.Strings.Split.{split}
use doze_sdk.Strings.Atoi.{atoi}
use doze_sdk.Modtool.{
  Module, artifact_at, engine_majors, majors_after, merged_index, newest_of, channels_of, validate,
  read_index, artifact_of, published, artifacts_of, is_changed, merged,
}
use doze_sdk.Modtool.Majors.{IsMajorOf, engine_majors_lem}
use doze_sdk.Modtool.Merging.{merged_index-channels, channel_in}
use doze_sdk.Modtool.Sample.{yaml_of, yaml_of-ReadsBack}
use doze_sdk.Modtool.Publish.{build, Built, Dist, Tools, Shop, complete, archive_name, release}
use doze_sdk.Modtool.Publish.Kept.{Run, after_runs, artifact_at-after_runs}
use doze_sdk.Modtool.Publish.Released.{Publishes, release-Publishes, HasMeta}
use doze_sdk.Modtool.Selected.{select-merged_index}
use doze_sdk.Modindex.Select.{select}
use doze_sdk.Modindex.Select.Choice.{IsCompatible}
use doze_sdk.Prelude.{
  UniqueKeys, unique_keys, unique_keys→UniqueKeys, inl, text_key, ap, In, Distinct, List, Map, Text,
  [], ◌∷◌, ◌≡◌, ◌≢◌, ◌↔◌, All, codes, ok, none, some, pos, refl, false, lookup, insert, text_eq,
  text_key, int_key, contains,
}

abbrev described : Description
described = record {
  title = codes "KV";
  tagline = [];
  category = codes "cache";
  description = [];
  port = pos 7000;
  versions = codes "2.1" ∷ codes "3" ∷ codes "2.4" ∷ [];
  example = [];
  example_label = [];
  config = [];
  blocks = [];
  homepage = [];
  source = [];
}

engine_majors_lem_example :
    (In (codes "3") (engine_majors described)
      ↔ ((codes "3" ≢ []) × IsMajorOf (codes "3") described.versions))
    × Distinct (engine_majors described)
engine_majors_lem_example = engine_majors_lem described (codes "3")

majors_of_kv : engine_majors described ≡ codes "2" ∷ codes "3" ∷ []
unfolding engine_majors majors_after major index_byte text_eq contains
majors_of_kv = refl

abbrev kv : Module
kv = record {
  name = codes "kv";
  version = codes "0.2.0";
  namespace = codes "acme";
  plugin_path = codes "./plugin";
  repo_dir = [];
  driver = some described;
}

abbrev old_release : Release
old_release = record {
  protocol = pos 1;
  engines = [];
  artifacts =
      (
        codes "x86_64-unknown-linux-gnu",
        record { url = codes "u"; sha256 = codes "AB"; sig = codes "s" },
      )
      ∷ [];
  doze = [];
}

abbrev before : Index
before = record {
  schema = pos 1;
  name = codes "kv";
  namespace = codes "acme";
  releases = (codes "0.2.0", old_release) ∷ (codes "0.10.0", old_release) ∷ [];
  channels = some ((codes "beta", codes "0.10.0") ∷ []);
  signature = codes "sig";
}

abbrev arm : Text
arm = codes "aarch64-unknown-linux-gnu"

abbrev beyond : Index
beyond = merged_index before kv described arm (archive_name kv arm) (codes "ab")

merged_index-channels_example :
    (stable : Text) × (channels : Map Text Text) × ((beyond.channels ≡ some channels)
      × ((lookup (codes "stable") channels ≡ some stable)
          × (((rel : Release) × In (stable, rel) beyond.releases)
              × (All (λ (x : Text × Release). newer x.0 stable ≡ false) beyond.releases
                  × (((other : Text)
                        → codes "stable" ≢ other
                        → lookup other channels ≡ channel_in before other)
                      × (beyond.signature ≡ []))))))
unfolding atoi split
merged_index-channels_example =
    merged_index-channels before kv described arm (archive_name kv arm) (codes "ab")
      (refl, (refl, (refl, tt))) ((refl, (refl, (refl, tt))), ((refl, (refl, (refl, tt))), tt))

newest_is_stable : channel_in beyond (codes "stable") ≡ some (codes "0.10.0")
unfolding merged_index newest_of channels_of lookup insert text_eq compare_versions compare_segment
    atoi split
newest_is_stable = refl

abbrev tools : Tools
tools = record {
  yaml = yaml_of before beyond;
  tar_gz = λ member body. body;
  sha_hex = λ body. codes "ab";
  marshal_meta = λ file. ok file.title;
}

abbrev shop : Shop
shop = record {
  published_read = none;
  merge_read = none;
  mkdir = none;
  scratch = none;
  compile = λ dir path plat. ok (codes "elf");
  archive_write = complete;
  index_write = complete;
}

abbrev start_dist : Dist
start_dist = record { index = some (codes "1"); archives = []; meta = none }

abbrev arm_run : Run
arm_run = record { shop = shop; of = kv; triple = arm }

artifact_at-after_runs_example :
    artifact_at tools.yaml
      (after_runs tools (arm_run ∷ []) start_dist).index
      (codes "0.2.0")
      (codes "x86_64-unknown-linux-gnu")
    ≡ some (record { url = codes "u"; sha256 = codes "AB"; sig = codes "s" })
unfolding artifact_at artifact_of read_index parse yaml_of lookup text_eq
artifact_at-after_runs_example =
    artifact_at-after_runs tools (arm_run ∷ []) start_dist (codes "0.2.0")
      (codes "x86_64-unknown-linux-gnu")
      (record { url = codes "u"; sha256 = codes "AB"; sig = codes "s" })
      (((λ e left off. absurd (cc)), (refl, refl)), (yaml_of-ReadsBack before beyond _, tt)) refl

abbrev plan : List (Text × Shop)
plan = (codes "x86_64-unknown-linux-gnu", shop) ∷ (arm, shop) ∷ []

abbrev finished : Dist
finished = record {
  index = some (codes "2");
  archives = (archive_name kv arm, codes "elf") ∷ [];
  meta = some (codes "KV");
}

kv_released : release tools none complete kv plan start_dist ≡ (none, finished)
unfolding release validate published artifact_at artifact_of read_index parse yaml_of merged_index
    newest_of channels_of lookup insert text_eq compare_versions compare_segment atoi split build
    merged is_changed engine_majors major contains artifacts_of
kv_released = refl

release-Publishes_example :
    Publishes tools kv plan start_dist (release tools none complete kv plan start_dist).1
    × HasMeta tools kv (release tools none complete kv plan start_dist).1
release-Publishes_example =
    release-Publishes tools none complete kv plan start_dist
      (
        ((λ e left off. absurd (cc)), (refl, refl)),
        (
          yaml_of-ReadsBack before beyond _,
          (((λ e left off. absurd (cc)), (refl, refl)), (yaml_of-ReadsBack before beyond _, tt)),
        ),
      )
      (ap (λ (r : Built). r.0) kv_released)

old_fits : IsCompatible beyond (pos 1) (codes "2" ∷ []) (codes "0.10.0") old_release
unfolding merged_index lookup insert text_eq
old_fits = (refl, refl, inl refl)

before_unique : UniqueKeys before.releases
before_unique = unique_keys→UniqueKeys before.releases (unfold unique_keys lookup text_eq in refl)

select-merged_index_example :
    (v : Text) × (r : Release) × ((select beyond (pos 1) (codes "2" ∷ []) (codes "stable")
        ≡ ok (v, r))
      × (IsCompatible beyond (pos 1) (codes "2" ∷ []) v r
          × ((x : Text) (t : Release)
              → IsCompatible beyond (pos 1) (codes "2" ∷ []) x t
              → newer x v ≡ false)))
unfolding atoi split
select-merged_index_example =
    select-merged_index before kv described arm (archive_name kv arm) (codes "ab") (pos 1)
      (codes "2" ∷ []) (codes "0.10.0") old_release (refl, (refl, (refl, tt)))
      ((refl, (refl, (refl, tt))), ((refl, (refl, (refl, tt))), tt)) before_unique old_fits
