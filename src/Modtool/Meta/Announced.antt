-- ===== src/Modtool/Meta/Announced.antt =====
-- What meta.yaml says of a driver (modtool/meta.go).
use doze_sdk.Engine.Describe.{ConfigArg, ConfigBlock, Description}
use doze_sdk.Modtool.Meta.{MetaArg, MetaBlock, MetaFile, to_meta_args, to_meta_blocks, to_meta_file}
use doze_sdk.Prelude.{List, Text, [], ◌∷◌, ◌≡◌, refl}

-- Two lists of the same length, related in each place
abbrev pub Matched : {A B : Type 0} → (A → B → Type 0) → List A → List B → Type 0
Matched R [] [] = Unit
Matched R (a ∷ as') (b ∷ bs) = R a b × Matched R as' bs
Matched R _ _ = ⊥

pub record SameArg (a : ConfigArg) (b : MetaArg) : Type 0 where
  pub name : b.name ≡ a.name
  pub type : b.type ≡ a.type
  pub default : b.default ≡ a.default
  pub desc : b.desc ≡ a.desc
  pub required : b.required ≡ a.required
  pub since : b.since ≡ a.since
  pub until : b.until ≡ a.until

pub record SameBlock (a : ConfigBlock) (b : MetaBlock) : Type 0 where
  pub name : b.name ≡ a.name
  pub label : b.label ≡ a.label
  pub desc : b.desc ≡ a.desc
  pub arguments : Matched SameArg a.args b.arguments

-- A meta file has all that a driver says of itself, but for its versions.
pub record Announces (engine_name : Text) (d : Description) (f : MetaFile) : Type 0 where
  pub title : f.title ≡ d.title
  pub tagline : f.tagline ≡ d.tagline
  pub category : f.category ≡ d.category
  pub engine : f.engine ≡ engine_name
  pub port : f.port ≡ d.port
  pub example : f.example ≡ d.example
  pub example_label : f.example_label ≡ d.example_label
  pub description : f.description ≡ d.description
  pub homepage : f.homepage ≡ d.homepage
  pub source : f.source ≡ d.source
  pub arguments : Matched SameArg d.config f.config.arguments
  pub blocks : Matched SameBlock d.blocks f.config.blocks

args_match : (args : List ConfigArg) → Matched SameArg args (to_meta_args args)
unfolding to_meta_args
args_match [] = tt
args_match (a ∷ args) = (
  record {
    name = refl;
    type = refl;
    default = refl;
    desc = refl;
    required = refl;
    since = refl;
    until = refl;
  },
  args_match args,
)

blocks_match : (blocks : List ConfigBlock) → Matched SameBlock blocks (to_meta_blocks blocks)
unfolding to_meta_blocks
blocks_match [] = tt
blocks_match (b ∷ blocks) = (
  record { name = refl; label = refl; desc = refl; arguments = args_match b.args },
  blocks_match blocks,
)

pub to_meta_file-Announces :
    (engine_name : Text) (d : Description) → Announces engine_name d (to_meta_file engine_name d)
unfolding to_meta_file
to_meta_file-Announces engine_name d = record {
  title = refl;
  tagline = refl;
  category = refl;
  engine = refl;
  port = refl;
  example = refl;
  example_label = refl;
  description = refl;
  homepage = refl;
  source = refl;
  arguments = args_match d.config;
  blocks = blocks_match d.blocks;
}
