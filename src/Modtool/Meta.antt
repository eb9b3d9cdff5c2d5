-- ===== src/Modtool/Meta.antt =====
-- modtool/meta.go: what meta.yaml holds.
pub mod Announced
use doze_sdk.Engine.Describe.{ConfigArg, ConfigBlock, Description}
use doze_sdk.Prelude.{Bool, List, Text, ℤ, [], ◌∷◌}

pub record MetaArg : Type 0 where
  pub name : Text
  pub type : Text
  pub default : Text
  pub desc : Text
  pub required : Bool
  pub since : Text
  pub until : Text

pub record MetaBlock : Type 0 where
  pub name : Text
  pub label : Text
  pub desc : Text
  pub arguments : List MetaArg

pub record MetaConfig : Type 0 where
  pub arguments : List MetaArg
  pub blocks : List MetaBlock

pub record MetaFile : Type 0 where
  pub title : Text
  pub tagline : Text
  pub category : Text
  pub engine : Text
  pub port : ℤ
  pub example : Text
  pub example_label : Text
  pub description : Text
  pub homepage : Text
  pub source : Text
  pub config : MetaConfig

-- toMetaArgs
unfoldable pub to_meta_args : List ConfigArg → List MetaArg
to_meta_args [] = []
to_meta_args (a ∷ args) =
    record {
      name = a.name;
      type = a.type;
      default = a.default;
      desc = a.desc;
      required = a.required;
      since = a.since;
      until = a.until;
    }
    ∷ to_meta_args args

-- The loop of toMetaFile
unfoldable pub to_meta_blocks : List ConfigBlock → List MetaBlock
unfolding to_meta_args
to_meta_blocks [] = []
to_meta_blocks (b ∷ blocks) =
    record { name = b.name; label = b.label; desc = b.desc; arguments = to_meta_args b.args }
    ∷ to_meta_blocks blocks

-- toMetaFile
unfoldable pub to_meta_file : Text → Description → MetaFile
unfolding to_meta_args to_meta_blocks
to_meta_file name d = record {
  title = d.title;
  tagline = d.tagline;
  category = d.category;
  engine = name;
  port = d.port;
  example = d.example;
  example_label = d.example_label;
  description = d.description;
  homepage = d.homepage;
  source = d.source;
  config = record { arguments = to_meta_args d.config; blocks = to_meta_blocks d.blocks };
}
