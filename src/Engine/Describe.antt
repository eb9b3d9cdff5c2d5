-- ===== src/Engine/Describe.antt =====
-- Description of engine/driver.go: the catalog metadata of an engine module.
use doze_sdk.Prelude.{Bool, List, Text, ℤ}

pub record ConfigArg : Type 0 where
  pub name : Text
  pub type : Text
  pub default : Text
  pub desc : Text
  pub required : Bool
  pub since : Text
  pub until : Text

pub record ConfigBlock : Type 0 where
  pub name : Text
  pub label : Text
  pub desc : Text
  pub args : List ConfigArg

pub record Description : Type 0 where
  pub title : Text
  pub tagline : Text
  pub category : Text
  pub description : Text
  pub port : ℤ
  pub versions : List Text
  pub example : Text
  pub example_label : Text
  pub config : List ConfigArg
  pub blocks : List ConfigBlock
  pub homepage : Text
  pub source : Text
