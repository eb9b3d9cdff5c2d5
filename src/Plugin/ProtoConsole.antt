-- ===== src/Plugin/ProtoConsole.antt =====
-- The messages of plugin/proto/engine.proto for admin and console.
use doze_sdk.Prelude.{Map, Text, List, Option, Bool, ℤ}

pub record Action : Type 0 where
  pub id : Text
  pub label : Text
  pub kind : Text
  pub destructive : Bool
  pub input_hint : Text

pub record Resource : Type 0 where
  pub kind : Text
  pub name : Text
  pub status : Text
  pub info : Map Text Text

pub record ConsoleColumn : Type 0 where
  pub key : Text
  pub title : Text
  pub align : Text
  pub role : Text

pub record ConsolePanel : Type 0 where
  pub id : Text
  pub title : Text
  pub kind : Text
  pub source : Text
  pub columns : List ConsoleColumn
  pub select : Text

-- The fields of ConsoleNode but its children
pub record ConsoleNodeFields : Type 0 where
  pub kind : Text
  pub id : Text
  pub title : Text
  pub weight : ℤ
  pub panel : Text
  pub from : Text
  pub text : Text
  pub actions : List Text

-- ConsoleNode, with its children last
mutual
  pub data ConsoleNode : Type 0 where
    node : ConsoleNodeFields → ConsoleNodes → ConsoleNode

  pub data ConsoleNodes : Type 0 where
    no_nodes : ConsoleNodes
    more_nodes : ConsoleNode → ConsoleNodes → ConsoleNodes

pub record ConsoleTab : Type 0 where
  pub id : Text
  pub title : Text
  pub body : Option ConsoleNode

pub record ConsoleExtension : Type 0 where
  pub after : Text
  pub node : Option ConsoleNode

pub record ConsoleSpec : Type 0 where
  pub front : Text
  pub web_url : Text
  pub panels : List ConsolePanel
  pub tabs : List ConsoleTab
  pub extend : List ConsoleExtension
