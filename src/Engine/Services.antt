-- ===== src/Engine/Services.antt =====
-- What a driver answers: engine/spawn.go, engine/admin.go, engine/console.go, and the restart policy
-- of engine/driver.go. A time.Duration is its number of nanoseconds.
use doze_sdk.Prelude.{Map, Text, List, Option, Bool, ℤ}

-- Ready
pub record Ready : Type 0 where
  pub kind : Text
  pub target : Text
  pub interval : ℤ
  pub timeout : ℤ
  pub retries : ℤ

-- SpawnSpec
pub record SpawnSpec : Type 0 where
  pub name : Text
  pub dir : Text
  pub bin : Text
  pub args : List Text
  pub env : List Text
  pub tree : Bool
  pub after : List Text
  pub ready : Option Ready
  pub hooks : List Text

-- SpawnPlan
pub record SpawnPlan : Type 0 where
  pub specs : List SpawnSpec

-- RestartSpec (engine/driver.go)
pub record RestartSpec : Type 0 where
  pub policy : Text
  pub backoff : ℤ
  pub max_retries : ℤ

-- Action
pub record Action : Type 0 where
  pub id : Text
  pub label : Text
  pub kind : Text
  pub destructive : Bool
  pub input_hint : Text

-- Resource
pub record Resource : Type 0 where
  pub kind : Text
  pub name : Text
  pub status : Text
  pub info : Map Text Text

-- Column
pub record Column : Type 0 where
  pub key : Text
  pub title : Text
  pub align : Text
  pub role : Text

-- Panel
pub record Panel : Type 0 where
  pub id : Text
  pub title : Text
  pub kind : Text
  pub source : Text
  pub columns : List Column
  pub select : Text

-- The fields of Node but its children
pub record NodeFields : Type 0 where
  pub kind : Text
  pub id : Text
  pub title : Text
  pub weight : ℤ
  pub panel : Text
  pub from : Text
  pub text : Text
  pub actions : List Text

-- Node, with its children last
mutual
  pub data Node : Type 0 where
    node : NodeFields → Nodes → Node

  pub data Nodes : Type 0 where
    no_nodes : Nodes
    more_nodes : Node → Nodes → Nodes

-- Tab
pub record Tab : Type 0 where
  pub id : Text
  pub title : Text
  pub body : Node

-- Extension
pub record Extension : Type 0 where
  pub after : Text
  pub node : Node

-- ConsoleSpec
pub record ConsoleSpec : Type 0 where
  pub front : Text
  pub web_url : Text
  pub panels : List Panel
  pub tabs : List Tab
  pub extend : List Extension

-- Row
pub record Row : Type 0 where
  pub cells : Map Text Text
  pub tone : Text
