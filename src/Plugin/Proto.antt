-- ===== src/Plugin/Proto.antt =====
-- The messages of plugin/proto/engine.proto, as Go has them: a message in a field is a pointer, here
-- an `Option`. The elements of a repeated field and the values of a map are messages, since the wire
-- has no nil there. An int32 field holds a ℤ in range.
use doze_sdk.Prelude.{Map, Text, List, Option, Bool, ℤ}

pub record Platform : Type 0 where
  pub os : Text
  pub arch : Text
  pub triple : Text

pub record Toolchain : Type 0 where
  pub engine : Text
  pub full : Text
  pub bin_dir : Text
  pub tools : Map Text Text

pub record Pin : Type 0 where
  pub resolved : Text
  pub source : Text
  pub hashes : Map Text Text

pub record LockEntry : Type 0 where
  pub engine : Text
  pub spec : Text
  pub pin : Option Pin

pub record Object : Type 0 where
  pub kind : Text
  pub name : Text
  pub hash : Text

pub record Endpoint : Type 0 where
  pub unix_socket : Text
  pub tcp_addr : Text
  pub backend : Text

pub record Dep : Type 0 where
  pub name : Text
  pub engine : Text
  pub socket_dir : Text
  pub backend : Text
  pub url : Text

pub record GrantedListener : Type 0 where
  pub addr : Text
  pub url : Text
  pub hosts : List Text
  pub backend : Text

pub record Grant : Type 0 where
  pub host : Text
  pub listeners : Map Text GrantedListener

pub record Instance : Type 0 where
  pub name : Text
  pub type : Text
  pub version : Text
  pub data_dir : Text
  pub socket_dir : Text
  pub port : ℤ
  pub endpoint : Option Endpoint
  pub spec : Text
  pub deps : Map Text Dep
  pub toolchain : Option Toolchain
  pub grant : Option Grant

pub record Listener : Type 0 where
  pub name : Text
  pub port : ℤ
  pub protocol : Text
  pub routes : List Text

pub record NetworkResponse : Type 0 where
  pub listeners : List Listener

pub record Ready : Type 0 where
  pub kind : Text
  pub target : Text
  pub interval_ns : ℤ
  pub timeout_ns : ℤ
  pub retries : ℤ

pub record SpawnSpec : Type 0 where
  pub name : Text
  pub dir : Text
  pub bin : Text
  pub args : List Text
  pub env : List Text
  pub tree : Bool
  pub after : List Text
  pub ready : Option Ready
  pub hooks : List Text

pub record SpawnPlan : Type 0 where
  pub specs : List SpawnSpec

pub record RestartSpec : Type 0 where
  pub policy : Text
  pub backoff_ns : ℤ
  pub max_retries : ℤ
