-- ===== src/Engine/Types.antt =====
-- The value types that a driver and the host exchange: engine/types.go.
use doze_sdk.Prelude.{lookup, Map, Text, List, ℤ, [], none, some, text_key, int_key}

-- Platform
pub record Platform : Type 0 where
  pub os : Text
  pub arch : Text
  pub triple : Text

-- Toolchain
pub record Toolchain : Type 0 where
  pub engine : Text
  pub full : Text
  pub bin_dir : Text
  pub tools : Map Text Text

-- Pin, and the lockfile's own `lockPin`, which has the same fields.
pub record Pin : Type 0 where
  pub resolved : Text
  pub source : Text
  pub hashes : Map Text Text

-- LockEntry, one row of `Entries`
pub record LockEntry : Type 0 where
  pub engine : Text
  pub spec : Text
  pub pin : Pin

-- Object
pub record Object : Type 0 where
  pub kind : Text
  pub name : Text
  pub hash : Text

-- Endpoint
pub record Endpoint : Type 0 where
  pub unix_socket : Text
  pub tcp_addr : Text
  pub backend : Text

-- Dep
pub record Dep : Type 0 where
  pub name : Text
  pub engine : Text
  pub socket_dir : Text
  pub backend : Text
  pub url : Text

-- GrantedListener (engine/network.go)
pub record GrantedListener : Type 0 where
  pub addr : Text
  pub url : Text
  pub hosts : List Text
  pub backend : Text

-- Grant (engine/network.go)
pub record Grant : Type 0 where
  pub host : Text
  pub listeners : Map Text GrantedListener

-- What the `any` of an instance's config holds: nothing, the bytes of a module's config (RawSpec of
-- plugin/plugin.go), or a value of the driver's own type.
pub data Spec (V : Type 0) : Type 0 where
  nil : Spec V
  raw : Text → Spec V
  config : V → Spec V

-- Instance, whose config is of type `V`
pub record Instance (V : Type 0) : Type 0 where
  pub name : Text
  pub type : Text
  pub version : Text
  pub data_dir : Text
  pub socket_dir : Text
  pub port : ℤ
  pub endpoint : Endpoint
  pub spec : Spec V
  pub deps : Map Text Dep
  pub toolchain : Toolchain
  pub grant : Grant

-- m[k] of a map of strings: "" where the key is missing.
abbrev pub text_at : Text → Map Text Text → Text
text_at k m = elim (lookup k m) [ none ↦ [] | some v ↦ v ]
