-- ===== src/Binaries/Cache/Artifact.antt =====
-- What EnsureArtifact puts in the cache when it has to fetch (binaries/binaries.go).
use doze_sdk.Binaries.Cache.Verified.{Verified}
use doze_sdk.Binaries.Cache.{Tools, Entry, digest_of}
use doze_sdk.Binaries.Mirror.{Settings, Outside, get_url}
use doze_sdk.Prelude.{Map, Text, lookup, ok, some, ◌≡◌, text_key, int_key}

-- What is known of an artifact that was fetched: where it came from, that its digest was checked,
-- that the publisher signed it, and what of it is in the cache.
pub record Fetched {Tree : Type 0} (tools : Tools Tree) (m : Settings) (o : Outside)
    (dir url want sig expected digest : Text) (cache : Map Text (Entry Tree)) : Type 0 where
  pub archive : Text
  pub tree : Tree
  pub stored : Text
  pub source : get_url o url ≡ ok archive
  pub sum : digest ≡ digest_of tools archive
  pub checks : Verified tools m archive want sig expected tree
  pub there : lookup dir cache ≡ some (record { tree = tree; recorded = stored })
