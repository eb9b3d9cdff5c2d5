-- ===== src/Engine/Resolve.antt =====
-- engine/resolve.go: `ResolveVia` and `ExactDots`, over a Locker and a Fetcher.
pub mod Frozen
use doze_sdk.Engine.Types.{text_at, Platform, Toolchain, Pin}
use doze_sdk.Modindex.Version.{dot}
use doze_sdk.Strings.{count_byte}
use doze_sdk.Prelude.{
  Map, Option, Result, Text, UniqueKeys, [], codes, if◌then◌else◌, leb, lookup, none, ok, some,
  text_eq, ℕ, ◌>>=◌, ◌∷◌, ◌≡◌, text_key, int_key,
}

-- Locker (engine/types.go), over what it keeps
pub record Locker (S Fault : Type 0) : Type 0 where
  pub get : S → Text → Text → Result Fault (Option Pin)
  pub record_pin : S → Text → Text → Pin → S

-- What a caller relies on in a Locker: what `Record` stores is what `Get` reads, with each hash that
-- was given, and other keys keep what they have.
pub record IsLawful {S Fault : Type 0} (locker : Locker S Fault) : Type 0 where
  pub get-record_pin :
      (s : S) (eng spec : Text) (p : Pin)
      → UniqueKeys p.hashes
      → (stored : Pin) × ((locker.get (locker.record_pin s eng spec p) eng spec ≡ ok (some stored))
          × ((stored.resolved ≡ p.resolved)
              × ((t sha : Text) → lookup t p.hashes ≡ some sha → text_at t stored.hashes ≡ sha)))
  pub get-record_pin_other :
      (s : S) (eng spec eng' spec' : Text) (p : Pin)
      → ¬ ((eng ≡ eng') × (spec ≡ spec'))
      → locker.get (locker.record_pin s eng spec p) eng' spec' ≡ locker.get s eng' spec'

-- The operations of a Fetcher at the time of one call: `ensure` gives the directory of the binaries
-- and the digest.
pub record Fetcher (Fault : Type 0) : Type 0 where
  pub resolve_major : Text → Text → Result Fault Text
  pub ensure : Text → Text → Platform → Text → Result Fault (Text × Text)

-- The hashes of the pin that a resolve records.
abbrev pub digest_for : Text → Text → Map Text Text
digest_for triple digest = if text_eq digest [] then [] else (triple, digest) ∷ []

-- ExactDots
unfoldable pub exact_dots : ℕ → Text → Option Text
unfolding count_byte
exact_dots n v = if leb n (count_byte dot v) then some v else none

module _ {S Fault : Type 0} (locker : Locker S Fault) where
  -- The version from the mirror, or the exact one that the spec names.
  abbrev pub unpinned : Fetcher Fault → Text → Text → Option Text → Result Fault (Text × Text)
  unpinned fetch eng spec (some v) = ok (v, [])
  unpinned fetch eng spec none = fetch.resolve_major eng spec >>= λ v. ok (v, [])

  -- The first part of `ResolveVia`: the version and the digest that is expected of it.
  abbrev pub version_from :
      Option Pin
      → Fetcher Fault
      → Platform
      → Text
      → Text
      → (Text → Option Text)
      → Result Fault (Text × Text)
  version_from none fetch plat eng spec exact_full = unpinned fetch eng spec (exact_full spec)
  version_from (some p) fetch plat eng spec exact_full =
      let open_version = unpinned fetch eng spec (exact_full spec) in
      if text_eq p.resolved [] then open_version else ok (p.resolved, text_at plat.triple p.hashes)

  -- ResolveVia, with the lock that the call leaves.
  unfoldable pub resolve_via :
      Fetcher Fault
      → Platform
      → Text
      → Text
      → (Text → Option Text)
      → S
      → Result Fault (Toolchain × S)
  resolve_via fetch plat eng spec exact_full s =
      locker.get s eng spec
      >>= (λ held. version_from held fetch plat eng spec exact_full)
      >>= λ chosen. fetch.ensure eng chosen.0 plat chosen.1 >>= λ ensured. ok (
        record { engine = eng; full = chosen.0; bin_dir = ensured.0; tools = [] },
        locker.record_pin s eng spec (record {
          resolved = chosen.0;
          source = codes "mirror";
          hashes = digest_for plat.triple ensured.1;
        }),
      )
