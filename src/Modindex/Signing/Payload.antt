-- ===== src/Modindex/Signing/Payload.antt =====
-- What the payload of a signature says of an index (modindex/modindex.go).
use doze_sdk.Modindex.Signing.Objects.{
  Alike, json_object-Alike, json_object-lookup, json_text-injective,
}
use doze_sdk.Modindex.Index.{Artifact, Release, Index}
use doze_sdk.Strings.{to_lower}
use doze_sdk.Modindex.Signing.{
  Json, json_object, artifact_payload, json_text, artifact_fields, release_fields, release_payload,
  channels_payload, index_fields, payload, json_null, json_number, json_texts,
}
use doze_sdk.Prelude.{
  Map, Option, Text, [], ◌∷◌, ◌≡◌, lookup, none, some, text_eq, refl, ap, text_key, int_key,
  map_values, sym, ◌∙◌, List, codes, pos, ℤ,
}

-- What is signed of an artifact: its URL, its digest up to case, its signature
abbrev pub SameArtifact : Artifact → Artifact → Type 0
SameArtifact a b = (a.url ≡ b.url) × ((to_lower a.sha256 ≡ to_lower b.sha256) × (a.sig ≡ b.sig))

option_text : Text → Option Json → Text
option_text d (some (json_text t)) = t
option_text d _ = d

-- The text of a field, or nothing where it is left out
artifact_fields-texts :
    (a : Artifact)
    → (option_text [] (lookup (codes "url") (artifact_fields a)) ≡ a.url)
      × ((option_text [] (lookup (codes "sha256") (artifact_fields a)) ≡ to_lower a.sha256)
          × (option_text [] (lookup (codes "sig") (artifact_fields a)) ≡ a.sig))
unfolding artifact_fields lookup text_eq option_text
artifact_fields-texts a = (refl, (refl, sig_text a.url a.sha256 a.sig))
  where
    sig_text :
        (u s g : Text)
        → option_text []
            (lookup (codes "sig") (artifact_fields (record { url = u; sha256 = s; sig = g })))
          ≡ g
    sig_text u s [] = refl
    sig_text u s (c ∷ g) = refl

text_field :
    (k : Text) (m n : Map Text Json)
    → json_object m ≡ json_object n
    → option_text [] (lookup k m) ≡ option_text [] (lookup k n)
text_field k m n h = ap (λ o. option_text [] o) (json_object-lookup m n h k)

artifact_payload-SameArtifact :
    (a b : Artifact) → artifact_payload a ≡ artifact_payload b → SameArtifact a b
artifact_payload-SameArtifact a b h =
    let (u, (s, g)) = artifact_fields-texts a in
    let (u', (s', g')) = artifact_fields-texts b in
    let same = λ (k : Text). text_field k (artifact_fields a) (artifact_fields b) h in
    (
      sym u ∙ (same (codes "url") ∙ u'),
      (sym s ∙ (same (codes "sha256") ∙ s'), sym g ∙ (same (codes "sig") ∙ g')),
    )

-- What is signed of a release: its protocol, its engine majors and its artifacts
abbrev pub SameRelease : Release → Release → Type 0
SameRelease r s =
    (r.protocol ≡ s.protocol)
    × ((r.engines ≡ s.engines)
        × ((t : Text) → Alike SameArtifact (lookup t r.artifacts) (lookup t s.artifacts)))

option_number : Option Json → ℤ
option_number (some (json_number z)) = z
option_number _ = pos 0

option_texts : Option Json → List Text
option_texts (some (json_texts ts)) = ts
option_texts _ = []

option_object : Option Json → Json
option_object (some j) = j
option_object none = json_null

release_fields-parts :
    (r : Release)
    → (option_number (lookup (codes "protocol") (release_fields r)) ≡ r.protocol)
      × ((option_texts (lookup (codes "engines") (release_fields r)) ≡ r.engines)
          × (option_object (lookup (codes "artifacts") (release_fields r))
              ≡ json_object (map_values artifact_payload r.artifacts)))
unfolding release_fields lookup text_eq option_number option_texts option_object
release_fields-parts r = parts r.protocol r.engines r.artifacts r.doze
  where
    parts :
        (p : ℤ) (es : List Text) (m : Map Text Artifact) (d : Text)
        → let r : Release = record { protocol = p; engines = es; artifacts = m; doze = d } in
          (option_number (lookup (codes "protocol") (release_fields r)) ≡ p)
          × ((option_texts (lookup (codes "engines") (release_fields r)) ≡ es)
              × (option_object (lookup (codes "artifacts") (release_fields r))
                  ≡ json_object (map_values artifact_payload m)))
    parts p [] m d = (refl, (refl, refl))
    parts p (e ∷ es) m d = (refl, (refl, refl))

release_payload-SameRelease :
    (r s : Release) → release_payload r ≡ release_payload s → SameRelease r s
release_payload-SameRelease r s h =
    let (p, (e, a)) = release_fields-parts r in
    let (p', (e', a')) = release_fields-parts s in
    let same = json_object-lookup (release_fields r) (release_fields s) h in
    (
      sym p ∙ (ap (λ o. option_number o) (same (codes "protocol")) ∙ p'),
      (
        sym e ∙ (ap (λ o. option_texts o) (same (codes "engines")) ∙ e'),
        json_object-Alike SameArtifact artifact_payload r.artifacts s.artifacts
            artifact_payload-SameArtifact
            (sym a ∙ (ap (λ o. option_object o) (same (codes "artifacts")) ∙ a')),
      ),
    )

-- What is signed of an index: its module and namespace, its releases, and its channels
abbrev pub SameSigned : Index → Index → Type 0
SameSigned i j =
    (i.name ≡ j.name)
    × ((i.namespace ≡ j.namespace)
        × (((v : Text) → Alike SameRelease (lookup v i.releases) (lookup v j.releases))
            × Alike (λ m n. (c : Text) → Alike (λ s t. s ≡ t) (lookup c m) (lookup c n)) i.channels
                j.channels))

channels_payload-Alike :
    (c d : Option (Map Text Text))
    → channels_payload c ≡ channels_payload d
    → Alike (λ m n. (k : Text) → Alike (λ s t. s ≡ t) (lookup k m) (lookup k n)) c d
unfolding channels_payload
channels_payload-Alike none none h = tt
channels_payload-Alike none (some n) h = absurd (unfold json_object in cc)
channels_payload-Alike (some m) none h = absurd (unfold json_object in cc)
channels_payload-Alike (some m) (some n) h =
    json_object-Alike (λ s t. s ≡ t) json_text m n json_text-injective h

index_fields-parts :
    (i : Index)
    → (option_text [] (lookup (codes "module") (index_fields i)) ≡ i.name)
      × ((option_text [] (lookup (codes "namespace") (index_fields i)) ≡ i.namespace)
          × ((option_object (lookup (codes "releases") (index_fields i))
                ≡ json_object (map_values release_payload i.releases))
              × (option_object (lookup (codes "channels") (index_fields i))
                  ≡ channels_payload i.channels)))
unfolding index_fields lookup text_eq option_text option_object
index_fields-parts i = (refl, (refl, (refl, refl)))

-- The payload says all of an index but for its schema, its signature, the oldest doze of a release and
-- the case of a digest.
pub payload-SameSigned : (i j : Index) → payload i ≡ payload j → SameSigned i j
payload-SameSigned i j h =
    let (n, (s, (r, c))) = index_fields-parts i in
    let (n', (s', (r', c'))) = index_fields-parts j in
    let same = json_object-lookup (index_fields i) (index_fields j) h in
    let text_same = λ (k : Text). text_field k (index_fields i) (index_fields j) h in
    (
      sym n ∙ (text_same (codes "module") ∙ n'),
      (
        sym s ∙ (text_same (codes "namespace") ∙ s'),
        (
          json_object-Alike SameRelease release_payload i.releases j.releases
              release_payload-SameRelease
              (sym r ∙ (ap (λ o. option_object o) (same (codes "releases")) ∙ r')),
          channels_payload-Alike i.channels j.channels
              (sym c ∙ (ap (λ o. option_object o) (same (codes "channels")) ∙ c')),
        ),
      ),
    )
