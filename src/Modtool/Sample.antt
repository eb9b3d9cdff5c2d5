-- ===== src/Modtool/Sample.antt =====
-- A YAML package for the examples, which knows two indexes.
use doze_sdk.Modtool.Publish.Reading.{ReadsBack}
use doze_sdk.Modtool.{Yaml}
use doze_sdk.Modindex.Index.{Artifact, Release, Index}
use doze_sdk.Prelude.{
  Bool-cases, ok_injective, err_apart, inl, inr, sym, Bool, List, Text, [], ◌∷◌, ◌≡◌, ◌&&◌, arith,
  false, text_eq, text_eq_iff, true, refl, Map, Option, ap, codes, eqb_ℤ, eqb_ℤ_iff, err,
  if◌then◌else◌, none, ok, some, ℤ, subst,
}

-- A test that only equal values pass
abbrev IsTest : {A : Type 0} → (A → A → Bool) → Type 0
IsTest {A} test = (x y : A) → test x y ≡ true → x ≡ y

unfoldable pub lists_eq : {A : Type 0} → (A → A → Bool) → List A → List A → Bool
lists_eq test [] [] = true
lists_eq test (a ∷ as') (b ∷ bs) = test a b && lists_eq test as' bs
lists_eq test _ _ = false

lists_eq-IsTest : {A : Type 0} (test : A → A → Bool) → IsTest test → IsTest (lists_eq test)
unfolding lists_eq
lists_eq-IsTest test is [] [] h = refl
lists_eq-IsTest test is [] (b ∷ bs) h = absurd (cc)
lists_eq-IsTest test is (a ∷ as') [] h = absurd (cc)
lists_eq-IsTest test is (a ∷ as') (b ∷ bs) h =
    ground (arith, is a b, lists_eq-IsTest test is as' bs)

unfoldable pub entries_eq : {V : Type 0} → (V → V → Bool) → Text × V → Text × V → Bool
entries_eq test (k, v) (j, w) = text_eq k j && test v w

entries_eq-IsTest : {V : Type 0} (test : V → V → Bool) → IsTest test → IsTest (entries_eq test)
unfolding entries_eq
entries_eq-IsTest test is (k, v) (j, w) h = ground (arith, is v w, text_eq_iff k j)

unfoldable pub artifacts_eq : Artifact → Artifact → Bool
artifacts_eq a b = text_eq a.url b.url && (text_eq a.sha256 b.sha256 && text_eq a.sig b.sig)

artifact_path :
    {u u' s s' g g' : Text}
    → u ≡ u'
    → s ≡ s'
    → g ≡ g'
    → ◌≡◌ {A = Artifact}
        (record { url = u; sha256 = s; sig = g })
        (record { url = u'; sha256 = s'; sig = g' })
artifact_path p q r = cc (p, q, r)

artifacts_eq-IsTest : IsTest artifacts_eq
unfolding artifacts_eq
artifacts_eq-IsTest a b h =
    artifact_path (ground (arith, text_eq_iff a.url b.url))
      (ground (arith, text_eq_iff a.sha256 b.sha256)) (ground (arith, text_eq_iff a.sig b.sig))

text_eq-IsTest : IsTest text_eq
text_eq-IsTest s t h = (text_eq_iff s t).0 h

unfoldable pub artifact_maps_eq : Map Text Artifact → Map Text Artifact → Bool
unfolding lists_eq entries_eq artifacts_eq
artifact_maps_eq m n = lists_eq (entries_eq artifacts_eq) m n

artifact_maps_eq-IsTest : IsTest artifact_maps_eq
unfolding artifact_maps_eq
artifact_maps_eq-IsTest m n h =
    lists_eq-IsTest (entries_eq artifacts_eq) (entries_eq-IsTest artifacts_eq artifacts_eq-IsTest) m
      n h

unfoldable pub texts_eq : List Text → List Text → Bool
unfolding lists_eq
texts_eq s t = lists_eq text_eq s t

texts_eq-IsTest : IsTest texts_eq
unfolding texts_eq
texts_eq-IsTest s t h = lists_eq-IsTest text_eq text_eq-IsTest s t h

unfoldable pub releases_eq : Release → Release → Bool
unfolding artifact_maps_eq texts_eq
releases_eq r s =
    eqb_ℤ r.protocol s.protocol
    && (texts_eq r.engines s.engines
        && (artifact_maps_eq r.artifacts s.artifacts && text_eq r.doze s.doze))

release_path :
    {p p' : ℤ} {e e' : List Text} {a a' : Map Text Artifact} {d d' : Text}
    → p ≡ p'
    → e ≡ e'
    → a ≡ a'
    → d ≡ d'
    → ◌≡◌ {A = Release}
        (record { protocol = p; engines = e; artifacts = a; doze = d })
        (record { protocol = p'; engines = e'; artifacts = a'; doze = d' })
release_path p e a d = cc (p, e, a, d)

releases_eq-IsTest : IsTest releases_eq
unfolding releases_eq
releases_eq-IsTest r s h =
    release_path (ground (arith, eqb_ℤ_iff r.protocol s.protocol))
      (ground (arith, texts_eq-IsTest r.engines s.engines))
      (ground (arith, artifact_maps_eq-IsTest r.artifacts s.artifacts))
      (ground (arith, text_eq_iff r.doze s.doze))

unfoldable pub release_maps_eq : Map Text Release → Map Text Release → Bool
unfolding lists_eq entries_eq releases_eq
release_maps_eq m n = lists_eq (entries_eq releases_eq) m n

release_maps_eq-IsTest : IsTest release_maps_eq
unfolding release_maps_eq
release_maps_eq-IsTest m n h =
    lists_eq-IsTest (entries_eq releases_eq) (entries_eq-IsTest releases_eq releases_eq-IsTest) m n
      h

unfoldable pub channels_eq : Option (Map Text Text) → Option (Map Text Text) → Bool
unfolding lists_eq entries_eq
channels_eq none none = true
channels_eq (some m) (some n) = lists_eq (entries_eq text_eq) m n
channels_eq _ _ = false

channels_eq-IsTest : IsTest channels_eq
unfolding channels_eq
channels_eq-IsTest none none h = refl
channels_eq-IsTest none (some n) h = absurd (cc)
channels_eq-IsTest (some m) none h = absurd (cc)
channels_eq-IsTest (some m) (some n) h =
    ap some (lists_eq-IsTest (entries_eq text_eq) (entries_eq-IsTest text_eq text_eq-IsTest) m n h)

unfoldable pub indexes_eq : Index → Index → Bool
unfolding release_maps_eq channels_eq
indexes_eq i j =
    eqb_ℤ i.schema j.schema
    && (text_eq i.name j.name
        && (text_eq i.namespace j.namespace
            && (release_maps_eq i.releases j.releases
                && (channels_eq i.channels j.channels && text_eq i.signature j.signature))))

index_path :
    {s s' : ℤ} {n n' p p' : Text} {r r' : Map Text Release} {c c' : Option (Map Text Text)}
    {g g' : Text}
    → s ≡ s'
    → n ≡ n'
    → p ≡ p'
    → r ≡ r'
    → c ≡ c'
    → g ≡ g'
    → ◌≡◌ {A = Index}
        (record { schema = s; name = n; namespace = p; releases = r; channels = c; signature = g })
        (record {
          schema = s';
          name = n';
          namespace = p';
          releases = r';
          channels = c';
          signature = g';
        })
index_path s n p r c g = cc (s, n, p, r, c, g)

indexes_eq-IsTest : IsTest indexes_eq
unfolding indexes_eq
indexes_eq-IsTest i j h =
    index_path (ground (arith, eqb_ℤ_iff i.schema j.schema))
      (ground (arith, text_eq_iff i.name j.name))
      (ground (arith, text_eq_iff i.namespace j.namespace))
      (ground (arith, release_maps_eq-IsTest i.releases j.releases))
      (ground (arith, channels_eq-IsTest i.channels j.channels))
      (ground (arith, text_eq_iff i.signature j.signature))

-- The package writes one of two indexes as a text of its own, and no other.
unfoldable pub yaml_of : Index → Index → Yaml
unfolding indexes_eq
yaml_of one two = record {
  marshal = λ idx.
      if indexes_eq idx one
      then ok (codes "1")
      else if indexes_eq idx two
      then ok (codes "2")
      else err (codes "no such index");
  unmarshal = λ bytes.
      if text_eq bytes (codes "1")
      then some one
      else if text_eq bytes (codes "2")
      then some two
      else none;
}

yaml_of_back :
    (one two idx : Index) (bytes : Text)
    → (yaml_of one two).marshal idx ≡ ok bytes
    → (yaml_of one two).unmarshal bytes ≡ some idx
unfolding text_eq yaml_of
yaml_of_back one two idx bytes h = elim (Bool-cases (indexes_eq idx one)) [
  | inl e ↦
      subst (λ b. (yaml_of one two).unmarshal b ≡ some idx) (ok_injective (rw e at h))
        (ap some (sym (indexes_eq-IsTest idx one e)))
  | inr ne ↦ elim (Bool-cases (indexes_eq idx two)) [
    | inl e ↦
        subst (λ b. (yaml_of one two).unmarshal b ≡ some idx) (ok_injective (rw (ne, e) at h))
          (ap some (sym (indexes_eq-IsTest idx two e)))
    | inr other ↦ absurd (err_apart _ _ (rw (ne, other) at h))
  ]
]

pub yaml_of-ReadsBack : (one two : Index) (file : Option Text) → ReadsBack (yaml_of one two) file
yaml_of-ReadsBack one two file idx bytes same h =
    (idx, (yaml_of_back one two idx bytes h, (refl, (refl, λ version triple. refl))))
