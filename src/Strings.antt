-- ===== src/Strings.antt =====
-- What the code uses of Go's `strings` and `strconv`, over texts as lists of bytes.
pub mod Split
pub mod Atoi
pub mod Last
use doze_sdk.Prelude.{
  ℕ, suc, ◌+◌, ◌-◌, ◌≡◌, Bool, true, false, Option, none, some, [], ◌∷◌, ◌++◌, Text, text_eq,
  nat_eq, leb, ◌&&◌, if◌then◌else◌, map, List, ◌||◌,
}

-- strings.IndexByte, with `none` for -1
unfoldable pub index_byte : ℕ → Text → Option ℕ
index_byte b [] = none
index_byte b (c ∷ s) =
    let rest = index_byte b s in
    if nat_eq c b then some 0 else elim rest [ none ↦ none | some i ↦ some (suc i) ]

-- strings.Contains, for a text of one byte
unfoldable pub contains_byte : ℕ → Text → Bool
contains_byte b [] = false
contains_byte b (c ∷ s) = if nat_eq c b then true else contains_byte b s

-- strings.Count, for a text of one byte
unfoldable pub count_byte : ℕ → Text → ℕ
count_byte b [] = 0
count_byte b (c ∷ s) = if nat_eq c b then suc (count_byte b s) else count_byte b s

-- strings.CutPrefix
unfoldable pub cut_prefix : Text → Text → Option Text
cut_prefix [] s = some s
cut_prefix (p ∷ ps) [] = none
cut_prefix (p ∷ ps) (c ∷ s) = if nat_eq p c then cut_prefix ps s else none

-- strings.TrimPrefix
unfoldable pub trim_prefix : Text → Text → Text
unfolding cut_prefix
trim_prefix p s = elim (cut_prefix p s) [ none ↦ s | some t ↦ t ]

-- The text before its last byte, where that byte is `b`: strings.HasSuffix and strings.TrimSuffix
-- for a suffix of one byte.
unfoldable pub cut_last : ℕ → Text → Option Text
cut_last b [] = none
cut_last b (c ∷ []) = if nat_eq c b then some [] else none
cut_last b (c ∷ d ∷ s) =
    let rest = cut_last b (d ∷ s) in elim rest [ none ↦ none | some t ↦ some (c ∷ t) ]

-- strings.ToLower on an ASCII byte
unfoldable pub lower : ℕ → ℕ
lower c = if leb b'A' c && leb c b'Z' then c + 32 else c

-- strings.ToLower, for ASCII text
unfoldable pub to_lower : Text → Text
unfolding lower
to_lower s = map lower s

-- strings.EqualFold, for ASCII text
unfoldable pub equal_fold : Text → Text → Bool
unfolding to_lower
equal_fold s t = text_eq (to_lower s) (to_lower t)

-- strings.ReplaceAll, one byte for one byte
unfoldable pub replace_byte : ℕ → ℕ → Text → Text
replace_byte old new s = map (λ c. if nat_eq c old then new else c) s

-- strings.TrimRight and strings.TrimLeft with a cutset of one byte
unfoldable pub trim_left : ℕ → Text → Text
trim_left b [] = []
trim_left b (c ∷ s) = if nat_eq c b then trim_left b s else c ∷ s

unfoldable pub trim_right : ℕ → Text → Text
trim_right b [] = []
trim_right b (c ∷ s) =
    let rest = trim_right b s in
    elim rest [ [] ↦ if nat_eq c b then [] else c ∷ [] | d ∷ t ↦ c ∷ d ∷ t ]

-- strings.Join
unfoldable pub join : Text → List Text → Text
join sep [] = []
join sep (s ∷ []) = s
join sep (s ∷ t ∷ ss) = s ++ (sep ++ join sep (t ∷ ss))

-- strings.Cut at a byte, with the empty text for what is not there
unfoldable pub cut : ℕ → Text → Text × Text
cut b [] = ([], [])
cut b (c ∷ s) = let rest = cut b s in if nat_eq c b then ([], s) else (c ∷ rest.0, rest.1)

-- The white space of ASCII, to which strings.TrimSpace is taken
unfoldable pub is_space : ℕ → Bool
is_space c = nat_eq c b' ' || (leb 9 c && leb c 13)

-- TrimLeft by white space
unfoldable pub skip_space : Text → Text
unfolding is_space
skip_space [] = []
skip_space (c ∷ s) = let rest = skip_space s in if is_space c then rest else c ∷ s

-- TrimRight by white space
unfoldable pub drop_space : Text → Text
unfolding is_space
drop_space [] = []
drop_space (c ∷ s) =
    let rest = drop_space s in if is_space c && text_eq rest [] then [] else c ∷ rest

-- strings.TrimSpace
unfoldable pub trim_space : Text → Text
unfolding skip_space drop_space
trim_space s = drop_space (skip_space s)
