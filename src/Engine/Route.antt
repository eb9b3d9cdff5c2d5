-- ===== src/Engine/Route.antt =====
-- Routes of engine/network.go: `parseRoute`, `RouteHost`, `labelChars`, `isLabel`.
pub mod Hosts
use doze_sdk.Strings.{contains_byte, cut_last}
use doze_sdk.Prelude.{
  ◌>>=◌, ℕ, Text, Bool, ◌∷◌, Result, ◌++◌, leb, false, codes, all, ◌&&◌, length, ◌||◌, nat_eq, not,
  [], err, if◌then◌else◌, none, ok, some, text_eq,
}

abbrev pub at_sign : ℕ
at_sign = b'@'

abbrev pub hyphen : ℕ
hyphen = b'-'

abbrev pub is_label_char : ℕ → Bool
is_label_char c = leb b'a' c && leb c b'z' || (leb b'0' c && leb c b'9' || nat_eq c hyphen)

-- labelChars. The code walks runes: a byte of a rune beyond ASCII is no label character either.
unfoldable pub label_chars : Text → Bool
label_chars [] = false
label_chars (c ∷ s) = all is_label_char (c ∷ s)

-- `s[len(s)-1]` of a text with at least one byte
unfoldable pub last_byte : ℕ → Text → ℕ
last_byte c [] = c
last_byte c (d ∷ s) = last_byte d s

-- isLabel
unfoldable pub is_label : Text → Bool
unfolding label_chars last_byte
is_label [] = false
is_label (c ∷ s) =
    label_chars (c ∷ s)
    && (leb (length (c ∷ s)) 63 && (not (nat_eq c hyphen) && not (nat_eq (last_byte c s) hyphen)))

-- routeSelf, routeChild with its label, routeSibling with its prefix
pub data Route : Type 0 where
  self : Route
  child : Text → Route
  sibling : Text → Route

pub data RouteError : Type 0 where
  bad_prefix : Text → RouteError
  misplaced_at : Text → RouteError
  bad_label : Text → RouteError

-- parseRoute
unfoldable pub parse_route : Text → Result RouteError Route
parse_route route =
    if text_eq route (at_sign ∷ []) then ok self else elim (cut_last at_sign route) [
      | some prefix ↦ if label_chars prefix then ok (sibling prefix) else err (bad_prefix route)
      | none ↦
          if contains_byte at_sign route
          then err (misplaced_at route)
          else if is_label route
          then ok (child route)
          else err (bad_label route)
    ]

abbrev pub name_of : Text → Route → Text
name_of host self = host
name_of host (child label) = label ++ (codes "." ++ host)
name_of host (sibling prefix) = prefix ++ host

-- RouteHost
unfoldable pub route_host : Text → Text → Result RouteError Text
route_host route host = do kind ← parse_route route; ok (name_of host kind)
