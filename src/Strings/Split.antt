-- ===== src/Strings/Split.antt =====
-- strings.Split with a separator of one byte.
use doze_sdk.Prelude.{ℕ, ◌≡◌, refl, List, [], ◌∷◌, Text, codes, nat_eq, if◌then◌else◌}

-- The piece in front gets the byte.
unfoldable pub push_front : ℕ → List Text → List Text
push_front c [] = (c ∷ []) ∷ []
push_front c (p ∷ ps) = (c ∷ p) ∷ ps

unfoldable pub split : ℕ → Text → List Text
unfolding push_front
split sep [] = [] ∷ []
split sep (c ∷ s) = let rest = split sep s in if nat_eq c sep then [] ∷ rest else push_front c rest

three_parts : split b'.' (codes "1..20") ≡ codes "1" ∷ [] ∷ codes "20" ∷ []
unfolding split
three_parts = refl
