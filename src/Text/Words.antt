-- ===== src/Text/Words.antt =====
-- `str::split_whitespace`
use bindizr.Base.{not, List, [], ◌∷◌, if◌then◌else◌, filter, is_empty}
use bindizr.Text.{Str, is_whitespace}
use bindizr.Text.Split.{push_first}

-- The parts between whitespace characters, the empty ones too.
unfoldable pub split_at_whitespace : Str → List Str
split_at_whitespace [] = [] ∷ []
split_at_whitespace (c ∷ s) =
    let rest = split_at_whitespace s in if is_whitespace c then [] ∷ rest else push_first c rest

unfoldable pub split_whitespace : Str → List Str
unfolding split_at_whitespace
split_whitespace s = filter (λ p. not (is_empty p)) (split_at_whitespace s)
