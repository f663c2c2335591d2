-- ===== src/Edid/Text.antt =====
-- The texts of an EDID (EdidParser::parseEdidString in platformsupport/edid/auroraedidparser.cpp).
pub mod Clean
use aurora_compositor.Base.{
  ℕ, ◌+◌, ◌≤◌, ◌<◌, ◌≡◌, ◌≢◌, ◌⊎◌, inl, inr, refl, ◌∙◌, Bool, true, false, not, ◌&&◌, ◌||◌, List,
  [], ◌∷◌, ◌++◌, Option, none, some, map, arith, ltb, leb, ◌==◌, if◌then◌else◌, length, All,
}

-- `\r` and `\n` become the null byte.
abbrev pub erase_line_end : ℕ → ℕ
erase_line_end c = if c == 13 then 0 else if c == 10 then 0 else c

-- Bytes outside 32 to 126 become a dash.
abbrev pub dash_unprintable : ℕ → ℕ
dash_unprintable c = if ltb c 32 then 45 else if ltb 126 c then 45 else c

-- The characters that `trimmed` takes off.
abbrev pub is_space : ℕ → Bool
is_space c = c == 32 || (leb 9 c && leb c 13)

unfoldable pub trim_left : List ℕ → List ℕ
trim_left [] = []
trim_left (c ∷ cs) = if is_space c then trim_left cs else c ∷ cs

-- A text without the spaces at its end.
unfoldable pub trim_right : List ℕ → List ℕ
trim_right [] = []
trim_right (c ∷ cs) = elim (trim_right cs) [
  | [] ↦ if is_space c then [] else c ∷ []
  | d ∷ ds ↦ c ∷ d ∷ ds
]

-- `trimmed` of a QByteArray.
unfoldable pub trimmed : List ℕ → List ℕ
trimmed cs = trim_right (trim_left cs)

unfoldable pub parse_edid_string : List ℕ → List ℕ
unfolding trimmed
parse_edid_string raw = trimmed (map dash_unprintable (map erase_line_end raw))
