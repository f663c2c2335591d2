-- ===== src/Edid/Text/Clean.antt =====
-- What the texts of an EDID look like once parsed.
use aurora_compositor.Base.{
  ℕ, suc, ◌≤◌, ◌≡◌, ◌≢◌, refl, ap, ◌∙◌, false, List, [], ◌∷◌, ◌++◌, map, arith, length, All,
  last_or,
}
use aurora_compositor.Edid.Text.{
  erase_line_end, dash_unprintable, is_space, trim_left, trim_right, parse_edid_string,
}

abbrev pub IsPrintable : ℕ → Type 0
IsPrintable c = (32 ≤ c) × (c ≤ 126)

abbrev clean : List ℕ → List ℕ
clean raw = map dash_unprintable (map erase_line_end raw)

clean-IsPrintable : (raw : List ℕ) → All IsPrintable (clean raw)
clean-IsPrintable [] = tt
clean-IsPrintable (c ∷ cs) = ((ground arith, ground arith), clean-IsPrintable cs)

trim_left-All : (cs : List ℕ) → All IsPrintable cs → All IsPrintable (trim_left cs)
unfolding trim_left
trim_left-All [] h = tt
trim_left-All (c ∷ cs) h = ground (arith, trim_left-All cs h.1)

trim_right-All : (cs : List ℕ) → All IsPrintable cs → All IsPrintable (trim_right cs)
unfolding trim_right
trim_right-All [] h = tt
trim_right-All (c ∷ cs) h = ground (arith, trim_right-All cs h.1)

length-trim_left : (cs : List ℕ) → length (trim_left cs) ≤ length cs
unfolding trim_left
length-trim_left [] = omega arith
length-trim_left (c ∷ cs) = ground (arith, length-trim_left cs)

length-trim_right : (cs : List ℕ) → length (trim_right cs) ≤ length cs
unfolding trim_right
length-trim_right [] = omega arith
length-trim_right (c ∷ cs) = ground (arith, length-trim_right cs)

length-clean : (raw : List ℕ) → length (clean raw) ≡ length raw
length-clean [] = refl
length-clean (c ∷ cs) = ap suc (length-clean cs)

-- The first character of the text, or `d` for the empty one.
abbrev pub first_or : ℕ → List ℕ → ℕ
first_or d [] = d
first_or d (c ∷ cs) = c

trim_left-first : (cs : List ℕ) → is_space (first_or 0 (trim_left cs)) ≡ false
unfolding trim_left
trim_left-first [] = refl
trim_left-first (c ∷ cs) = ground (arith, trim_left-first cs)

trim_right-last :
    (d : ℕ) (cs : List ℕ) → is_space d ≡ false → is_space (last_or d (trim_right cs)) ≡ false
unfolding trim_right
trim_right-last d [] h = h
trim_right-last d (c ∷ cs) h = ground (arith, trim_right-last d cs h, trim_right-last c cs)

trim_right-first :
    (cs : List ℕ) → is_space (first_or 0 cs) ≡ false → is_space (first_or 0 (trim_right cs)) ≡ false
unfolding trim_right
trim_right-first [] h = refl
trim_right-first (c ∷ cs) h = ground arith

-- A parsed text is at most as long as its bytes, holds only printable characters of ASCII, and
-- neither begins nor ends with a space.
parse_edid_string-clean :
    (raw : List ℕ)
    → All IsPrintable (parse_edid_string raw)
      × (length (parse_edid_string raw) ≤ length raw)
      × (is_space (first_or 0 (parse_edid_string raw)) ≡ false)
      × (is_space (last_or 0 (parse_edid_string raw)) ≡ false)
unfolding parse_edid_string
parse_edid_string-clean raw = (
  trim_right-All _ (trim_left-All _ (clean-IsPrintable raw)),
  omega (
    arith,
    length-clean raw,
    length-trim_left (clean raw),
    length-trim_right (trim_left (clean raw)),
  ),
  trim_right-first _ (trim_left-first (clean raw)),
  trim_right-last 0 (trim_left (clean raw)) refl,
)

-- The text of a run of spaces.
abbrev IsBlank : ℕ → Type 0
IsBlank c = c ≡ 32

clean-blank : (cs : List ℕ) → All IsBlank cs → trim_right (clean cs) ≡ []
unfolding trim_right
clean-blank [] h = refl
clean-blank (c ∷ cs) h = ground (arith, clean-blank cs h.1)

keep-IsPrintable : (c : ℕ) → IsPrintable c → dash_unprintable (erase_line_end c) ≡ c
keep-IsPrintable c h = ground arith

trim_right-cons :
    (c y : ℕ) (xs ys : List ℕ) → trim_right xs ≡ y ∷ ys → trim_right (c ∷ xs) ≡ c ∷ y ∷ ys
unfolding trim_right
trim_right-cons c y xs ys e = rw e

clean-body :
    (body rest : List ℕ)
    → All IsPrintable body
    → trim_right (clean rest) ≡ 45 ∷ []
    → trim_right (clean (body ++ rest)) ≡ body ++ 45 ∷ []
clean-body [] rest h e = e
clean-body (c ∷ []) rest h e = rw (keep-IsPrintable c h.0) (trim_right-cons c 45 _ [] e)
clean-body (c ∷ x ∷ cs) rest h e =
    rw (keep-IsPrintable c h.0)
      (trim_right-cons c x _ (cs ++ 45 ∷ []) (clean-body (x ∷ cs) rest h.1 e))

trim_left-clean :
    (c : ℕ) (cs : List ℕ) → c ≢ 32 → IsPrintable c → trim_left (clean (c ∷ cs)) ≡ clean (c ∷ cs)
unfolding trim_left
trim_left-clean c cs n h = rw (keep-IsPrintable c h) (ground arith)

line_feed-dash :
    (padding : List ℕ) → All IsBlank padding → trim_right (clean (10 ∷ padding)) ≡ 45 ∷ []
unfolding trim_right
line_feed-dash padding b = ground (arith, clean-blank padding b)

-- The line feed that ends a text in the descriptor is not taken off: a printable text that begins
-- with no space, followed by a line feed and padding, is parsed to that text with a dash after it.
pub parse_edid_string-line_feed :
    (c : ℕ) (body padding : List ℕ)
    → c ≢ 32
    → All IsPrintable (c ∷ body)
    → All (λ x. x ≡ 32) padding
    → parse_edid_string (c ∷ body ++ 10 ∷ padding) ≡ c ∷ body ++ 45 ∷ []
unfolding parse_edid_string
parse_edid_string-line_feed c body padding n h b =
    ap trim_right (trim_left-clean c (body ++ 10 ∷ padding) n h.0)
    ∙ clean-body (c ∷ body) (10 ∷ padding) h (line_feed-dash padding b)
