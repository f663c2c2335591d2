-- ===== src/Edid/Vendor.antt =====
-- The name of a manufacturer from its PNP id: the system's database (lookupVendorIdInSystemDatabase)
-- and the table that is compiled in, both in platformsupport/edid/auroraedidparser.cpp.
pub mod Search
use aurora_compositor.Base.{
  ℕ, ◌+◌, ◌-◌, ◌≤◌, ◌<◌, ◌≡◌, ◌≢◌, ◌⊎◌, inl, inr, refl, Bool, true, false, not, ◌&&◌, ◌||◌, List,
  [], ◌∷◌, Option, none, some, arith, ltb, ◌==◌, if◌then◌else◌, length, take, drop, All,
}

-- A row of the table; an id has three letters.
pub record VendorEntry : Type 0 where
  pub id : List ℕ
  pub name : List ℕ

abbrev pub eq_bytes : List ℕ → List ℕ → Bool
eq_bytes [] [] = true
eq_bytes (a ∷ xs) (b ∷ ys) = a == b && eq_bytes xs ys
eq_bytes _ _ = false

-- `indexOf('\t')`, counted from `i`.
unfoldable pub index_of_tab : ℕ → List ℕ → Option ℕ
index_of_tab i [] = none
index_of_tab i (c ∷ cs) = if c == 9 then some i else index_of_tab (i + 1) cs

-- The name in one line of the file, without its line end, if the line is for the id.
unfoldable pub vendor_in_line : List ℕ → List ℕ → Option (List ℕ)
vendor_in_line id line = elim (index_of_tab 0 line) [
  | none ↦ none
  | some tab ↦
      if (tab == 0 || tab + 1 == length line) || not (eq_bytes (take tab line) id)
      then none
      else some (drop (tab + 1) line)
]

abbrev is_comment : List ℕ → Bool
is_comment [] = true
is_comment (c ∷ cs) = c == b'#'

-- The lines as `readLine` returns them, each with its line end. The file is given up at a line of
-- 512 bytes.
unfoldable pub lookup_vendor_id : List ℕ → List (List ℕ) → List ℕ
lookup_vendor_id id [] = []
lookup_vendor_id id (raw ∷ rest) =
    let line = take (length raw - 1) raw in
    let later = lookup_vendor_id id rest in
    if length raw == 512
    then []
    else if is_comment line
    then later
    else elim (vendor_in_line id line) [ none ↦ later | some name ↦ name ]

-- `strncmp(a, b, 3) < 0` of two ids.
abbrev pub less_id : List ℕ → List ℕ → Bool
less_id [] [] = false
less_id [] (b ∷ ys) = true
less_id (a ∷ xs) [] = false
less_id (a ∷ xs) (b ∷ ys) = if ltb a b then true else if ltb b a then false else less_id xs ys

-- `std::lower_bound`: what is left from the first row whose id is not less.
unfoldable pub lower_bound : List ℕ → List VendorEntry → List VendorEntry
lower_bound id [] = []
lower_bound id (v ∷ vs) = if less_id v.id id then lower_bound id vs else v ∷ vs

abbrev head_name : List ℕ → List VendorEntry → List ℕ
head_name id [] = []
head_name id (v ∷ vs) = if eq_bytes v.id id then v.name else []

unfoldable pub lookup_vendor_table : List ℕ → List VendorEntry → List ℕ
lookup_vendor_table id table = head_name id (lower_bound id table)
