-- ===== src/Edid/Vendor/Search.antt =====
-- The binary search in the vendor table against a plain search through it.
use aurora_compositor.Base.{ℕ, ◌≡◌, refl, true, false, List, [], ◌∷◌, arith, if◌then◌else◌, All}
use aurora_compositor.Edid.Vendor.{VendorEntry, eq_bytes, less_id, lower_bound, lookup_vendor_table}

less_id-ne : (a b : List ℕ) → less_id a b ≡ true → eq_bytes a b ≡ false
less_id-ne [] [] h = cc
less_id-ne [] (y ∷ b) h = refl
less_id-ne (x ∷ a) [] h = refl
less_id-ne (x ∷ a) (y ∷ b) h = ground (arith, less_id-ne a b)

less_id_total : (a b : List ℕ) → less_id a b ≡ false → eq_bytes a b ≡ false → less_id b a ≡ true
less_id_total [] [] h e = cc
less_id_total [] (y ∷ b) h e = cc
less_id_total (x ∷ a) [] h e = refl
less_id_total (x ∷ a) (y ∷ b) h e = ground (arith, less_id_total a b)

less_id_trans : (a b c : List ℕ) → less_id a b ≡ true → less_id b c ≡ true → less_id a c ≡ true
less_id_trans [] [] c h k = cc
less_id_trans [] (y ∷ b) [] h k = cc
less_id_trans [] (y ∷ b) (z ∷ c) h k = refl
less_id_trans (x ∷ a) [] c h k = cc
less_id_trans (x ∷ a) (y ∷ b) [] h k = cc
less_id_trans (x ∷ a) (y ∷ b) (z ∷ c) h k = ground (arith, less_id_trans a b c)

eq_bytes_symm : (a b : List ℕ) → eq_bytes a b ≡ eq_bytes b a
eq_bytes_symm [] [] = refl
eq_bytes_symm [] (y ∷ b) = refl
eq_bytes_symm (x ∷ a) [] = refl
eq_bytes_symm (x ∷ a) (y ∷ b) = ground (arith, eq_bytes_symm a b)

-- The ids rise along the table.
abbrev pub Rising : List VendorEntry → Type 0
Rising [] = Unit {0}
Rising (v ∷ vs) = All (λ w. less_id v.id w.id ≡ true) vs × Rising vs

-- The name in the first row with the id, or nothing.
abbrev pub name_of : List ℕ → List VendorEntry → List ℕ
name_of id [] = []
name_of id (v ∷ vs) = if eq_bytes v.id id then v.name else name_of id vs

name_of-above :
    (id u : List ℕ) (vs : List VendorEntry)
    → less_id id u ≡ true
    → All (λ w. less_id u w.id ≡ true) vs
    → name_of id vs ≡ []
name_of-above id u [] h a = refl
name_of-above id u (v ∷ vs) h a = ground (
  arith,
  less_id-ne id v.id,
  less_id_trans id u v.id h a.0,
  eq_bytes_symm id v.id,
  name_of-above id u vs h a.1,
)

-- In a table whose ids rise, the lookup by binary search gives the name in the row with the id, and
-- nothing if there is no such row.
pub lookup_vendor_table_lem :
    (id : List ℕ) (table : List VendorEntry)
    → Rising table
    → lookup_vendor_table id table ≡ name_of id table
unfolding lookup_vendor_table lower_bound
lookup_vendor_table_lem id [] r = refl
lookup_vendor_table_lem id (v ∷ vs) r = ground (
  arith,
  less_id-ne v.id id,
  less_id_total v.id id,
  name_of-above id v.id vs,
  lookup_vendor_table_lem id vs r.1,
)
