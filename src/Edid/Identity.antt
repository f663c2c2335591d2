-- ===== src/Edid/Identity.antt =====
-- The packed numbers of an EDID: the letters of the PNP id and the colour coordinates.
use Prim.Native.Nat.{bit_and, bit_or}
use native.Mathlib.Decide.{ℕ_discrete}
use mathlib.Core.Path.{ap₂}
use aurora_compositor.Base.{
  ℕ, zero, suc, ◌+◌, ◌*◌, ◌/◌, ◌%◌, ◌^◌, ◌≤◌, ◌<◌, ◌≡◌, refl, sym, ◌∙◌, Bool, true, ◌&&◌, List, [],
  ◌∷◌, Option, some, arith, ◌==◌, ==_iff,
}
use aurora_compositor.Edid.{EdidParser, Chromaticity, pnp_id, read, coordinate, chromaticities}

-- The test passes for the numbers from `x` on, `rounds` of them.
sweep : (ℕ → Bool) → ℕ → ℕ → Bool
sweep test zero x = true
sweep test (suc rounds) x = test x && sweep test rounds (x + 1)

sweep-passes :
    (test : ℕ → Bool) (rounds x y : ℕ)
    → sweep test rounds x ≡ true
    → x ≤ y
    → y < x + rounds
    → test y ≡ true
unfolding sweep
sweep-passes test zero x y s p q = absurd (omega arith)
sweep-passes test (suc rounds) x y s p q = elim (ℕ_discrete x y) [
  | yes same ↦ rw (← same) (ground arith)
  | no other ↦ sweep-passes test rounds (x + 1) y (ground arith) (omega arith) (omega arith)
]

mask_table :
    sweep
      (λ x.
        bit_and x 0x7c / 4 == x / 4 % 32
        && (bit_and x 0x3 == x % 4)
        && (bit_and x 0xe0 / 32 == x / 32)
        && (bit_and x 0x1f == x % 32))
      256
      0
    ≡ true
unfolding sweep
mask_table = refl

masks :
    (x : ℕ)
    → x < 256
    → (bit_and x 0x7c / 4 ≡ x / 4 % 32)
      × (bit_and x 0x3 ≡ x % 4)
      × (bit_and x 0xe0 / 32 ≡ x / 32)
      × (bit_and x 0x1f ≡ x % 32)
masks x h = ground (arith, sweep-passes _ 256 0 x mask_table (omega arith) (omega arith))

join_table : sweep (λ n. bit_or (n % 4) (n / 4 * 4) == n) 1024 0 ≡ true
unfolding sweep
join_table = refl

join : (a b : ℕ) → a < 4 → b < 256 → bit_or a (b * 4) ≡ a + b * 4
join a b p q =
    let n = a + b * 4 in
    let low : n % 4 ≡ a = omega arith in
    let high : n / 4 ≡ b = omega arith in
    let e = (==_iff _ n).0 (sweep-passes _ 1024 0 n join_table (omega arith) (omega arith)) in
    ap₂ (λ x y. bit_or x (y * 4)) (sym low) (sym high) ∙ e

low_two : (x : ℕ) → x < 256 → bit_and x 0x03 ≡ x % 4
low_two x h = (masks x h).1

coordinate_lem :
    (low shift high : ℕ)
    → low / 2 ^ shift < 256
    → high < 256
    → coordinate low shift high ≡ low / 2 ^ shift % 4 + high * 4
coordinate_lem low shift high p q =
    rw (low_two (low / 2 ^ shift) p) (join (low / 2 ^ shift % 4) high (omega arith) q)

-- The bytes stand in the blob from `i` on.
abbrev pub Holds : List ℕ → ℕ → List ℕ → Type 0
Holds bytes i [] = Unit {0}
Holds bytes i (x ∷ xs) = (read bytes i ≡ some x) × Holds bytes (i + 1) xs

-- Three letters, numbered from 1, in two bytes.
abbrev pub pack_letters : ℕ → ℕ → ℕ → List ℕ
pack_letters a b c = (a * 4 + b / 8) ∷ (b % 8 * 32 + c) ∷ []

-- A PNP id that is packed in the bytes 8 and 9 of a blob is read back as its three letters.
pub pnp_id-pack_letters :
    (bytes : List ℕ) (a b c : ℕ)
    → a < 32
    → b < 32
    → c < 32
    → Holds bytes 8 (pack_letters a b c)
    → pnp_id bytes ≡ some ((64 + a) ∷ (64 + b) ∷ (64 + c) ∷ [])
unfolding pnp_id
pnp_id-pack_letters bytes a b c p q r h =
    let high = a * 4 + b / 8 in
    let low = b % 8 * 32 + c in
    let (h1, h2, _, _) = masks high (omega arith) in
    let (_, _, l1, l2) = masks low (omega arith) in
    rw (h.0, h.1.0) (letters (omega arith) (omega arith) (omega arith))
  where
    letters :
        {x y z : ℕ}
        → x ≡ 64 + a
        → y ≡ 64 + b
        → z ≡ 64 + c
        → ◌≡◌ {A = Option (List ℕ)}
            (some (x ∷ y ∷ z ∷ []))
            (some ((64 + a) ∷ (64 + b) ∷ (64 + c) ∷ []))
    letters e f g = cc

-- The eight colour coordinates of ten bits each in ten bytes: the low two bits of all of them come
-- first.
abbrev pub pack_low : ℕ → ℕ → ℕ → ℕ → ℕ
pack_low a b c d = a % 4 * 64 + b % 4 * 16 + c % 4 * 4 + d % 4

unpack :
    (a b c d : ℕ)
    → a < 1024
    → b < 1024
    → c < 1024
    → d < 1024
    → (coordinate (pack_low a b c d) 6 (a / 4) ≡ a)
      × (coordinate (pack_low a b c d) 4 (b / 4) ≡ b)
      × (coordinate (pack_low a b c d) 2 (c / 4) ≡ c)
      × (coordinate (pack_low a b c d) 0 (d / 4) ≡ d)
unpack a b c d p q r s = (
  coordinate_lem (pack_low a b c d) 6 (a / 4) (omega arith) (omega arith) ∙ omega arith,
  coordinate_lem (pack_low a b c d) 4 (b / 4) (omega arith) (omega arith) ∙ omega arith,
  coordinate_lem (pack_low a b c d) 2 (c / 4) (omega arith) (omega arith) ∙ omega arith,
  coordinate_lem (pack_low a b c d) 0 (d / 4) (omega arith) (omega arith) ∙ omega arith,
)

-- Colour coordinates of ten bits that are packed in the bytes 0x19 to 0x22 of a blob are read back,
-- each as its own, and nothing else of the parsed data changes.
pub chromaticities-pack :
    (bytes : List ℕ) (p : EdidParser) (r g b w : Chromaticity)
    → (r.x < 1024) × (r.y < 1024) × (g.x < 1024) × (g.y < 1024)
    → (b.x < 1024) × (b.y < 1024) × (w.x < 1024) × (w.y < 1024)
    → Holds bytes 0x19 (
        pack_low r.x r.y g.x g.y
        ∷ pack_low b.x b.y w.x w.y
        ∷ (r.x / 4)
        ∷ (r.y / 4)
        ∷ (g.x / 4)
        ∷ (g.y / 4)
        ∷ (b.x / 4)
        ∷ (b.y / 4)
        ∷ (w.x / 4)
        ∷ (w.y / 4)
        ∷ [])
    → chromaticities bytes p ≡ some (record p { red = r; green = g; blue = b; white = w })
unfolding chromaticities
chromaticities-pack bytes p r g b w k l h =
    let u = unpack r.x r.y g.x g.y k.0 k.1 k.2 k.3 in
    let v = unpack b.x b.y w.x w.y l.0 l.1 l.2 l.3 in
    simp
      (
        h.0, h.1.0, h.1.1.0, h.1.1.1.0, h.1.1.1.1.0, h.1.1.1.1.1.0, h.1.1.1.1.1.1.0,
        h.1.1.1.1.1.1.1.0, h.1.1.1.1.1.1.1.1.0, h.1.1.1.1.1.1.1.1.1.0,
      )
      (simp (u.0, u.1, u.2, u.3, v.0, v.1, v.2, v.3))
