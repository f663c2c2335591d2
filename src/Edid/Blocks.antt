-- ===== src/Edid/Blocks.antt =====
-- The extension blocks of an EDID: which make the parser fail, and which write outside a list.
use Prim.Native.Nat.{bit_and}
use aurora_compositor.Base.{
  ℕ, zero, suc, ◌+◌, ◌*◌, ◌≤◌, ◌<◌, ◌≡◌, refl, true, false, not, List, [], none, some, arith, ltb,
  ◌==◌, if◌then◌else◌, length, get_or, get_elem?-lt_length,
}
use aurora_compositor.Edid.{EdidParser, read, store, fill, transfer_table, extension, extensions}

-- The byte at `i` of a blob that is long enough.
abbrev pub at : List ℕ → ℕ → ℕ
at bytes i = get_or bytes i 0

pub read-lt_length : (bytes : List ℕ) (i : ℕ) → i < length bytes → read bytes i ≡ some (at bytes i)
unfolding read
read-lt_length bytes i h = get_elem?-lt_length bytes i 0 h

-- What an extension block asks for, by its first byte and the byte at 0x51: a block of display
-- information may hold one transfer table of at most 45 entries, or three of at most 15.
pub data Kind : Type 0 where
  plain too_long tables : Kind

abbrev pub kind_of : ℕ → ℕ → Kind
kind_of id desc =
    if not (id == 0x40)
    then plain
    else if bit_and desc 0xc0 == 0x40
    then (if ltb 45 (bit_and desc 0x3f) then too_long else tables)
    else if bit_and desc 0xc0 == 0x80
    then (if ltb 15 (bit_and desc 0x3f) then too_long else tables)
    else plain

abbrev pub block_kind : List ℕ → ℕ → Kind
block_kind bytes i = kind_of (at bytes (i * 128)) (at bytes (i * 128 + 0x51))

fill-empty : (bytes : List ℕ) (base rounds : ℕ) → fill bytes base (suc rounds) 0 [] ≡ none
unfolding fill store
fill-empty bytes base rounds = ground arith

-- No table is ever filled: its list has no elements to assign to.
transfer_table-none : (bytes : List ℕ) (base len : ℕ) → transfer_table bytes base len ≡ none
unfolding transfer_table fill store
transfer_table-none bytes base zero = refl
transfer_table-none bytes base (suc len) = ground (arith, fill-empty bytes base len)

-- A block inside the blob is skipped if it asks for no table, makes the parser fail if its table is
-- too long, and makes it write outside a list if it asks for a table of an allowed length.
pub extension_lem :
    (bytes : List ℕ) (i : ℕ) (p : EdidParser)
    → (i + 1) * 128 ≤ length bytes
    → extension bytes i p ≡ elim (block_kind bytes i) [
      | plain ↦ some (p, true)
      | too_long ↦ some (p, false)
      | tables ↦ none
    ]
unfolding extension
extension_lem bytes i p h = ground (
  arith,
  read-lt_length bytes (i * 128),
  read-lt_length bytes (i * 128 + 0x51),
  transfer_table-none bytes 0x52 (bit_and (at bytes (i * 128 + 0x51)) 0x3f),
)

-- What the extension blocks from `i` on make of the parse.
abbrev pub blocks_outcome : List ℕ → ℕ → ℕ → Kind
blocks_outcome bytes zero i = plain
blocks_outcome bytes (suc rounds) i = elim (block_kind bytes i) [
  | plain ↦ blocks_outcome bytes rounds (i + 1)
  | too_long ↦ too_long
  | tables ↦ tables
]

pub extensions_lem :
    (bytes : List ℕ) (rounds i : ℕ) (p : EdidParser)
    → (i + rounds) * 128 ≤ length bytes
    → extensions bytes rounds i p ≡ elim (blocks_outcome bytes rounds i) [
      | plain ↦ some (p, true)
      | too_long ↦ some (p, false)
      | tables ↦ none
    ]
unfolding extensions
extensions_lem bytes zero i p h = refl
extensions_lem bytes (suc rounds) i p h =
    ground (arith, extension_lem bytes i p, extensions_lem bytes rounds (i + 1) p)
