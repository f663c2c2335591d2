-- ===== src/Edid.antt =====
-- The EDID parser (EdidParser::parse): platformsupport/edid/auroraedidparser.cpp under src/, in the
-- version for Qt 6. A blob is a list of bytes and a text a list of character codes. The result is
-- `none` where the code reads or writes outside an array, which C++ leaves undefined.
pub mod Text
pub mod Vendor
pub mod Blocks
pub mod Total
pub mod Identity
mod Tests
use Prim.Native.Nat.{bit_and, bit_or}
use aurora_compositor.Base.{
  ℕ, zero, suc, ◌+◌, ◌-◌, ◌*◌, ◌/◌, ◌%◌, ◌^◌, Bool, true, false, not, ◌&&◌, ◌||◌, List, [], ◌∷◌,
  ◌++◌, Option, none, some, ltb, leb, ◌==◌, if◌then◌else◌, length, get_elem?, take, drop,
}
use Text.{parse_edid_string}
use Vendor.{VendorEntry, lookup_vendor_id, lookup_vendor_table}

-- A point of the colour diagram, in units of 1/1024.
pub record Chromaticity : Type 0 where
  pub x : ℕ
  pub y : ℕ

-- `physical_width` and `physical_height` are in millimetres; `gamma` is in hundredths.
pub record EdidParser : Type 0 where
  pub identifier : List ℕ
  pub manufacturer : List ℕ
  pub model : List ℕ
  pub serial_number : List ℕ
  pub physical_width : ℕ
  pub physical_height : ℕ
  pub gamma : ℕ
  pub red : Chromaticity
  pub green : Chromaticity
  pub blue : Chromaticity
  pub white : Chromaticity
  pub tables : List (List ℕ)
  pub srgb : Bool
  pub use_tables : Bool

-- An access outside an array ends the run.
infixl 5 ◌>>=◌
abbrev pub ◌>>=◌ {κ ℓ} : {X : Type κ} {Y : Type ℓ} → Option X → (X → Option Y) → Option Y
some x >>= next = next x
none >>= next = none

-- `data[i]`.
unfoldable pub read : List ℕ → ℕ → Option ℕ
read bytes i = get_elem? bytes i

-- The three letters, packed in 5 bits each.
unfoldable pub pnp_id : List ℕ → Option (List ℕ)
pnp_id bytes = do
  high ← read bytes 0x08
  low ← read bytes 0x09
  some (
      (b'A' + bit_and high 0x7c / 4 - 1)
      ∷ (b'A' + bit_and high 0x3 * 8 + bit_and low 0xe0 / 32 - 1)
      ∷ (b'A' + bit_and low 0x1f - 1)
      ∷ [])

unfoldable pub serial_bytes : List ℕ → Option ℕ
serial_bytes bytes = do
  a ← read bytes 0x0c
  b ← read bytes 0x0d
  c ← read bytes 0x0e
  d ← read bytes 0x0f
  some ((a + b * 2 ^ 8 + c * 2 ^ 16 + d * 2 ^ 24) % 2 ^ 32)

-- The thirteen bytes of a descriptor's text, from `i` on.
unfoldable pub text_bytes : List ℕ → ℕ → Option (List ℕ)
text_bytes bytes i = if leb (i + 13) (length bytes) then some (take 13 (drop i bytes)) else none

abbrev store_text : ℕ → List ℕ → EdidParser → EdidParser
store_text tag text p =
    if tag == 0xfc
    then record p { model = text }
    else if tag == 0xfe
    then record p { identifier = text }
    else if tag == 0xff
    then record p { serial_number = text }
    else p

abbrev pub has_text : ℕ → Bool
has_text tag = tag == 0xfc || tag == 0xfe || tag == 0xff

-- One of the four data blocks: an 18 byte descriptor.
unfoldable pub descriptor : List ℕ → ℕ → EdidParser → Option EdidParser
descriptor bytes offset p = do
  a ← read bytes offset
  b ← read bytes (offset + 1)
  c ← read bytes (offset + 2)
  tag ← read bytes (offset + 3)
  if not (a == 0 && b == 0 && c == 0)
      then some p
      else if not (has_text tag)
      then some p
      else (text_bytes bytes (offset + 5) >>= λ raw.
          some (store_text tag (parse_edid_string raw) p))

-- The loop over the data blocks, with the rounds left.
unfoldable pub descriptors : List ℕ → ℕ → ℕ → EdidParser → Option EdidParser
descriptors bytes zero i p = some p
descriptors bytes (suc rounds) i p =
    descriptor bytes (0x36 + i * 18) p >>= λ q. descriptors bytes rounds (i + 1) q

unfoldable pub features : List ℕ → EdidParser → Option EdidParser
features bytes p = do
  width ← read bytes 0x15
  height ← read bytes 0x16
  igamma ← read bytes 0x17
  support ← read bytes 0x18
  some (record p {
    physical_width = width * 10;
    physical_height = height * 10;
    gamma = if igamma == 0xff then 0 else 100 + igamma;
    use_tables = igamma == 0xff;
    srgb = not (bit_and support 0x04 == 0);
  })

-- Two bits of `low`, `shift` up, under the eight of `high`.
abbrev pub coordinate : ℕ → ℕ → ℕ → ℕ
coordinate low shift high = bit_or (bit_and (low / 2 ^ shift) 0x03) (high * 4)

unfoldable pub chromaticities : List ℕ → EdidParser → Option EdidParser
chromaticities bytes p = do
  rg ← read bytes 0x19
  bw ← read bytes 0x1a
  rx ← read bytes 0x1b
  ry ← read bytes 0x1c
  gx ← read bytes 0x1d
  gy ← read bytes 0x1e
  bx ← read bytes 0x1f
  by ← read bytes 0x20
  wx ← read bytes 0x21
  wy ← read bytes 0x22
  some (record p {
    red = record { x = coordinate rg 6 rx; y = coordinate rg 4 ry };
    green = record { x = coordinate rg 2 gx; y = coordinate rg 0 gy };
    blue = record { x = coordinate bw 6 bx; y = coordinate bw 4 by };
    white = record { x = coordinate bw 2 wx; y = coordinate bw 0 wy };
  })

-- `table[i] = v` of a QList, which must have an element there: `reserve` adds none.
unfoldable pub store : List ℕ → ℕ → ℕ → Option (List ℕ)
store [] i v = none
store (x ∷ xs) zero v = some (v ∷ xs)
store (x ∷ xs) (suc i) v = store xs i v >>= λ ys. some (x ∷ ys)

-- The loop that fills a table from the bytes at `base`, with the rounds left.
unfoldable pub fill : List ℕ → ℕ → ℕ → ℕ → List ℕ → Option (List ℕ)
fill bytes base zero j table = some table
fill bytes base (suc rounds) j table = read bytes (base + j) >>= λ v.
    store table j (v * 0x101) >>= λ t. fill bytes base rounds (j + 1) t

unfoldable pub transfer_table : List ℕ → ℕ → ℕ → Option (List ℕ)
transfer_table bytes base len = fill bytes base len 0 [] >>= λ t. store t len 0xffff

-- One extension block; `false` where the parser gives up.
unfoldable pub extension : List ℕ → ℕ → EdidParser → Option (EdidParser × Bool)
extension bytes i p = read bytes (i * 128) >>= λ id.
    if not (id == 0x40)
    then some (p, true)
    else read bytes (i * 128 + 0x51) >>= λ desc.
        let len = bit_and desc 0x3f in
        let kind = bit_and desc 0xc0 in
        if kind == 0x40
        then (if ltb 45 len then some (p, false) else (do
          white ← transfer_table bytes 0x52 len
          some (record p { tables = p.tables ++ white ∷ [] }, true)))
        else if kind == 0x80
        then (if ltb 15 len then some (p, false) else (do
          blue ← transfer_table bytes 0x52 len
          green ← transfer_table bytes 0x61 len
          red ← transfer_table bytes 0x70 len
          some (record p { tables = p.tables ++ red ∷ green ∷ blue ∷ [] }, true)))
        else some (p, true)

-- The loop over the extension blocks, with the rounds left.
unfoldable pub extensions : List ℕ → ℕ → ℕ → EdidParser → Option (EdidParser × Bool)
extensions bytes zero i p = some (p, true)
extensions bytes (suc rounds) i p = extension bytes i p >>= λ r. elim r.1 [
  | true ↦ extensions bytes rounds (i + 1) r.0
  | false ↦ some (r.0, false)
]

abbrev pub or_else : List ℕ → List ℕ → List ℕ
or_else [] text = text
or_else (c ∷ cs) text = c ∷ cs

-- `to_decimal` is `QString::number`; `database` holds the lines of pnp.ids as `readLine` returns
-- them, none if the file cannot be opened, and `table` is the vendor table.
module _ (to_decimal : ℕ → List ℕ) (database : List (List ℕ)) (table : List VendorEntry) where
  abbrev pub vendor : List ℕ → List ℕ
  vendor id = or_else (or_else (lookup_vendor_id id database) (lookup_vendor_table id table)) id

  -- Whether the blob has the size and the first two bytes of an EDID.
  unfoldable pub has_header : List ℕ → Option Bool
  has_header bytes =
      if ltb (length bytes) 128
      then some false
      else read bytes 0 >>= λ a. read bytes 1 >>= λ b. some (a == 0x00 && b == 0xff)

  -- What follows the header.
  unfoldable pub parse_body : List ℕ → EdidParser → Option (EdidParser × Bool)
  parse_body bytes p = do
    id ← pnp_id bytes
    serial ← serial_bytes bytes
    q ← descriptors bytes 4 0 (record p {
      manufacturer = [];
      serial_number = if ltb 0 serial then to_decimal serial else [];
    })
    r ← features bytes (record q { manufacturer = vendor id })
    s ← chromaticities bytes r
    extensions bytes (length bytes / 128 - 1) 1 s

  unfoldable pub parse : List ℕ → EdidParser → Option (EdidParser × Bool)
  parse bytes p = has_header bytes >>= λ good. if good then parse_body bytes p else some (p, false)
