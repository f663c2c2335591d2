-- ===== src/Edid/Total.antt =====
-- When the parser gives a result, and which.
use aurora_compositor.Base.{
  ℕ, zero, suc, ◌+◌, ◌-◌, ◌*◌, ◌/◌, ◌≤◌, ◌<◌, ◌≡◌, refl, Bool, true, false, not, ◌&&◌, ◌||◌, List,
  Option, none, some, arith, ltb, ◌==◌, if◌then◌else◌, length, take, drop,
}
use aurora_compositor.Edid.{
  EdidParser, read, pnp_id, serial_bytes, text_bytes, descriptor, descriptors, features,
  chromaticities, extensions, has_header, parse_body, parse, ◌>>=◌,
}
use aurora_compositor.Edid.Vendor.{VendorEntry}
use aurora_compositor.Edid.Blocks.{
  at, read-lt_length, Kind, plain, too_long, tables, blocks_outcome, extensions_lem,
}

-- A computation that gives a result.
abbrev pub Returns {ℓ} : {A : Type ℓ} → Option A → Type ℓ
Returns {A = A} m = (a : A) × (m ≡ some a)

>>=-Returns {ℓ κ} :
    {A : Type ℓ} {B : Type κ} (m : Option A) (f : A → Option B)
    → Returns m
    → ((a : A) → Returns (f a))
    → Returns (m >>= f)
>>=-Returns m f (a, e) k = rw e (k a)

if-Returns {ℓ} :
    {A : Type ℓ} (b : Bool) (m n : Option A) → Returns m → Returns n → Returns (if b then m else n)
if-Returns true m n x y = x
if-Returns false m n x y = y

module _ (bytes : List ℕ) (h : 128 ≤ length bytes) where
  byte : (i : ℕ) → i < 128 → Returns (read bytes i)
  byte i lt = (at bytes i, read-lt_length bytes i (omega arith))

  pnp_id-Returns : Returns (pnp_id bytes)
  unfolding pnp_id
  pnp_id-Returns =
      >>=-Returns _ _ (byte 0x08 (omega arith))
        λ a. >>=-Returns _ _ (byte 0x09 (omega arith)) λ b. (_, refl)

  serial_bytes-Returns : Returns (serial_bytes bytes)
  unfolding serial_bytes
  serial_bytes-Returns = >>=-Returns _ _ (byte 0x0c (omega arith)) λ a.
      >>=-Returns _ _ (byte 0x0d (omega arith)) λ b.
        >>=-Returns _ _ (byte 0x0e (omega arith))
          λ c. >>=-Returns _ _ (byte 0x0f (omega arith)) λ d. (_, refl)

  text_bytes-Returns : (i : ℕ) → i + 13 ≤ 128 → Returns (text_bytes bytes i)
  unfolding text_bytes
  text_bytes-Returns i lt = (take 13 (drop i bytes), ground arith)

  descriptor-Returns : (i : ℕ) (p : EdidParser) → i + 18 ≤ 128 → Returns (descriptor bytes i p)
  unfolding descriptor
  descriptor-Returns i p lt = >>=-Returns _ _ (byte i (omega arith)) λ a.
      >>=-Returns _ _ (byte (i + 1) (omega arith)) λ b.
        >>=-Returns _ _ (byte (i + 2) (omega arith)) λ c.
          >>=-Returns _ _ (byte (i + 3) (omega arith)) λ tag.
            if-Returns _ _ _ (p, refl)
              (if-Returns _ _ _ (p, refl)
                (>>=-Returns _ _ (text_bytes-Returns (i + 5) (omega arith)) λ raw. (_, refl)))

  descriptors-Returns :
      (rounds i : ℕ) (p : EdidParser) → i + rounds ≤ 4 → Returns (descriptors bytes rounds i p)
  unfolding descriptors
  descriptors-Returns zero i p lt = (p, refl)
  descriptors-Returns (suc rounds) i p lt =
      >>=-Returns _ _ (descriptor-Returns (0x36 + i * 18) p (omega arith))
        λ q. descriptors-Returns rounds (i + 1) q (omega arith)

  features-Returns : (p : EdidParser) → Returns (features bytes p)
  unfolding features
  features-Returns p = >>=-Returns _ _ (byte 0x15 (omega arith)) λ a.
      >>=-Returns _ _ (byte 0x16 (omega arith)) λ b.
        >>=-Returns _ _ (byte 0x17 (omega arith))
          λ c. >>=-Returns _ _ (byte 0x18 (omega arith)) λ d. (_, refl)

  chromaticities-Returns : (p : EdidParser) → Returns (chromaticities bytes p)
  unfolding chromaticities
  chromaticities-Returns p = >>=-Returns _ _ (byte 0x19 (omega arith)) λ a.
      >>=-Returns _ _ (byte 0x1a (omega arith)) λ b. >>=-Returns _ _ (byte 0x1b (omega arith)) λ c.
        >>=-Returns _ _ (byte 0x1c (omega arith)) λ d.
          >>=-Returns _ _ (byte 0x1d (omega arith)) λ e.
            >>=-Returns _ _ (byte 0x1e (omega arith)) λ f.
              >>=-Returns _ _ (byte 0x1f (omega arith)) λ g.
                >>=-Returns _ _ (byte 0x20 (omega arith)) λ j.
                  >>=-Returns _ _ (byte 0x21 (omega arith))
                    λ k. >>=-Returns _ _ (byte 0x22 (omega arith)) λ l. (_, refl)

-- The verdict of a parse, if it comes to one.
abbrev pub verdict : Option (EdidParser × Bool) → Option Bool
verdict none = none
verdict (some (p, b)) = some b

-- What the extension blocks of a blob ask for.
abbrev pub asked : List ℕ → Kind
asked bytes = blocks_outcome bytes (length bytes / 128 - 1) 1

bind-verdict :
    {A : Type 0} (m : Option A) (f : A → Option (EdidParser × Bool)) (v : Option Bool)
    → Returns m
    → ((a : A) → verdict (f a) ≡ v)
    → verdict (m >>= f) ≡ v
bind-verdict m f v (a, e) k = rw e (k a)

module _ (to_decimal : ℕ → List ℕ) (database : List (List ℕ)) (table : List VendorEntry) where
  extensions-verdict :
      (bytes : List ℕ) (p : EdidParser)
      → 128 ≤ length bytes
      → verdict (extensions bytes (length bytes / 128 - 1) 1 p)
        ≡ elim (asked bytes) [ plain ↦ some true | too_long ↦ some false | tables ↦ none ]
  extensions-verdict bytes p h = ground (arith, extensions_lem bytes (length bytes / 128 - 1) 1 p)

  parse_body-verdict :
      (bytes : List ℕ) (p : EdidParser)
      → 128 ≤ length bytes
      → verdict (parse_body to_decimal database table bytes p)
        ≡ elim (asked bytes) [ plain ↦ some true | too_long ↦ some false | tables ↦ none ]
  unfolding parse_body
  parse_body-verdict bytes p h = bind-verdict _ _ _ (pnp_id-Returns bytes h) λ id.
      bind-verdict _ _ _ (serial_bytes-Returns bytes h) λ serial.
        bind-verdict _ _ _ (descriptors-Returns bytes h 4 0 _ (omega arith)) λ q.
          bind-verdict _ _ _ (features-Returns bytes h _) λ r.
            bind-verdict _ _ _ (chromaticities-Returns bytes h r) λ s. extensions-verdict bytes s h

  -- A blob that is shorter than 128 bytes or does not begin with the bytes 0 and 255 is refused, and
  -- the parsed data stay as they were.
  pub parse-refuses :
      (bytes : List ℕ) (p : EdidParser)
      → (ltb (length bytes) 128 || not (at bytes 0 == 0x00 && at bytes 1 == 0xff)) ≡ true
      → parse to_decimal database table bytes p ≡ some (p, false)
  unfolding parse has_header
  parse-refuses bytes p e = ground (arith, read-lt_length bytes 0, read-lt_length bytes 1)

  -- A blob with the header of an EDID is parsed with no access outside an array unless an extension
  -- block asks for a transfer table: the verdict is `true` if no block asks for one, `false` if the
  -- first that does asks for a table that is too long, and in the other case a table without
  -- elements is written to.
  pub parse-verdict :
      (bytes : List ℕ) (p : EdidParser)
      → 128 ≤ length bytes
      → at bytes 0 ≡ 0x00
      → at bytes 1 ≡ 0xff
      → verdict (parse to_decimal database table bytes p)
        ≡ elim (asked bytes) [ plain ↦ some true | too_long ↦ some false | tables ↦ none ]
  unfolding parse has_header
  parse-verdict bytes p h a b =
      ground (arith, read-lt_length bytes 0, read-lt_length bytes 1, parse_body-verdict bytes p h)
