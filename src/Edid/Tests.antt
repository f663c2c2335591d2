-- ===== src/Edid/Tests.antt =====
-- The theorems on the EDID parser at concrete blobs.
use aurora_compositor.Base.{
  ℕ, zero, suc, ◌≡◌, refl, true, false, List, [], ◌∷◌, ◌++◌, none, some, arith, length,
}
use aurora_compositor.Edid.{EdidParser, Chromaticity, read, chromaticities, parse}
use aurora_compositor.Edid.Text.{parse_edid_string, trim_left, trim_right}
use aurora_compositor.Edid.Vendor.{VendorEntry, lookup_vendor_table}
use aurora_compositor.Edid.Vendor.Search.{lookup_vendor_table_lem}
use aurora_compositor.Edid.Identity.{pack_letters, pack_low, chromaticities-pack}
use aurora_compositor.Edid.Total.{verdict, parse-verdict}

abbrev zeros : ℕ → List ℕ
zeros zero = []
zeros (suc n) = 0 ∷ zeros n

abbrev black : Chromaticity
black = record { x = 0; y = 0 }

abbrev blank : EdidParser
blank = record {
  identifier = [];
  manufacturer = [];
  model = [];
  serial_number = [];
  physical_width = 0;
  physical_height = 0;
  gamma = 0;
  red = black;
  green = black;
  blue = black;
  white = black;
  tables = [];
  srgb = false;
  use_tables = false;
}

-- Header, two bytes for the letters, coordinates in 0x19 to 0x22, and 128 bytes in all.
abbrev coordinates : List ℕ
coordinates =
    pack_low 655 338 307 614
    ∷ pack_low 154 61 320 337
    ∷ 163
    ∷ 84
    ∷ 76
    ∷ 153
    ∷ 38
    ∷ 15
    ∷ 80
    ∷ 84
    ∷ []

abbrev monitor : List ℕ
monitor = 0 ∷ 255 ∷ zeros 6 ++ (pack_letters 4 5 12 ++ (zeros 15 ++ (coordinates ++ zeros 93)))

abbrev dell : List VendorEntry
dell = record { id = b'D' ∷ b'E' ∷ b'L' ∷ []; name = b'D' ∷ b'e' ∷ b'l' ∷ b'l' ∷ [] } ∷ []

-- A second block that asks for a transfer table of no entries.
abbrev with_table : List ℕ
with_table = monitor ++ (0x40 ∷ zeros 80 ++ (0x40 ∷ zeros 46))

monitor-length : length monitor ≡ 128
monitor-length = refl

parse-verdict_example : verdict (parse (λ n. n ∷ []) [] dell monitor blank) ≡ some true
parse-verdict_example = parse-verdict (λ n. n ∷ []) [] dell monitor blank (omega arith) refl refl

-- The table of a display information block is written out of range.
with_table_faults : verdict (parse (λ n. n ∷ []) [] dell with_table blank) ≡ none
with_table_faults = parse-verdict (λ n. n ∷ []) [] dell with_table blank (omega arith) refl refl

chromaticities-pack_example :
    chromaticities monitor blank
    ≡ some (record blank {
      red = record { x = 655; y = 338 };
      green = record { x = 307; y = 614 };
      blue = record { x = 154; y = 61 };
      white = record { x = 320; y = 337 };
    })
unfolding read
chromaticities-pack_example =
    chromaticities-pack monitor blank (record { x = 655; y = 338 }) (record { x = 307; y = 614 })
      (record { x = 154; y = 61 }) (record { x = 320; y = 337 }) (omega arith) (omega arith)
      (refl, (refl, (refl, (refl, (refl, (refl, (refl, (refl, (refl, (refl, tt))))))))))

abbrev padded : List ℕ
padded = 32 ∷ b'A' ∷ 9 ∷ b'B' ∷ 32 ∷ 32 ∷ []

padded_parsed : parse_edid_string padded ≡ b'A' ∷ b'-' ∷ b'B' ∷ []
unfolding parse_edid_string trim_left trim_right
padded_parsed = refl

abbrev vendors : List VendorEntry
vendors =
    record { id = b'A' ∷ b'C' ∷ b'R' ∷ []; name = 1 ∷ [] }
    ∷ record { id = b'D' ∷ b'E' ∷ b'L' ∷ []; name = 2 ∷ [] }
    ∷ []

lookup_vendor_table_lem_example : lookup_vendor_table (b'D' ∷ b'E' ∷ b'L' ∷ []) vendors ≡ 2 ∷ []
lookup_vendor_table_lem_example =
    lookup_vendor_table_lem (b'D' ∷ b'E' ∷ b'L' ∷ []) vendors ((refl, tt), (tt, tt))
