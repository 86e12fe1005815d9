-- ===== src/Utils/Ascii/Read.antt =====
-- `GuidToAsciiStr` against a reader for the text of a GUID.
use edk2_arc.Base.{
  ℕ, ◌+◌, ◌-◌, ◌*◌, ◌/◌, ◌%◌, ◌<◌, ◌≡◌, refl, true, [], ◌∷◌, get_or, eight_bytes, ltb, ◌==◌,
  if◌then◌else◌, passes_below, passes_below→pass, eq_of_test, arith,
}
use edk2_arc.Edk2.{Guid, IsGuid}
use edk2_arc.Utils.Ascii.{Buf, guid_to_ascii_str}
use edk2_arc.Utils.Ascii.Text.{hex_digit, guid_text, write_list}
use edk2_arc.Utils.Ascii.Print.{guid_to_ascii_str_lem}

unfoldable pub hex_value : ℕ → ℕ
hex_value c = if ltb c b'a' then c - b'0' else c - b'a' + 10

hex_table : passes_below (λ v. hex_value (hex_digit v) == v) 16 ≡ true
unfolding passes_below hex_value hex_digit
hex_table = refl

hex_value-hex_digit : (v : ℕ) → v < 16 → hex_value (hex_digit v) ≡ v
hex_value-hex_digit v h = eq_of_test _ _ (passes_below→pass _ 16 hex_table v h)

hex_pair :
    (b : ℕ) → b < 256 → hex_value (hex_digit (b / 16)) * 16 + hex_value (hex_digit (b % 16)) ≡ b
hex_pair b h =
    omega (
      arith,
      hex_value-hex_digit (b / 16) (omega arith),
      hex_value-hex_digit (b % 16) (omega arith),
    )

-- The byte whose two digits stand at `at`.
abbrev pub read_byte : Buf → ℕ → ℕ
read_byte str at = hex_value (str at) * 16 + hex_value (str (at + 1))

abbrev pub read_word : Buf → ℕ → ℕ
read_word str at = read_byte str at * 256 + read_byte str (at + 2)

unfoldable pub guid_of_ascii : Buf → Guid
guid_of_ascii str = record {
  data1 = read_word str 0 * 65536 + read_word str 4;
  data2 = read_word str 9;
  data3 = read_word str 14;
  data4 =
      read_byte str 19
      ∷ read_byte str 21
      ∷ read_byte str 24
      ∷ read_byte str 26
      ∷ read_byte str 28
      ∷ read_byte str 30
      ∷ read_byte str 32
      ∷ read_byte str 34
      ∷ [];
}

-- Reading the printed GUID gives the GUID back: no two GUIDs have one text.
pub guid_of_ascii-guid_to_ascii_str :
    (g : Guid) (str : Buf) → IsGuid g → guid_of_ascii (guid_to_ascii_str g str) ≡ g
unfolding guid_of_ascii guid_text write_list
guid_of_ascii-guid_to_ascii_str g str h =
    rw
      (
        guid_to_ascii_str_lem g str h,
        hex_pair (g.data1 / 65536 % 65536 / 256 % 256) (omega arith),
        hex_pair (g.data1 / 65536 % 65536 % 256) (omega arith),
        hex_pair (g.data1 % 65536 / 256 % 256) (omega arith),
        hex_pair (g.data1 % 65536 % 256) (omega arith),
        hex_pair (g.data2 / 256 % 256) (omega arith),
        hex_pair (g.data2 % 256) (omega arith),
        hex_pair (g.data3 / 256 % 256) (omega arith),
        hex_pair (g.data3 % 256) (omega arith),
        hex_pair (get_or g.data4 0 0) (h.bytes_fit 0),
        hex_pair (get_or g.data4 1 0) (h.bytes_fit 1),
        hex_pair (get_or g.data4 2 0) (h.bytes_fit 2),
        hex_pair (get_or g.data4 3 0) (h.bytes_fit 3),
        hex_pair (get_or g.data4 4 0) (h.bytes_fit 4),
        hex_pair (get_or g.data4 5 0) (h.bytes_fit 5),
        hex_pair (get_or g.data4 6 0) (h.bytes_fit 6),
        hex_pair (get_or g.data4 7 0) (h.bytes_fit 7),
        eight_bytes g.data4 h.eight,
      )
      (ground arith)
