-- ===== src/Utils/Ascii/Print.antt =====
-- `ByteToAscii`, `Int32ToAscii` and `GuidToAsciiStr` against the text of `Text`.
use edk2_arc.Base.Bits.{bit_and_nibble, bit_and_byte}
use edk2_arc.Base.{
  ℕ, ◌+◌, ◌/◌, ◌%◌, ◌^◌, ◌<◌, ◌≡◌, refl, fun_ext, true, [], ◌∷◌, ◌++◌, get_or, length, update, ◌==◌,
  passes_below, passes_below→pass, eq_of_test, bit_and, arith,
}
use edk2_arc.Edk2.{Guid, IsGuid}
use edk2_arc.Utils.Ascii.{
  Buf, int32_str_size, nibble_to_ascii, byte_to_ascii, int32_to_ascii, guid_tail, guid_to_ascii_str,
}
use edk2_arc.Utils.Ascii.Text.{hex_digit, hex2, hex8, guid_text, write_list}

nibble_table : passes_below (λ v. nibble_to_ascii v == hex_digit v) 16 ≡ true
unfolding passes_below nibble_to_ascii hex_digit
nibble_table = refl

nibble-hex_digit : (v : ℕ) → v < 16 → nibble_to_ascii v ≡ hex_digit v
nibble-hex_digit v h = eq_of_test _ _ (passes_below→pass _ 16 nibble_table v h)

-- Two updates, with the digits of the byte.
byte_to_ascii_lem :
    (b : ℕ) (str : Buf) (at : ℕ)
    → byte_to_ascii b str at
      ≡ update (update str at (hex_digit (b / 16 % 16))) (at + 1) (hex_digit (b % 16))
unfolding byte_to_ascii nibble_to_ascii
byte_to_ascii_lem b str at = fun_ext λ j. ground (
  arith,
  bit_and_nibble (b / 16),
  bit_and_nibble b,
  nibble-hex_digit (b / 16 % 16),
  nibble-hex_digit (b % 16),
)

byte_text :
    (b : ℕ) (str : Buf) (at : ℕ) → b < 256 → byte_to_ascii b str at ≡ write_list str at (hex2 b)
unfolding write_list
byte_text b str at h = let e : b / 16 % 16 ≡ b / 16 = omega arith in rw (byte_to_ascii_lem, e)

-- A byte that is cut out of a larger value.
masked_text :
    (b c : ℕ) (str : Buf) (at : ℕ)
    → b % 256 ≡ c
    → byte_to_ascii (bit_and b 0xff) str at ≡ write_list str at (hex2 c)
masked_text b c str at e = rw (bit_and_byte b, e) (byte_text c str at (omega arith))

-- `Int32ToAscii` stores "0x" at 0, the eight digits from 3 on, and the end of the string at 11,
-- which is the number of characters of the array, so behind its end. The value has 32 bits.
pub int32_to_ascii_lem :
    (val : ℕ) (str : Buf)
    → val < 2 ^ 32
    → (int32_to_ascii val str
        ≡ write_list (write_list str 0 (b'0' ∷ b'x' ∷ [])) 3 (hex8 val ++ 0 ∷ []))
      × (int32_str_size ≡ 3 + length (hex8 val))
unfolding int32_to_ascii write_list
int32_to_ascii_lem val str h = (
  rw (
    masked_text (val / 2 ^ 24) (val / 65536 % 65536 / 256 % 256) _ 3 (omega arith),
    masked_text (val / 2 ^ 16) (val / 65536 % 65536 % 256) _ 5 (omega arith),
    masked_text (val / 2 ^ 8) (val % 65536 / 256 % 256) _ 7 (omega arith),
    masked_text val (val % 65536 % 256) _ 9 (omega arith),
  ),
  refl,
)

-- `GuidToAsciiStr` stores the text of the GUID in the 37 characters, and changes no other.
pub guid_to_ascii_str_lem :
    (g : Guid) (str : Buf) → IsGuid g → guid_to_ascii_str g str ≡ write_list str 0 (guid_text g)
unfolding guid_to_ascii_str guid_tail guid_text write_list
guid_to_ascii_str_lem g str h = rw (
  masked_text (g.data1 / 2 ^ 24) (g.data1 / 65536 % 65536 / 256 % 256) _ 0 (omega arith),
  masked_text (g.data1 / 2 ^ 16) (g.data1 / 65536 % 65536 % 256) _ 2 (omega arith),
  masked_text (g.data1 / 2 ^ 8) (g.data1 % 65536 / 256 % 256) _ 4 (omega arith),
  masked_text g.data1 (g.data1 % 65536 % 256) _ 6 (omega arith),
  masked_text (g.data2 / 2 ^ 8) (g.data2 / 256 % 256) _ 9 (omega arith),
  masked_text g.data2 (g.data2 % 256) _ 11 (omega arith),
  masked_text (g.data3 / 2 ^ 8) (g.data3 / 256 % 256) _ 14 (omega arith),
  masked_text g.data3 (g.data3 % 256) _ 16 (omega arith),
  masked_text (get_or g.data4 0 0) (get_or g.data4 0 0) _ 19 (omega (arith, h.bytes_fit 0)),
  masked_text (get_or g.data4 1 0) (get_or g.data4 1 0) _ 21 (omega (arith, h.bytes_fit 1)),
  byte_text (get_or g.data4 2 0) _ 24 (h.bytes_fit 2),
  byte_text (get_or g.data4 3 0) _ 26 (h.bytes_fit 3),
  byte_text (get_or g.data4 4 0) _ 28 (h.bytes_fit 4),
  byte_text (get_or g.data4 5 0) _ 30 (h.bytes_fit 5),
  byte_text (get_or g.data4 6 0) _ 32 (h.bytes_fit 6),
  byte_text (get_or g.data4 7 0) _ 34 (h.bytes_fit 7),
)
