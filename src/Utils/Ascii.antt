-- ===== src/Utils/Ascii.antt =====
-- `ByteToAscii`, `Int32ToAscii` and `GuidToAsciiStr`. A character buffer is a function from the
-- index, so a write past the end of the C array is seen as a change at that index.
pub mod Text
pub mod Print
pub mod Read
pub mod Form
pub mod Exact
use edk2_arc.Base.{
  ℕ, zero, suc, ◌+◌, ◌-◌, ◌&&◌, leb, ltb, if◌then◌else◌, get_or, update, bit_and, ◌>>>◌, u8,
}
use edk2_arc.Edk2.{Guid}

abbrev pub Buf : Type 0
Buf = ℕ → ℕ

-- The character for one nibble. `Val >= 0` holds of every UINT8.
unfoldable pub nibble_to_ascii : ℕ → ℕ
nibble_to_ascii v =
    if leb 0 v && leb v 9 then b'0' + v else if leb 10 v && leb v 15 then b'a' + v - 10 else 0

-- `ByteToAscii(byte, &str[at])`. The `else` branches of the source, which store '\0' (the second
-- one at `Str[0]`), are at nibbles above 15: there are none, since both are masked.
unfoldable pub byte_to_ascii : ℕ → Buf → ℕ → Buf
unfolding nibble_to_ascii
byte_to_ascii byte str at =
    let hi = bit_and (byte >>> 4) 0x0f in
    let lo = bit_and byte 0x0f in
    let str1 = update str at (nibble_to_ascii hi) in
    if leb 0 lo && leb lo 9
    then update str1 (at + 1) (b'0' + lo)
    else if leb 10 lo && leb lo 15
    then update str1 (at + 1) (b'a' + lo - 10)
    else update str1 at 0

-- The array `INT32_STR.Data` has `sizeof("0xffffffff")` characters.
abbrev pub int32_str_size : ℕ
int32_str_size = 11

unfoldable pub int32_to_ascii : ℕ → Buf → Buf
int32_to_ascii val str =
    let s0 = update str 0 b'0' in
    let s1 = update s0 1 b'x' in
    let s2 = byte_to_ascii (bit_and (val >>> 24) 0xff) s1 3 in
    let s3 = byte_to_ascii (bit_and (val >>> 16) 0xff) s2 5 in
    let s4 = byte_to_ascii (bit_and (val >>> 8) 0xff) s3 7 in
    let s5 = byte_to_ascii (bit_and val 0xff) s4 9 in update s5 11 0

abbrev pub guid_str_max : ℕ
guid_str_max = 36

-- The `for` of `GuidToAsciiStr`: at most `rounds` rounds from `Data4[idx1]` and `Data[idx2]`.
-- `Idx1` and `Idx2` are UINT8.
unfoldable pub guid_tail : ℕ → Guid → Buf → ℕ → ℕ → Buf
guid_tail zero g str idx1 idx2 = str
guid_tail (suc rounds) g str idx1 idx2 =
    let rest =
      guid_tail rounds g (byte_to_ascii (get_or g.data4 idx1 0) str idx2) (u8 (idx1 + 1))
        (u8 (idx2 + 2)) in
    if ltb idx2 guid_str_max then rest else str

-- Seven rounds are more than the loop makes: `Idx2` goes from 24 to 36 by twos.
unfoldable pub guid_to_ascii_str : Guid → Buf → Buf
guid_to_ascii_str g str =
    let s0 = byte_to_ascii (bit_and (g.data1 >>> 24) 0xff) str 0 in
    let s1 = byte_to_ascii (bit_and (g.data1 >>> 16) 0xff) s0 2 in
    let s2 = byte_to_ascii (bit_and (g.data1 >>> 8) 0xff) s1 4 in
    let s3 = byte_to_ascii (bit_and g.data1 0xff) s2 6 in
    let s4 = update s3 8 b'-' in
    let s5 = byte_to_ascii (bit_and (g.data2 >>> 8) 0xff) s4 9 in
    let s6 = byte_to_ascii (bit_and g.data2 0xff) s5 11 in
    let s7 = update s6 13 b'-' in
    let s8 = byte_to_ascii (bit_and (g.data3 >>> 8) 0xff) s7 14 in
    let s9 = byte_to_ascii (bit_and g.data3 0xff) s8 16 in
    let s10 = update s9 18 b'-' in
    let s11 = byte_to_ascii (bit_and (get_or g.data4 0 0) 0xff) s10 19 in
    let s12 = byte_to_ascii (bit_and (get_or g.data4 1 0) 0xff) s11 21 in
    let s13 = update s12 23 b'-' in let s14 = guid_tail 7 g s13 2 24 in update s14 guid_str_max 0
