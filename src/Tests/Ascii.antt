-- ===== src/Tests/Ascii.antt =====
-- The printers at concrete inputs.
use edk2_arc.Base.{
  some, get_elem?, length, ◌+◌, ℕ, ◌<◌, ◌≡◌, ◌≢◌, refl, [], ◌∷◌, ◌++◌, get_or, arith,
}
use edk2_arc.Edk2.{Guid, IsGuid, Status}
use edk2_arc.Utils.Ascii.{Buf, int32_str_size, byte_to_ascii, int32_to_ascii, guid_to_ascii_str}
use edk2_arc.Utils.Ascii.Text.{hex8, guid_text, write_list}
use edk2_arc.Utils.Ascii.Print.{int32_to_ascii_lem, guid_to_ascii_str_lem}
use edk2_arc.Utils.Statuses.{
  status_name, documented_names, status_to_ascii_str, position, position-injective,
  status_to_ascii_str_lem,
}

abbrev blank : Buf
blank i = b'?'

-- A GUID with letters and digits in every field.
abbrev sample : Guid
sample = record {
  data1 = 0x1b45cc0a;
  data2 = 0x156a;
  data3 = 0x428a;
  data4 = 0xaf ∷ 0x62 ∷ 0x49 ∷ 0x86 ∷ 0x4d ∷ 0xa0 ∷ 0xe6 ∷ 0xe6 ∷ [];
}

below_eight : (i : ℕ) → get_or sample.data4 i 0 < 256
below_eight i = ground arith

sample-IsGuid : IsGuid sample
sample-IsGuid = record {
  data1_fits = omega arith;
  data2_fits = omega arith;
  data3_fits = omega arith;
  eight = refl;
  bytes_fit = below_eight;
}

int32_to_ascii_lem_example :
    (int32_to_ascii 0xdeadbeef blank
      ≡ write_list (write_list blank 0 (b'0' ∷ b'x' ∷ [])) 3 (hex8 0xdeadbeef ++ 0 ∷ []))
    × (int32_str_size ≡ 3 + length (hex8 0xdeadbeef))
int32_to_ascii_lem_example = int32_to_ascii_lem 0xdeadbeef blank (omega arith)

-- The character at 2 is left alone, and index 11 is behind the array.
int32_misplaced :
    (int32_to_ascii 0xdeadbeef blank 2 ≡ b'?')
    × (int32_to_ascii 0xdeadbeef blank 3 ≡ b'd')
    × (int32_to_ascii 0xdeadbeef blank 11 ≡ 0)
unfolding int32_to_ascii byte_to_ascii
int32_misplaced = (refl, refl, refl)

guid_to_ascii_str_lem_example :
    guid_to_ascii_str sample blank ≡ write_list blank 0 (guid_text sample)
guid_to_ascii_str_lem_example = guid_to_ascii_str_lem sample blank sample-IsGuid

status_to_ascii_str_lem_example :
    ((s : Status)
      → some (status_to_ascii_str position (position s)) ≡ get_elem? documented_names (position s))
    × ((val : ℕ)
        → ((s : Status) → val ≢ position s)
        → status_to_ascii_str position val ≡ "\"UNKNOWN STATUS\"")
status_to_ascii_str_lem_example = status_to_ascii_str_lem position position-injective

timeout_and_unknown :
    (status_to_ascii_str position (position Status.timeout) ≡ "EFI_TIMEOUT")
    × (status_to_ascii_str position 99 ≡ "\"UNKNOWN STATUS\"")
unfolding status_to_ascii_str position status_name
timeout_and_unknown = (refl, refl)
