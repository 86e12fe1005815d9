-- ===== src/Edk2.antt =====
-- What the code takes from the EDK2 headers and libraries, which are not part of the repository:
-- the status codes by name, `EFI_GUID`, and a record of the structure layouts, macros and constants
-- (MdePkg's PiFirmwareVolume.h, PiFirmwareFile.h, PeImage.h, PiPeiCis.h and the processor's
-- ProcessorBind.h). No value in the record is made up: every theorem holds for all of them, under
-- the hypotheses that it states.
use edk2_arc.Base.{ℕ, ◌+◌, ◌-◌, ◌≤◌, arith, ◌%◌, ◌^◌, ◌<◌, ◌≡◌, List, length, get_or}
use native.Mathlib.Nat.{mod-eq_of_lt}

-- The values of `EFI_STATUS` that the code names.
pub data Status : Type 0 where
  success load_error invalid_parameter unsupported bad_buffer_size buffer_too_small not_ready :
      Status
  device_error write_protected out_of_resources volume_corrupted volume_full no_media : Status
  media_changed not_found access_denied no_response no_mapping timeout not_started : Status
  already_started aborted icmp_error tftp_error protocol_error incompatible_version : Status
  security_violation crc_error end_of_media end_of_file : Status

-- `EFI_GUID`; `data4` is the array of eight bytes.
pub record Guid : Type 0 where
  pub data1 : ℕ
  pub data2 : ℕ
  pub data3 : ℕ
  pub data4 : List ℕ

-- The ranges of the C fields.
pub record IsGuid (g : Guid) : Type 0 where
  pub data1_fits : g.data1 < 2 ^ 32
  pub data2_fits : g.data2 < 2 ^ 16
  pub data3_fits : g.data3 < 2 ^ 16
  pub eight : length g.data4 ≡ 8
  pub bytes_fit : (i : ℕ) → get_or g.data4 i 0 < 2 ^ 8

-- Memory, a byte at each physical address.
abbrev pub Mem : Type 0
Mem = ℕ → ℕ

pub record Platform : Type 0 where
  pub uintn_bits : ℕ  -- the width of UINTN and of a pointer
  -- EFI_COMMON_SECTION_HEADER
  pub sizeof_section : ℕ
  pub section_size : Mem → ℕ → ℕ  -- SECTION_SIZE
  pub section_type : Mem → ℕ → ℕ
  -- EFI_FFS_FILE_HEADER
  pub sizeof_file : ℕ
  pub file_size : Mem → ℕ → ℕ  -- FFS_FILE_SIZE
  pub file_type : Mem → ℕ → ℕ
  pub file_name : Mem → ℕ → Guid
  pub file_attributes : Mem → ℕ → ℕ
  pub is_file2 : Mem → ℕ → ℕ  -- IS_FFS_FILE2, zero or not
  -- EFI_FIRMWARE_VOLUME_HEADER
  pub fv_length : Mem → ℕ → ℕ
  pub fv_header_length : Mem → ℕ → ℕ
  -- EFI_TE_IMAGE_HEADER
  pub sizeof_te : ℕ
  pub te_stripped_size : Mem → ℕ → ℕ
  pub te_entry_point : Mem → ℕ → ℕ
  -- EFI_IMAGE_DOS_HEADER and EFI_IMAGE_NT_HEADERS32, with the values of their signatures
  pub dos_magic : Mem → ℕ → ℕ
  pub dos_lfanew : Mem → ℕ → ℕ
  pub nt_signature : Mem → ℕ → ℕ
  pub optional_magic : Mem → ℕ → ℕ
  pub size_of_image : Mem → ℕ → ℕ
  pub pe_entry_point : Mem → ℕ → ℕ
  pub image_dos_signature : ℕ
  pub image_nt_signature : ℕ
  pub image_hdr32_magic : ℕ
  -- PEI_APRIORI_FILE_CONTENTS
  pub guid_at : Mem → ℕ → Guid
  -- EFI_SECTION_TYPE and EFI_FV_FILETYPE
  pub section_te : ℕ
  pub section_raw : ℕ
  pub section_pe32 : ℕ
  pub section_freeform_subtype_guid : ℕ
  pub filetype_freeform : ℕ
  pub filetype_pei_core : ℕ
  pub filetype_peim : ℕ
  pub filetype_dxe_core : ℕ
  -- EFI_PEI_PPI_DESCRIPTOR and its flags
  pub sizeof_ppi_descriptor : ℕ
  pub flag_ppi : ℕ
  pub flag_pic : ℕ
  pub flag_terminate_list : ℕ

-- A conversion to UINTN, or to a pointer.
unfoldable pub uintn : Platform → ℕ → ℕ
uintn p x = x % 2 ^ p.uintn_bits

-- An address in reach is not changed by the conversion.
pub uintn_of_lt : (p : Platform) (x : ℕ) → x < 2 ^ p.uintn_bits → uintn p x ≡ x
unfolding uintn
uintn_of_lt p x h = mod-eq_of_lt h

-- Pointer subtraction that does not go below address 0.
pub uintn_sub :
    (p : Platform) (x s : ℕ)
    → s ≤ x
    → x < 2 ^ p.uintn_bits
    → uintn p (x + 2 ^ p.uintn_bits - s) ≡ x - s
unfolding uintn
uintn_sub p x s h k = sub_mod (2 ^ p.uintn_bits) x s h k
  where
    sub_mod : (n x s : ℕ) → s ≤ x → x < n → (x + n - s) % n ≡ x - s
    sub_mod n x s h k =
        let e : x + n - s ≡ x - s + n = omega arith in rw e (grind (arith, mod-eq_of_lt))
