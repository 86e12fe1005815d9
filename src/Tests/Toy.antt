-- ===== src/Tests/Toy.antt =====
-- A small platform, with one-byte fields, and a volume in its memory.
use edk2_arc.Utils.Volume.Apriori.{apriori_guid}
use edk2_arc.Base.{ltb, ◌==◌, if◌then◌else◌, ℕ, ◌+◌, ◌-◌, List, [], ◌∷◌, get_or}
use edk2_arc.Edk2.{Guid, Mem, Platform}

abbrev pub toy_guid : ℕ → Guid
toy_guid n = record { data1 = n; data2 = 0; data3 = 0; data4 = 0 ∷ 0 ∷ 0 ∷ 0 ∷ 0 ∷ 0 ∷ 0 ∷ 0 ∷ [] }

abbrev pub toy : Platform
toy = record {
  uintn_bits = 32;
  sizeof_section = 4;
  section_size = λ m a. m a;
  section_type = λ m a. m (a + 1);
  sizeof_file = 4;
  file_size = λ m a. m a;
  file_type = λ m a. m (a + 1);
  file_name = λ m a. toy_guid (m (a + 2));
  file_attributes = λ m a. m (a + 3);
  is_file2 = λ m a. 0;
  fv_length = λ m a. m a;
  fv_header_length = λ m a. m (a + 1);
  sizeof_te = 4;
  te_stripped_size = λ m a. m a;
  te_entry_point = λ m a. m (a + 1);
  dos_magic = λ m a. m a;
  dos_lfanew = λ m a. m (a + 1);
  nt_signature = λ m a. m a;
  optional_magic = λ m a. m (a + 1);
  size_of_image = λ m a. m (a + 2);
  pe_entry_point = λ m a. m (a + 3);
  image_dos_signature = 32;
  image_nt_signature = 0x50;
  image_hdr32_magic = 0x0b;
  guid_at = λ m a. toy_guid (m a);
  section_te = 0x12;
  section_raw = 0x19;
  section_pe32 = 0x10;
  section_freeform_subtype_guid = 0x18;
  filetype_freeform = 2;
  filetype_pei_core = 4;
  filetype_peim = 7;
  filetype_dxe_core = 6;
  sizeof_ppi_descriptor = 12;
  flag_ppi = 0x10;
  flag_pic = 1;
  flag_terminate_list = 0x8000_0000;
}

-- A volume of 64 bytes at 64: a file of type 4 at 72, with a section of 8 bytes, and a file of type
-- 6 at 88, with sections of 4 and
-- 32 bytes. A PE32 image stands at 96.
abbrev volume_bytes : List ℕ
volume_bytes =
    64 ∷ 8 ∷ 0 ∷ 0 ∷ 0 ∷ 0 ∷ 0 ∷ 0 ∷ 12 ∷ 4 ∷ 1 ∷ 0 ∷ 8 ∷ 0x19 ∷ 0 ∷ 0 ∷ 0 ∷ 0 ∷ 0 ∷ 0 ∷ 0 ∷ 0 ∷ 0
    ∷ 0 ∷ 40 ∷ 6 ∷ 2 ∷ 0 ∷ 4 ∷ 0x10 ∷ 0 ∷ 0 ∷ 32 ∷ 0x12 ∷ 0 ∷ 0 ∷ 16 ∷ 7 ∷ 0 ∷ 0 ∷ 0 ∷ 0 ∷ 0 ∷ 0 ∷ 0
    ∷ 0 ∷ 0 ∷ 0 ∷ 0 ∷ 0 ∷ 0x50 ∷ 0x0b ∷ 24 ∷ 5 ∷ []

abbrev pub flash : Mem
flash a = get_or volume_bytes (a - 64) 0

abbrev pub flash_base : ℕ
flash_base = 64

-- The same, but with a header of size 0 in place of the second file.
abbrev pub erased : Mem
erased a =
    get_or
      (64 ∷ 8 ∷ 0 ∷ 0 ∷ 0 ∷ 0 ∷ 0 ∷ 0 ∷ 12 ∷ 4 ∷ 1 ∷ 0 ∷ 8 ∷ 0x19 ∷ 0 ∷ 0 ∷ 0 ∷ 0 ∷ 0 ∷ 0 ∷ 0 ∷ 0
        ∷ 0 ∷ 0 ∷ 0 ∷ [])
      (a - 64) 0

-- The platform with the name of the apriori file for the number 9.
abbrev pub boot_platform : Platform
boot_platform = record toy {
  file_name = λ m a. if m (a + 2) == 9 then apriori_guid else toy_guid (m (a + 2));
}

-- A boot volume of 152 bytes at 256, with a header of 56 bytes: the PEI core at 312, with a section
-- for the fixup and a TE image, the apriori file at 352, which names the GUID 3, and the PEIM with that
-- name at 368, made up like the PEI core. The volume of `flash` stands below it.
abbrev boot_bytes : List ℕ
boot_bytes =
    152 ∷ 56 ∷ 0 ∷ 0 ∷ 0 ∷ 0 ∷ 0 ∷ 0 ∷ 0 ∷ 0 ∷ 0 ∷ 0 ∷ 0 ∷ 0 ∷ 0 ∷ 0 ∷ 7 ∷ 0 ∷ 0 ∷ 0 ∷ 0 ∷ 0 ∷ 0 ∷ 0
    ∷ 0 ∷ 0 ∷ 0 ∷ 0 ∷ 0 ∷ 0 ∷ 0 ∷ 0 ∷ 0 ∷ 0 ∷ 0 ∷ 0 ∷ 0 ∷ 0 ∷ 0 ∷ 0 ∷ 72 ∷ 0 ∷ 0 ∷ 0 ∷ 0 ∷ 0 ∷ 0 ∷ 0
    ∷ 56 ∷ 0 ∷ 0 ∷ 0 ∷ 0 ∷ 0 ∷ 0 ∷ 0 ∷ 40 ∷ 4 ∷ 1 ∷ 0 ∷ 8 ∷ 24 ∷ 0 ∷ 0 ∷ 0 ∷ 0 ∷ 0 ∷ 0 ∷ 28 ∷ 18 ∷ 0
    ∷ 0 ∷ 8 ∷ 12 ∷ 0 ∷ 0 ∷ 0 ∷ 0 ∷ 0 ∷ 0 ∷ 0 ∷ 0 ∷ 0 ∷ 0 ∷ 0 ∷ 0 ∷ 0 ∷ 0 ∷ 0 ∷ 0 ∷ 0 ∷ 0 ∷ 0 ∷ 0 ∷ 0
    ∷ 0 ∷ 16 ∷ 2 ∷ 9 ∷ 0 ∷ 12 ∷ 25 ∷ 0 ∷ 0 ∷ 3 ∷ 0 ∷ 0 ∷ 0 ∷ 0 ∷ 0 ∷ 0 ∷ 0 ∷ 40 ∷ 7 ∷ 3 ∷ 0 ∷ 8 ∷ 24
    ∷ 0 ∷ 0 ∷ 0 ∷ 0 ∷ 0 ∷ 0 ∷ 28 ∷ 18 ∷ 0 ∷ 0 ∷ 8 ∷ 12 ∷ 0 ∷ []

abbrev pub boot_flash : Mem
boot_flash a = if ltb a 256 then flash a else get_or boot_bytes (a - 256) 0
