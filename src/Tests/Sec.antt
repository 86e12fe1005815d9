-- ===== src/Tests/Sec.antt =====
-- SEC on the toy boot volume.
use edk2_arc.Base.{
  ℕ, ◌+◌, ◌≤◌, ◌≡◌, ap, ◌↔◌, refl, none, some, ltb, if◌then◌else◌, Bool, true, false, ℕ_discrete,
  arith,
}
use edk2_arc.Edk2.{Status, Guid, uintn}
use edk2_arc.Utils.Info.{StatusInfo, align_addr}
use edk2_arc.Utils.Section.{section_loop, find_section}
use edk2_arc.Utils.Volume.{
  volume_end, first_file, file_loop, get_file_section, get_te_entry_point, te_entry, file_name_ok,
}
use edk2_arc.Sec.{SecLib, SecPcd, boot_fv}
use edk2_arc.Sec.Header.{IsSecLib, flash_header_length, boot_fv_kept_iff}
use edk2_arc.Tests.Toy.{boot_platform, boot_flash, toy_guid}

pub Guid-discrete : Discrete Guid
Guid-discrete = hlevel ℕ_discrete

abbrev pub same_guid : Guid → Guid → Bool
same_guid a b = elim (Guid-discrete a b) [ yes _ ↦ true | no _ ↦ false ]

same_guid_iff : (a b : Guid) → (same_guid a b ≡ true) ↔ (a ≡ b)
same_guid_iff a b = ground arith

abbrev pub lib : SecLib
lib = record {
  copy_mem = λ dst src n i. if ltb i n then src i else dst i;
  compare_guid = same_guid;
  fv_signature = λ m a. m (a + 40);
  fv_file_system_guid = λ m a. toy_guid (m (a + 16));
  fvh_signature = 0x48;
  file_system2_guid = toy_guid 7;
  sizeof_fv_header = 56;
  sizeof_hand_off = 36;
}

abbrev pub sec_pcd : SecPcd
sec_pcd = record { boot_fv_base = 256; temporary_ram_base = 0x1000; temporary_ram_size = 0x801 }

pub lib-IsSecLib : IsSecLib boot_platform lib
lib-IsSecLib = record {
  copies = λ dst src n i. refl;
  compares = same_guid_iff;
  whole = omega arith;
  fields = λ b m base same. (
    same 40 (omega arith),
    ap toy_guid (same 16 (omega arith)),
    (let here : base + 0 ≡ base = omega arith in rw here at (same 0 (omega arith))),
  );
}

abbrev pub info : StatusInfo
info = record { status = Status.success; line = 0 }

-- The PEI core's TE image is entered at 336.
pub pei_core_found :
    get_te_entry_point boot_platform boot_flash 20 256 4 none (some info)
    ≡ some (record { ptr = 336; info = some (record { status = Status.success; line = 183 }) })
unfolding get_te_entry_point te_entry get_file_section file_loop volume_end first_file align_addr
    section_loop find_section uintn file_name_ok
pei_core_found = refl

-- The header has 56 bytes: a local variable of 52 bytes would be overrun.
boot_fv_kept_iff_example :
    ((stack' : ℕ → ℕ) (i : ℕ)
      → 52 ≤ i
      → boot_fv boot_platform lib sec_pcd boot_flash (λ i. 1) stack' i ≡ stack' i)
    ↔ (flash_header_length sec_pcd boot_flash ≤ 52)
boot_fv_kept_iff_example =
    boot_fv_kept_iff boot_platform lib sec_pcd lib-IsSecLib boot_flash (λ i. 1) 52
