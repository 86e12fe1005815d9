-- ===== src/Sec.antt =====
-- Platform/ARC/Library/Sec/SecMain.c: SEC checks the header of the boot firmware volume, finds the PEI
-- core, and calls it with the hand-off data.
pub mod Header
pub mod HandOff
pub mod Ends
pub mod Entry
use edk2_arc.Base.{
  ℕ, ◌+◌, ◌*◌, Bool, not, ◌==◌, if◌then◌else◌, Option, none, some, ◌>>=◌, u16, ◌>>>◌,
}
use edk2_arc.Edk2.{Guid, Mem, Platform, uintn}
use edk2_arc.Utils.Info.{StatusInfo}
use edk2_arc.Utils.Section.{null}
use edk2_arc.Utils.Volume.{get_te_entry_point}
use edk2_arc.Serial.{Bus, Pcd, serial_port_initialize}

-- What SecMain takes from EDK2 beside the platform: CopyMem (the destination afterwards), CompareGuid,
-- two fields of EFI_FIRMWARE_VOLUME_HEADER, two constants, and two sizes of the compiler.
pub record SecLib : Type 0 where
  pub copy_mem : (ℕ → ℕ) → (ℕ → ℕ) → ℕ → ℕ → ℕ
  pub compare_guid : Guid → Guid → Bool
  pub fv_signature : Mem → ℕ → ℕ
  pub fv_file_system_guid : Mem → ℕ → Guid
  pub fvh_signature : ℕ
  pub file_system2_guid : Guid
  pub sizeof_fv_header : ℕ  -- of the type FV_HEADER of SecMain.c
  pub sizeof_hand_off : ℕ

-- PcdBootFvBase, PcdPeiTemporaryRamBase and PcdPeiTemporaryRamSize.
pub record SecPcd : Type 0 where
  pub boot_fv_base : ℕ
  pub temporary_ram_base : ℕ
  pub temporary_ram_size : ℕ

-- `EFI_SEC_PEI_HAND_OFF`.
pub record HandOffData : Type 0 where
  pub data_size : ℕ
  pub boot_firmware_volume_base : ℕ
  pub boot_firmware_volume_size : ℕ
  pub temporary_ram_base : ℕ
  pub temporary_ram_size : ℕ
  pub pei_temporary_ram_base : ℕ
  pub pei_temporary_ram_size : ℕ
  pub stack_base : ℕ
  pub stack_size : ℕ

-- How SecMain ends: at the label `halt`, or with the call of the PEI core at an address.
pub data SecEnd (S : Type 0) : Type 0 where
  halted : S → SecEnd S
  entered : ℕ → HandOffData → S → SecEnd S

-- `HeaderLength` of FV_HEADER: behind 16 bytes, a GUID, a UINT64 and two UINT32.
unfoldable pub header_length : (ℕ → ℕ) → ℕ
header_length buf = buf 48 + 256 * buf 49

module _ (p : Platform) (lib : SecLib) (pcd : SecPcd) where
  -- `BootFvHdr` and `BootFv`, local variables as functions from the index. The second copy reads on
  -- behind `BootFvHdr`, and writes on behind `BootFv`, where the length says so.
  unfoldable pub boot_fv_hdr : Mem → (ℕ → ℕ) → ℕ → ℕ
  boot_fv_hdr m stack = lib.copy_mem stack (λ i. m (pcd.boot_fv_base + i)) lib.sizeof_fv_header

  unfoldable pub boot_fv : Mem → (ℕ → ℕ) → (ℕ → ℕ) → ℕ → ℕ
  boot_fv m stack stack' =
      lib.copy_mem stack' (boot_fv_hdr m stack) (header_length (boot_fv_hdr m stack))

  unfoldable pub is_valid_boot_fv : (ℕ → ℕ) → Bool
  is_valid_boot_fv fv = lib.compare_guid (lib.fv_file_system_guid fv 0) lib.file_system2_guid

  unfoldable pub sec_data : (ℕ → ℕ) → HandOffData
  sec_data fv =
      let half = pcd.temporary_ram_size >>> 1 in
      record {
        data_size = u16 lib.sizeof_hand_off;
        boot_firmware_volume_base = pcd.boot_fv_base;
        boot_firmware_volume_size = uintn p (p.fv_length fv 0);
        temporary_ram_base = pcd.temporary_ram_base;
        temporary_ram_size = pcd.temporary_ram_size;
        pei_temporary_ram_base = pcd.temporary_ram_base;
        pei_temporary_ram_size = half;
        stack_base = uintn p (pcd.temporary_ram_base + half);
        stack_size = half;
      }

  -- `stack` and `stack'` are what the two locals hold before they are set, and `info` is the local
  -- `StatusInfo`; `none` means that the fuel ran out, in a wait or a search.
  unfoldable pub sec_main :
      {S : Type 0} → Mem → Bus S → Pcd → ℕ → (ℕ → ℕ) → (ℕ → ℕ) → StatusInfo → S → Option (SecEnd S)
  sec_main m bus serial_pcd fuel stack stack' info device =
      let fv = boot_fv m stack stack' in
      serial_port_initialize bus serial_pcd fuel device >>= λ (serial_register_base, device').
      if not (lib.fv_signature fv 0 == lib.fvh_signature)
      then some (halted device')
      else if not (is_valid_boot_fv fv)
      then some (halted device')
      else get_te_entry_point p m fuel pcd.boot_fv_base p.filetype_pei_core none (some info)
        >>= λ pei_ep.
            if pei_ep.ptr == null
            then some (halted device')
            else some (entered pei_ep.ptr (sec_data fv) device')
