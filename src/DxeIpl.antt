-- ===== src/DxeIpl.antt =====
-- Platform/ARC/Library/PeiCore/DxeIpl.c: the last PEIM, which loads the DXE core. The services are
-- called through the table; here the functions that PeiCoreMain puts there are called.
pub mod Load
pub mod Main
pub mod Ends
pub mod Stuck
use edk2_arc.Base.{
  ℕ, ◌+◌, Bool, true, false, not, ◌==◌, if◌then◌else◌, Option, none, some, ◌>>=◌, u64,
}
use edk2_arc.Edk2.{Status, Mem, Platform, uintn}
use edk2_arc.Utils.Info.{StatusInfo}
use edk2_arc.Pei.Context.{PeiCore}
use edk2_arc.Pei.Ppi.{Reply, is_success, pei_install_ppi}
use edk2_arc.Pei.Ffs.{
  Handed, Described, pei_ffs_find_next_volume, pei_ffs_find_next_file, pei_ffs_find_section_data,
  pei_ffs_get_file_info,
}

-- `*ImageAddress`, `*ImageSize` and `*EntryPoint`.
pub record Image : Type 0 where
  pub address : ℕ
  pub size : ℕ
  pub entry_point : ℕ

-- A status, and the image if it was stored.
pub record Loaded : Type 0 where
  pub status : Status
  pub image : Option Image

abbrev pub failed : Status → Loaded
failed s = record { status = s; image = none }

-- A function that may stop the processor for good, in `CpuDeadLoop`.
pub data Run (A : Type 0) : Type 0 where
  returned : A → Run A
  dead_loop : Run A

abbrev pub dxe_fv_instance : ℕ
dxe_fv_instance = 1

-- The local variables that are read before they are set: `File` of PeiFfsGetFileInfo, `Addr` of
-- PeiFfsFindNextFile, the handle `Fv`, and a `StatusInfo`.
pub record Unset : Type 0 where
  pub file : ℕ
  pub addr : ℕ
  pub volume : ℕ
  pub pe32_data : ℕ
  pub info : StatusInfo

-- A local variable after a call that was given its address.
abbrev pub variable : ℕ → Option ℕ → ℕ
variable old none = old
variable old (some new) = new

module _ (p : Platform) (m : Mem) where
  unfoldable pub pei_load_pe32 : ℕ → Loaded
  pei_load_pe32 pe32_data =
      if not (p.dos_magic m pe32_data == p.image_dos_signature)
      then failed Status.load_error
      else let hdr = uintn p (pe32_data + p.dos_lfanew m pe32_data) in
        if not (p.nt_signature m hdr == p.image_nt_signature)
        then failed Status.load_error
        else if not (p.optional_magic m hdr == p.image_hdr32_magic)
        then failed Status.load_error
        else record {
          status = Status.success;
          image = some (record {
            address = pe32_data;
            size = p.size_of_image m hdr;
            entry_point = uintn p (p.pe_entry_point m hdr + pe32_data);
          });
        }

  -- `outputs` says that none of the four output pointers is NULL.
  unfoldable pub pei_load_file : Unset → ℕ → Bool → ℕ → Option Loaded
  pei_load_file unset fuel false file = some (failed Status.invalid_parameter)
  pei_load_file unset fuel true file =
      pei_ffs_find_section_data p m unset.info fuel p.section_pe32 file (some unset.pe32_data)
      >>= λ r.
          if not (is_success r.status)
          then some (failed r.status)
          else some (pei_load_pe32 (uintn p (variable unset.pe32_data r.handle + p.sizeof_section)))

  -- `none`: the fuel ran out. The entry point is computed, and not called.
  unfoldable pub load_and_run_dxe_core : Unset → ℕ → ℕ → Option (Run (Unit {0}))
  load_and_run_dxe_core unset fuel file = pei_load_file unset fuel true file >>= λ r.
      if not (is_success r.status) then some dead_loop else some (returned tt)

  -- From the file of the DXE core on.
  unfoldable pub dxe_ipl_load : Unset → ℕ → ℕ → Option (Run Status)
  dxe_ipl_load unset fuel file =
      let d = pei_ffs_get_file_info p m unset.file file (some tt) in
      if is_success d.status
      then load_and_run_dxe_core unset fuel file
        >>= elim [ returned _ ↦ some (returned Status.load_error) | dead_loop ↦ some dead_loop ]
      else some (returned Status.load_error)

  unfoldable pub dxe_ipl_main : Unset → ℕ → PeiCore → Option (Run Status)
  dxe_ipl_main unset fuel c =
      let v = pei_ffs_find_next_volume c dxe_fv_instance (some unset.volume) in
      if not (is_success v.status)
      then some (returned v.status)
      else pei_ffs_find_next_file p m unset.addr fuel p.filetype_dxe_core
          (variable unset.volume v.handle) (some 0)
        >>= λ f.
            if not (is_success f.status)
            then some (returned f.status)
            else dxe_ipl_load unset fuel (variable 0 f.handle)

  -- `ppi_list` is the address of `mDxeIplPpiList`.
  unfoldable pub dxe_ipl_init : ℕ → ℕ → StatusInfo → ℕ → PeiCore → Option Reply
  dxe_ipl_init fuel boot_fv_base info ppi_list c =
      pei_install_ppi p m fuel boot_fv_base info ppi_list c
