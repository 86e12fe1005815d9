-- ===== src/Pei/Ffs.antt =====
-- `PeiFfsFindNextVolume`, `PeiFfsFindNextFile`, `PeiFfsFindSectionData` and `PeiFfsGetFileInfo` of
-- PeiServices.c. A local variable that the code reads before it is set is an argument: any value.
pub mod Next
pub mod Data
pub mod Ends
pub mod Stuck
use edk2_arc.Base.{
  ℕ, zero, suc, ◌+◌, ◌-◌, ◌^◌, ltb, ◌==◌, not, ◌||◌, if◌then◌else◌, Option, none, some, u32, u64,
  ◌>>=◌,
}
use edk2_arc.Edk2.{Status, Guid, Mem, Platform, uintn}
use edk2_arc.Utils.Info.{StatusInfo, align_addr}
use edk2_arc.Utils.Section.{Found, find_section}
use edk2_arc.Utils.Volume.{volume_end, first_file}
use edk2_arc.Pei.Context.{PeiCore, max_core_fv}
use edk2_arc.Pei.Ppi.{status_of}

-- A status, and the handle or pointer that was stored: `*VolumeHandle`, `*FileHandle` or
-- `*SectionData` afterwards, `none` where the caller passed NULL.
pub record Handed : Type 0 where
  pub status : Status
  pub handle : Option ℕ

abbrev pub handed : Status → Option ℕ → Handed
handed s h = record { status = s; handle = h }

-- `volume_handle` is what `VolumeHandle` points at, `none` for NULL.
unfoldable pub pei_ffs_find_next_volume : PeiCore → ℕ → Option ℕ → Handed
pei_ffs_find_next_volume c instance_ none = handed Status.invalid_parameter none
pei_ffs_find_next_volume c instance_ (some old) =
    if ltb instance_ max_core_fv
    then handed Status.success (some (c.fv_handle instance_))
    else handed Status.not_found (some old)

-- `EFI_FV_FILE_INFO`.
pub record FileInfo : Type 0 where
  pub file_name : Guid
  pub file_type : ℕ
  pub file_attributes : ℕ
  pub buffer : ℕ
  pub buffer_size : ℕ

-- The status, and `*FileInfo` if it was stored.
pub record Described : Type 0 where
  pub status : Status
  pub file_info : Option FileInfo

module _ (p : Platform) (m : Mem) where
  -- The `while`, up to the end of the volume; `none` means that the fuel ran out.
  unfoldable pub next_file_loop : ℕ → ℕ → ℕ → ℕ → ℕ → Option Handed
  next_file_loop search_type eov old zero addr = none
  next_file_loop search_type eov old (suc fuel) addr =
      let file = uintn p addr in
      let eof = u64 (addr + p.file_size m file) in
      let rest = next_file_loop search_type eov old fuel (align_addr eof 8) in
      if ltb addr eov
      then if ltb eov eof
        then some (handed Status.volume_corrupted (some old))
        else if p.file_type m file == search_type
        then some (handed Status.success (some file))
        else rest
      else some (handed Status.not_found (some old))

  -- Where the search starts. With a file handle the code adds the file's size to `Addr`, which is
  -- not set on this path: `unset` is its value.
  unfoldable pub next_file_start : ℕ → ℕ → ℕ → ℕ
  next_file_start unset fv old =
      if old == 0 then first_file p m fv else align_addr (u64 (unset + p.file_size m old)) 8

  -- `file_handle` is what `FileHandle` points at, `none` for NULL.
  unfoldable pub pei_ffs_find_next_file : ℕ → ℕ → ℕ → ℕ → Option ℕ → Option Handed
  pei_ffs_find_next_file unset fuel search_type fv none =
      some (handed Status.invalid_parameter none)
  pei_ffs_find_next_file unset fuel search_type fv (some old) =
      if fv == 0
      then some (handed Status.invalid_parameter (some old))
      else next_file_loop search_type (volume_end p m fv) old fuel (next_file_start unset fv old)

  -- `section_data` is what `SectionData` points at; `info` is the local `StatusInfo`, not yet set.
  unfoldable pub pei_ffs_find_section_data : StatusInfo → ℕ → ℕ → ℕ → Option ℕ → Option Handed
  pei_ffs_find_section_data info fuel section_type file none =
      some (handed Status.invalid_parameter none)
  pei_ffs_find_section_data info fuel section_type file (some old) =
      if file == 0
      then some (handed Status.invalid_parameter (some old))
      else find_section p m section_type (u64 (file + p.file_size m file)) (some info) fuel
          (uintn p (file + p.sizeof_file))
        >>= λ f. some (handed (status_of info f.info) (some f.ptr))

  -- `IS_FFS_FILE2(File)` reads through `File` before it is set: `unset` is its value. The pointer to
  -- the caller's `FileInfo` may be NULL.
  unfoldable pub pei_ffs_get_file_info : ℕ → ℕ → Option (Unit {0}) → Described
  pei_ffs_get_file_info unset file none = record {
    status = Status.invalid_parameter;
    file_info = none;
  }
  pei_ffs_get_file_info unset file (some _) =
      if file == 0
      then record { status = Status.invalid_parameter; file_info = none }
      else if not (p.is_file2 m unset == 0)
      then record { status = Status.unsupported; file_info = none }
      else record {
        status = Status.success;
        file_info = some (record {
          file_name = p.file_name m file;
          file_type = p.file_type m file;
          file_attributes = p.file_attributes m file;
          buffer = uintn p (file + p.sizeof_file);
          buffer_size = u32 (p.file_size m file + 2 ^ 32 - p.sizeof_file);
        });
      }
