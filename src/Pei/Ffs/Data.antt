-- ===== src/Pei/Ffs/Data.antt =====
-- What `PeiFfsFindSectionData` and `PeiFfsGetFileInfo` return for a file.
use edk2_arc.Base.{
  ℕ, ◌+◌, ◌-◌, ◌^◌, ◌≤◌, ◌<◌, ◌≡◌, ◌≢◌, refl, Option, none, some, List, length, if◌then◌else◌, u32,
  u64, ne→test, ◌>>=◌, arith,
}
use edk2_arc.Edk2.{Status, Mem, Platform, uintn, uintn_of_lt}
use edk2_arc.Utils.Info.{StatusInfo, align_addr}
use edk2_arc.Utils.Section.Layout.{Section, Sections, first_of_kind}
use edk2_arc.Utils.Section.Find.{InReach, section_answer, find_section_of_run}
use edk2_arc.Pei.Ppi.{status_of}
use edk2_arc.Pei.Ffs.{Handed, handed, FileInfo, pei_ffs_find_section_data, pei_ffs_get_file_info}

-- The answer by the first section of the type, if there is one.
abbrev pub data_answer : Option ℕ → Handed
data_answer none = handed Status.not_found (some 0)
data_answer (some q) = handed Status.success (some q)

module _ (p : Platform) (m : Mem) where
  -- `PeiFfsFindSectionData` stores the address of the first section of the type in the file and
  -- returns EFI_SUCCESS; if there is none it stores NULL and returns EFI_NOT_FOUND. The file is
  -- not NULL, it is in reach of a pointer, its sections stand one behind the other up to its end,
  -- and the fuel is more than their number.
  pub pei_ffs_find_section_data_lem :
      (info : StatusInfo) (fuel section_type file old stop : ℕ) (ss : List Section)
      → InReach p (file + p.file_size m file)
      → file ≢ 0
      → file + p.sizeof_file < 2 ^ p.uintn_bits
      → length ss < fuel
      → Sections p m (file + p.file_size m file) (align_addr (file + p.sizeof_file) 4) ss stop
      → file + p.file_size m file ≤ stop
      → pei_ffs_find_section_data p m info fuel section_type file (some old)
        ≡ some (data_answer (first_of_kind section_type (align_addr (file + p.sizeof_file) 4) ss))
  unfolding pei_ffs_find_section_data
  pei_ffs_find_section_data_lem info fuel section_type file old stop ss r ne room h c e =
      let no_wrap : u64 (file + p.file_size m file) ≡ file + p.file_size m file = omega arith in
      rw
        (
          ne→test file 0 ne,
          if◌then◌else◌,
          no_wrap,
          uintn_of_lt p (file + p.sizeof_file) room,
          find_section_of_run p m section_type (file + p.file_size m file) (some info) r fuel
              (file + p.sizeof_file) stop ss h c e,
        )
        (stored (first_of_kind section_type (align_addr (file + p.sizeof_file) 4) ss))
    where
      stored :
          (o : Option ℕ)
          → (some (section_answer (some info) o) >>= λ f.
              some (handed (status_of info f.info) (some f.ptr)))
            ≡ some (data_answer o)
      stored none = refl
      stored (some q) = refl

  -- For a file whose header is not larger than the file, `PeiFfsGetFileInfo` gives its name, type
  -- and attributes, and as its buffer exactly what lies behind the header; the handle NULL is
  -- refused, and so is a file for which IS_FFS_FILE2 answers true at the pointer that the code
  -- reads. The size of the file is below 2 ^ 32, and its end is in reach of a pointer.
  pei_ffs_get_file_info_lem :
      (unset file : ℕ)
      → p.sizeof_file ≤ p.file_size m file
      → p.file_size m file < 2 ^ 32
      → file + p.file_size m file < 2 ^ p.uintn_bits
      → (file ≡ 0
          → (pei_ffs_get_file_info p m unset file (some tt)).status ≡ Status.invalid_parameter)
        × (file ≢ 0
            → p.is_file2 m unset ≢ 0
            → (pei_ffs_get_file_info p m unset file (some tt)).status ≡ Status.unsupported)
        × (file ≢ 0
            → p.is_file2 m unset ≡ 0
            → (i : FileInfo) × (pei_ffs_get_file_info p m unset file (some tt)
                ≡ record { status = Status.success; file_info = some i })
              × (i.file_name ≡ p.file_name m file)
              × (i.file_type ≡ p.file_type m file)
              × (i.file_attributes ≡ p.file_attributes m file)
              × (i.buffer ≡ file + p.sizeof_file)
              × (i.buffer + i.buffer_size ≡ file + p.file_size m file))
  unfolding pei_ffs_get_file_info
  pei_ffs_get_file_info_lem unset file whole small room = (
    λ e. ground arith,
    λ ne two. ground arith,
    λ ne one. (
      record {
        file_name = p.file_name m file;
        file_type = p.file_type m file;
        file_attributes = p.file_attributes m file;
        buffer = uintn p (file + p.sizeof_file);
        buffer_size = u32 (p.file_size m file + 2 ^ 32 - p.sizeof_file);
      },
      rw (ne→test file 0 ne, if◌then◌else◌, one),
      refl,
      refl,
      refl,
      uintn_of_lt p (file + p.sizeof_file) (omega arith),
      omega (arith, uintn_of_lt p (file + p.sizeof_file) (omega arith)),
    ),
  )
