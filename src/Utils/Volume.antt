-- ===== src/Utils/Volume.antt =====
-- `GetFileSection`, `GetTeEntryPoint` and `GetAprioriFile`: the walk over the files of a firmware
-- volume. The GUID's text is made for the debug log only and is left out.
pub mod Layout
pub mod Find
pub mod Total
pub mod Stuck
pub mod Ends
pub mod Behind
pub mod Apriori
use edk2_arc.Base.{
  ℕ, zero, suc, ◌+◌, ◌-◌, ◌^◌, Bool, true, ◌&&◌, ltb, ◌==◌, if◌then◌else◌, Option, none, some, [],
  ◌∷◌, u64, bit_and, ◌>>=◌,
}
use edk2_arc.Edk2.{Status, Guid, Mem, Platform, uintn}
use edk2_arc.Utils.Guids.{compare_guids}
use edk2_arc.Utils.Info.{StatusInfo, align_addr}
use edk2_arc.Utils.Section.{Found, found, null, find_section}

-- `FileName` is NULL (`none`) where any name will do.
unfoldable pub file_name_ok : Option Guid → Guid → Bool
file_name_ok none name = true
file_name_ok (some wanted) name = compare_guids wanted name

module _ (p : Platform) (m : Mem) where
  module _ (section_fuel section_type file_type : ℕ) (file_name : Option Guid)
      (info : Option StatusInfo) where
    -- The `while` of `GetFileSection`, up to the end of the volume; `none` means that the fuel ran
    -- out, here or in the search in the file, which has a fuel of its own.
    unfoldable pub file_loop : ℕ → ℕ → ℕ → Option Found
    file_loop eov zero addr = none
    file_loop eov (suc fuel) addr =
        let file = uintn p addr in
        let eof = u64 (addr + p.file_size m file) in
        let rest = file_loop eov fuel (align_addr eof 8) in
        if ltb addr eov
        then if ltb eov eof
          then some (found null info Status.volume_corrupted 224)
          else if file_name_ok file_name (p.file_name m file) && p.file_type m file == file_type
          then find_section p m section_type eof info section_fuel (uintn p (file + p.sizeof_file))
          else rest
        else some (found null info Status.not_found 241)

  -- `ToPhysAddr(Fv)` is the pointer as a number.
  unfoldable pub volume_end : ℕ → ℕ
  volume_end fv = u64 (fv + p.fv_length m fv)

  unfoldable pub first_file : ℕ → ℕ
  first_file fv = align_addr (u64 (fv + p.fv_header_length m fv)) 8

  unfoldable pub get_file_section : ℕ → ℕ → ℕ → ℕ → Option Guid → Option StatusInfo → Option Found
  get_file_section fuel fv_base section_type file_type file_name info =
      file_loop fuel section_type file_type file_name info (volume_end fv_base) fuel
        (first_file fv_base)

  -- `Ptr += sizeof(*TeHdr) + TeHdr->AddressOfEntryPoint & 0xffffffff`: the sum is masked.
  unfoldable pub te_entry : ℕ → ℕ
  te_entry section =
      let hdr = uintn p (section + p.sizeof_section) in
      let base = uintn p (hdr + 2 ^ p.uintn_bits - p.te_stripped_size m hdr) in
      uintn p (base + bit_and (p.sizeof_te + p.te_entry_point m hdr) 0xffff_ffff)

  unfoldable pub get_te_entry_point : ℕ → ℕ → ℕ → Option Guid → Option StatusInfo → Option Found
  get_te_entry_point fuel fv_base file_type file_name info = do
    f ← get_file_section fuel fv_base p.section_te file_type file_name info
    if f.ptr == null then some f else some (record f { ptr = te_entry f.ptr })

  -- PEI_APRIORI_FILE_NAME_GUID, as the source writes it out.
  abbrev pub apriori_file_name : Guid
  apriori_file_name = record {
    data1 = 0x1b45cc0a;
    data2 = 0x156a;
    data3 = 0x428a;
    data4 = 0xaf ∷ 0x62 ∷ 0x49 ∷ 0x86 ∷ 0x4d ∷ 0xa0 ∷ 0xe6 ∷ 0xe6 ∷ [];
  }

  unfoldable pub get_apriori_file : ℕ → ℕ → Option StatusInfo → Option Found
  get_apriori_file fuel fv_base info = do
    f ←
        get_file_section fuel fv_base p.section_raw p.filetype_freeform (some apriori_file_name)
          info
    if f.ptr == null then some f else some (record f { ptr = uintn p (f.ptr + p.sizeof_section) })
