-- ===== src/Utils/Section.antt =====
-- `FindSection`: the walk over the sections of a file.
pub mod Layout
pub mod Find
pub mod Total
use edk2_arc.Base.{ℕ, zero, suc, ◌+◌, ltb, ◌==◌, if◌then◌else◌, Option, none, some, u32, u64}
use edk2_arc.Edk2.{Status, Mem, Platform, uintn}
use edk2_arc.Utils.Info.{StatusInfo, set_status_info, align_addr}

-- What a search returns: the pointer, 0 for NULL, and `*StatusInfo` afterwards.
pub record Found : Type 0 where
  pub ptr : ℕ
  pub info : Option StatusInfo

abbrev pub null : ℕ
null = 0

-- A result with the line at which the code sets it.
abbrev pub found : ℕ → Option StatusInfo → Status → ℕ → Found
found ptr info status line = record { ptr = ptr; info = set_status_info info status line }

module _ (p : Platform) (m : Mem) (section_type sections_end : ℕ) (info : Option StatusInfo) where
  -- The `while`, from `Addr`; `none` means that the fuel ran out. `Size` is a UINT32.
  unfoldable pub section_loop : ℕ → ℕ → Option Found
  section_loop zero addr = none
  section_loop (suc fuel) addr =
      let section = uintn p addr in
      let size = u32 (p.section_size m section) in
      let rest = section_loop fuel (u64 (addr + size)) in
      if ltb addr sections_end
      then if ltb size p.sizeof_section
        then some (found null info Status.volume_corrupted 173)
        else if ltb sections_end (u64 (addr + size))
        then some (found null info Status.volume_corrupted 178)
        else if p.section_type m section == section_type
        then some (found section info Status.success 183)
        else rest
      else some (found null info Status.not_found 190)

  unfoldable pub find_section : ℕ → ℕ → Option Found
  unfolding section_loop
  find_section fuel sections_addr = section_loop fuel (align_addr sections_addr 4)
