-- ===== src/Utils/Volume/Stuck.antt =====
-- `GetFileSection` at a header of size 0.
use edk2_arc.Base.{
  ℕ, zero, suc, ◌+◌, ◌%◌, ◌<◌, ◌≡◌, refl, ◌∙◌, Option, none, List, [], ◌∷◌, false, if◌then◌else◌,
  arith,
}
use edk2_arc.Edk2.{Guid, Mem, Platform}
use edk2_arc.Utils.Info.{StatusInfo, align_addr, align_addr_eight}
use edk2_arc.Utils.Section.Find.{InReach}
use edk2_arc.Utils.Volume.{file_loop, get_file_section, volume_end, first_file}
use edk2_arc.Utils.Volume.Layout.{File, is_wanted, Files, first_hit}
use edk2_arc.Utils.Volume.Find.{file_step}
use edk2_arc.Utils.Volume.Total.{file_at, loop, step}

module _ (p : Platform) (m : Mem) (section_fuel section_type file_type : ℕ)
    (file_name : Option Guid) (info : Option StatusInfo) (eov : ℕ) (r : InReach p eov) where
  -- A header with size 0 at an aligned address, of a file that is not wanted, is visited again
  -- and again.
  file_loop_stuck :
      (fuel addr : ℕ)
      → addr < eov
      → addr % 8 ≡ 0
      → p.file_size m addr ≡ 0
      → is_wanted file_type file_name (file_at p m addr) ≡ false
      → loop p m section_fuel section_type file_type file_name info eov fuel addr ≡ none
  unfolding file_loop
  file_loop_stuck zero addr below aligned size other = refl
  file_loop_stuck (suc fuel) addr below aligned size other =
      step p m section_fuel section_type file_type file_name info eov r fuel addr below
        (omega arith)
      ∙ rw (other, if◌then◌else◌, same) (file_loop_stuck fuel addr below aligned size other)
    where
      same : align_addr (addr + p.file_size m addr) 8 ≡ addr
      same = omega (arith, align_addr_eight (addr + p.file_size m addr) (omega arith))

module _ (p : Platform) (m : Mem) (fv section_type file_type : ℕ) (file_name : Option Guid)
    (info : Option StatusInfo) (r : InReach p (volume_end p m fv)) where
  stuck_after :
      (section_fuel fuel addr stop : ℕ) (fs : List File)
      → Files p m (volume_end p m fv) addr fs stop
      → first_hit (is_wanted file_type file_name) addr fs ≡ none
      → stop < volume_end p m fv
      → stop % 8 ≡ 0
      → p.file_size m stop ≡ 0
      → is_wanted file_type file_name (file_at p m stop) ≡ false
      → loop p m section_fuel section_type file_type file_name info (volume_end p m fv) fuel addr
        ≡ none
  unfolding file_loop
  stuck_after section_fuel fuel addr stop [] c e below aligned size other = rw c (
      file_loop_stuck p m section_fuel section_type file_type file_name info (volume_end p m fv) r
        fuel stop below aligned size other)
  stuck_after section_fuel zero addr stop (f ∷ fs) c e below aligned size other = refl
  stuck_after section_fuel (suc fuel) addr stop (f ∷ fs) c e below aligned size other = ground (
    arith,
    file_step p m section_fuel section_type file_type file_name info (volume_end p m fv) r fuel addr
        f c.0,
    stuck_after section_fuel fuel (align_addr (addr + f.size) 8) stop fs c.1,
  )

  -- `GetFileSection` never returns if, behind files that are not wanted, it comes to a header in
  -- the volume that says size 0 and is not wanted: with any fuel there is no result. The end of
  -- the volume is in reach of a pointer.
  pub get_file_section_stuck :
      (fuel stop : ℕ) (fs : List File)
      → Files p m (volume_end p m fv) (first_file p m fv) fs stop
      → first_hit (is_wanted file_type file_name) (first_file p m fv) fs ≡ none
      → stop < volume_end p m fv
      → stop % 8 ≡ 0
      → p.file_size m stop ≡ 0
      → is_wanted file_type file_name (file_at p m stop) ≡ false
      → get_file_section p m fuel fv section_type file_type file_name info ≡ none
  unfolding get_file_section
  get_file_section_stuck fuel stop fs = stuck_after fuel fuel (first_file p m fv) stop fs
