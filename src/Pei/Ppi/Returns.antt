-- ===== src/Pei/Ppi/Returns.antt =====
-- `PeiInstallPpi` with a boot volume in which the search for the fixup ends.
use edk2_arc.Base.{none, ℕ, ◌≡◌, refl, some, ◌>>=◌, u32}
use edk2_arc.Edk2.{Mem, Platform}
use edk2_arc.Utils.Info.{StatusInfo}
use edk2_arc.Utils.Volume.Ends.{IsWalkable, Ends, get_file_section-Ends}
use edk2_arc.Pei.Context.{PeiCore}
use edk2_arc.Pei.Ppi.{Reply, calc_peim_fixup, pei_install_ppi}
use edk2_arc.Pei.Ppi.OneRound.{IsValid, Outcome}
use edk2_arc.Pei.Ppi.Invariant.{pei_install_ppi-Outcome}

module _ (p : Platform) (m : Mem) (fuel boot_fv : ℕ) (boot : IsWalkable p m fuel boot_fv) where
  pub calc_peim_fixup-Ends :
      (info : StatusInfo) → Ends (calc_peim_fixup p m fuel boot_fv (some info))
  unfolding calc_peim_fixup
  calc_peim_fixup-Ends info =
      let (f, e) =
        get_file_section-Ends p m fuel boot_fv boot p.section_freeform_subtype_guid p.filetype_peim
          none (some info) in
      (record f { ptr = u32 f.ptr }, rw (e, ◌>>=◌) refl)

  -- `PeiInstallPpi` returns, whatever the list and the files of the boot volume are. It never
  -- touches the slots that were in use. With EFI_SUCCESS it has added at least one descriptor and
  -- not passed the capacity; with any other status the count is what it was, so that the whole list
  -- is rejected. The database stays well formed: the count is not above the capacity, and that is
  -- in the range of a UINTN. It is well formed before. No header of the chain of files of the boot
  -- volume has size 0, or a size of 2 ^ 32 or more, the end of the volume is in reach of a pointer
  -- and below the fuel, and the header of a section has a size.
  pub pei_install_ppi-returns :
      (info : StatusInfo) (ppi_list : ℕ) (c : PeiCore)
      → IsValid p c
      → (r : Reply) × (pei_install_ppi p m fuel boot_fv info ppi_list c ≡ some r)
        × Outcome c.current_count c r
        × IsValid p r.core
  pei_install_ppi-returns info ppi_list c v =
      pei_install_ppi-Outcome p m fuel boot_fv info ppi_list c calc_peim_fixup-Ends v
