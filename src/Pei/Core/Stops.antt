-- ===== src/Pei/Core/Stops.antt =====
-- PeiCoreMain with a boot volume in which its searches end.
use edk2_arc.Base.{ℕ, ◌<◌, ◌≡◌, refl, none, some, Option, ◌>>=◌, u32, update}
use edk2_arc.Edk2.{Mem, Platform}
use edk2_arc.Utils.Info.{StatusInfo}
use edk2_arc.Utils.Volume.Ends.{
  IsWalkable, Ends, get_file_section-Ends, get_te_entry_point-Ends, get_apriori_file-Ends,
}
use edk2_arc.Pei.Ppi.OneRound.{IsValid}
use edk2_arc.Pei.Core.{World, Flow, stops, calc_pei_fixup, pei_core_main}
use edk2_arc.Pei.Core.Ends.{IsOrderly, pei_core_main-stops}

module _ {T : Type 0} (p : Platform) (m : Mem) (call : ℕ → ℕ → World T → Option (Flow (World T)))
    (fuel boot_fv : ℕ) (boot : IsWalkable p m fuel boot_fv) where
  calc_pei_fixup-Ends : Ends (calc_pei_fixup p m call fuel boot_fv)
  unfolding calc_pei_fixup
  calc_pei_fixup-Ends =
      let (f, e) =
        get_file_section-Ends p m fuel boot_fv boot p.section_freeform_subtype_guid
          p.filetype_pei_core none none in
      (u32 f.ptr, rw (e, ◌>>=◌) refl)

  -- PeiCoreMain never returns to SEC, and it does not run for ever either, whatever files the boot
  -- volume holds: it reaches its dead loop, or code that it calls stops the processor. The PEIM and
  -- the PPIs may install further PPIs: DispatchPeims ends all the same, since the database has no
  -- more slots than its capacity. The database is well formed at the start, and the code that is
  -- called returns or stops the processor, and when it returns leaves the database well formed, of
  -- the same capacity and with the same volumes. No header of the chain of files of the boot volume
  -- has size 0, or a size of 2 ^ 32 or more, the end of the volume is in reach of a pointer, and
  -- the header of a section has a size. The fuel is more than the end of the volume and than the
  -- capacity.
  pub pei_core_main_always_stops :
      (context dxe_fv : ℕ) (info : StatusInfo) (w : World T)
      → IsValid p w.core
      → IsOrderly p m call w.core.max_count (update (update w.core.fv_handle 0 boot_fv) 1 dxe_fv)
      → w.core.max_count < fuel
      → (w' : World T) × (pei_core_main p m call fuel info context dxe_fv boot_fv w
          ≡ some (stops w'))
  pei_core_main_always_stops context dxe_fv info w valid orderly enough =
      let (fixup, fixed) = calc_pei_fixup-Ends in
      let (apriori, found) = get_apriori_file-Ends p m fuel boot_fv boot (some info) in
      pei_core_main-stops p m call fuel context dxe_fv boot_fv fixup info w apriori valid orderly
        enough fixed found
        λ entry_info.
          get_te_entry_point-Ends p m fuel boot_fv boot p.filetype_peim
            (some (p.guid_at m apriori.ptr)) entry_info
