-- ===== src/DxeIpl/Stuck.antt =====
-- DxeIplMain at a volume with a header of size 0.
use edk2_arc.Base.{ℕ, ◌≡◌, ◌≢◌, none, ◌>>=◌, List}
use edk2_arc.Edk2.{Mem, Platform}
use edk2_arc.Utils.Section.Find.{InReach}
use edk2_arc.Utils.Volume.{volume_end, first_file}
use edk2_arc.Utils.Volume.Layout.{File}
use edk2_arc.Pei.Context.{PeiCore}
use edk2_arc.Pei.Ffs.{pei_ffs_find_next_volume}
use edk2_arc.Pei.Ffs.Stuck.{IsStuckAt, pei_ffs_find_next_file_stuck}
use edk2_arc.DxeIpl.{Unset, dxe_fv_instance, dxe_ipl_main}

-- DxeIplMain never returns, nor stops the processor, if in the second volume, behind files that
-- are not DXE cores, it comes to a header of size 0 that is not one of a DXE core:
-- PeiFfsFindNextFile goes on at that header for ever, with any fuel. The volume is not at address
-- 0, and its end is in reach of a pointer.
pub dxe_ipl_main_stuck :
    (p : Platform) (m : Mem) (unset : Unset) (fuel fv stop : ℕ) (c : PeiCore) (fs : List File)
    → InReach p (volume_end p m fv)
    → c.fv_handle dxe_fv_instance ≡ fv
    → fv ≢ 0
    → IsStuckAt p m p.filetype_dxe_core (volume_end p m fv) (first_file p m fv) fs stop
    → dxe_ipl_main p m unset fuel c ≡ none
unfolding dxe_ipl_main pei_ffs_find_next_volume
dxe_ipl_main_stuck p m unset fuel fv stop c fs r same there s = rw (
  same,
  pei_ffs_find_next_file_stuck p m fuel p.filetype_dxe_core fv unset.addr r stop fs there s,
  ◌>>=◌,
)
