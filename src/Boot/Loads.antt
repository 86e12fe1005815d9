-- ===== src/Boot/Loads.antt =====
-- From PeiCoreMain to the load of the DXE core.
use edk2_arc.Base.{ℕ, ◌^◌, ◌≤◌, ◌<◌, ◌≡◌, ◌≢◌, Option, some, List, length, ◌∷◌}
use edk2_arc.Edk2.{Mem, Platform}
use edk2_arc.Utils.Info.{StatusInfo}
use edk2_arc.Utils.Volume.{volume_end, first_file}
use edk2_arc.Pei.Core.{World, Flow, stops, pei_core_main}
use edk2_arc.DxeIpl.{Unset}
use edk2_arc.DxeIpl.Main.{core_answer, dxe_ipl_main_of_volume}
use edk2_arc.Utils.Section.Layout.{Section}
use edk2_arc.Utils.Section.Find.{InReach}
use edk2_arc.Utils.Volume.Layout.{File, Files, Hit, first_hit}
use edk2_arc.Utils.Volume.Find.{IsBody}
use edk2_arc.Pei.Ffs.Next.{of_type}
use edk2_arc.Boot.{Log, IplImage}
use edk2_arc.Boot.Chain.{code, IsBootImage, pei_core_main_runs_dxe_ipl}

module _ (p : Platform) (m : Mem) (fuel boot_fv : ℕ) (info : StatusInfo) (unset : Unset)
    (image : IplImage) (other : ℕ → ℕ → World Log → Option (Flow (World Log))) where
  -- The chain from the PEI core to the DXE core: PeiCoreMain, on a boot volume that holds the DXE
  -- IPL as the build places it and with an empty database of PPIs, installs the one PPI of the DXE
  -- IPL in the first slot, calls DxeIplMain once, with the volume at PcdDxeFvBase, and stops the
  -- processor. The outcome of DxeIplMain is that for the first DXE core among the files of that
  -- volume: EFI_NOT_FOUND without one, EFI_LOAD_ERROR after a load of it, and a stop if it cannot
  -- be loaded. The files of the DXE volume stand one behind the other up to its end, the core's
  -- sections up to its end, and no file at address 0; the volume is not at address 0, its end is
  -- in reach of a pointer, and the fuel is more than 1, than the number of files, and than that of
  -- the sections.
  pub pei_core_main_loads_dxe_core :
      (context dxe_fv stop : ℕ) (w : World Log) (fs : List File) (ss : List Section)
      → IsBootImage p m fuel boot_fv info unset image other w.core.desc w.core.entry
      → w.core.current_count ≡ 0
      → 0 < w.core.max_count
      → 1 < fuel
      → 1 < 2 ^ p.uintn_bits
      → InReach p (volume_end p m dxe_fv)
      → dxe_fv ≢ 0
      → length fs < fuel
      → length ss < fuel
      → Files p m (volume_end p m dxe_fv) (first_file p m dxe_fv) fs stop
      → volume_end p m dxe_fv ≤ stop
      → ((hit : Hit)
          → first_hit (of_type p.filetype_dxe_core) (first_file p m dxe_fv) fs ≡ some hit
          → (hit.addr ≢ 0) × IsBody p m hit ss)
      → (w' : World Log) × (pei_core_main p m
            (code p m fuel boot_fv info unset image other)
            fuel
            info
            context
            dxe_fv
            boot_fv
            w
          ≡ some (stops w'))
        × (w'.machine
            ≡ core_answer p m unset ss
                (first_hit (of_type p.filetype_dxe_core) (first_file p m dxe_fv) fs)
              ∷ w.machine)
        × (w'.core.current_count ≡ 1)
        × (w'.core.ppi_ptrs 0 ≡ image.ppi_list)
        × (w'.core.fv_handle 0 ≡ boot_fv)
        × (w'.core.fv_handle 1 ≡ dxe_fv)
        × (w'.table_pointer ≡ context)
  pei_core_main_loads_dxe_core context dxe_fv stop w fs ss b empty room rounds wide reach ne hf hs
        files e body =
      pei_core_main_runs_dxe_ipl p m fuel boot_fv info unset image other context dxe_fv w
        (core_answer p m unset ss
          (first_hit (of_type p.filetype_dxe_core) (first_file p m dxe_fv) fs))
        b empty room rounds wide
        (λ c handle.
          dxe_ipl_main_of_volume p m unset fuel dxe_fv stop c fs ss reach handle ne hf hs files e
            body)
