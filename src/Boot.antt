-- ===== src/Boot.antt =====
-- The PEI core of PeiCoreMain.c together with the PEIM of DxeIpl.c that it calls.
pub mod Chain
pub mod Loads
pub mod Orderly
pub mod Power
use edk2_arc.Base.{ℕ, ◌==◌, if◌then◌else◌, Option, some, ◌>>=◌, List, ◌∷◌}
use edk2_arc.Edk2.{Status, Mem, Platform}
use edk2_arc.Utils.Info.{StatusInfo}
use edk2_arc.Pei.Core.{World, Flow, goes_on, stops}
use edk2_arc.DxeIpl.{Run, returned, dead_loop, Unset, dxe_ipl_init, dxe_ipl_main}

-- Of the machine only the outcomes of the calls of DxeIplMain are kept, the last one first.
abbrev pub Log : Type 0
Log = List (Run Status)

abbrev pub with_outcome : World Log → Run Status → World Log
with_outcome w o = record w { machine = o ∷ w.machine }

-- Where the code of the DXE IPL stands in the volume: DxeIplInit, DxeIplMain, and the address of
-- `mDxeIplPpiList`.
pub record IplImage : Type 0 where
  pub init_entry : ℕ
  pub main_entry : ℕ
  pub ppi_list : ℕ

module _ (p : Platform) (m : Mem) (fuel boot_fv : ℕ) (info : StatusInfo) (unset : Unset) where
  -- A call of DxeIplMain returns, or stops the processor.
  abbrev pub after_main : World Log → Run Status → Flow (World Log)
  after_main w (returned s) = goes_on (with_outcome w (returned s))
  after_main w dead_loop = stops (with_outcome w dead_loop)

  -- The code at an address: that of the DXE IPL, and else `other`.
  unfoldable pub call_code :
      IplImage
      → (ℕ → ℕ → World Log → Option (Flow (World Log)))
      → ℕ
      → ℕ
      → World Log
      → Option (Flow (World Log))
  call_code image other f a w =
      if f == image.init_entry
      then (dxe_ipl_init p m fuel boot_fv info image.ppi_list w.core >>= λ r.
          some (goes_on (record w { core = r.core })))
      else if f == image.main_entry
      then (dxe_ipl_main p m unset fuel w.core >>= λ o. some (after_main w o))
      else other f a w
