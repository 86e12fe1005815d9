-- ===== src/Boot/Power.antt =====
-- All stages together, from the reset of the processor on: the start-up code and SecMain, and the PEI
-- core, which runs the DXE IPL, on the volume that SecMain hands over.
pub mod Reset
pub mod Ends
use edk2_arc.Base.{ℕ, ◌==◌, if◌then◌else◌, Bool, Option, some, ◌>>=◌, []}
use edk2_arc.Edk2.{Mem, Platform}
use edk2_arc.Utils.Info.{StatusInfo}
use edk2_arc.Pei.Context.{PpiDescriptor}
use edk2_arc.Pei.Core.{Services, World, Flow, initial_world, pei_core_main}
use edk2_arc.DxeIpl.{Unset}
use edk2_arc.Serial.{Bus, Pcd}
use edk2_arc.Sec.{SecLib, SecPcd, HandOffData}
use edk2_arc.Sec.Entry.{Aux, PowerOn, asleep, in_pei_core, module_entry_point}
use edk2_arc.Boot.{Log, IplImage, call_code}

-- The boot flash beside the volumes: the addresses of the entry of the PEI core's image, from which the
-- PeiCoreEntryPoint library goes to PeiCoreMain, and of `mPeiCoreCtx.PsPtr`, PcdDxeFvBase,
-- the DXE IPL, and what the data of the modules hold.
pub record BootImage : Type 0 where
  pub core_entry : ℕ
  pub context : ℕ
  pub dxe_fv : ℕ
  pub ipl : IplImage
  pub services : Services
  pub desc : ℕ → PpiDescriptor
  pub entry : ℕ → ℕ

-- How it ends: asleep behind SecMain, with the PEI core's end, or in code that is not the PEI core's.
pub data Booted (S : Type 0) : Type 0 where
  sleeping : S → Booted S
  core_ended : Flow (World Log) → S → Booted S
  elsewhere : ℕ → HandOffData → S → Booted S

module _ (p : Platform) (m : Mem) (fuel : ℕ) (info : StatusInfo) (unset : Unset) (image : BootImage)
    (other : ℕ → ℕ → World Log → Option (Flow (World Log))) where
  -- PeiCoreMain, with the boot volume of the hand-off.
  unfoldable pub run_pei_core : ℕ → Option (Flow (World Log))
  run_pei_core boot_fv =
      pei_core_main p m (call_code p m fuel boot_fv info unset image.ipl other) fuel info
        image.context image.dxe_fv boot_fv (initial_world image.services image.desc image.entry [])

  unfoldable pub after_sec : {S : Type 0} → PowerOn S → Option (Booted S)
  after_sec (asleep sp fp s) = some (sleeping s)
  after_sec (in_pei_core pei_ep sec_data s) =
      if pei_ep == image.core_entry
      then (run_pei_core sec_data.boot_firmware_volume_base >>= λ f. some (core_ended f s))
      else some (elsewhere pei_ep sec_data s)

  -- `unaligned` and the two stacks are those of the start-up code and of SecMain.
  unfoldable pub power_on :
      {S : Type 0}
      → Aux S
      → SecLib
      → SecPcd
      → Bus S
      → Pcd
      → (ℕ → ℕ)
      → (ℕ → ℕ)
      → Bool
      → S
      → Option (Booted S)
  power_on aux lib pcd bus serial_pcd stack stack' unaligned s =
      module_entry_point aux p lib pcd m bus serial_pcd fuel stack stack' info unaligned s
      >>= after_sec
