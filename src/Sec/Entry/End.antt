-- ===== src/Sec/Entry/End.antt =====
-- How the start of the processor ends.
use edk2_arc.Base.{ℕ, ◌+◌, ◌^◌, ◌≤◌, ◌<◌, ◌≡◌, ◌≢◌, refl, ◌⊎◌, Bool, none, some, ◌>>=◌}
use edk2_arc.Edk2.{Mem, Platform}
use edk2_arc.Utils.Info.{StatusInfo}
use edk2_arc.Utils.Section.{Found, null}
use edk2_arc.Utils.Volume.{get_te_entry_point}
use edk2_arc.Serial.{Bus, Pcd, serial_port_initialize}
use edk2_arc.Sec.{SecLib, SecPcd, SecEnd, halted, entered}
use edk2_arc.Sec.Header.{IsSecLib, flash_header_length}
use edk2_arc.Sec.HandOff.{Describes, IsBootVolume, EndsWell, sec_main-EndsWell}
use edk2_arc.Sec.Entry.{
  Aux, PowerOn, asleep, in_pei_core, start_up, behind_sec_main, module_entry_point,
}
use edk2_arc.Sec.Entry.Units.{IsAux}
use edk2_arc.Sec.Entry.Ready.{Ready, start_up-Ready}
use edk2_arc.Cpu.Reg.{sys_init_sp_addr}

module _ (p : Platform) (lib : SecLib) (pcd : SecPcd) (m : Mem) where
  -- The processor sleeps, on the initial stack, or runs the PEI core, at the entry point `pei_ep`
  -- and on a description of the boot volume and the temporary RAM.
  abbrev pub StartsWell : {S : Type 0} → ℕ → S → PowerOn S → Type 0
  StartsWell pei_ep device (asleep sp fp d) =
      (d ≡ device)
      × (sp ≡ sys_init_sp_addr)
      × (fp ≡ sp)
      × (¬ IsBootVolume p lib pcd m ⊎ (pei_ep ≡ null))
  StartsWell pei_ep device (in_pei_core ep data_ d) =
      (d ≡ device)
      × IsBootVolume p lib pcd m
      × (ep ≡ pei_ep)
      × (pei_ep ≢ null)
      × Describes p pcd m data_

  behind_sec_main-StartsWell :
      {S : Type 0} (aux : Aux S) (pei_ep : ℕ) (device : S) (e : SecEnd S)
      → EndsWell p lib pcd m pei_ep device e
      → StartsWell pei_ep device (behind_sec_main aux e)
  behind_sec_main-StartsWell aux pei_ep device (halted d) (same, why) = (same, refl, refl, why)
  behind_sec_main-StartsWell aux pei_ep device (entered ep data_ d) ends = ends

module _ (p : Platform) (lib : SecLib) (pcd : SecPcd) (laws : IsSecLib p lib) (m : Mem) where
  -- From the reset of the processor to the PEI core. The start-up code calls SecMain with the
  -- instruction cache and the data cache disabled, no write-back in an invalidation of the data
  -- cache, bits 0 and 6 of the control register of the system-level cache clear, and the control
  -- register of the DSP at 0, each where the unit exists; the control registers of other units are
  -- as they were. The start ends: it runs the PEI core, on a hand-off that describes the boot
  -- volume and the temporary RAM, exactly if the volume has the signature and the file system of a
  -- boot volume and holds a PEI core; otherwise the processor sleeps, on the initial stack. The
  -- auxiliary registers and the libraries do what they document, the serial port can be
  -- initialised, the search for the PEI core returns, HeaderLength covers the fields of the
  -- header, and the temporary RAM is in reach of a pointer.
  pub module_entry_point-StartsWell :
      {S : Type 0} (aux : Aux S) (bus : Bus S) (serial_pcd : Pcd) (fuel base : ℕ)
      (stack stack' : ℕ → ℕ) (info : StatusInfo) (unaligned : Bool) (machine device : S) (f : Found)
      → IsAux aux
      → 50 ≤ flash_header_length pcd m
      → pcd.temporary_ram_base + pcd.temporary_ram_size < 2 ^ p.uintn_bits
      → serial_port_initialize bus serial_pcd fuel (start_up aux unaligned machine)
        ≡ some (base, device)
      → get_te_entry_point p m fuel pcd.boot_fv_base p.filetype_pei_core none (some info) ≡ some f
      → Ready aux machine (start_up aux unaligned machine)
        × (e : PowerOn S) × (module_entry_point aux p lib pcd m bus serial_pcd fuel stack stack'
              info unaligned machine
            ≡ some e)
        × StartsWell p lib pcd m f.ptr device e
  unfolding module_entry_point
  module_entry_point-StartsWell aux bus serial_pcd fuel base stack stack' info unaligned machine
        device f registers covered room ready search_ends =
      let (e, ends, well) =
        sec_main-EndsWell p lib pcd laws m bus serial_pcd fuel base stack stack' info
          (start_up aux unaligned machine) device f covered room ready search_ends in
      (
        start_up-Ready aux registers unaligned machine,
        behind_sec_main aux e,
        rw (ends, ◌>>=◌) refl,
        behind_sec_main-StartsWell p lib pcd m aux f.ptr device e well,
      )
