-- ===== src/Boot/Power/Ends.antt =====
-- All stages on volumes in which every search ends.
use edk2_arc.Base.{
  ℕ, ◌^◌, ◌<◌, ◌≡◌, ◌≢◌, refl, ap, Bool, Bool-cases, inl, inr, ne_of_test, Option, some, ◌>>=◌,
  ◌==◌, if◌then◌else◌, [], update, arith,
}
use edk2_arc.Edk2.{Mem, Platform}
use edk2_arc.Utils.Info.{StatusInfo}
use edk2_arc.Utils.Volume.Ends.{IsWalkable}
use edk2_arc.Pei.Core.{World, Flow, goes_on, stops, initial_world, max_pei_ppis}
use edk2_arc.Pei.Core.Ends.{IsOrderly}
use edk2_arc.Pei.Core.Stops.{pei_core_main_always_stops}
use edk2_arc.Pei.Ppi.Returns.{calc_peim_fixup-Ends}
use edk2_arc.DxeIpl.{Unset}
use edk2_arc.DxeIpl.Ends.{dxe_ipl_main-Ends}
use edk2_arc.Serial.{Bus, Pcd, serial_port_initialize}
use edk2_arc.Sec.{SecLib, SecPcd, SecEnd, halted, entered}
use edk2_arc.Sec.Ends.{HandsOver, sec_main-ends}
use edk2_arc.Sec.Entry.{Aux, start_up, behind_sec_main, module_entry_point}
use edk2_arc.Boot.{Log, call_code}
use edk2_arc.Boot.Orderly.{call_code-IsOrderly}
use edk2_arc.Boot.Power.{
  BootImage, Booted, sleeping, core_ended, elsewhere, run_pei_core, after_sec, power_on,
}

module _ (p : Platform) (m : Mem) (fuel : ℕ) (info : StatusInfo) (unset : Unset) (image : BootImage)
    (other : ℕ → ℕ → World Log → Option (Flow (World Log))) (boot_fv : ℕ)
    (boot : IsWalkable p m fuel boot_fv) (dxe : IsWalkable p m fuel image.dxe_fv)
    (others : IsOrderly p m other max_pei_ppis (update (update (λ _. 0) 0 boot_fv) 1 image.dxe_fv))
    (enough : max_pei_ppis < fuel) (wide : max_pei_ppis < 2 ^ p.uintn_bits) where
  abbrev code : ℕ → ℕ → World Log → Option (Flow (World Log))
  code = call_code p m fuel boot_fv info unset image.ipl other

  code-IsOrderly :
      IsOrderly p m code max_pei_ppis (update (update (λ _. 0) 0 boot_fv) 1 image.dxe_fv)
  code-IsOrderly =
      call_code-IsOrderly p m fuel boot_fv info unset image.ipl other
        (calc_peim_fixup-Ends p m fuel boot_fv boot) max_pei_ppis
        (update (update (λ _. 0) 0 boot_fv) 1 image.dxe_fv)
        (λ c same. dxe_ipl_main-Ends p m unset fuel image.dxe_fv dxe c (ap (λ h. h 1) same)) others

  -- The PEI core with the DXE IPL ends, in a dead loop.
  run_pei_core-stops :
      (w' : World Log) × (run_pei_core p m fuel info unset image other boot_fv ≡ some (stops w'))
  unfolding run_pei_core initial_world
  run_pei_core-stops =
      pei_core_main_always_stops p m code fuel boot_fv boot image.context image.dxe_fv info
        (initial_world image.services image.desc image.entry [])
        (record { within = omega arith; countable = wide }) code-IsOrderly enough

-- How the stages may end: the processor sleeps, the PEI core has stopped it, or SEC has called
-- code that is not the PEI core's. The PEI core does not return to SEC.
abbrev pub IsEnd : {S : Type 0} → BootImage → S → Booted S → Type 0
IsEnd image device (sleeping s) = s ≡ device
IsEnd image device (core_ended (stops w) s) = s ≡ device
IsEnd image device (core_ended (goes_on w) s) = ⊥
IsEnd image device (elsewhere pei_ep sec_data s) = pei_ep ≢ image.core_entry

module _ (p : Platform) (m : Mem) (fuel : ℕ) (info : StatusInfo) (unset : Unset) (image : BootImage)
    (other : ℕ → ℕ → World Log → Option (Flow (World Log))) where
  after_sec-ends :
      {S : Type 0} (lib : SecLib) (pcd : SecPcd) (aux : Aux S) (device : S) (e : SecEnd S)
      → HandsOver p lib pcd m device e
      → ((w' : World Log) × (run_pei_core p m fuel info unset image other pcd.boot_fv_base
            ≡ some (stops w')))
      → (b : Booted S) × (after_sec p m fuel info unset image other (behind_sec_main aux e)
          ≡ some b)
        × IsEnd image device b
  unfolding after_sec
  after_sec-ends lib pcd aux device (halted d) same (w', runs) = (sleeping d, refl, same)
  after_sec-ends lib pcd aux device (entered ep data_ d) (same, volume) (w', runs) =
      elim (Bool-cases (ep == image.core_entry)) [
        | inl core ↦
            (core_ended (stops w') d, rw (core, if◌then◌else◌, volume, runs, ◌>>=◌) refl, same)
        | inr foreign ↦
            (elsewhere ep data_ d, rw foreign refl, ne_of_test ep image.core_entry foreign)
      ]

  -- From the reset on, all stages end: the processor sleeps, or the PEI core has stopped it, both with
  -- the device as it was initialised, or SEC has called code that is not the PEI core's. The PEI core
  -- does not return to SEC. In the two volumes, whatever files they hold, no header of the chain of
  -- files has size 0, or a size of 2 ^ 32 or more, and their ends are in reach of a pointer. The
  -- header of a section has a size, and the serial port can be initialised. Other code that the PEI
  -- core calls
  -- returns or stops the processor, and when it returns leaves the database well formed, of the same
  -- capacity and with the same volumes. The fuel is more than the ends of the volumes and than the
  -- capacity of the database, which is in the range of a UINTN.
  pub power_on-ends :
      {S : Type 0} (aux : Aux S) (lib : SecLib) (pcd : SecPcd) (bus : Bus S) (serial_pcd : Pcd)
      (base : ℕ) (stack stack' : ℕ → ℕ) (unaligned : Bool) (machine device : S)
      → IsWalkable p m fuel pcd.boot_fv_base
      → IsWalkable p m fuel image.dxe_fv
      → IsOrderly p m other max_pei_ppis
          (update (update (λ _. 0) 0 pcd.boot_fv_base) 1 image.dxe_fv)
      → max_pei_ppis < fuel
      → max_pei_ppis < 2 ^ p.uintn_bits
      → serial_port_initialize bus serial_pcd fuel (start_up aux unaligned machine)
        ≡ some (base, device)
      → (b : Booted S) × (power_on p m fuel info unset image other aux lib pcd bus serial_pcd stack
            stack' unaligned machine
          ≡ some b)
        × IsEnd image device b
  unfolding power_on module_entry_point
  power_on-ends aux lib pcd bus serial_pcd base stack stack' unaligned machine device boot dxe
        others enough wide ready =
      let (e, ends, hands) =
        sec_main-ends p lib pcd m bus serial_pcd fuel base stack stack' info
          (start_up aux unaligned machine) device boot ready in
      let (b, after, is_end) = after_sec-ends lib pcd aux device e hands (
        run_pei_core-stops p m fuel info unset image other pcd.boot_fv_base boot dxe others enough
          wide) in
      (b, rw (ends, ◌>>=◌) after, is_end)
