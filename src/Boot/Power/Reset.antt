-- ===== src/Boot/Power/Reset.antt =====
-- From the reset to the outcome of the DXE IPL.
use edk2_arc.Base.{
  ℕ, ◌+◌, ◌^◌, ◌≤◌, ◌<◌, ◌≡◌, ◌≢◌, refl, subst, inl, inr, Bool, Option, none, some, List, [], ◌∷◌,
  length, ◌>>=◌, if◌then◌else◌, ==_refl, arith,
}
use edk2_arc.Edk2.{Mem, Platform}
use edk2_arc.Utils.Info.{StatusInfo}
use edk2_arc.Utils.Section.{Found, null}
use edk2_arc.Utils.Section.Layout.{Section}
use edk2_arc.Utils.Section.Find.{InReach}
use edk2_arc.Utils.Volume.{volume_end, first_file, get_te_entry_point}
use edk2_arc.Utils.Volume.Layout.{File, Files, Hit, first_hit}
use edk2_arc.Utils.Volume.Find.{IsBody}
use edk2_arc.Pei.Core.{World, Flow, stops, initial_world}
use edk2_arc.Pei.Ffs.Next.{of_type}
use edk2_arc.DxeIpl.{Unset}
use edk2_arc.DxeIpl.Main.{core_answer}
use edk2_arc.Serial.{Bus, Pcd, serial_port_initialize}
use edk2_arc.Sec.{SecLib, SecPcd}
use edk2_arc.Sec.Header.{IsSecLib, flash_header_length}
use edk2_arc.Sec.HandOff.{IsBootVolume}
use edk2_arc.Sec.Entry.{Aux, PowerOn, asleep, in_pei_core, start_up}
use edk2_arc.Sec.Entry.Units.{IsAux}
use edk2_arc.Sec.Entry.Ready.{Ready}
use edk2_arc.Sec.Entry.End.{StartsWell, module_entry_point-StartsWell}
use edk2_arc.Boot.{Log}
use edk2_arc.Boot.Chain.{IsBootImage}
use edk2_arc.Boot.Loads.{pei_core_main_loads_dxe_core}
use edk2_arc.Boot.Power.{BootImage, core_ended, run_pei_core, after_sec, power_on}

module _ (p : Platform) (m : Mem) (fuel : ℕ) where
  -- The DXE volume: files one behind the other up to its end, and the sections `ss` in its first DXE
  -- core, if it has one. The fuel is more than the number of files, and of sections.
  pub record IsDxeVolume (dxe_fv : ℕ) (fs : List File) (ss : List Section) : Type 0 where
    pub reach : InReach p (volume_end p m dxe_fv)
    pub there : dxe_fv ≢ 0
    pub enough_for_files : length fs < fuel
    pub enough_for_sections : length ss < fuel
    pub stop : ℕ
    pub files : Files p m (volume_end p m dxe_fv) (first_file p m dxe_fv) fs stop
    pub complete : volume_end p m dxe_fv ≤ stop
    pub body :
        (hit : Hit)
        → first_hit (of_type p.filetype_dxe_core) (first_file p m dxe_fv) fs ≡ some hit
        → (hit.addr ≢ 0) × IsBody p m hit ss

  -- What SecMain needs to call the PEI core: the boot volume is valid, its header length covers
  -- the fields, and the search for the PEI core ends at its entry.
  pub record IsSecVolume (lib : SecLib) (pcd : SecPcd) (info : StatusInfo) (core_entry : ℕ)
      : Type 0 where
    pub valid : IsBootVolume p lib pcd m
    pub covered : 50 ≤ flash_header_length pcd m
    pub room : pcd.temporary_ram_base + pcd.temporary_ram_size < 2 ^ p.uintn_bits
    pub core : Found
    pub core_found :
        get_te_entry_point p m fuel pcd.boot_fv_base p.filetype_pei_core none (some info)
        ≡ some core
    pub core_at : core.ptr ≡ core_entry
    pub core_there : core_entry ≢ null

-- The PEI core's state in the end: DxeIplMain has run once, with the outcome for the first DXE
-- core, and the database holds the PPI of the DXE IPL.
pub record IplDone (p : Platform) (m : Mem) (unset : Unset) (image : BootImage) (boot_fv : ℕ)
    (fs : List File) (ss : List Section) (w : World Log) : Type 0 where
  pub outcome :
      w.machine
      ≡ core_answer p m unset ss
          (first_hit (of_type p.filetype_dxe_core) (first_file p m image.dxe_fv) fs)
        ∷ []
  pub one_ppi : w.core.current_count ≡ 1
  pub slot : w.core.ppi_ptrs 0 ≡ image.ipl.ppi_list
  pub boot_volume : w.core.fv_handle 0 ≡ boot_fv
  pub dxe_volume : w.core.fv_handle 1 ≡ image.dxe_fv
  pub table : w.table_pointer ≡ image.context

module _ (p : Platform) (m : Mem) (fuel : ℕ) (info : StatusInfo) (unset : Unset) (image : BootImage)
    (other : ℕ → ℕ → World Log → Option (Flow (World Log))) where
  -- The end of the start, where SecMain calls the PEI core.
  after_sec_runs :
      {S : Type 0} (lib : SecLib) (pcd : SecPcd) (device : S) (e : PowerOn S) (w' : World Log)
      → IsBootVolume p lib pcd m
      → image.core_entry ≢ null
      → StartsWell p lib pcd m image.core_entry device e
      → run_pei_core p m fuel info unset image other pcd.boot_fv_base ≡ some (stops w')
      → after_sec p m fuel info unset image other e ≡ some (core_ended (stops w') device)
  unfolding after_sec
  after_sec_runs lib pcd device (asleep sp fp d) w' valid there (same, _, _, inl bad) runs =
      absurd (bad valid)
  after_sec_runs lib pcd device (asleep sp fp d) w' valid there (same, _, _, inr absent) runs =
      absurd (there absent)
  after_sec_runs lib pcd device (in_pei_core ep data_ d) w' valid there (same, _, at, _, describes)
        runs =
      rw (at, ==_refl image.core_entry, if◌then◌else◌, describes.volume, runs, ◌>>=◌, same) refl

  run_pei_core-ends :
      (pcd : SecPcd) (fs : List File) (ss : List Section)
      → IsBootImage p m fuel pcd.boot_fv_base info unset image.ipl other image.desc image.entry
      → IsDxeVolume p m fuel image.dxe_fv fs ss
      → 1 < fuel
      → 1 < 2 ^ p.uintn_bits
      → (w' : World Log) × (run_pei_core p m fuel info unset image other pcd.boot_fv_base
          ≡ some (stops w'))
        × IplDone p m unset image pcd.boot_fv_base fs ss w'
  unfolding run_pei_core initial_world
  run_pei_core-ends pcd fs ss b dxe rounds wide =
      let (w', ends, outcome, one, slot, boot, dxe_handle, table) =
        pei_core_main_loads_dxe_core p m fuel pcd.boot_fv_base info unset image.ipl other
          image.context image.dxe_fv dxe.stop
          (initial_world image.services image.desc image.entry []) fs ss b refl (omega arith) rounds
          wide dxe.reach dxe.there dxe.enough_for_files dxe.enough_for_sections dxe.files
          dxe.complete dxe.body in
      (
        w',
        ends,
        record {
          outcome = outcome;
          one_ppi = one;
          slot = slot;
          boot_volume = boot;
          dxe_volume = dxe_handle;
          table = table;
        },
      )

  -- From the reset to the DXE IPL. The start-up code sets up the processor, SecMain checks the
  -- boot volume and calls the PEI core in it, PeiCoreMain starts on its initial context with the
  -- volume of the hand-off, installs and dispatches the one PPI of the DXE IPL, DxeIplMain ends
  -- with the outcome for the first DXE core of the DXE volume, and the processor stops. The boot
  -- volume is valid, its HeaderLength covers the fields of the header, and it holds the PEI core
  -- and, as the build places it, the DXE IPL; the DXE volume, not at address 0 and with its end in
  -- reach of a pointer, consists of files one behind the other, and the core in it of sections;
  -- the serial port can be initialised; the temporary RAM is in reach of a pointer, which has a
  -- bit at least. The auxiliary registers and the libraries do what they document, and the fuel is
  -- more than 1, than the number of files, and than that of the sections.
  pub power_on_lem :
      {S : Type 0} (aux : Aux S) (lib : SecLib) (pcd : SecPcd) (bus : Bus S) (serial_pcd : Pcd)
      (base : ℕ) (stack stack' : ℕ → ℕ) (unaligned : Bool) (machine device : S) (fs : List File)
      (ss : List Section)
      → IsSecLib p lib
      → IsAux aux
      → IsSecVolume p m fuel lib pcd info image.core_entry
      → serial_port_initialize bus serial_pcd fuel (start_up aux unaligned machine)
        ≡ some (base, device)
      → IsBootImage p m fuel pcd.boot_fv_base info unset image.ipl other image.desc image.entry
      → IsDxeVolume p m fuel image.dxe_fv fs ss
      → 1 < fuel
      → 1 < 2 ^ p.uintn_bits
      → Ready aux machine (start_up aux unaligned machine)
        × (w' : World Log) × (power_on p m fuel info unset image other aux lib pcd bus serial_pcd
              stack stack' unaligned machine
            ≡ some (core_ended (stops w') device))
        × IplDone p m unset image pcd.boot_fv_base fs ss w'
  unfolding power_on
  power_on_lem aux lib pcd bus serial_pcd base stack stack' unaligned machine device fs ss laws
        registers sec ready b dxe rounds wide =
      let (set_up, e, started, well) =
        module_entry_point-StartsWell p lib pcd laws m aux bus serial_pcd fuel base stack stack'
          info unaligned machine device sec.core registers sec.covered sec.room ready
          sec.core_found in
      let (w', ends, done_) = run_pei_core-ends pcd fs ss b dxe rounds wide in
      (
        set_up,
        w',
        rw (started, ◌>>=◌)
            (after_sec_runs lib pcd device e w' sec.valid sec.core_there
              (subst (λ c. StartsWell p lib pcd m c device e) sec.core_at well) ends),
        done_,
      )
