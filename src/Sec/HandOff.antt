-- ===== src/Sec/HandOff.antt =====
-- When SecMain calls the PEI core, and what it hands over.
use edk2_arc.Base.{
  ℕ, ◌+◌, ◌/◌, ◌%◌, ◌^◌, ◌≤◌, ◌<◌, ◌≡◌, ◌≢◌, refl, ◌⊎◌, inl, inr, none, some, ◌>>=◌, Bool, true,
  false, ◌==◌, ◌&&◌, not, ◌↔◌, if◌then◌else◌, Bool-cases, ℕ_discrete, ◌∙◌, sym, ap, arith,
}
use edk2_arc.Edk2.{Mem, Platform, uintn, uintn_of_lt}
use edk2_arc.Utils.Info.{StatusInfo}
use edk2_arc.Utils.Section.{Found, null}
use edk2_arc.Utils.Volume.{get_te_entry_point}
use edk2_arc.Serial.{Bus, Pcd, serial_port_initialize}
use edk2_arc.Sec.{
  SecLib, SecPcd, HandOffData, SecEnd, halted, entered, boot_fv, is_valid_boot_fv, sec_data,
  sec_main,
}
use edk2_arc.Sec.Header.{IsSecLib, flash_header_length, boot_fv-eq-flash}

-- The hand-off describes the volume, and splits the temporary RAM into the PEI heap and the stack.
pub record Describes (p : Platform) (pcd : SecPcd) (m : Mem) (d : HandOffData) : Type 0 where
  pub volume : d.boot_firmware_volume_base ≡ pcd.boot_fv_base
  pub volume_size : d.boot_firmware_volume_size ≡ uintn p (p.fv_length m pcd.boot_fv_base)
  pub ram :
      (d.temporary_ram_base ≡ pcd.temporary_ram_base)
      × (d.temporary_ram_size ≡ pcd.temporary_ram_size)
  pub heap : d.pei_temporary_ram_base ≡ d.temporary_ram_base
  pub stack_behind_heap : d.pei_temporary_ram_base + d.pei_temporary_ram_size ≡ d.stack_base
  pub equal_parts : d.stack_size ≡ d.pei_temporary_ram_size
  pub all_of_ram :
      d.stack_base + d.stack_size + d.temporary_ram_size % 2
      ≡ d.temporary_ram_base + d.temporary_ram_size

module _ (p : Platform) (lib : SecLib) (pcd : SecPcd) (m : Mem) where
  -- The volume at PcdBootFvBase has the signature and the file system of a boot volume.
  pub record IsBootVolume : Type 0 where
    pub signature : lib.fv_signature m pcd.boot_fv_base ≡ lib.fvh_signature
    pub file_system : lib.fv_file_system_guid m pcd.boot_fv_base ≡ lib.file_system2_guid

  -- What the end of SecMain says, where `pei_ep` is the entry point that was found.
  abbrev pub EndsWell : {S : Type 0} → ℕ → S → SecEnd S → Type 0
  EndsWell pei_ep device (halted d) = (d ≡ device) × (¬ IsBootVolume ⊎ (pei_ep ≡ null))
  EndsWell pei_ep device (entered ep data_ d) =
      (d ≡ device) × IsBootVolume × (ep ≡ pei_ep) × (pei_ep ≢ null) × Describes p pcd m data_

module _ (p : Platform) (lib : SecLib) (pcd : SecPcd) (laws : IsSecLib p lib) (m : Mem) where
  sec_data-Describes :
      (fv : ℕ → ℕ)
      → pcd.temporary_ram_base + pcd.temporary_ram_size < 2 ^ p.uintn_bits
      → p.fv_length fv 0 ≡ p.fv_length m pcd.boot_fv_base
      → Describes p pcd m (sec_data p lib pcd fv)
  unfolding sec_data
  sec_data-Describes fv room same =
      let base : uintn p (pcd.temporary_ram_base + pcd.temporary_ram_size / 2 ^ 1)
          ≡ pcd.temporary_ram_base + pcd.temporary_ram_size / 2 ^ 1 =
        uintn_of_lt p (pcd.temporary_ram_base + pcd.temporary_ram_size / 2 ^ 1) (omega arith) in
      record {
        volume = refl;
        volume_size = rw same refl;
        ram = (refl, refl);
        heap = refl;
        stack_behind_heap = sym base;
        equal_parts = refl;
        all_of_ram = rw base (omega arith);
      }

  is_valid_boot_fv_lem :
      (fv : ℕ → ℕ)
      → lib.fv_file_system_guid fv 0 ≡ lib.fv_file_system_guid m pcd.boot_fv_base
      → is_valid_boot_fv p lib pcd fv
        ≡ lib.compare_guid (lib.fv_file_system_guid m pcd.boot_fv_base) lib.file_system2_guid
  unfolding is_valid_boot_fv
  is_valid_boot_fv_lem fv e = ap (λ g. lib.compare_guid g lib.file_system2_guid) e

  -- The two checks of SecMain, on the volume itself.
  abbrev boot_volume_test : Bool
  boot_volume_test =
      lib.fv_signature m pcd.boot_fv_base == lib.fvh_signature
      && lib.compare_guid (lib.fv_file_system_guid m pcd.boot_fv_base) lib.file_system2_guid

  boot_volume-cases :
      ((boot_volume_test ≡ true) × IsBootVolume p lib pcd m)
      ⊎ ((boot_volume_test ≡ false) × (¬ IsBootVolume p lib pcd m))
  boot_volume-cases = elim (Bool-cases boot_volume_test) [
    | inl good ↦ inl (good, ground (arith, good, compared))
    | inr bad ↦ inr (bad, λ v. ground (arith, bad, compared, v.signature, v.file_system))
  ]
    where
      compared :
          (lib.compare_guid (lib.fv_file_system_guid m pcd.boot_fv_base) lib.file_system2_guid
            ≡ true)
          ↔ (lib.fv_file_system_guid m pcd.boot_fv_base ≡ lib.file_system2_guid)
      compared = laws.compares (lib.fv_file_system_guid m pcd.boot_fv_base) lib.file_system2_guid

  -- SecMain once the serial port is ready and the search has returned.
  sec_main_lem :
      {S : Type 0} (bus : Bus S) (serial_pcd : Pcd) (fuel base : ℕ) (stack stack' : ℕ → ℕ)
      (info : StatusInfo) (device device' : S) (f : Found)
      → 50 ≤ flash_header_length pcd m
      → serial_port_initialize bus serial_pcd fuel device ≡ some (base, device')
      → get_te_entry_point p m fuel pcd.boot_fv_base p.filetype_pei_core none (some info) ≡ some f
      → sec_main p lib pcd m bus serial_pcd fuel stack stack' info device
        ≡ some (
            if not boot_volume_test
            then halted device'
            else if f.ptr == null
            then halted device'
            else entered f.ptr (sec_data p lib pcd (boot_fv p lib pcd m stack stack')) device')
  unfolding sec_main
  sec_main_lem bus serial_pcd fuel base stack stack' info device device' f covered ready
        search_ends =
      let (sig, guid, size) =
        laws.fields (boot_fv p lib pcd m stack stack') m pcd.boot_fv_base
          (boot_fv-eq-flash p lib pcd laws m stack stack' covered) in
      rw
        (
          ready,
          ◌>>=◌,
          sig,
          is_valid_boot_fv_lem (boot_fv p lib pcd m stack stack') guid,
          search_ends,
        )
        (ground arith)

  -- SecMain ends, and calls the PEI core exactly if the volume at PcdBootFvBase has the signature
  -- and the file system of a boot volume and GetTeEntryPoint finds the PEI core in it; the hand-
  -- off data then describe the volume, and split the temporary RAM into two halves, the PEI heap
  -- and behind it the stack. The serial port can be initialised, the search returns, HeaderLength
  -- covers the fields of the header, the temporary RAM is in reach of a pointer, and the libraries
  -- do what they document.
  pub sec_main-EndsWell :
      {S : Type 0} (bus : Bus S) (serial_pcd : Pcd) (fuel base : ℕ) (stack stack' : ℕ → ℕ)
      (info : StatusInfo) (device device' : S) (f : Found)
      → 50 ≤ flash_header_length pcd m
      → pcd.temporary_ram_base + pcd.temporary_ram_size < 2 ^ p.uintn_bits
      → serial_port_initialize bus serial_pcd fuel device ≡ some (base, device')
      → get_te_entry_point p m fuel pcd.boot_fv_base p.filetype_pei_core none (some info) ≡ some f
      → (e : SecEnd S) × (sec_main p lib pcd m bus serial_pcd fuel stack stack' info device
          ≡ some e)
        × EndsWell p lib pcd m f.ptr device' e
  sec_main-EndsWell bus serial_pcd fuel base stack stack' info device device' f covered room ready
        search_ends =
      let fv = boot_fv p lib pcd m stack stack' in
      let (sig, guid, size) =
        laws.fields fv m pcd.boot_fv_base
          (boot_fv-eq-flash p lib pcd laws m stack stack' covered) in
      let run =
        sec_main_lem bus serial_pcd fuel base stack stack' info device device' f covered ready
          search_ends in
      elim boot_volume-cases [
        | inr (test, bad) ↦ (halted device', run ∙ rw test refl, (refl, inl bad))
        | inl (test, good) ↦ elim (ℕ_discrete f.ptr null) [
          | yes absent ↦
              (halted device', run ∙ rw test (ground (arith, absent)), (refl, inr absent))
          | no found ↦ (
            entered f.ptr (sec_data p lib pcd fv) device',
            run ∙ rw test (ground (arith, found)),
            (refl, good, refl, found, sec_data-Describes fv room size),
          )
        ]
      ]
