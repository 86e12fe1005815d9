-- ===== src/Sec/Ends.antt =====
-- SecMain on a volume in which every search ends.
use edk2_arc.Base.{ℕ, ◌≡◌, refl, Bool-cases, inl, inr, ◌==◌, not, none, some, ◌>>=◌, if◌then◌else◌}
use edk2_arc.Edk2.{Mem, Platform}
use edk2_arc.Utils.Info.{StatusInfo}
use edk2_arc.Utils.Section.{null}
use edk2_arc.Utils.Volume.Ends.{IsWalkable, get_te_entry_point-Ends}
use edk2_arc.Serial.{Bus, Pcd, serial_port_initialize}
use edk2_arc.Sec.{
  SecLib, SecPcd, SecEnd, halted, entered, sec_data, boot_fv, is_valid_boot_fv, sec_main,
}

module _ (p : Platform) (lib : SecLib) (pcd : SecPcd) (m : Mem) where
  -- The device as it was initialised, and the boot volume handed over.
  abbrev pub HandsOver : {S : Type 0} → S → SecEnd S → Type 0
  HandsOver device (halted d) = d ≡ device
  HandsOver device (entered ep data_ d) =
      (d ≡ device) × (data_.boot_firmware_volume_base ≡ pcd.boot_fv_base)

  pub sec_main-ends :
      {S : Type 0} (bus : Bus S) (serial_pcd : Pcd) (fuel base : ℕ) (stack stack' : ℕ → ℕ)
      (info : StatusInfo) (machine device : S)
      → IsWalkable p m fuel pcd.boot_fv_base
      → serial_port_initialize bus serial_pcd fuel machine ≡ some (base, device)
      → (e : SecEnd S) × (sec_main p lib pcd m bus serial_pcd fuel stack stack' info machine
          ≡ some e)
        × HandsOver device e
  unfolding sec_main sec_data
  sec_main-ends bus serial_pcd fuel base stack stack' info machine device w ready =
      let fv = boot_fv p lib pcd m stack stack' in
      let (f, e) =
        get_te_entry_point-Ends p m fuel pcd.boot_fv_base w p.filetype_pei_core none (some info) in
      elim (Bool-cases (lib.fv_signature fv 0 == lib.fvh_signature)) [
        | inr unsigned ↦ (halted device, rw (ready, ◌>>=◌, unsigned) refl, refl)
        | inl signed ↦ elim (Bool-cases (is_valid_boot_fv p lib pcd fv)) [
          | inr other ↦
              (halted device, rw (ready, ◌>>=◌, signed, not, if◌then◌else◌, other) refl, refl)
          | inl valid ↦ elim (Bool-cases (f.ptr == null)) [
            | inl absent ↦ (
              halted device,
              rw (ready, ◌>>=◌, signed, not, if◌then◌else◌, valid, e, absent) refl,
              refl,
            )
            | inr there ↦ (
              entered f.ptr (sec_data p lib pcd fv) device,
              rw (ready, ◌>>=◌, signed, not, if◌then◌else◌, valid, e, there) refl,
              (refl, refl),
            )
          ]
        ]
      ]
