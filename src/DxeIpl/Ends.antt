-- ===== src/DxeIpl/Ends.antt =====
-- DxeIplMain on a volume in which every search ends.
use edk2_arc.Base.{
  ℕ, ◌+◌, ◌≤◌, ◌≡◌, refl, true, not, inl, inr, Option, some, ◌>>=◌, Bool-cases, if◌then◌else◌,
}
use edk2_arc.Edk2.{Status, Mem, Platform, uintn}
use edk2_arc.Utils.Volume.{volume_end}
use edk2_arc.Utils.Volume.Ends.{IsWalkable, Ends}
use edk2_arc.Pei.Context.{PeiCore}
use edk2_arc.Pei.Ppi.{is_success}
use edk2_arc.Pei.Ffs.{pei_ffs_find_next_volume, pei_ffs_get_file_info}
use edk2_arc.Pei.Ffs.Ends.{pei_ffs_find_next_file-ends, pei_ffs_find_section_data-Ends}
use edk2_arc.DxeIpl.{
  Unset, Run, returned, dead_loop, failed, variable, dxe_fv_instance, pei_load_pe32, pei_load_file,
  load_and_run_dxe_core, dxe_ipl_load, dxe_ipl_main,
}

module _ (p : Platform) (m : Mem) (unset : Unset) (fuel fv : ℕ) (w : IsWalkable p m fuel fv) where
  module _ (file : ℕ) (fits : file + p.file_size m file ≤ volume_end p m fv) where
    pei_load_file-Ends : Ends (pei_load_file p m unset fuel true file)
    unfolding pei_load_file
    pei_load_file-Ends =
        let (r, e) =
          pei_ffs_find_section_data-Ends p m (volume_end p m fv) unset.info fuel p.section_pe32 file
            unset.pe32_data w.reach w.header w.enough fits in
        elim (Bool-cases (is_success r.status)) [
          | inl ok ↦ (
            pei_load_pe32 p m (uintn p (variable unset.pe32_data r.handle + p.sizeof_section)),
            rw (e, ◌>>=◌, ok) refl,
          )
          | inr bad ↦ (failed r.status, rw (e, ◌>>=◌, bad) refl)
        ]

    load_and_run_dxe_core-Ends : Ends (load_and_run_dxe_core p m unset fuel file)
    unfolding load_and_run_dxe_core
    load_and_run_dxe_core-Ends =
        let (r, e) = pei_load_file-Ends in
        elim (Bool-cases (is_success r.status)) [
          | inl ok ↦ (returned tt, rw (e, ◌>>=◌, ok) refl)
          | inr bad ↦ (dead_loop, rw (e, ◌>>=◌, bad) refl)
        ]

    abbrev after_load : Run (Unit {0}) → Run Status
    after_load (returned _) = returned Status.load_error
    after_load dead_loop = dead_loop

    after_load_lem :
        (r : Run (Unit {0}))
        → (elim r as (λ _. Option (Run Status)) [
          | returned _ ↦ some (returned Status.load_error)
          | dead_loop ↦ some dead_loop
        ])
          ≡ some (after_load r)
    after_load_lem (returned _) = refl
    after_load_lem dead_loop = refl

    dxe_ipl_load-Ends : Ends (dxe_ipl_load p m unset fuel file)
    unfolding dxe_ipl_load
    dxe_ipl_load-Ends =
        let (r, e) = load_and_run_dxe_core-Ends in
        elim (Bool-cases
          (is_success (pei_ffs_get_file_info p m unset.file file (some tt)).status)) [
            | inr bad ↦ (returned Status.load_error, rw bad refl)
            | inl ok ↦ (after_load r, rw (ok, if◌then◌else◌, e) (after_load_lem r))
          ]

  -- The second volume is the one in which every search ends.
  pub dxe_ipl_main-Ends :
      (c : PeiCore) → c.fv_handle dxe_fv_instance ≡ fv → Ends (dxe_ipl_main p m unset fuel c)
  unfolding dxe_ipl_main pei_ffs_find_next_volume
  dxe_ipl_main-Ends c same =
      let (h, e, whole) =
        pei_ffs_find_next_file-ends p m fuel p.filetype_dxe_core fv unset.addr w in
      elim whole [
        | inl bad ↦ (returned h.status, rw (same, e, ◌>>=◌, bad) refl)
        | inr (file, is_file, fits) ↦ elim (Bool-cases (is_success h.status)) [
          | inr bad ↦ (returned h.status, rw (same, e, ◌>>=◌, bad) refl)
          | inl ok ↦
              let (o, loaded) = dxe_ipl_load-Ends file fits in
              (o, rw (same, e, ◌>>=◌, ok, not, if◌then◌else◌, is_file) loaded)
        ]
      ]
