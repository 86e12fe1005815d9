-- ===== src/Boot/Orderly.antt =====
-- PeiCoreMain with the code of the DXE IPL, whatever the volumes hold.
use edk2_arc.Base.{
  ℕ, ◌≡◌, refl, ◌∙◌, Option, some, ◌>>=◌, Bool-cases, inl, inr, ◌==◌, if◌then◌else◌,
}
use edk2_arc.Edk2.{Status, Mem, Platform}
use edk2_arc.Utils.Info.{StatusInfo}
use edk2_arc.Utils.Section.{Found}
use edk2_arc.Pei.Context.{PeiCore}
use edk2_arc.Pei.Ppi.{calc_peim_fixup}
use edk2_arc.Pei.Ppi.Invariant.{pei_install_ppi-Outcome}
use edk2_arc.Pei.Core.{World, Flow, goes_on}
use edk2_arc.Pei.Core.Ends.{Holds, GoesWell, IsOrderly}
use edk2_arc.DxeIpl.{Run, returned, dead_loop, Unset, dxe_ipl_init, dxe_ipl_main}
use edk2_arc.Boot.{Log, IplImage, after_main, call_code}

module _ (p : Platform) (m : Mem) (fuel boot_fv : ℕ) (info : StatusInfo) (unset : Unset)
    (image : IplImage) (other : ℕ → ℕ → World Log → Option (Flow (World Log)))
    (ends : (info' : StatusInfo)
      → (f : Found) × (calc_peim_fixup p m fuel boot_fv (some info') ≡ some f))
    (max : ℕ) (fvs : ℕ → ℕ)
    (main_ends : (c : PeiCore)
      → c.fv_handle ≡ fvs
      → (o : Run Status) × (dxe_ipl_main p m unset fuel c ≡ some o))
    (others : IsOrderly p m other max fvs) where
  abbrev code : ℕ → ℕ → World Log → Option (Flow (World Log))
  code = call_code p m fuel boot_fv info unset image other

  after_main-GoesWell :
      (w : World Log) (o : Run Status)
      → Holds p m other max fvs w
      → GoesWell p m code max fvs (after_main p m fuel boot_fv info unset w o)
  after_main-GoesWell w (returned s) (valid, same, volumes) =
      (record { within = valid.within; countable = valid.countable }, same, volumes)
  after_main-GoesWell w dead_loop h = tt

  -- DxeIplInit and DxeIplMain keep the database well formed, and return or stop the processor.
  pub call_code-IsOrderly : IsOrderly p m code max fvs
  unfolding call_code dxe_ipl_init
  call_code-IsOrderly f a w (valid, same, volumes) = elim (Bool-cases (f == image.init_entry)) [
    | inl init ↦
        let (r, returns, outcome, valid') =
          pei_install_ppi-Outcome p m fuel boot_fv info image.ppi_list w.core ends valid in
        (
          goes_on (record w { core = r.core }),
          rw (init, if◌then◌else◌, returns, ◌>>=◌) refl,
          (valid', outcome.same_max ∙ same, outcome.same_volumes ∙ volumes),
        )
    | inr not_init ↦ elim (Bool-cases (f == image.main_entry)) [
      | inl main ↦
          let (o, returns) = main_ends w.core volumes in
          (
            after_main p m fuel boot_fv info unset w o,
            rw (not_init, if◌then◌else◌, main, returns, ◌>>=◌) refl,
            after_main-GoesWell w o (valid, same, volumes),
          )
      | inr not_main ↦
          let (r, returns, well) = others f a w (valid, same, volumes) in
          (r, rw (not_init, if◌then◌else◌, not_main) returns, well)
    ]
  ]
