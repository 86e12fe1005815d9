-- ===== src/Sec/Entry/Ready.antt =====
-- The machine in which SecMain starts, and how the start of the processor ends.
use edk2_arc.Base.{
  ℕ, ◌%◌, ◌^◌, ◌≡◌, ◌≢◌, refl, Bool, true, false, if◌then◌else◌, ◌∙◌, sym, ap, arith,
}
use edk2_arc.Sec.Entry.{Aux, bit, bclr, start_icache, start_dcache, start_slc, start_dsp, start_up}
use edk2_arc.Sec.Entry.Units.{
  IsAux, is_setting, Controls, bset_0, bset_0_keeps, bclr_6, bclr_0, bclr_0_keeps,
  start_icache-Controls, start_dcache-Controls, start_slc-Controls, start_dsp-Controls,
}
use edk2_arc.Cpu.Reg.{
  aux_ic_ivic, aux_ic_ctrl, bcr_ic_build, aux_dc_ivdc, aux_dc_ctrl, bcr_dc_build, bcr_slc,
  aux_dsp_build, aux_dsp_ctrl, aux_slc_ctrl, status_ad_bit,
}

module _ {S : Type 0} (aux : Aux S) where
  -- Of the units that `before` has, `after` has the instruction cache and the data cache disabled, no
  -- write-back in an invalidation of the data cache, bits 0 and 6 of the control register of the
  -- system-level cache clear, and the control register of the DSP at 0; the control registers of units
  -- that do not exist are as they were.
  pub record Ready (before after : S) : Type 0 where
    pub icache : aux.lr before bcr_ic_build ≢ 0 → bit (aux.lr after aux_ic_ctrl) 0 ≡ 1
    pub dcache :
        aux.lr before bcr_dc_build ≢ 0
        → (bit (aux.lr after aux_dc_ctrl) 0 ≡ 1) × (bit (aux.lr after aux_dc_ctrl) 6 ≡ 0)
    pub slc :
        aux.lr before bcr_slc ≢ 0
        → (bit (aux.lr after aux_slc_ctrl) 0 ≡ 0) × (bit (aux.lr after aux_slc_ctrl) 6 ≡ 0)
    pub dsp : aux.lr before aux_dsp_build % 256 ≢ 0 → aux.lr after aux_dsp_ctrl ≡ 0
    pub no_icache :
        aux.lr before bcr_ic_build ≡ 0 → aux.lr after aux_ic_ctrl ≡ aux.lr before aux_ic_ctrl
    pub no_dcache :
        aux.lr before bcr_dc_build ≡ 0 → aux.lr after aux_dc_ctrl ≡ aux.lr before aux_dc_ctrl
    pub no_slc : aux.lr before bcr_slc ≡ 0 → aux.lr after aux_slc_ctrl ≡ aux.lr before aux_slc_ctrl
    pub no_dsp :
        aux.lr before aux_dsp_build % 256 ≡ 0
        → aux.lr after aux_dsp_ctrl ≡ aux.lr before aux_dsp_ctrl

module _ {S : Type 0} (aux : Aux S) (laws : IsAux aux) where
  flag-kept :
      (unaligned : Bool) (s : S) (r : ℕ)
      → is_setting r ≡ true
      → aux.lr (if unaligned then aux.flag s (2 ^ status_ad_bit) else s) r ≡ aux.lr s r
  flag-kept true s r setting = laws.flagged s (2 ^ status_ad_bit) r setting
  flag-kept false s r setting = refl

  -- What the part for one unit does, seen from before and behind the whole start.
  seen_from_outside :
      {build ctrl extra : ℕ} {value exists_ : ℕ → ℕ} {part : S → S}
      → Controls aux laws build ctrl extra value exists_ part
      → (s x up : S) → aux.lr x build ≡ aux.lr s build
      → aux.lr x ctrl ≡ aux.lr s ctrl
      → aux.lr up ctrl ≡ aux.lr (part x) ctrl
      → (exists_ (aux.lr s build) ≢ 0 → aux.lr up ctrl ≡ value (aux.lr s ctrl))
        × (exists_ (aux.lr s build) ≡ 0 → aux.lr up ctrl ≡ aux.lr s ctrl)
  seen_from_outside {build} {ctrl} {extra} {value} {exists_} {part} unit s x up same_build same_ctrl
        behind =
      (
        (λ there.
            behind
            ∙ unit.there x (λ no. there (ap exists_ (sym same_build) ∙ no))
            ∙ ap value same_ctrl),
        (λ absent.
            behind
            ∙ ap (λ y. aux.lr y ctrl) (unit.absent x (ap exists_ same_build ∙ absent))
            ∙ same_ctrl),
      )

  module _ (unaligned : Bool) (s : S) where
    abbrev up : S
    up = start_up aux unaligned s

    abbrev icache_done : S
    icache_done = start_icache aux s

    abbrev dcache_done : S
    dcache_done = start_dcache aux icache_done

    abbrev slc_done : S
    slc_done = start_slc aux dcache_done

    behind_dsp : (r : ℕ) → is_setting r ≡ true → aux.lr up r ≡ aux.lr (start_dsp aux slc_done) r
    unfolding start_up
    behind_dsp r setting = flag-kept unaligned (start_dsp aux slc_done) r setting

    behind_slc : (r : ℕ) → is_setting r ≡ true → r ≢ aux_dsp_ctrl → aux.lr up r ≡ aux.lr slc_done r
    behind_slc r setting dsp =
        behind_dsp r setting ∙ (start_dsp-Controls aux laws).other slc_done r setting dsp dsp

    behind_dcache :
        (r : ℕ)
        → is_setting r ≡ true
        → r ≢ aux_dsp_ctrl
        → r ≢ aux_slc_ctrl
        → aux.lr up r ≡ aux.lr dcache_done r
    behind_dcache r setting dsp slc =
        behind_slc r setting dsp ∙ (start_slc-Controls aux laws).other dcache_done r setting slc slc

    before_dcache :
        (r : ℕ)
        → is_setting r ≡ true
        → r ≢ aux_ic_ctrl
        → r ≢ aux_ic_ivic
        → aux.lr icache_done r ≡ aux.lr s r
    before_dcache r = (start_icache-Controls aux laws).other s r

    before_slc :
        (r : ℕ)
        → is_setting r ≡ true
        → r ≢ aux_ic_ctrl
        → r ≢ aux_ic_ivic
        → r ≢ aux_dc_ctrl
        → r ≢ aux_dc_ivdc
        → aux.lr dcache_done r ≡ aux.lr s r
    before_slc r setting ic ivic dc ivdc =
        (start_dcache-Controls aux laws).other icache_done r setting dc ivdc
        ∙ before_dcache r setting ic ivic

    before_dsp :
        (r : ℕ)
        → is_setting r ≡ true
        → r ≢ aux_ic_ctrl
        → r ≢ aux_ic_ivic
        → r ≢ aux_dc_ctrl
        → r ≢ aux_dc_ivdc
        → r ≢ aux_slc_ctrl
        → aux.lr slc_done r ≡ aux.lr s r
    before_dsp r setting ic ivic dc ivdc slc =
        (start_slc-Controls aux laws).other dcache_done r setting slc slc
        ∙ before_slc r setting ic ivic dc ivdc

    pub start_up-Ready : Ready aux s up
    start_up-Ready =
        let (ic, no_ic) = seen_from_outside (start_icache-Controls aux laws) s s up refl refl (
          behind_dcache aux_ic_ctrl refl (omega arith) (omega arith)
          ∙ (start_dcache-Controls aux laws).other icache_done aux_ic_ctrl refl (omega arith)
              (omega arith)) in
        let (dc, no_dc) =
          seen_from_outside (start_dcache-Controls aux laws) s icache_done up
            (before_dcache bcr_dc_build refl (omega arith) (omega arith))
            (before_dcache aux_dc_ctrl refl (omega arith) (omega arith))
            (behind_dcache aux_dc_ctrl refl (omega arith) (omega arith)) in
        let (sl, no_sl) =
          seen_from_outside (start_slc-Controls aux laws) s dcache_done up
            (before_slc bcr_slc refl (omega arith) (omega arith) (omega arith) (omega arith))
            (before_slc aux_slc_ctrl refl (omega arith) (omega arith) (omega arith) (omega arith))
            (behind_slc aux_slc_ctrl refl (omega arith)) in
        let (ds, no_ds) =
          seen_from_outside (start_dsp-Controls aux laws) s slc_done up
            (before_dsp aux_dsp_build refl (omega arith) (omega arith) (omega arith) (omega arith)
              (omega arith))
            (before_dsp aux_dsp_ctrl refl (omega arith) (omega arith) (omega arith) (omega arith)
              (omega arith))
            (behind_dsp aux_dsp_ctrl refl) in
        let ic_old = aux.lr s aux_ic_ctrl in
        let dc_old = aux.lr s aux_dc_ctrl in
        let sl_old = aux.lr s aux_slc_ctrl in
        record {
          icache = λ h. rw (ic h) (bset_0 ic_old);
          dcache = λ h. (
            rw (dc h) (bset_0 (bclr dc_old 6)),
            rw (dc h) (bset_0_keeps (bclr dc_old 6) ∙ bclr_6 dc_old),
          );
          slc = λ h. (
            rw (sl h) (bclr_0 (bclr sl_old 6)),
            rw (sl h) (bclr_0_keeps (bclr sl_old 6) ∙ bclr_6 sl_old),
          );
          dsp = ds;
          no_icache = no_ic;
          no_dcache = no_dc;
          no_slc = no_sl;
          no_dsp = no_ds;
        }
