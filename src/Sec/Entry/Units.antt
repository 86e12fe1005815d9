-- ===== src/Sec/Entry/Units.antt =====
-- The part of the start-up for each unit, and what it does to the registers.
use edk2_arc.Base.{ℕ, ◌≡◌, ◌≢◌, refl, Bool, true, ◌==◌, ◌||◌, ℕ_discrete, ne→test, ◌∙◌, arith}
use edk2_arc.Sec.Entry.{
  Aux, bit, bset, bclr, bmsk, start_icache, start_dcache, start_slc, start_dsp,
}
use edk2_arc.Cpu.Reg.{
  aux_ic_ivic, aux_ic_ctrl, bcr_ic_build, aux_dc_ivdc, aux_dc_ctrl, bcr_dc_build, bcr_slc,
  aux_dsp_build, aux_dsp_ctrl, aux_slc_ctrl,
}

-- The registers that say whether a unit exists, and those that control it.
abbrev pub is_setting : ℕ → Bool
is_setting r =
    r == bcr_ic_build
    || r == aux_ic_ctrl
    || r == bcr_dc_build
    || r == aux_dc_ctrl
    || r == bcr_slc
    || r == aux_slc_ctrl
    || r == aux_dsp_build
    || r == aux_dsp_ctrl

-- What the core documents of those registers: a control register holds what was written, and a write
-- to another register, or to STATUS32, leaves it as it is.
pub record IsAux {S : Type 0} (aux : Aux S) : Type 0 where
  pub written : (s : S) (r v : ℕ) → is_setting r ≡ true → aux.lr (aux.sr s r v) r ≡ v
  pub kept :
      (s : S) (r v r' : ℕ) → is_setting r' ≡ true → r' ≢ r → aux.lr (aux.sr s r v) r' ≡ aux.lr s r'
  pub flagged : (s : S) (v r : ℕ) → is_setting r ≡ true → aux.lr (aux.flag s v) r ≡ aux.lr s r

-- BSET and BCLR on the bits 0 and 6.
pub bset_0 : (v : ℕ) → bit (bset v 0) 0 ≡ 1
bset_0 v = ground arith

pub bset_0_keeps : (v : ℕ) → bit (bset v 0) 6 ≡ bit v 6
bset_0_keeps v = ground arith

pub bclr_6 : (v : ℕ) → bit (bclr v 6) 6 ≡ 0
bclr_6 v = ground arith

pub bclr_0 : (v : ℕ) → bit (bclr v 0) 0 ≡ 0
bclr_0 v = ground arith

pub bclr_0_keeps : (v : ℕ) → bit (bclr v 0) 6 ≡ bit v 6
bclr_0_keeps v = ground arith

module _ {S : Type 0} (aux : Aux S) (laws : IsAux aux) where
  -- Two writes, to a control register and to one that is not a setting.
  written_twice :
      (s : S) (r v r' v' : ℕ)
      → is_setting r ≡ true
      → r ≢ r'
      → aux.lr (aux.sr (aux.sr s r v) r' v') r ≡ v
  written_twice s r v r' v' setting ne =
      laws.kept (aux.sr s r v) r' v' r setting ne ∙ laws.written s r v setting

  kept_twice :
      (s : S) (r v r' v' q : ℕ)
      → is_setting q ≡ true
      → q ≢ r
      → q ≢ r'
      → aux.lr (aux.sr (aux.sr s r v) r' v') q ≡ aux.lr s q
  kept_twice s r v r' v' q setting ne ne' =
      laws.kept (aux.sr s r v) r' v' q setting ne' ∙ laws.kept s r v q setting ne

  -- The part of the start for one unit: with the unit it leaves `value` in the unit's control
  -- register, without it nothing changes, and no other setting changes.
  pub record Controls (build ctrl extra : ℕ) (value : ℕ → ℕ) (exists_ : ℕ → ℕ) (part : S → S)
      : Type 0 where
    pub there :
        (s : S) → exists_ (aux.lr s build) ≢ 0 → aux.lr (part s) ctrl ≡ value (aux.lr s ctrl)
    pub absent : (s : S) → exists_ (aux.lr s build) ≡ 0 → part s ≡ s
    pub other :
        (s : S) (r : ℕ)
        → is_setting r ≡ true
        → r ≢ ctrl
        → r ≢ extra
        → aux.lr (part s) r ≡ aux.lr s r

  abbrev pub whole : ℕ → ℕ
  whole v = v

  pub start_icache-Controls :
      Controls bcr_ic_build aux_ic_ctrl aux_ic_ivic (λ v. bset v 0) whole (start_icache aux)
  unfolding start_icache
  start_icache-Controls = record {
    there = λ s h. rw (ne→test (aux.lr s bcr_ic_build) 0 h) (
        written_twice s aux_ic_ctrl (bset (aux.lr s aux_ic_ctrl) 0) aux_ic_ivic 1 refl
          (omega arith));
    absent = λ s h. rw h refl;
    other = λ s r setting ctrl ivic. elim (ℕ_discrete (aux.lr s bcr_ic_build) 0) [
      | yes h ↦ rw h refl
      | no h ↦ rw (ne→test (aux.lr s bcr_ic_build) 0 h) (
          kept_twice s aux_ic_ctrl (bset (aux.lr s aux_ic_ctrl) 0) aux_ic_ivic 1 r setting ctrl
            ivic)
    ];
  }

  pub start_dcache-Controls :
      Controls bcr_dc_build aux_dc_ctrl aux_dc_ivdc
        (λ v. bset (bclr v 6) 0)
        whole
        (start_dcache aux)
  unfolding start_dcache
  start_dcache-Controls = record {
    there = λ s h. rw (ne→test (aux.lr s bcr_dc_build) 0 h) (
        written_twice s aux_dc_ctrl (bset (bclr (aux.lr s aux_dc_ctrl) 6) 0) aux_dc_ivdc 1 refl
          (omega arith));
    absent = λ s h. rw h refl;
    other = λ s r setting ctrl ivdc. elim (ℕ_discrete (aux.lr s bcr_dc_build) 0) [
      | yes h ↦ rw h refl
      | no h ↦ rw (ne→test (aux.lr s bcr_dc_build) 0 h) (
          kept_twice s aux_dc_ctrl (bset (bclr (aux.lr s aux_dc_ctrl) 6) 0) aux_dc_ivdc 1 r setting
            ctrl ivdc)
    ];
  }

  pub start_slc-Controls :
      Controls bcr_slc aux_slc_ctrl aux_slc_ctrl (λ v. bclr (bclr v 6) 0) whole (start_slc aux)
  unfolding start_slc
  start_slc-Controls = record {
    there = λ s h.
        rw (ne→test (aux.lr s bcr_slc) 0 h)
          (laws.written s aux_slc_ctrl (bclr (bclr (aux.lr s aux_slc_ctrl) 6) 0) refl);
    absent = λ s h. rw h refl;
    other = λ s r setting ctrl extra. elim (ℕ_discrete (aux.lr s bcr_slc) 0) [
      | yes h ↦ rw h refl
      | no h ↦
          rw (ne→test (aux.lr s bcr_slc) 0 h)
            (laws.kept s aux_slc_ctrl (bclr (bclr (aux.lr s aux_slc_ctrl) 6) 0) r setting ctrl)
    ];
  }

  pub start_dsp-Controls :
      Controls aux_dsp_build aux_dsp_ctrl aux_dsp_ctrl (λ _. 0) (λ v. bmsk v 7) (start_dsp aux)
  unfolding start_dsp
  start_dsp-Controls = record {
    there = λ s h.
        rw (ne→test (bmsk (aux.lr s aux_dsp_build) 7) 0 h) (laws.written s aux_dsp_ctrl 0 refl);
    absent = λ s h. rw h refl;
    other = λ s r setting ctrl extra. elim (ℕ_discrete (bmsk (aux.lr s aux_dsp_build) 7) 0) [
      | yes h ↦ rw h refl
      | no h ↦
          rw (ne→test (bmsk (aux.lr s aux_dsp_build) 7) 0 h)
            (laws.kept s aux_dsp_ctrl 0 r setting ctrl)
    ];
  }
