-- ===== src/Pei/Ppi/Invariant.antt =====
-- The rounds of `PeiInstallPpi`, and the whole function.
use edk2_arc.Base.{
  ℕ, zero, suc, ◌+◌, ◌≤◌, ◌<◌, ◌≡◌, ◌≢◌, refl, inl, inr, Option, some, lt→leb, le→leb, ne→test,
  ℕ_discrete, dec_lt, ◌∙◌, if◌then◌else◌, arith,
}
use edk2_arc.Edk2.{Status, Mem, Platform, uintn, uintn_of_lt}
use edk2_arc.Utils.Info.{StatusInfo}
use edk2_arc.Utils.Section.{Found}
use edk2_arc.Pei.Context.{PeiCore}
use edk2_arc.Pei.Ppi.OneRound.{IsValid, Outcome, RoundOutcome, install_round-Outcome}
use edk2_arc.Pei.Ppi.{
  Reply, reply, calc_peim_fixup, Round, done, again, install_loop, pei_install_ppi,
}

module _ (p : Platform) (m : Mem) (fuel boot_fv_base : ℕ) where
  -- What holds after the later rounds holds after this one too.
  finish :
      (last rounds : ℕ) (info : StatusInfo) (idx ppi_list : ℕ) (c : PeiCore)
      → c.current_count ≡ idx
      → last ≤ idx
      → (r : Round) → RoundOutcome p m fuel boot_fv_base last idx c r
      → ((fixup : ℕ) (c' : PeiCore)
          → RoundOutcome p m fuel boot_fv_base last idx c (again fixup c')
          → (r : Reply) × (install_loop p m fuel boot_fv_base last rounds info
                (uintn p (idx + 1))
                fixup
                (uintn p (ppi_list + p.sizeof_ppi_descriptor))
                c'
              ≡ some r)
            × Outcome last c' r)
      → (out : Reply) × (elim r as (λ _. Option Reply) [
        | done r ↦ some r
        | again fixup' c' ↦
            install_loop p m fuel boot_fv_base last rounds info
              (uintn p (idx + 1))
              fixup'
              (uintn p (ppi_list + p.sizeof_ppi_descriptor))
              c'
      ]
          ≡ some out)
        × Outcome last c out
  finish last rounds info idx ppi_list c e l (done r) o later = (r, refl, o)
  finish last rounds info idx ppi_list c e l (again fixup' c') o later =
      let (r, returns, o') = later fixup' c' o in
      (
        r,
        returns,
        record {
          same_max = o'.same_max ∙ o.2;
          same_volumes = o'.same_volumes ∙ o.3;
          kept = λ i below. o'.kept i below ∙ o.4 i (omega arith);
          counted = elim (o'.counted) [
            | inl added ↦ inl (added.0, omega (arith, e, o.0, added.1), omega (arith, o.2, added.2))
            | inr rejected_list ↦ inr rejected_list
          ];
        },
      )

  module _
      (ends : (info : StatusInfo)
        → (f : Found) × (calc_peim_fixup p m fuel boot_fv_base (some info) ≡ some f)) where
    install_loop-Outcome :
        (last rounds : ℕ) (info : StatusInfo) (idx fixup ppi_list : ℕ) (c : PeiCore)
        → IsValid p c
        → c.current_count ≡ idx
        → idx < c.max_count
        → last ≤ idx
        → c.max_count ≤ idx + rounds
        → (r : Reply) × (install_loop p m fuel boot_fv_base last rounds info idx fixup ppi_list c
            ≡ some r)
          × Outcome last c r
    unfolding install_loop
    install_loop-Outcome last zero info idx fixup ppi_list c v e h l enough = absurd (omega arith)
    install_loop-Outcome last (suc rounds) info idx fixup ppi_list c v e h l enough =
        let (r, round, o) =
          install_round-Outcome p m fuel boot_fv_base ends last info idx fixup ppi_list c v e h l in
        rw round (
          finish last rounds info idx ppi_list c e l r o λ fixup' c' o'.
            let idx' : uintn p (idx + 1) ≡ idx + 1 = uintn_of_lt p (idx + 1) (omega arith) in
            install_loop-Outcome last rounds info (uintn p (idx + 1)) fixup'
              (uintn p (ppi_list + p.sizeof_ppi_descriptor)) c'
              (record { within = omega arith; countable = omega arith }) (omega arith) (omega arith)
              (omega arith) (omega arith))

  -- `PeiInstallPpi` always returns, if the search for the fixup does. It never touches the slots
  -- that were in use. With EFI_SUCCESS it has added at least one descriptor and not passed the
  -- capacity; with any other status the count is what it was, so that the whole list is rejected.
  -- The database is well formed: the count is not above the capacity, and that is in the range of
  -- a UINTN.
  pub pei_install_ppi-Outcome :
      (info : StatusInfo) (ppi_list : ℕ) (c : PeiCore)
      → ((info' : StatusInfo)
          → (f : Found) × (calc_peim_fixup p m fuel boot_fv_base (some info') ≡ some f))
      → IsValid p c
      → (r : Reply) × (pei_install_ppi p m fuel boot_fv_base info ppi_list c ≡ some r)
        × Outcome c.current_count c r
        × IsValid p r.core
  unfolding pei_install_ppi
  pei_install_ppi-Outcome info ppi_list c ends v = elim (ℕ_discrete ppi_list 0) [
    | yes nothing ↦
        (reply Status.invalid_parameter c, rw nothing, unchanged Status.invalid_parameter cc, v)
    | no list ↦ elim (dec_lt c.current_count c.max_count) [
      | no full ↦ (
        reply Status.not_found c,
        rw (ne→test _ _ list, if◌then◌else◌, le→leb c.max_count c.current_count (omega arith)),
        unchanged Status.not_found cc,
        v,
      )
      | yes room ↦
          let (r, returns, o) =
            install_loop-Outcome ends c.current_count c.max_count info c.current_count 0 ppi_list c
              v refl room (omega arith) (omega arith) in
          (
            r,
            rw (ne→test _ _ list, if◌then◌else◌, lt→leb c.max_count c.current_count room) returns,
            o,
            valid r o,
          )
    ]
  ]
    where
      unchanged : (s : Status) → s ≢ Status.success → Outcome c.current_count c (reply s c)
      unchanged s ne = record {
        same_max = refl;
        same_volumes = refl;
        kept = λ i below. refl;
        counted = inr (ne, refl);
      }

      valid : (r : Reply) → Outcome c.current_count c r → IsValid p r.core
      valid r o = record {
        within = omega (arith, o.same_max, o.counted);
        countable = omega (arith, o.same_max);
      }
