-- ===== src/Pei/Ppi/OneRound.antt =====
-- One round of `PeiInstallPpi`, and what an installation does to the database.
use edk2_arc.Base.{
  ℕ, ◌+◌, ◌^◌, ◌≤◌, ◌<◌, ◌≡◌, ◌≢◌, refl, ◌⊎◌, inl, inr, true, false, not, ◌&&◌, some, leb, leb→lt,
  ◌==◌, if◌then◌else◌, Bool-cases, arith,
}
use edk2_arc.Edk2.{Status, Mem, Platform, uintn, uintn_of_lt}
use edk2_arc.Utils.Info.{StatusInfo}
use edk2_arc.Utils.Section.{Found}
use edk2_arc.Pei.Context.{PeiCore}
use edk2_arc.Pei.Ppi.{
  Reply, reply, status_of, is_success, is_no_ppi, is_pic_ppi, is_last_ppi, fixup_ppi,
  calc_peim_fixup, next_fixup, accept, reject, Round, done, again, install_round,
}

-- The count is in range, and the array is not longer than a UINTN can count.
pub record IsValid (p : Platform) (c : PeiCore) : Type 0 where
  pub within : c.current_count ≤ c.max_count
  pub countable : c.max_count < 2 ^ p.uintn_bits

-- What an installation into `c`, whose first `last` slots were in use, has done.
pub record Outcome (last : ℕ) (c : PeiCore) (r : Reply) : Type 0 where
  pub same_max : r.core.max_count ≡ c.max_count
  pub same_volumes : r.core.fv_handle ≡ c.fv_handle
  pub kept : (i : ℕ) → i < last → r.core.ppi_ptrs i ≡ c.ppi_ptrs i
  pub counted :
      ((r.status ≡ Status.success)
        × (c.current_count < r.core.current_count)
        × (r.core.current_count ≤ c.max_count))
      ⊎ ((r.status ≢ Status.success) × (r.core.current_count ≡ last))

module _ (p : Platform) (m : Mem) (fuel boot_fv_base : ℕ) where
  next_fixup-ends :
      ((info : StatusInfo)
        → (f : Found) × (calc_peim_fixup p m fuel boot_fv_base (some info) ≡ some f))
      → (flags fixup : ℕ) (info : StatusInfo)
      → (s : Status) × (fixup' : ℕ) × (next_fixup p m fuel boot_fv_base flags fixup info
          ≡ some (s, fixup'))
  unfolding next_fixup
  next_fixup-ends ends flags fixup info = elim (Bool-cases (fixup == 0 && is_pic_ppi p flags)) [
    | inl pic ↦ let (f, e) = ends info in (status_of info f.info, f.ptr, rw (pic, if◌then◌else◌, e))
    | inr other ↦ (Status.success, fixup, rw other)
  ]

  accept_lem :
      (idx fixup ppi_list : ℕ) (c : PeiCore)
      → IsValid p c
      → c.current_count ≡ idx
      → idx < c.max_count
      → let c' = accept p m fuel boot_fv_base idx fixup ppi_list c in
        (c'.current_count ≡ idx + 1)
        × (c'.max_count ≡ c.max_count)
        × (c'.fv_handle ≡ c.fv_handle)
        × ((i : ℕ) → i < idx → c'.ppi_ptrs i ≡ c.ppi_ptrs i)
        × ((c'.desc ppi_list).flags ≡ (c.desc ppi_list).flags)
  unfolding accept fixup_ppi
  accept_lem idx fixup ppi_list c v e h = (
    omega (arith, uintn_of_lt p (c.current_count + 1) (omega arith)),
    refl,
    refl,
    λ i below. ground arith,
    ground arith,
  )

  -- A round keeps the database in order, and fills one slot if it goes on.
  abbrev pub RoundOutcome : ℕ → ℕ → PeiCore → Round → Type 0
  RoundOutcome last idx c (done r) = Outcome last c r
  RoundOutcome last idx c (again fixup c') =
      (c'.current_count ≡ idx + 1)
      × (idx + 1 < c.max_count)
      × (c'.max_count ≡ c.max_count)
      × (c'.fv_handle ≡ c.fv_handle)
      × ((i : ℕ) → i < idx → c'.ppi_ptrs i ≡ c.ppi_ptrs i)

  rejected :
      (last idx : ℕ) (s : Status) (c c' : PeiCore)
      → s ≢ Status.success
      → c'.max_count ≡ c.max_count
      → c'.fv_handle ≡ c.fv_handle
      → last ≤ idx
      → ((i : ℕ) → i < idx → c'.ppi_ptrs i ≡ c.ppi_ptrs i)
      → RoundOutcome last idx c (reject last s c')
  rejected last idx s c c' ne same_max same_volumes l kept = record {
    same_max = same_max;
    same_volumes = same_volumes;
    kept = λ i below. kept i (omega arith);
    counted = inr (ne, refl);
  }

  failed : (s : Status) → not (is_success s) ≡ true → s ≢ Status.success
  failed s h e = let h' : false ≡ true = rw e at h in cc

  -- The four ways in which a round may end: without the descriptor, with it as the last one or one too
  -- many, or with more to come.
  pub data Shape (last idx ppi_list : ℕ) (c : PeiCore) : Round → Type 0 where
    refused : (s : Status) → s ≢ Status.success → Shape last idx ppi_list c (reject last s c)
    ended :
        (fixup : ℕ)
        → is_no_ppi p (c.desc ppi_list).flags ≡ false
        → is_last_ppi p (c.desc ppi_list).flags ≡ true
        → Shape last idx ppi_list c
            (done (reply Status.success (accept p m fuel boot_fv_base idx fixup ppi_list c)))
    overfull :
        (fixup : ℕ)
        → Shape last idx ppi_list c
            (reject last Status.not_found (accept p m fuel boot_fv_base idx fixup ppi_list c))
    more :
        (fixup : ℕ)
        → is_no_ppi p (c.desc ppi_list).flags ≡ false
        → is_last_ppi p (c.desc ppi_list).flags ≡ false
        → idx + 1 < c.max_count
        → Shape last idx ppi_list c
            (again fixup (accept p m fuel boot_fv_base idx fixup ppi_list c))

  Shape-Outcome :
      (last idx ppi_list : ℕ) (c : PeiCore) (r : Round)
      → IsValid p c
      → c.current_count ≡ idx
      → idx < c.max_count
      → last ≤ idx
      → Shape last idx ppi_list c r
      → RoundOutcome last idx c r
  Shape-Outcome last idx ppi_list c r v e h l (refused s ne) =
      rejected last idx s c c ne refl refl l (λ i b. refl)
  Shape-Outcome last idx ppi_list c r v e h l (ended fixup ppi last_one) =
      let accepted = accept_lem idx fixup ppi_list c v e h in
      record {
        same_max = accepted.1;
        same_volumes = accepted.2;
        kept = λ i below. accepted.3 i (omega arith);
        counted = inl (refl, omega (arith, accepted.0), omega (arith, accepted.0));
      }
  Shape-Outcome last idx ppi_list c r v e h l (overfull fixup) =
      let accepted = accept_lem idx fixup ppi_list c v e h in
      rejected last idx Status.not_found c (accept p m fuel boot_fv_base idx fixup ppi_list c) (cc)
        accepted.1 accepted.2 l accepted.3
  Shape-Outcome last idx ppi_list c r v e h l (more fixup ppi not_last room) =
      let accepted = accept_lem idx fixup ppi_list c v e h in
      (accepted.0, room, accepted.1, accepted.2, accepted.3)

  module _
      (ends : (info : StatusInfo)
        → (f : Found) × (calc_peim_fixup p m fuel boot_fv_base (some info) ≡ some f)) where
    pub install_round-Shape :
        (last : ℕ) (info : StatusInfo) (idx fixup ppi_list : ℕ) (c : PeiCore)
        → IsValid p c
        → c.current_count ≡ idx
        → idx < c.max_count
        → (r : Round) × (install_round p m fuel boot_fv_base last info idx fixup ppi_list c
            ≡ some r)
          × Shape last idx ppi_list c r
    unfolding install_round
    install_round-Shape last info idx fixup ppi_list c v e h =
        let (s, fixup', fixed) = next_fixup-ends ends (c.desc ppi_list).flags fixup info in
        let c' = accept p m fuel boot_fv_base idx fixup' ppi_list c in
        let accepted = accept_lem idx fixup' ppi_list c v e h in
        elim (Bool-cases (is_no_ppi p (c.desc ppi_list).flags)) [
          | inl no_ppi ↦ (
            reject last Status.invalid_parameter c,
            rw no_ppi,
            refused Status.invalid_parameter cc,
          )
          | inr ppi ↦ elim (Bool-cases (not (is_success s))) [
            | inl bad ↦
                (reject last s c, rw (ppi, if◌then◌else◌, fixed, bad), refused s (failed s bad))
            | inr good ↦ elim (Bool-cases (is_last_ppi p (c'.desc ppi_list).flags)) [
              | inl last_one ↦ (
                done (reply Status.success c'),
                rw (ppi, if◌then◌else◌, fixed, good, last_one),
                ended fixup' ppi (rw accepted.4 at last_one),
              )
              | inr more_of_it ↦ elim (Bool-cases (leb c'.max_count (uintn p (idx + 1)))) [
                | inl full ↦ (
                  reject last Status.not_found c',
                  rw (ppi, if◌then◌else◌, fixed, good, more_of_it, full),
                  overfull fixup',
                )
                | inr room ↦ (
                  again fixup' c',
                  rw (ppi, if◌then◌else◌, fixed, good, more_of_it, room),
                  more fixup' ppi (rw accepted.4 at more_of_it) (
                      omega (
                        arith,
                        leb→lt c'.max_count (uintn p (idx + 1)) room,
                        uintn_of_lt p (idx + 1) (omega arith),
                        accepted.1,
                      )),
                )
              ]
            ]
          ]
        ]

    pub install_round-Outcome :
        (last : ℕ) (info : StatusInfo) (idx fixup ppi_list : ℕ) (c : PeiCore)
        → IsValid p c
        → c.current_count ≡ idx
        → idx < c.max_count
        → last ≤ idx
        → (r : Round) × (install_round p m fuel boot_fv_base last info idx fixup ppi_list c
            ≡ some r)
          × RoundOutcome last idx c r
    install_round-Outcome last info idx fixup ppi_list c v e h l =
        let (r, returns, shape) = install_round-Shape last info idx fixup ppi_list c v e h in
        (r, returns, Shape-Outcome last idx ppi_list c r v e h l shape)
