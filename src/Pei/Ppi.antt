-- ===== src/Pei/Ppi.antt =====
-- `CalcPeimFixup`, `FixupPpi` and `PeiInstallPpi` of PeiServices.c.
-- The log lines are left out.
pub mod OneRound
pub mod Invariant
pub mod Returns
pub mod Single
pub mod Run
pub mod Grow
pub mod Rounds
pub mod Whole
use edk2_arc.Base.{
  ℕ, zero, suc, ◌+◌, Bool, true, false, not, ◌&&◌, ltb, leb, ◌==◌, if◌then◌else◌, Option, none,
  some, bit_and, u32, update, ◌>>=◌,
}
use edk2_arc.Edk2.{Status, Guid, Mem, Platform, uintn}
use edk2_arc.Utils.Guids.{compare_guids}
use edk2_arc.Utils.Info.{StatusInfo}
use edk2_arc.Utils.Section.{Found}
use edk2_arc.Utils.Volume.{get_file_section}
use edk2_arc.Pei.Context.{PpiDescriptor, PeiCore}

-- A service's status and the context afterwards.
pub record Reply : Type 0 where
  pub status : Status
  pub core : PeiCore

abbrev pub reply : Status → PeiCore → Reply
reply s c = record { status = s; core = c }

-- How a round ends: with a return, or with the next descriptor, under the fixup in use.
pub data Round : Type 0 where
  done : Reply → Round
  again : ℕ → PeiCore → Round

-- The label `err`.
abbrev pub reject : ℕ → Status → PeiCore → Round
reject last_count s c = done (reply s (record c { current_count = last_count }))

abbrev pub is_success : Status → Bool
is_success Status.success = true
is_success _ = false

-- `StatusInfo.Status` after a call that was given the address of `StatusInfo`.
abbrev pub status_of : StatusInfo → Option StatusInfo → Status
status_of info none = info.status
status_of info (some info') = info'.status

module _ (p : Platform) where
  -- `(Flags & EFI_PEI_PPI_DESCRIPTOR_PPI) == 0`, `IS_PIC_PPI` and `IS_LAST_PPI`.
  unfoldable pub is_no_ppi : ℕ → Bool
  is_no_ppi flags = bit_and flags p.flag_ppi == 0

  unfoldable pub is_pic_ppi : ℕ → Bool
  is_pic_ppi flags = bit_and flags p.flag_pic == p.flag_pic

  unfoldable pub is_last_ppi : ℕ → Bool
  is_last_ppi flags = bit_and flags p.flag_terminate_list == p.flag_terminate_list

  -- The descriptor and the entry point are moved in place, also by 0.
  unfoldable pub fixup_ppi : ℕ → ℕ → PeiCore → PeiCore
  fixup_ppi ppi_desc fixup c =
      let d = c.desc ppi_desc in
      let ppi = uintn p (d.ppi + fixup) in
      record c {
        desc = update c.desc ppi_desc (record d { ppi = ppi; guid = uintn p (d.guid + fixup) });
        entry = update c.entry ppi (uintn p (c.entry ppi + fixup));
      }

  module _ (m : Mem) (fuel boot_fv_base : ℕ) where
    -- The address of the section, as a UINT32.
    unfoldable pub calc_peim_fixup : Option StatusInfo → Option Found
    calc_peim_fixup info = do
      f ←
          get_file_section p m fuel boot_fv_base p.section_freeform_subtype_guid p.filetype_peim
            none info
      some (record f { ptr = u32 f.ptr })

    -- The fixup in use at a descriptor, and whether it could be computed. `StatusInfo` is a local
    -- variable, so its pointer is never NULL.
    unfoldable pub next_fixup : ℕ → ℕ → StatusInfo → Option (Status × ℕ)
    next_fixup flags fixup info =
        if fixup == 0 && is_pic_ppi flags
        then (do f ← calc_peim_fixup (some info); some (status_of info f.info, f.ptr))
        else some (Status.success, fixup)

    -- A descriptor goes into slot `idx`, and is fixed up there.
    unfoldable pub accept : ℕ → ℕ → ℕ → PeiCore → PeiCore
    accept idx fixup ppi_list c = fixup_ppi ppi_list fixup (record c {
      ppi_ptrs = update c.ppi_ptrs idx ppi_list;
      current_count = uintn p (c.current_count + 1);
    })

    -- One round of the `while (1)`, at descriptor `ppi_list` and slot `idx`.
    unfoldable pub install_round : ℕ → StatusInfo → ℕ → ℕ → ℕ → PeiCore → Option Round
    install_round last_count info idx fixup ppi_list c =
        let flags = (c.desc ppi_list).flags in
        if is_no_ppi flags
        then some (reject last_count Status.invalid_parameter c)
        else next_fixup flags fixup info >>= λ (s, fixup').
            let c' = accept idx fixup' ppi_list c in
            if not (is_success s)
            then some (reject last_count s c)
            else if is_last_ppi (c'.desc ppi_list).flags
            then some (done (reply Status.success c'))
            else if leb c'.max_count (uintn p (idx + 1))
            then some (reject last_count Status.not_found c')
            else some (again fixup' c')

    -- The `while (1)`, at most `rounds` rounds; `none` means that they, or the fuel, ran out.
    unfoldable pub install_loop : ℕ → ℕ → StatusInfo → ℕ → ℕ → ℕ → PeiCore → Option Reply
    install_loop last_count zero info idx fixup ppi_list c = none
    install_loop last_count (suc rounds) info idx fixup ppi_list c =
        install_round last_count info idx fixup ppi_list c >>= elim [
          | done r ↦ some r
          | again fixup' c' ↦
              install_loop last_count rounds info (uintn p (idx + 1)) fixup'
                (uintn p (ppi_list + p.sizeof_ppi_descriptor)) c'
        ]

    -- `rounds` is one for each free slot: the loop fills one in each round.
    unfoldable pub pei_install_ppi : StatusInfo → ℕ → PeiCore → Option Reply
    pei_install_ppi info ppi_list c =
        if ppi_list == 0
        then some (reply Status.invalid_parameter c)
        else if leb c.max_count c.current_count
        then some (reply Status.not_found c)
        else install_loop c.current_count c.max_count info c.current_count 0 ppi_list c
