-- ===== src/Pei/Ppi/Single.antt =====
-- `PeiInstallPpi` for a list of one position-independent descriptor.
use edk2_arc.Base.{
  ℕ, zero, suc, ◌<◌, ◌≡◌, ◌≢◌, refl, true, false, some, ◌>>=◌, if◌then◌else◌, lt→leb, ne→test,
  ==_refl, arith,
}
use edk2_arc.Edk2.{Status, Mem, Platform}
use edk2_arc.Utils.Info.{StatusInfo}
use edk2_arc.Utils.Section.{Found}
use edk2_arc.Pei.Context.{PeiCore}
use edk2_arc.Pei.Ppi.{
  reply, status_of, is_no_ppi, is_pic_ppi, is_last_ppi, fixup_ppi, calc_peim_fixup, next_fixup,
  accept, install_round, done, install_loop, pei_install_ppi,
}

module _ (p : Platform) (m : Mem) (fuel boot_fv_base : ℕ) where
  -- The flags of a list that is one position-independent descriptor.
  pub record IsOnlyPic (flags : ℕ) : Type 0 where
    pub ppi : is_no_ppi p flags ≡ false
    pub pic : is_pic_ppi p flags ≡ true
    pub last : is_last_ppi p flags ≡ true

  accept_flags :
      (idx fixup ppi_list : ℕ) (c : PeiCore)
      → ((accept p m fuel boot_fv_base idx fixup ppi_list c).desc ppi_list).flags
        ≡ (c.desc ppi_list).flags
  unfolding accept fixup_ppi
  accept_flags idx fixup ppi_list c = rw (==_refl ppi_list) refl

  module _ (info : StatusInfo) (ppi_list : ℕ) (c : PeiCore) (g : Found)
      (only : IsOnlyPic (c.desc ppi_list).flags)
      (found : calc_peim_fixup p m fuel boot_fv_base (some info) ≡ some g)
      (ok : status_of info g.info ≡ Status.success) where
    next_fixup_pic :
        next_fixup p m fuel boot_fv_base (c.desc ppi_list).flags 0 info
        ≡ some (Status.success, g.ptr)
    unfolding next_fixup
    next_fixup_pic = rw (only.pic, if◌then◌else◌, found, ◌>>=◌, ok) refl

    one_round :
        (last_count idx : ℕ)
        → install_round p m fuel boot_fv_base last_count info idx 0 ppi_list c
          ≡ some (done (reply Status.success (accept p m fuel boot_fv_base idx g.ptr ppi_list c)))
    unfolding install_round
    one_round last_count idx =
        rw (only.ppi, next_fixup_pic, ◌>>=◌, accept_flags idx g.ptr ppi_list c, only.last) refl

    one_list :
        (rounds last_count idx : ℕ)
        → 0 < rounds
        → install_loop p m fuel boot_fv_base last_count rounds info idx 0 ppi_list c
          ≡ some (reply Status.success (accept p m fuel boot_fv_base idx g.ptr ppi_list c))
    unfolding install_loop
    one_list zero last_count idx h = absurd (omega arith)
    one_list (suc rounds) last_count idx h = rw (one_round last_count idx) refl

    -- The list is accepted into the next slot.
    pub install_one :
        ppi_list ≢ 0
        → c.current_count < c.max_count
        → pei_install_ppi p m fuel boot_fv_base info ppi_list c
          ≡ some
              (reply Status.success (accept p m fuel boot_fv_base c.current_count g.ptr ppi_list c))
    unfolding pei_install_ppi
    install_one ne room =
        rw (ne→test ppi_list 0 ne, if◌then◌else◌, lt→leb c.max_count c.current_count room)
          (one_list c.max_count c.current_count c.current_count (omega arith))
