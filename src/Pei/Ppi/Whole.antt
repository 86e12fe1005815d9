-- ===== src/Pei/Ppi/Whole.antt =====
-- `PeiInstallPpi` of a whole list of descriptors.
use edk2_arc.Base.{
  ℕ, ◌+◌, ◌^◌, ◌<◌, ◌≡◌, ◌≢◌, refl, false, if◌then◌else◌, List, [], ◌∷◌, length, some, lt→leb,
  ne→test, arith,
}
use edk2_arc.Edk2.{Status, Mem, Platform}
use edk2_arc.Utils.Info.{StatusInfo}
use edk2_arc.Utils.Section.{Found}
use edk2_arc.Pei.Context.{PeiCore}
use edk2_arc.Pei.Ppi.{Reply, reply, status_of, calc_peim_fixup, pei_install_ppi}
use edk2_arc.Pei.Ppi.Run.{
  Ending, at_last, no_room, finish, address, fixup_for, moved, Run, Installed,
}
use edk2_arc.Pei.Ppi.Rounds.{install_run}

-- At `ppi_list`, which is not NULL, stands a list of descriptors of PPIs with the flags `f ∷ fs`,
-- in reach of a pointer, and there is a slot for the first one.
pub record IsPpiList (p : Platform) (c : PeiCore) (e : Ending) (ppi_list f : ℕ) (fs : List ℕ)
    : Type 0 where
  pub run : Run p e c.max_count (λ x. (c.desc x).flags) c.current_count ppi_list f fs
  pub there : ppi_list ≢ 0
  pub room : c.current_count < c.max_count
  pub countable : c.max_count < 2 ^ p.uintn_bits
  pub wide : 0 < p.sizeof_ppi_descriptor
  pub reach : address p ppi_list (length fs) < 2 ^ p.uintn_bits

-- The descriptors of a run have a slot each.
Run-room :
    (p : Platform) (e : Ending) (max : ℕ) (flags : ℕ → ℕ) (idx a f : ℕ) (fs : List ℕ)
    → Run p e max flags idx a f fs
    → idx < max
    → idx + length fs < max
Run-room p e max flags idx a f [] run room = omega arith
Run-room p e max flags idx a f (f' ∷ fs) (at, ppi, more, below, run) room =
    omega (arith, Run-room p e max flags (idx + 1) (a + p.sizeof_ppi_descriptor) f' fs run below)

pub IsPpiList-fits :
    (p : Platform) (c : PeiCore) (e : Ending) (ppi_list f : ℕ) (fs : List ℕ)
    → IsPpiList p c e ppi_list f fs
    → c.current_count + length fs < c.max_count
IsPpiList-fits p c e ppi_list f fs l =
    Run-room p e c.max_count (λ x. (c.desc x).flags) c.current_count ppi_list f fs l.run l.room

module _ (p : Platform) (m : Mem) (fuel boot_fv_base : ℕ) (info : StatusInfo) (g : Found)
    (found : calc_peim_fixup p m fuel boot_fv_base (some info) ≡ some g)
    (ok : status_of info g.info ≡ Status.success) where
  install_list :
      (e : Ending) (ppi_list : ℕ) (c : PeiCore) (f : ℕ) (fs : List ℕ)
      → IsPpiList p c e ppi_list f fs
      → (c' : PeiCore) × (pei_install_ppi p m fuel boot_fv_base info ppi_list c
          ≡ some (finish e c.current_count c'))
        × Installed p g.ptr c c' c.current_count ppi_list false (f ∷ fs)
  unfolding pei_install_ppi
  install_list e ppi_list c f fs l =
      let short = IsPpiList-fits p c e ppi_list f fs l in
      let (c', returns, grown) =
        install_run p m fuel boot_fv_base info g found ok c.current_count e c.max_count
          c.current_count ppi_list false c f fs l.run refl l.room l.countable (omega arith) l.wide
          l.reach in
      (
        c',
        rw (ne→test ppi_list 0 l.there, if◌then◌else◌, lt→leb c.max_count c.current_count l.room)
            returns,
        grown,
      )

  pub pei_install_ppi_of_list :
      (ppi_list : ℕ) (c : PeiCore) (f : ℕ) (fs : List ℕ)
      → IsPpiList p c at_last ppi_list f fs
      → (c' : PeiCore) × (pei_install_ppi p m fuel boot_fv_base info ppi_list c
          ≡ some (reply Status.success c'))
        × Installed p g.ptr c c' c.current_count ppi_list false (f ∷ fs)
  pei_install_ppi_of_list ppi_list c f fs l = install_list at_last ppi_list c f fs l

  -- `PeiInstallPpi` of a list that is longer than the database has room for: it returns
  -- EFI_NOT_FOUND and the count that it found, but the descriptors that had a slot stay moved by
  -- their fixups, so that another try moves them again. The descriptors with a slot are of PPIs,
  -- none of them ends the list, and they are in reach of a pointer; the list is not NULL, there is
  -- a slot for the first one, the capacity is in the range of a UINTN, and the search for the
  -- fixup succeeds.
  pub pei_install_ppi_no_room :
      (ppi_list : ℕ) (c : PeiCore) (f : ℕ) (fs : List ℕ)
      → IsPpiList p c no_room ppi_list f fs
      → (r : Reply) × (pei_install_ppi p m fuel boot_fv_base info ppi_list c ≡ some r)
        × (r.status ≡ Status.not_found)
        × (r.core.current_count ≡ c.current_count)
        × ((k : ℕ)
            → k < length (f ∷ fs)
            → r.core.desc (address p ppi_list k)
              ≡ moved p (fixup_for p g.ptr false (f ∷ fs) k) (c.desc (address p ppi_list k)))
  pei_install_ppi_no_room ppi_list c f fs l =
      let (c', returns, grown) = install_list no_room ppi_list c f fs l in
      (finish no_room c.current_count c', returns, refl, refl, grown.fixed)
