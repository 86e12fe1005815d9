-- ===== src/Pei/Locate/Installed.antt =====
-- `PeiLocatePpi` after `PeiInstallPpi`.
use edk2_arc.Base.{
  ℕ, zero, suc, ◌+◌, ◌-◌, ◌^◌, ◌≤◌, ◌<◌, ◌≡◌, ◌≢◌, refl, sym, ap, ◌∙◌, false, Option, some, List,
  [], ◌∷◌, ◌++◌, length, get_elem?-append, get_elem?-middle, ne→test, if◌then◌else◌, arith,
}
use edk2_arc.Edk2.{Status, Guid, Mem, Platform, uintn}
use edk2_arc.Utils.Info.{StatusInfo}
use edk2_arc.Utils.Section.{Found}
use edk2_arc.Utils.Guids.{compare_guids_refl}
use edk2_arc.Pei.Context.{PeiCore}
use edk2_arc.Pei.Ppi.{accept, reply, status_of, calc_peim_fixup, pei_install_ppi}
use edk2_arc.Pei.Ppi.Run.{at_last, address, address-le, fixup_for, Installed}
use edk2_arc.Pei.Ppi.Grow.{accept-Installed}
use edk2_arc.Pei.Ppi.Single.{IsOnlyPic, install_one}
use edk2_arc.Pei.Ppi.Whole.{IsPpiList, IsPpiList-fits, pei_install_ppi_of_list}
use edk2_arc.Pei.Locate.{store_out, pei_locate_ppi}
use edk2_arc.Pei.Locate.Nth.{with_guid, located, pei_locate_ppi_lem}
use edk2_arc.Pei.Locate.Slots.{
  with_guid-length, with_guid-split, Agree, with_guid-Agree, located-Agree,
}

module _ (p : Platform) (m : Mem) where
  -- A slot comes behind those in front of it in the list of its GUID.
  slot_with_guid :
      (c : PeiCore) (i more : ℕ)
      → c.ppi_ptrs i ≢ 0
      → let guid = p.guid_at m (c.desc (c.ppi_ptrs i)).guid in
        with_guid p m c guid (suc more) i ≡ c.ppi_ptrs i ∷ with_guid p m c guid more (i + 1)
  slot_with_guid c i more there =
      rw
        (
          ne→test (c.ppi_ptrs i) 0 there,
          compare_guids_refl (p.guid_at m (c.desc (c.ppi_ptrs i)).guid),
        )
        refl

  -- Every slot that is in use is found by the GUID of its descriptor and the number of the slots
  -- in front of it with that GUID.
  pub slot_located :
      (c : PeiCore) (i : ℕ) (out_desc : Option ℕ) (old : ℕ)
      → i < c.current_count
      → c.current_count < 2 ^ p.uintn_bits
      → c.ppi_ptrs i ≢ 0
      → let guid = p.guid_at m (c.desc (c.ppi_ptrs i)).guid in
        pei_locate_ppi p m c (some guid) (length (with_guid p m c guid i 0)) out_desc (some old)
        ≡ located c out_desc (some old) (some (c.ppi_ptrs i))
  slot_located c i out_desc old used countable there =
      let guid = p.guid_at m (c.desc (c.ppi_ptrs i)).guid in
      let before = with_guid p m c guid i 0 in
      let short = with_guid-length p m guid c i 0 in
      let more = c.current_count - i - 1 in
      let zero_plus : 0 + i ≡ i = omega arith in
      let split : with_guid p m c guid c.current_count 0
          ≡ before ++ (c.ppi_ptrs i ∷ with_guid p m c guid more (i + 1)) =
        rw (zero_plus, slot_with_guid c i more there) at
          (with_guid-split p m guid c c.current_count i (suc more) 0 (omega arith)) in
      pei_locate_ppi_lem p m c guid (length before) out_desc old (omega arith)
      ∙ rw (split, get_elem?-middle before (c.ppi_ptrs i) (with_guid p m c guid more (i + 1))) refl

  -- A database that has only grown answers as before where it had an answer.
  pub located_before :
      (c c' : PeiCore) (guid : Guid) (k : ℕ) (out_desc : Option ℕ) (old : ℕ)
      → Agree p m guid c c' c.current_count 0
      → c.current_count ≤ c'.current_count
      → c'.current_count < 2 ^ p.uintn_bits
      → k < length (with_guid p m c guid c.current_count 0)
      → pei_locate_ppi p m c' (some guid) k out_desc (some old)
        ≡ pei_locate_ppi p m c (some guid) k out_desc (some old)
  located_before c c' guid k out_desc old same grown countable h =
      let before = with_guid p m c guid c.current_count 0 in
      let more = c'.current_count - c.current_count in
      let rest = with_guid p m c' guid more (0 + c.current_count) in
      let short = with_guid-length p m guid c c.current_count 0 in
      let split =
        with_guid-split p m guid c' c'.current_count c.current_count more 0 (omega arith)
        ∙ ap (λ l. l ++ rest) (with_guid-Agree p m guid c c' c.current_count 0 same) in
      pei_locate_ppi_lem p m c' guid k out_desc old (omega arith)
      ∙ rw (split, get_elem?-append before rest k h)
          (located-Agree p m guid c c' out_desc (some old) c.current_count 0 k same)
      ∙ sym (pei_locate_ppi_lem p m c guid k out_desc old (omega arith))

  -- What `PeiLocatePpi` answers for descriptor `k` of a list that was installed.
  abbrev pub FindsNew : ℕ → PeiCore → PeiCore → ℕ → List ℕ → Type 0
  FindsNew g c c' ppi_list fs =
      (k : ℕ) (out_desc : Option ℕ) (old : ℕ)
      → k < length fs
      → let d = address p ppi_list k in
        let fixup = fixup_for p g false fs k in
        let guid = p.guid_at m (uintn p ((c.desc d).guid + fixup)) in
        pei_locate_ppi p m c' (some guid) (length (with_guid p m c' guid (c.current_count + k) 0))
          out_desc (some old)
        ≡ record {
          status = Status.success;
          ppi_descriptor = store_out out_desc d;
          ppi = some (uintn p ((c.desc d).ppi + fixup));
        }

  abbrev pub FindsOld : PeiCore → PeiCore → Type 0
  FindsOld c c' =
      (guid : Guid) (k : ℕ) (out_desc : Option ℕ) (old : ℕ)
      → k < length (with_guid p m c guid c.current_count 0)
      → pei_locate_ppi p m c' (some guid) k out_desc (some old)
        ≡ pei_locate_ppi p m c (some guid) k out_desc (some old)

  module _ (g : ℕ) (c c' : PeiCore) (ppi_list : ℕ) (fs : List ℕ)
      (grown : Installed p g c c' c.current_count ppi_list false fs)
      (countable : c'.current_count < 2 ^ p.uintn_bits) where
    finds_new : ppi_list ≢ 0 → FindsNew g c c' ppi_list fs
    finds_new there k out_desc old h =
        let d = address p ppi_list k in
        let slot = grown.slots k h in
        let fixed = grown.fixed k h in
        rw (slot, fixed) at
          (slot_located c' (c.current_count + k) out_desc old (omega (arith, grown.count)) countable
            (omega (arith, slot, address-le p ppi_list k)))

    finds_old :
        ((i k : ℕ) → i < c.current_count → k < length fs → c.ppi_ptrs i ≢ address p ppi_list k)
        → FindsOld c c'
    finds_old new guid k out_desc old h =
        located_before c c' guid k out_desc old
          (λ i low high. (
            grown.kept i (omega arith),
            grown.others (c.ppi_ptrs i) (λ j in_list. new i j (omega arith) in_list),
          ))
          (omega (arith, grown.count)) countable h

-- What is installed is found. PeiInstallPpi of a list of descriptors that fits succeeds;
-- PeiLocatePpi for the GUID of any descriptor of the list, moved by its fixup, and the number of
-- the PPIs with that GUID in front of it, then returns EFI_SUCCESS, the descriptor and its PPI,
-- moved by the fixup; every PPI that was found before, under any GUID, is found as before. All
-- descriptors are of PPIs, only the last one ends the list, each has a slot, is in reach of a
-- pointer and is not yet installed; the list is not NULL, the capacity is in the range of a UINTN,
-- and the search for the fixup succeeds.
pub pei_locate_ppi-list :
    (p : Platform) (m : Mem) (fuel boot_fv : ℕ) (info : StatusInfo) (ppi_list : ℕ) (c : PeiCore)
    (g : Found) (f : ℕ) (fs : List ℕ)
    → calc_peim_fixup p m fuel boot_fv (some info) ≡ some g
    → status_of info g.info ≡ Status.success
    → IsPpiList p c at_last ppi_list f fs
    → ((i k : ℕ) → i < c.current_count → k < length (f ∷ fs) → c.ppi_ptrs i ≢ address p ppi_list k)
    → (c' : PeiCore) × (pei_install_ppi p m fuel boot_fv info ppi_list c
        ≡ some (reply Status.success c'))
      × FindsNew p m g.ptr c c' ppi_list (f ∷ fs)
      × FindsOld p m c c'
pei_locate_ppi-list p m fuel boot_fv info ppi_list c g f fs found ok l new =
    let (c', returns, grown) =
      pei_install_ppi_of_list p m fuel boot_fv info g found ok ppi_list c f fs l in
    let countable : c'.current_count < 2 ^ p.uintn_bits =
      omega (arith, grown.count, IsPpiList-fits p c at_last ppi_list f fs l, l.countable) in
    (
      c',
      returns,
      finds_new p m g.ptr c c' ppi_list (f ∷ fs) grown countable l.there,
      finds_old p m g.ptr c c' ppi_list (f ∷ fs) grown countable new,
    )

-- The same for a list of one position-independent descriptor, which needs no bound on its address.
pub pei_locate_ppi-installed :
    (p : Platform) (m : Mem) (fuel boot_fv : ℕ) (info : StatusInfo) (ppi_list : ℕ) (c : PeiCore)
    (fixup : Found)
    → IsOnlyPic p m fuel boot_fv (c.desc ppi_list).flags
    → calc_peim_fixup p m fuel boot_fv (some info) ≡ some fixup
    → status_of info fixup.info ≡ Status.success
    → ppi_list ≢ 0
    → c.current_count < c.max_count
    → c.max_count < 2 ^ p.uintn_bits
    → ((i : ℕ) → i < c.current_count → c.ppi_ptrs i ≢ ppi_list)
    → let guid = p.guid_at m (uintn p ((c.desc ppi_list).guid + fixup.ptr)) in
      (c' : PeiCore) × (pei_install_ppi p m fuel boot_fv info ppi_list c
        ≡ some (reply Status.success c'))
      × ((out_desc : Option ℕ) (old : ℕ)
          → pei_locate_ppi p m c'
              (some guid)
              (length (with_guid p m c guid c.current_count 0))
              out_desc
              (some old)
            ≡ record {
              status = Status.success;
              ppi_descriptor = store_out out_desc ppi_list;
              ppi = some (uintn p ((c.desc ppi_list).ppi + fixup.ptr));
            })
      × FindsOld p m c c'
pei_locate_ppi-installed p m fuel boot_fv info ppi_list c fixup only found ok there room countable
      new =
    let f = (c.desc ppi_list).flags in
    let guid = p.guid_at m (uintn p ((c.desc ppi_list).guid + fixup.ptr)) in
    let c' = accept p m fuel boot_fv c.current_count fixup.ptr ppi_list c in
    let grown : Installed p fixup.ptr c c' c.current_count ppi_list false (f ∷ []) =
      rw (only.pic, if◌then◌else◌) at
        (accept-Installed p m fuel boot_fv fixup.ptr c.current_count ppi_list false f c refl room
          countable) in
    let small : c'.current_count < 2 ^ p.uintn_bits = omega (arith, grown.count) in
    let last : c.current_count + 0 ≡ c.current_count = omega arith in
    let same = with_guid-Agree p m guid c c' c.current_count 0 λ i low high. (
      grown.kept i (omega arith),
      grown.others (c.ppi_ptrs i) (only_one (c.ppi_ptrs i) ppi_list (new i (omega arith))),
    ) in
    (
      c',
      install_one p m fuel boot_fv info ppi_list c fixup only found ok there room,
      (λ out_desc old.
          rw (only.pic, if◌then◌else◌, last, same) at
            (finds_new p m fixup.ptr c c' ppi_list (f ∷ []) grown small there 0 out_desc old
              (omega arith))),
      finds_old p m fixup.ptr c c' ppi_list (f ∷ []) grown small
          (λ i k used. only_one (c.ppi_ptrs i) ppi_list (new i used) k),
    )
  where
    only_one : (x a : ℕ) → x ≢ a → (k : ℕ) → k < 1 → x ≢ address p a k
    only_one x a ne zero below = ne
    only_one x a ne (suc k) below = absurd (omega arith)
