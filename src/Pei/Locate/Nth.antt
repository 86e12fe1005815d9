-- ===== src/Pei/Locate/Nth.antt =====
-- `PeiLocatePpi` against the list of the installed PPIs with a GUID.
use edk2_arc.Base.{
  ℕ, zero, suc, ◌+◌, ◌-◌, ◌^◌, ◌≤◌, ◌<◌, ◌≡◌, refl, ap, ◌∙◌, get_elem?-cons, Bool, not, ◌&&◌,
  Option, none, some, List, [], ◌∷◌, get_elem?, ◌==◌, if◌then◌else◌, arith,
}
use edk2_arc.Edk2.{Status, Guid, Mem, Platform, uintn_of_lt}
use edk2_arc.Utils.Guids.{compare_guids}
use edk2_arc.Pei.Context.{PeiCore}
use edk2_arc.Pei.Locate.{Located, store_out, locate_loop, pei_locate_ppi}

-- The slot holds a descriptor with the GUID.
abbrev pub has_guid : Platform → Mem → PeiCore → Guid → ℕ → Bool
has_guid p m c guid d = not (d == 0) && compare_guids guid (p.guid_at m (c.desc d).guid)

-- The descriptors with the GUID in the `left` slots from `idx` on, in the order of the slots.
abbrev pub with_guid : Platform → Mem → PeiCore → Guid → ℕ → ℕ → List ℕ
with_guid p m c guid zero idx = []
with_guid p m c guid (suc left) idx =
    let rest = with_guid p m c guid left (idx + 1) in
    if has_guid p m c guid (c.ppi_ptrs idx) then c.ppi_ptrs idx ∷ rest else rest

-- The answer for the descriptor, if there is one.
abbrev pub located : PeiCore → Option ℕ → Option ℕ → Option ℕ → Located
located c out_desc out_ppi none = record {
  status = Status.not_found;
  ppi_descriptor = out_desc;
  ppi = out_ppi;
}
located c out_desc out_ppi (some d) = record {
  status = Status.success;
  ppi_descriptor = store_out out_desc d;
  ppi = store_out out_ppi (c.desc d).ppi;
}

module _ (p : Platform) (m : Mem) (c : PeiCore) (guid : Guid) where
  locate_loop_lem :
      (instance_ : ℕ) (out_desc out_ppi : Option ℕ) (left idx seen : ℕ)
      → seen ≤ instance_
      → instance_ < 2 ^ p.uintn_bits
      → locate_loop p m c guid instance_ out_desc out_ppi left idx seen
        ≡ located c out_desc out_ppi (get_elem? (with_guid p m c guid left idx) (instance_ - seen))
  unfolding locate_loop
  locate_loop_lem instance_ out_desc out_ppi zero idx seen h k = refl
  locate_loop_lem instance_ out_desc out_ppi (suc left) idx seen h k = ground (
    arith,
    get_elem?-cons (c.ppi_ptrs idx) (with_guid p m c guid left (idx + 1)) (instance_ - seen),
    uintn_of_lt p (seen + 1),
    locate_loop_lem instance_ out_desc out_ppi left (idx + 1) seen,
    locate_loop_lem instance_ out_desc out_ppi left (idx + 1) (seen + 1),
    sub_step,
  )
    where
      sub_step : instance_ - (seen + 1) ≡ instance_ - seen - 1
      sub_step = omega arith

  -- `PeiLocatePpi` finds the descriptor with number `Instance`, from 0, among the installed ones
  -- that have the GUID, in the order of installation; it stores the descriptor, where the caller
  -- wants it, and the PPI, and returns EFI_SUCCESS. If there are not so many it returns
  -- EFI_NOT_FOUND and stores nothing. The number of installed descriptors is in the range of a
  -- UINTN.
  pub pei_locate_ppi_lem :
      (instance_ : ℕ) (out_desc : Option ℕ) (old : ℕ)
      → instance_ < 2 ^ p.uintn_bits
      → pei_locate_ppi p m c (some guid) instance_ out_desc (some old)
        ≡ located c out_desc
            (some old)
            (get_elem? (with_guid p m c guid c.current_count 0) instance_)
  unfolding pei_locate_ppi
  pei_locate_ppi_lem instance_ out_desc old h =
      locate_loop_lem instance_ out_desc (some old) c.current_count 0 0 (omega arith) h
      ∙ ap
          (λ i.
            located c out_desc (some old) (get_elem? (with_guid p m c guid c.current_count 0) i))
          (omega arith)
