-- ===== src/Pei/Locate.antt =====
-- `PeiLocatePpi` and `PeiNotifyPpi` of PeiServices.c.
pub mod Nth
pub mod Slots
pub mod Installed
use edk2_arc.Base.{ℕ, zero, suc, ◌+◌, not, ◌==◌, if◌then◌else◌, Option, none, some}
use edk2_arc.Edk2.{Status, Guid, Mem, Platform, uintn}
use edk2_arc.Utils.Guids.{compare_guids}
use edk2_arc.Pei.Context.{PpiDescriptor, PeiCore}

-- What `PeiLocatePpi` returns: its status, and `*PpiDescriptor` and `*Ppi` afterwards, `none` for a
-- pointer that is NULL.
pub record Located : Type 0 where
  pub status : Status
  pub ppi_descriptor : Option ℕ
  pub ppi : Option ℕ

-- `*out = value`, where the pointer may be NULL.
abbrev pub store_out : Option ℕ → ℕ → Option ℕ
store_out none value = none
store_out (some old) value = some value

module _ (p : Platform) (m : Mem) (c : PeiCore) (guid : Guid) (instance_ : ℕ)
    (out_desc out_ppi : Option ℕ) where
  -- The `for`, with `left` slots still to visit; `Idx < CurrentCount` holds as long as there are any.
  unfoldable pub locate_loop : ℕ → ℕ → ℕ → Located
  locate_loop zero idx tmp_instance = record {
    status = Status.not_found;
    ppi_descriptor = out_desc;
    ppi = out_ppi;
  }
  locate_loop (suc left) idx tmp_instance =
      let tmp_ppi_desc = c.ppi_ptrs idx in
      let next = locate_loop left (idx + 1) tmp_instance in
      let counted = locate_loop left (idx + 1) (uintn p (tmp_instance + 1)) in
      if tmp_ppi_desc == 0
      then next
      else if not (compare_guids guid (p.guid_at m (c.desc tmp_ppi_desc).guid))
      then next
      else if not (tmp_instance == instance_)
      then counted
      else record {
        status = Status.success;
        ppi_descriptor = store_out out_desc tmp_ppi_desc;
        ppi = store_out out_ppi (c.desc tmp_ppi_desc).ppi;
      }

-- `Guid` and `Ppi` are NULL where they are `none`.
unfoldable pub pei_locate_ppi :
    Platform → Mem → PeiCore → Option Guid → ℕ → Option ℕ → Option ℕ → Located
pei_locate_ppi p m c none instance_ out_desc out_ppi = record {
  status = Status.invalid_parameter;
  ppi_descriptor = out_desc;
  ppi = out_ppi;
}
pei_locate_ppi p m c (some guid) instance_ out_desc none = record {
  status = Status.invalid_parameter;
  ppi_descriptor = out_desc;
  ppi = none;
}
pei_locate_ppi p m c (some guid) instance_ out_desc (some old) =
    locate_loop p m c guid instance_ out_desc (some old) c.current_count 0 0

unfoldable pub pei_notify_ppi : PeiCore → Status
pei_notify_ppi c = Status.unsupported
