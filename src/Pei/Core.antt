-- ===== src/Pei/Core.antt =====
-- Platform/ARC/Library/PeiCore/PeiCoreMain.c: from the entry of the PEI core to the dispatch of the
-- PPIs. The code of the PEIMs is called at addresses of the volume; it is a parameter.
pub mod Dispatch
pub mod Ends
pub mod Stops
use edk2_arc.Base.{
  ℕ, zero, suc, ◌+◌, ltb, ◌==◌, if◌then◌else◌, Option, none, some, ◌>>=◌, u32, update,
}
use edk2_arc.Edk2.{Mem, Platform, uintn}
use edk2_arc.Utils.Info.{StatusInfo}
use edk2_arc.Utils.Section.{Found, null}
use edk2_arc.Utils.Volume.{get_file_section, get_te_entry_point, get_apriori_file}
use edk2_arc.Pei.Context.{PpiDescriptor, PeiCore}

-- `mPeiCoreCtx` and what the code called at an address can change beside it: `Ps` as the entry points
-- of the services, the database, and the rest of the machine.
pub record Services : Type 0 where
  pub install_ppi : ℕ
  pub locate_ppi : ℕ
  pub notify_ppi : ℕ
  pub ffs_find_next_volume : ℕ
  pub ffs_find_next_file : ℕ
  pub ffs_find_section_data : ℕ
  pub ffs_get_file_info : ℕ

pub record World (T : Type 0) : Type 0 where
  pub services : Services
  pub core : PeiCore
  pub table_pointer : ℕ  -- mPeiServicesTablePointer
  pub machine : T

-- MAX_PEI_PPIS, the size of `mPpiListPool`.
abbrev pub max_pei_ppis : ℕ
max_pei_ppis = 256

-- `mPeiCoreCtx` before PeiCoreMain, with `mPpiListPool` empty: the addresses of the services as
-- they were linked, and what the data of the modules hold.
unfoldable pub initial_world : {T : Type 0} → Services → (ℕ → PpiDescriptor) → (ℕ → ℕ) → T → World T
initial_world services desc entry machine = record {
  services = services;
  core = record {
    current_count = 0;
    max_count = max_pei_ppis;
    ppi_ptrs = λ _. 0;
    fv_handle = λ _. 0;
    desc = desc;
    entry = entry;
  };
  table_pointer = 0;
  machine = machine;
}

-- Code that was called returns, or stops the processor in `CpuDeadLoop`.
pub data Flow (W : Type 0) : Type 0 where
  goes_on : W → Flow W
  stops : W → Flow W

-- What follows a call; `none` means that fuel ran out.
infixl 5 ◌then_go◌
abbrev pub ◌then_go◌ : {W : Type 0} → Option (Flow W) → (W → Option (Flow W)) → Option (Flow W)
none then_go k = none
some (goes_on w) then_go k = k w
some (stops w) then_go k = some (stops w)

-- `SetPeiServicesTablePointer` and `GetPeiServicesTablePointer`.
unfoldable pub set_pei_services_table_pointer : {T : Type 0} → ℕ → World T → World T
set_pei_services_table_pointer pointer w = record w { table_pointer = pointer }

unfoldable pub get_pei_services_table_pointer : {T : Type 0} → World T → ℕ
get_pei_services_table_pointer w = w.table_pointer

-- The function has no body but a line of LOG_ENTER.
unfoldable pub migrate_pei_services_table_pointer : {T : Type 0} → World T → World T
migrate_pei_services_table_pointer w = w

module _ {T : Type 0} (p : Platform) (m : Mem)
    (call : ℕ → ℕ → World T → Option (Flow (World T))) where
  unfoldable pub calc_pei_fixup : ℕ → ℕ → Option ℕ
  calc_pei_fixup fuel fv_base =
      get_file_section p m fuel fv_base p.section_freeform_subtype_guid p.filetype_pei_core none
        none
      >>= λ f. some (u32 f.ptr)

  -- The first name in the apriori file is at its address. `call` gets the address of the code, and
  -- its first argument.
  unfoldable pub init_peims : ℕ → StatusInfo → ℕ → World T → Option (Flow (World T))
  init_peims fuel info fv_base w = get_apriori_file p m fuel fv_base (some info) >>= λ f.
      if f.ptr == null
      then some (goes_on w)
      else get_te_entry_point p m fuel fv_base p.filetype_peim (some (p.guid_at m f.ptr)) f.info
        >>= λ e. if e.ptr == null then some (goes_on w) else call e.ptr null w

  -- A round of the `for` of DispatchPeims.
  unfoldable pub dispatch_one : ℕ → World T → Option (Flow (World T))
  dispatch_one idx w =
      let ppi = (w.core.desc (w.core.ppi_ptrs idx)).ppi in call (w.core.entry ppi) ppi w

  -- The count is read again in each round; `none`: the fuel ran out.
  unfoldable pub dispatch_loop : ℕ → ℕ → World T → Option (Flow (World T))
  dispatch_loop zero idx w = none
  dispatch_loop (suc fuel) idx w =
      let round = dispatch_one idx w then_go λ w'. dispatch_loop fuel (uintn p (idx + 1)) w' in
      if ltb idx w.core.current_count then round else some (goes_on w)

  unfoldable pub dispatch_peims : ℕ → World T → Option (Flow (World T))
  dispatch_peims fuel w = dispatch_loop fuel 0 w

  -- `Ps.InstallPpi += mPeiFixup` and so on.
  unfoldable pub fixup_services : ℕ → Services → Services
  fixup_services fixup s = record {
    install_ppi = uintn p (s.install_ppi + fixup);
    locate_ppi = uintn p (s.locate_ppi + fixup);
    notify_ppi = uintn p (s.notify_ppi + fixup);
    ffs_find_next_volume = uintn p (s.ffs_find_next_volume + fixup);
    ffs_find_next_file = uintn p (s.ffs_find_next_file + fixup);
    ffs_find_section_data = uintn p (s.ffs_find_section_data + fixup);
    ffs_get_file_info = uintn p (s.ffs_get_file_info + fixup);
  }

  -- It ends in `CpuDeadLoop`. `context` is the address of `mPeiCoreCtx.PsPtr`, and `dxe_fv` is
  -- PcdDxeFvBase.
  unfoldable pub pei_core_main : ℕ → StatusInfo → ℕ → ℕ → ℕ → World T → Option (Flow (World T))
  pei_core_main fuel info context dxe_fv boot_fv w = calc_pei_fixup fuel boot_fv >>= λ fixup.
      let filled = record w {
        services = fixup_services fixup w.services;
        core = record w.core { fv_handle = update (update w.core.fv_handle 0 boot_fv) 1 dxe_fv };
      } in
      init_peims fuel info boot_fv (set_pei_services_table_pointer context filled) then_go λ w'.
      dispatch_peims fuel w' then_go λ w''. some (stops w'')
