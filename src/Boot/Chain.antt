-- ===== src/Boot/Chain.antt =====
-- From PeiCoreMain to the outcome of DxeIplMain.
use edk2_arc.Base.{
  ℕ, zero, suc, ◌+◌, ◌^◌, ◌<◌, ◌≡◌, ◌≢◌, refl, Option, some, ◌∷◌, update, if◌then◌else◌, ◌>>=◌,
  ne→test, ==_refl, lt→ltb, le→ltb, ◌∙◌, arith,
}
use edk2_arc.Edk2.{Status, Mem, Platform, uintn, uintn_of_lt}
use edk2_arc.Utils.Info.{StatusInfo}
use edk2_arc.Utils.Section.{Found, null}
use edk2_arc.Utils.Volume.{get_te_entry_point, get_apriori_file}
use edk2_arc.Pei.Context.{PeiCore, PpiDescriptor}
use edk2_arc.Pei.Ppi.{status_of, calc_peim_fixup, accept, fixup_ppi}
use edk2_arc.Pei.Ppi.Single.{IsOnlyPic, install_one}
use edk2_arc.Pei.Core.{
  World, Flow, goes_on, stops, ◌then_go◌, set_pei_services_table_pointer, fixup_services,
  calc_pei_fixup, init_peims, dispatch_one, dispatch_loop, dispatch_peims, pei_core_main,
}
use edk2_arc.DxeIpl.{Run, returned, dead_loop, Unset, dxe_fv_instance, dxe_ipl_init, dxe_ipl_main}
use edk2_arc.Boot.{Log, with_outcome, IplImage, after_main, call_code}

module _ (p : Platform) (m : Mem) (fuel boot_fv : ℕ) (info : StatusInfo) (unset : Unset)
    (image : IplImage) (other : ℕ → ℕ → World Log → Option (Flow (World Log))) where
  abbrev pub code : ℕ → ℕ → World Log → Option (Flow (World Log))
  code = call_code p m fuel boot_fv info unset image other

  -- The boot volume holds the DXE IPL as the build places it: the searches of the PEI core and of
  -- PeiInstallPpi find what they look for, the entry point is that of DxeIplInit, and the list of
  -- PPIs is one position-independent descriptor whose entry point, moved by the fixup, is
  -- DxeIplMain.
  pub record IsBootImage (desc : ℕ → PpiDescriptor) (entries : ℕ → ℕ) : Type 0 where
    pub core_fixup : ℕ
    pub core_fixup_found : calc_pei_fixup p m code fuel boot_fv ≡ some core_fixup
    pub apriori : Found
    pub apriori_found : get_apriori_file p m fuel boot_fv (some info) ≡ some apriori
    pub apriori_there : apriori.ptr ≢ null
    pub entry : Found
    pub entry_found :
        get_te_entry_point p m fuel boot_fv p.filetype_peim
          (some (p.guid_at m apriori.ptr))
          apriori.info
        ≡ some entry
    pub entry_there : entry.ptr ≢ null
    pub entry_is_init : entry.ptr ≡ image.init_entry
    pub fixup : Found
    pub fixup_found : calc_peim_fixup p m fuel boot_fv (some info) ≡ some fixup
    pub fixup_ok : status_of info fixup.info ≡ Status.success
    pub only : IsOnlyPic p m fuel boot_fv (desc image.ppi_list).flags
    pub list_there : image.ppi_list ≢ 0
    pub main_is_other : image.main_entry ≢ image.init_entry
    pub main_moved :
        let ppi = uintn p ((desc image.ppi_list).ppi + fixup.ptr) in
        uintn p (entries ppi + fixup.ptr) ≡ image.main_entry

  init_calls :
      (w : World Log) (b : IsBootImage w.core.desc w.core.entry)
      → w.core.current_count < w.core.max_count
      → init_peims p m code fuel info boot_fv w
        ≡ some (
            goes_on (record w {
              core = accept p m fuel boot_fv w.core.current_count b.fixup.ptr image.ppi_list w.core;
            }))
  unfolding init_peims call_code dxe_ipl_init
  init_calls w b room =
      rw
        (
          b.apriori_found,
          ◌>>=◌,
          ne→test b.apriori.ptr null b.apriori_there,
          if◌then◌else◌,
          b.entry_found,
          ne→test b.entry.ptr null b.entry_there,
          b.entry_is_init,
          ==_refl image.init_entry,
          install_one p m fuel boot_fv info image.ppi_list w.core b.fixup b.only b.fixup_found
              b.fixup_ok b.list_there room,
        )
        refl

  accepted :
      (fixup : ℕ) (c : PeiCore)
      → c.current_count ≡ 0
      → 1 < 2 ^ p.uintn_bits
      → let c' = accept p m fuel boot_fv c.current_count fixup image.ppi_list c in
        (c'.current_count ≡ 1)
        × (c'.fv_handle ≡ c.fv_handle)
        × (c'.ppi_ptrs 0 ≡ image.ppi_list)
        × (c'.entry (c'.desc image.ppi_list).ppi
            ≡ uintn p (c.entry (uintn p ((c.desc image.ppi_list).ppi + fixup)) + fixup))
  unfolding accept fixup_ppi
  accepted fixup c empty wide = (
    rw empty (uintn_of_lt p 1 wide),
    refl,
    rw empty refl,
    rw
        (
          ==_refl image.ppi_list,
          if◌then◌else◌,
          ==_refl (uintn p ((c.desc image.ppi_list).ppi + fixup)),
        )
        refl,
  )

  main_called :
      (w : World Log) (o : Run Status)
      → image.main_entry ≢ image.init_entry
      → w.core.entry (w.core.desc (w.core.ppi_ptrs 0)).ppi ≡ image.main_entry
      → dxe_ipl_main p m unset fuel w.core ≡ some o
      → dispatch_one p m code 0 w ≡ some (after_main p m fuel boot_fv info unset w o)
  unfolding dispatch_one call_code
  main_called w o differ at main_ends =
      rw
        (
          at,
          ne→test image.main_entry image.init_entry differ,
          if◌then◌else◌,
          ==_refl image.main_entry,
          main_ends,
        )
        refl

  -- The dispatch ends behind the only PPI.
  one_dispatched :
      (n : ℕ) (w : World Log) (o : Run Status)
      → 1 < n
      → 1 < 2 ^ p.uintn_bits
      → w.core.current_count ≡ 1
      → dispatch_one p m code 0 w ≡ some (after_main p m fuel boot_fv info unset w o)
      → dispatch_loop p m code n 0 w ≡ some (after_main p m fuel boot_fv info unset w o)
  unfolding dispatch_loop
  one_dispatched zero w o rounds wide one round = absurd (omega arith)
  one_dispatched (suc zero) w o rounds wide one round = absurd (omega arith)
  one_dispatched (suc (suc n)) w dead_loop rounds wide one round =
      rw (lt→ltb 0 w.core.current_count (omega arith), round) refl
  one_dispatched (suc (suc n)) w (returned s) rounds wide one round =
      rw
        (
          lt→ltb 0 w.core.current_count (omega arith),
          round,
          uintn_of_lt p 1 wide,
          le→ltb 1 w.core.current_count (omega arith),
        )
        refl

  -- One PPI, whose entry point is DxeIplMain, is dispatched.
  dispatch_calls :
      (w : World Log) (o : Run Status)
      → 1 < fuel
      → 1 < 2 ^ p.uintn_bits
      → w.core.current_count ≡ 1
      → dispatch_one p m code 0 w ≡ some (after_main p m fuel boot_fv info unset w o)
      → (dispatch_peims p m code fuel w then_go λ w'. some (stops w'))
        ≡ some (stops (with_outcome w o))
  unfolding dispatch_peims
  dispatch_calls w o rounds wide one round =
      rw (one_dispatched fuel w o rounds wide one round) (stopped o)
    where
      stopped :
          (o : Run Status)
          → (some (after_main p m fuel boot_fv info unset w o) then_go λ w'. some (stops w'))
            ≡ some (stops (with_outcome w o))
      stopped (returned s) = refl
      stopped dead_loop = refl

  -- PeiCoreMain on a boot volume that holds the DXE IPL as the build places it, with an empty
  -- database of PPIs: it runs DxeIplInit, which installs the one PPI, dispatches it, and so calls
  -- DxeIplMain once, with the DXE volume of PcdDxeFvBase as the second volume; then the processor
  -- stops. DxeIplMain ends with the outcome `o` for every core whose second volume is that one.
  -- The fuel is for two rounds at least.
  pub pei_core_main_runs_dxe_ipl :
      (context dxe_fv : ℕ) (w : World Log) (o : Run Status)
      → IsBootImage w.core.desc w.core.entry
      → w.core.current_count ≡ 0
      → 0 < w.core.max_count
      → 1 < fuel
      → 1 < 2 ^ p.uintn_bits
      → ((c : PeiCore)
          → c.fv_handle dxe_fv_instance ≡ dxe_fv
          → dxe_ipl_main p m unset fuel c ≡ some o)
      → (w' : World Log) × (pei_core_main p m code fuel info context dxe_fv boot_fv w
          ≡ some (stops w'))
        × (w'.machine ≡ o ∷ w.machine)
        × (w'.core.current_count ≡ 1)
        × (w'.core.ppi_ptrs 0 ≡ image.ppi_list)
        × (w'.core.fv_handle 0 ≡ boot_fv)
        × (w'.core.fv_handle 1 ≡ dxe_fv)
        × (w'.table_pointer ≡ context)
  unfolding pei_core_main set_pei_services_table_pointer
  pei_core_main_runs_dxe_ipl context dxe_fv w o b empty room rounds wide main_ends =
      let filled : World Log = record w {
        services = fixup_services p m code b.core_fixup w.services;
        core = record w.core { fv_handle = update (update w.core.fv_handle 0 boot_fv) 1 dxe_fv };
        table_pointer = context;
      } in
      let installed : World Log = record filled {
        core =
            accept p m fuel boot_fv filled.core.current_count b.fixup.ptr image.ppi_list
              filled.core;
      } in
      let (one, volumes, slot, entry) = accepted b.fixup.ptr filled.core empty wide in
      let at : installed.core.entry (installed.core.desc (installed.core.ppi_ptrs 0)).ppi
          ≡ image.main_entry =
        rw slot (entry ∙ b.main_moved) in
      let handles : installed.core.fv_handle ≡ update (update w.core.fv_handle 0 boot_fv) 1 dxe_fv =
        volumes in
      let main = main_ends installed.core (rw handles refl) in
      (
        with_outcome installed o,
        rw (b.core_fixup_found, ◌>>=◌, init_calls filled b (omega arith))
            (dispatch_calls installed o rounds wide one
              (main_called installed o b.main_is_other at main)),
        refl,
        one,
        slot,
        rw handles refl,
        rw handles refl,
        refl,
      )
