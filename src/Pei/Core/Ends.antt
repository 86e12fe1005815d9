-- ===== src/Pei/Core/Ends.antt =====
-- DispatchPeims and PeiCoreMain with code that installs PPIs.
use edk2_arc.Base.{
  ℕ, zero, suc, ◌+◌, ◌≤◌, ◌<◌, ◌≡◌, refl, Option, some, ◌>>=◌, ltb, ltb→lt, Bool-cases, inl, inr,
  ◌==◌, if◌then◌else◌, update, arith,
}
use edk2_arc.Edk2.{Mem, Platform, uintn, uintn_of_lt}
use edk2_arc.Utils.Info.{StatusInfo}
use edk2_arc.Utils.Section.{Found, null}
use edk2_arc.Utils.Volume.{get_te_entry_point, get_apriori_file}
use edk2_arc.Pei.Ppi.OneRound.{IsValid}
use edk2_arc.Pei.Core.{
  World, Flow, goes_on, stops, ◌then_go◌, set_pei_services_table_pointer, fixup_services,
  calc_pei_fixup, init_peims, dispatch_one, dispatch_loop, dispatch_peims, pei_core_main,
}

module _ {T : Type 0} (p : Platform) (m : Mem)
    (call : ℕ → ℕ → World T → Option (Flow (World T))) where
  -- A database that is well formed, of the capacity `max`, and the volumes with the handles `fvs`.
  abbrev pub Holds : ℕ → (ℕ → ℕ) → World T → Type 0
  Holds max fvs w = IsValid p w.core × (w.core.max_count ≡ max) × (w.core.fv_handle ≡ fvs)

  -- What may follow a call: the processor has stopped, or the database is still well formed.
  abbrev pub GoesWell : ℕ → (ℕ → ℕ) → Flow (World T) → Type 0
  GoesWell max fvs (stops w) = Unit {0}
  GoesWell max fvs (goes_on w) = Holds max fvs w

  -- The code that is called returns, with a database that is well formed and has the capacity and the
  -- volumes that it had, or stops the processor.
  abbrev pub IsOrderly : ℕ → (ℕ → ℕ) → Type 0
  IsOrderly max fvs =
      (f a : ℕ) (w : World T)
      → Holds max fvs w
      → (r : Flow (World T)) × (call f a w ≡ some r) × GoesWell max fvs r

  abbrev IsStopped : Flow (World T) → Type 0
  IsStopped r = (w : World T) × (r ≡ stops w)

  -- What follows a call ends, if it does from every well-formed database.
  then_go-ends :
      (Q : Flow (World T) → Type 0) (max : ℕ) (fvs : ℕ → ℕ) (o : Option (Flow (World T)))
      (r : Flow (World T)) (k : World T → Option (Flow (World T)))
      → ((w : World T) → Q (stops w))
      → o ≡ some r
      → GoesWell max fvs r
      → ((w : World T) → Holds max fvs w → (r' : Flow (World T)) × (k w ≡ some r') × Q r')
      → (r' : Flow (World T)) × ((o then_go k) ≡ some r') × Q r'
  then_go-ends Q max fvs o (stops w) k stopped e well go = (stops w, rw e refl, stopped w)
  then_go-ends Q max fvs o (goes_on w) k stopped e well go =
      let (r', ends, holds) = go w well in (r', rw e ends, holds)

  module _ (max : ℕ) (fvs : ℕ → ℕ) (orderly : IsOrderly max fvs) where
    one-ends :
        (idx : ℕ) (w : World T)
        → Holds max fvs w
        → (r : Flow (World T)) × (dispatch_one p m call idx w ≡ some r) × GoesWell max fvs r
    unfolding dispatch_one
    one-ends idx w h = orderly _ _ w h

    -- The loop ends: a slot is visited once, and there are `max` of them.
    dispatch_loop-ends :
        (fuel idx : ℕ) (w : World T)
        → Holds max fvs w
        → idx ≤ max
        → max < fuel + idx
        → (r : Flow (World T)) × (dispatch_loop p m call fuel idx w ≡ some r) × GoesWell max fvs r
    unfolding dispatch_loop
    dispatch_loop-ends zero idx w h le enough = absurd (omega arith)
    dispatch_loop-ends (suc fuel) idx w h le enough =
        elim (Bool-cases (ltb idx w.core.current_count)) [
          | inr past ↦ (goes_on w, rw past refl, h)
          | inl more ↦
              let (r, e, o) = one-ends idx w h in
              let next : uintn p (idx + 1) ≡ idx + 1 =
                uintn_of_lt p (idx + 1) (
                  omega (arith, ltb→lt idx w.core.current_count more, h.0.within, h.0.countable)) in
              rw (more, next)
                (then_go-ends (GoesWell max fvs) max fvs (dispatch_one p m call idx w) r
                  (λ w'. dispatch_loop p m call fuel (idx + 1) w') (λ _. tt) e o
                  λ w' h'.
                    dispatch_loop-ends fuel (idx + 1) w' h'
                      (omega (arith, ltb→lt idx w.core.current_count more, h.0.within, h.1))
                      (omega arith))
        ]

    init_peims-ends :
        (fuel fv_base : ℕ) (info : StatusInfo) (w : World T) (apriori : Found)
        → Holds max fvs w
        → get_apriori_file p m fuel fv_base (some info) ≡ some apriori
        → ((entry_info : Option StatusInfo)
            → (e : Found) × (get_te_entry_point p m fuel fv_base p.filetype_peim
                  (some (p.guid_at m apriori.ptr))
                  entry_info
                ≡ some e))
        → (r : Flow (World T)) × (init_peims p m call fuel info fv_base w ≡ some r)
          × GoesWell max fvs r
    unfolding init_peims
    init_peims-ends fuel fv_base info w apriori h found searches =
        let (e, entry) = searches apriori.info in
        elim (Bool-cases (apriori.ptr == null)) [
          | inl none_there ↦ (goes_on w, rw (found, ◌>>=◌, none_there) refl, h)
          | inr there ↦ elim (Bool-cases (e.ptr == null)) [
            | inl no_entry ↦
                (goes_on w, rw (found, ◌>>=◌, there, if◌then◌else◌, entry, no_entry) refl, h)
            | inr has_entry ↦
                let (r, called, o) = orderly e.ptr null w h in
                (r, rw (found, ◌>>=◌, there, if◌then◌else◌, entry, has_entry) called, o)
          ]
        ]

  -- PeiCoreMain never returns to SEC, and it does not run for ever either: it reaches its dead
  -- loop, or code that it calls stops the processor. The PEIM and the PPIs may install further
  -- PPIs: DispatchPeims ends all the same, since the database has no more slots than its capacity.
  -- The database is well formed at the start, the code that is called leaves it well formed, of
  -- the same capacity and with the same volumes when it returns, the searches in the boot volume
  -- end, and the fuel is more than the capacity.
  pub pei_core_main-stops :
      (fuel context dxe_fv boot_fv fixup : ℕ) (info : StatusInfo) (w : World T) (apriori : Found)
      → IsValid p w.core
      → IsOrderly w.core.max_count (update (update w.core.fv_handle 0 boot_fv) 1 dxe_fv)
      → w.core.max_count < fuel
      → calc_pei_fixup p m call fuel boot_fv ≡ some fixup
      → get_apriori_file p m fuel boot_fv (some info) ≡ some apriori
      → ((entry_info : Option StatusInfo)
          → (e : Found) × (get_te_entry_point p m fuel boot_fv p.filetype_peim
                (some (p.guid_at m apriori.ptr))
                entry_info
              ≡ some e))
      → (w' : World T) × (pei_core_main p m call fuel info context dxe_fv boot_fv w
          ≡ some (stops w'))
  unfolding pei_core_main set_pei_services_table_pointer dispatch_peims
  pei_core_main-stops fuel context dxe_fv boot_fv fixup info w apriori valid orderly enough fixed
        found searches =
      let max = w.core.max_count in
      let fvs : ℕ → ℕ = update (update w.core.fv_handle 0 boot_fv) 1 dxe_fv in
      let filled : World T = record w {
        services = fixup_services p m call fixup w.services;
        core = record w.core { fv_handle = fvs };
        table_pointer = context;
      } in
      let h : Holds max fvs filled =
        (record { within = valid.within; countable = valid.countable }, refl, refl) in
      let (r, started, o) =
        init_peims-ends max fvs orderly fuel boot_fv info filled apriori h found searches in
      let (r', ends, (w', stopped)) =
        then_go-ends IsStopped max fvs (init_peims p m call fuel info boot_fv filled) r
          (λ w₁. dispatch_loop p m call fuel 0 w₁ then_go λ w₂. some (stops w₂)) (λ w₁. (w₁, refl))
          started o
          λ w₁ h₁.
            let (r₁, dispatched, o₁) =
              dispatch_loop-ends max fvs orderly fuel 0 w₁ h₁ (omega arith) (omega arith) in
            then_go-ends IsStopped max fvs (dispatch_loop p m call fuel 0 w₁) r₁
              (λ w₂. some (stops w₂)) (λ w₂. (w₂, refl)) dispatched o₁
              λ w₂ h₂. (stops w₂, refl, (w₂, refl)) in
      (w', rw (fixed, ◌>>=◌) (rw stopped at ends))
