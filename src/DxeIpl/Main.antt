-- ===== src/DxeIpl/Main.antt =====
-- What `DxeIplMain` returns.
use edk2_arc.Base.{
  ℕ, ◌+◌, ◌≤◌, ◌<◌, ◌≡◌, ◌≢◌, refl, inl, inr, Bool, true, false, Option, none, some, List, length,
  not, ◌==◌, if◌then◌else◌, ◌>>=◌, ne→test, Bool-cases, arith,
}
use edk2_arc.Edk2.{Status, Mem, Platform}
use edk2_arc.Utils.Info.{align_addr}
use edk2_arc.Utils.Section.Layout.{Section, first_of_kind}
use edk2_arc.Utils.Section.Find.{InReach}
use edk2_arc.Utils.Volume.{volume_end, first_file}
use edk2_arc.Utils.Volume.Layout.{File, Files, Hit, first_hit}
use edk2_arc.Utils.Volume.Find.{IsBody, first_hit-IsFileAt}
use edk2_arc.Pei.Context.{PeiCore}
use edk2_arc.Pei.Ppi.{is_success}
use edk2_arc.Pei.Ffs.{
  Handed, pei_ffs_find_next_volume, next_file_start, pei_ffs_find_next_file, pei_ffs_get_file_info,
}
use edk2_arc.Pei.Ffs.Next.{next_answer, of_type, pei_ffs_find_next_file_lem}
use edk2_arc.DxeIpl.{
  dxe_fv_instance, Run, returned, dead_loop, variable, Unset, load_and_run_dxe_core, dxe_ipl_load,
  dxe_ipl_main,
}
use edk2_arc.DxeIpl.Load.{load_answer, pei_load_file_lem}

choice_ne : {A : Type 0} (b : Bool) (x y z : A) → x ≢ z → y ≢ z → (if b then x else y) ≢ z
choice_ne true x y z nx ny = nx
choice_ne false x y z nx ny = ny

-- A failure that is passed on is not EFI_SUCCESS.
passed_on :
    (s : Status) (rest : Option (Run Status))
    → rest ≢ some (returned Status.success)
    → (if not (is_success s) then some (returned s) else rest) ≢ some (returned Status.success)
passed_on s rest ne e = elim (Bool-cases (is_success s)) [
  | inl good ↦ ne (rw good at e)
  | inr bad ↦
      let e' : some (returned s) ≡ some (returned Status.success) = rw bad at e in
      let same : s ≡ Status.success = cc in
      let bad' : is_success Status.success ≡ false = rw same at bad in cc
]

module _ (p : Platform) (m : Mem) (unset : Unset) where
  load_fails : (fuel file : ℕ) → dxe_ipl_load p m unset fuel file ≢ some (returned Status.success)
  unfolding dxe_ipl_load
  load_fails fuel file =
      choice_ne (is_success (pei_ffs_get_file_info p m unset.file file (some tt)).status) _ _ _
        (after (load_and_run_dxe_core p m unset fuel file))
        (λ (e : some (returned Status.load_error) ≡ some (returned Status.success)). cc)
    where
      after :
          (o : Option (Run (Unit {0})))
          → (o >>= elim [
            | returned _ ↦ some (returned Status.load_error)
            | dead_loop ↦ some dead_loop
          ])
            ≢ some (returned Status.success)
      after none = cc
      after (some (returned _)) = cc
      after (some dead_loop) = cc

  -- `DxeIplMain` never returns EFI_SUCCESS, whatever the memory, the volume handles and the values of
  -- the unset variables are: not even after the DXE core was loaded.
  pub dxe_ipl_main_never_succeeds :
      (fuel : ℕ) (c : PeiCore) → dxe_ipl_main p m unset fuel c ≢ some (returned Status.success)
  unfolding dxe_ipl_main
  dxe_ipl_main_never_succeeds fuel c =
      passed_on (pei_ffs_find_next_volume c dxe_fv_instance (some unset.volume)).status _ (
        found (
          pei_ffs_find_next_file p m unset.addr fuel p.filetype_dxe_core
            (variable unset.volume
              (pei_ffs_find_next_volume c dxe_fv_instance (some unset.volume)).handle)
            (some 0)))
    where
      found :
          (o : Option Handed)
          → (o >>= λ f.
              if not (is_success f.status)
              then some (returned f.status)
              else dxe_ipl_load p m unset fuel (variable 0 f.handle))
            ≢ some (returned Status.success)
      found none = cc
      found (some f) = passed_on f.status _ (load_fails fuel (variable 0 f.handle))

  -- What comes of the first DXE core of the volume, whose sections are `ss`.
  abbrev pub core_answer : List Section → Option Hit → Run Status
  core_answer ss none = returned Status.not_found
  core_answer ss (some hit) =
      if not (p.is_file2 m unset.file == 0)
      then returned Status.load_error
      else if is_success
          (load_answer p m
            (first_of_kind p.section_pe32 (align_addr (hit.addr + p.sizeof_file) 4) ss)).status
      then returned Status.load_error
      else dead_loop

  load_of_body :
      (fuel : ℕ) (hit : Hit) (ss : List Section)
      → InReach p (hit.addr + hit.file.size)
      → p.file_size m hit.addr ≡ hit.file.size
      → hit.addr ≢ 0
      → length ss < fuel
      → IsBody p m hit ss
      → dxe_ipl_load p m unset fuel hit.addr ≡ some (core_answer ss (some hit))
  unfolding dxe_ipl_load load_and_run_dxe_core pei_ffs_get_file_info
  load_of_body fuel hit ss r size ne h b =
      rw
        (
          ne→test hit.addr 0 ne,
          pei_load_file_lem p m unset fuel hit.addr b.stop ss (rw size r) ne (omega arith) h
              (rw size b.sections) (rw size b.complete),
        )
        (elim (Bool-cases (p.is_file2 m unset.file == 0)) [
          | inr two ↦ rw two refl
          | inl one ↦
              elim (Bool-cases (
                is_success
                  (load_answer p m (
                    first_of_kind p.section_pe32 (align_addr (hit.addr + p.sizeof_file) 4)
                      ss)).status)) [
                        | inl good ↦ rw (one, good) refl
                        | inr bad ↦ rw (one, bad) refl
                      ]
        ])

  -- `DxeIplMain` on a laid-out second volume: EFI_NOT_FOUND if it has no DXE core; for the first
  -- DXE core EFI_LOAD_ERROR if IS_FFS_FILE2 answers true, which the code asks of an unset pointer;
  -- else EFI_LOAD_ERROR if the core was loaded, and the processor stops if it was not. The files
  -- stand one behind the other up to the end of the volume, the core's sections up to its end, and
  -- no file stands at address 0; the fuel is more than the number of files, and than that of the
  -- sections. The handle of the volume is not NULL, and its end is in reach of a pointer.
  pub dxe_ipl_main_of_volume :
      (fuel fv stop : ℕ) (c : PeiCore) (fs : List File) (ss : List Section)
      → InReach p (volume_end p m fv)
      → c.fv_handle dxe_fv_instance ≡ fv
      → fv ≢ 0
      → length fs < fuel
      → length ss < fuel
      → Files p m (volume_end p m fv) (first_file p m fv) fs stop
      → volume_end p m fv ≤ stop
      → ((hit : Hit)
          → first_hit (of_type p.filetype_dxe_core) (first_file p m fv) fs ≡ some hit
          → (hit.addr ≢ 0) × IsBody p m hit ss)
      → dxe_ipl_main p m unset fuel c
        ≡ some (core_answer ss (first_hit (of_type p.filetype_dxe_core) (first_file p m fv) fs))
  unfolding dxe_ipl_main pei_ffs_find_next_volume next_file_start
  dxe_ipl_main_of_volume fuel fv stop c fs ss r handle ne hf hs files e body =
      rw
        (
          handle,
          pei_ffs_find_next_file_lem p m fuel p.filetype_dxe_core fv unset.addr 0 r stop fs ne hf
              files e,
        )
        (found (first_hit (of_type p.filetype_dxe_core) (first_file p m fv) fs) refl)
    where
      found :
          (o : Option Hit)
          → first_hit (of_type p.filetype_dxe_core) (first_file p m fv) fs ≡ o
          → (some (next_answer 0 o) >>= λ f.
              if not (is_success f.status)
              then some (returned f.status)
              else dxe_ipl_load p m unset fuel (variable 0 f.handle))
            ≡ some (core_answer ss o)
      found none absent = refl
      found (some hit) present =
          let room =
            first_hit-IsFileAt p m (volume_end p m fv) (of_type p.filetype_dxe_core)
              (first_file p m fv) stop hit fs files present in
          load_of_body fuel hit ss (record { pointer = omega arith; no_wrap = omega arith })
            room.size_eq (body hit present).0 hs (body hit present).1
