-- ===== src/Pei/Ffs/Ends.antt =====
-- The Ffs services on a volume in which every search ends.
use edk2_arc.Base.{
  ℕ, zero, suc, ◌+◌, ◌-◌, ◌^◌, ◌≤◌, ◌<◌, ◌≡◌, refl, ◌∙◌, false, inl, inr, ◌⊎◌, some, Bool-cases,
  dec_lt, ℕ_discrete, ne→test, lt→ltb, if◌then◌else◌, u64, arith,
}
use edk2_arc.Edk2.{Status, Mem, Platform, uintn, uintn_of_lt}
use edk2_arc.Utils.Info.{StatusInfo, align_addr, align_addr_eight}
use edk2_arc.Utils.Section.Find.{InReach}
use edk2_arc.Utils.Section.Total.{find_section-Walk}
use edk2_arc.Utils.Volume.{volume_end, first_file}
use edk2_arc.Utils.Volume.Layout.{Chain, first, next}
use edk2_arc.Utils.Volume.Total.{file_at, file_at-IsFileAt}
use edk2_arc.Utils.Volume.Ends.{IsWalkable, Ends}
use edk2_arc.Pei.Ppi.{is_success, status_of}
use edk2_arc.Pei.Ffs.{
  Handed, handed, next_file_loop, next_file_start, pei_ffs_find_next_file,
  pei_ffs_find_section_data,
}
use edk2_arc.Pei.Ffs.Next.{of_type, next_file_step, next_file_end}

module _ (p : Platform) (m : Mem) (eov : ℕ) where
  -- No success, or the handle of a file that ends in the volume.
  abbrev pub Whole : Handed → Type 0
  Whole h =
      (is_success h.status ≡ false)
      ⊎ (file : ℕ) × (h.handle ≡ some file) × (file + p.file_size m file ≤ eov)

  module _ (search_type old start : ℕ) (r : InReach p eov)
      (sizes : (a : ℕ)
        → Chain p m eov start a
        → a < eov
        → (0 < p.file_size m a) × (p.file_size m a < 2 ^ 32)) where
    next_file_overrun :
        (fuel addr : ℕ)
        → addr < eov
        → p.file_size m addr < 2 ^ 32
        → eov < addr + p.file_size m addr
        → next_file_loop p m search_type eov old (suc fuel) addr
          ≡ some (handed Status.volume_corrupted (some old))
    unfolding next_file_loop
    next_file_overrun fuel addr below small over =
        let no_wrap : u64 (addr + p.file_size m addr) ≡ addr + p.file_size m addr = omega arith in
        rw (uintn_of_lt p addr (omega arith), lt→ltb addr eov below, no_wrap, lt→ltb _ _ over)

    next_file_loop-ends :
        (fuel addr : ℕ)
        → Chain p m eov start addr
        → eov - addr < fuel
        → (h : Handed) × (next_file_loop p m search_type eov old fuel addr ≡ some h) × Whole h
    next_file_loop-ends zero addr from enough = absurd (omega arith)
    next_file_loop-ends (suc fuel) addr from enough = elim (dec_lt addr eov) [
      | no out ↦ (
        handed Status.not_found (some old),
        next_file_end p m search_type eov old r fuel addr (omega arith),
        inl refl,
      )
      | yes below ↦ elim (dec_lt eov (addr + p.file_size m addr)) [
        | yes over ↦ (
          handed Status.volume_corrupted (some old),
          next_file_overrun fuel addr below (sizes addr from below).1 over,
          inl refl,
        )
        | no fits ↦
            let step =
              next_file_step p m search_type eov old r fuel addr (file_at p m addr)
                (file_at-IsFileAt p m eov addr below (omega arith)) in
            elim (Bool-cases (of_type search_type (file_at p m addr))) [
              | inl same ↦ (
                handed Status.success (some addr),
                step ∙ rw (same, if◌then◌else◌) refl,
                inr (addr, refl, omega arith),
              )
              | inr other ↦
                  let (h, e, whole) =
                    next_file_loop-ends fuel (align_addr (addr + p.file_size m addr) 8)
                      (next addr from below (omega arith))
                      (omega (
                        arith,
                        sizes addr from below,
                        align_addr_eight (addr + p.file_size m addr)
                            (omega (arith, sizes addr from below)),
                      )) in
                  (h, step ∙ rw (other, if◌then◌else◌) e, whole)
            ]
      ]
    ]

  pub pei_ffs_find_section_data-Ends :
      (info : StatusInfo) (fuel section_type file old : ℕ)
      → InReach p eov
      → 0 < p.sizeof_section
      → eov < fuel
      → file + p.file_size m file ≤ eov
      → Ends (pei_ffs_find_section_data p m info fuel section_type file (some old))
  unfolding pei_ffs_find_section_data
  pei_ffs_find_section_data-Ends info fuel section_type file old r header enough fits =
      let w =
        find_section-Walk p m section_type (u64 (file + p.file_size m file)) (some info) fuel
          (uintn p (file + p.sizeof_file)) (record { pointer = omega arith; no_wrap = omega arith })
          header (omega arith) in
      elim (ℕ_discrete file 0) [
        | yes absent ↦ (handed Status.invalid_parameter (some old), rw absent refl)
        | no there ↦ (
          handed (status_of info w.outcome.info) (some w.outcome.ptr),
          rw (ne→test file 0 there, if◌then◌else◌, w.returns) refl,
        )
      ]

-- The search for a file from the start of a volume ends.
pub pei_ffs_find_next_file-ends :
    (p : Platform) (m : Mem) (fuel search_type fv unset : ℕ)
    → IsWalkable p m fuel fv
    → (h : Handed) × (pei_ffs_find_next_file p m unset fuel search_type fv (some 0) ≡ some h)
      × Whole p m (volume_end p m fv) h
unfolding pei_ffs_find_next_file next_file_start
pei_ffs_find_next_file-ends p m fuel search_type fv unset w = elim (ℕ_discrete fv 0) [
  | yes absent ↦ (handed Status.invalid_parameter (some 0), rw absent refl, inl refl)
  | no there ↦
      let (h, e, whole) =
        next_file_loop-ends p m (volume_end p m fv) search_type 0 (first_file p m fv) w.reach
          w.sizes fuel (first_file p m fv) first (omega (arith, w.enough)) in
      (h, rw (ne→test fv 0 there, if◌then◌else◌) e, whole)
]
