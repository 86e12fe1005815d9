-- ===== src/Pei/Ffs/Next.antt =====
-- Which file `PeiFfsFindNextFile` returns.
use edk2_arc.Base.{
  ℕ, zero, suc, ◌+◌, ◌^◌, ◌≤◌, ◌<◌, ◌≡◌, ◌≢◌, Bool, Option, none, some, List, [], ◌∷◌, length, ◌==◌,
  if◌then◌else◌, u64, lt→ltb, le→ltb, ne→test, arith,
}
use edk2_arc.Edk2.{Status, Mem, Platform, uintn_of_lt}
use edk2_arc.Utils.Info.{align_addr, align_addr_eight}
use edk2_arc.Utils.Section.Find.{InReach}
use edk2_arc.Utils.Volume.{volume_end}
use edk2_arc.Utils.Volume.Layout.{File, IsFileAt, Files, Hit, first_hit}
use edk2_arc.Pei.Ffs.{Handed, handed, next_file_loop, next_file_start, pei_ffs_find_next_file}

-- The answer for the first file of the type, if there is one.
abbrev pub next_answer : ℕ → Option Hit → Handed
next_answer old none = handed Status.not_found (some old)
next_answer old (some hit) = handed Status.success (some hit.addr)

abbrev pub of_type : ℕ → File → Bool
of_type search_type f = f.kind == search_type

module _ (p : Platform) (m : Mem) (search_type eov old : ℕ) (r : InReach p eov) where
  pub next_file_step :
      (fuel addr : ℕ) (f : File)
      → IsFileAt p m eov addr f
      → next_file_loop p m search_type eov old (suc fuel) addr ≡ (
          if of_type search_type f
          then some (handed Status.success (some addr))
          else next_file_loop p m search_type eov old fuel (align_addr (addr + f.size) 8))
  unfolding next_file_loop
  next_file_step fuel addr f h =
      let no_wrap : u64 (addr + f.size) ≡ addr + f.size = omega arith in
      rw (
        uintn_of_lt p addr (omega arith),
        lt→ltb addr eov h.below,
        h.size_eq,
        h.kind_eq,
        no_wrap,
        le→ltb eov (addr + f.size) h.fits,
      )

  pub next_file_end :
      (fuel addr : ℕ)
      → eov ≤ addr
      → next_file_loop p m search_type eov old (suc fuel) addr
        ≡ some (handed Status.not_found (some old))
  unfolding next_file_loop
  next_file_end fuel addr h = rw (le→ltb addr eov h)

  pub next_file_loop_of_run :
      (fuel addr stop : ℕ) (fs : List File)
      → length fs < fuel
      → Files p m eov addr fs stop
      → eov ≤ stop
      → next_file_loop p m search_type eov old fuel addr
        ≡ some (next_answer old (first_hit (of_type search_type) addr fs))
  next_file_loop_of_run zero addr stop fs h c e = absurd (omega arith)
  next_file_loop_of_run (suc fuel) addr stop [] h c e = next_file_end fuel addr (omega (arith, c))
  next_file_loop_of_run (suc fuel) addr stop (f ∷ fs) h c e = ground (
    arith,
    next_file_step fuel addr f c.0,
    next_file_loop_of_run fuel (align_addr (addr + f.size) 8) stop fs (omega arith) c.1,
  )

module _ (p : Platform) (m : Mem) (fuel search_type fv unset old : ℕ)
    (r : InReach p (volume_end p m fv)) where
  -- `PeiFfsFindNextFile` returns the first file of the type among those that stand from its
  -- starting address to the end of the volume, or EFI_NOT_FOUND with the handle unchanged. The
  -- start is the first file of the volume for a NULL handle; for a file's handle it is the value
  -- of the unset `Addr` plus the file's size, and so the next file only if that value is the
  -- handle. The volume is not NULL, its end is in reach of a pointer, and the fuel is more than
  -- the number of files.
  pub pei_ffs_find_next_file_lem :
      (stop : ℕ) (fs : List File)
      → fv ≢ 0
      → length fs < fuel
      → Files p m (volume_end p m fv) (next_file_start p m unset fv old) fs stop
      → volume_end p m fv ≤ stop
      → pei_ffs_find_next_file p m unset fuel search_type fv (some old)
        ≡ some (
            next_answer old (first_hit (of_type search_type) (next_file_start p m unset fv old) fs))
  unfolding pei_ffs_find_next_file
  pei_ffs_find_next_file_lem stop fs ne h c e = rw (ne→test fv 0 ne) (
      next_file_loop_of_run p m search_type (volume_end p m fv) old r fuel
        (next_file_start p m unset fv old) stop fs h c e)

-- For a file's handle the result hangs on the unset `Addr`: with the end of the volume in it the
-- answer is EFI_NOT_FOUND, whatever files follow. Neither the volume nor the handle is NULL, the
-- end of the volume is in reach of a pointer, the size of the file is below 2 ^ 31, and there is
-- fuel for one round.
pub pei_ffs_find_next_file_unset :
    (p : Platform) (m : Mem) (fuel search_type fv old : ℕ)
    → InReach p (volume_end p m fv)
    → fv ≢ 0
    → old ≢ 0
    → p.file_size m old < 2 ^ 31
    → pei_ffs_find_next_file p m (volume_end p m fv) (suc fuel) search_type fv (some old)
      ≡ some (handed Status.not_found (some old))
unfolding pei_ffs_find_next_file next_file_start
pei_ffs_find_next_file_unset p m fuel search_type fv old r ne handle size =
    rw (ne→test fv 0 ne, if◌then◌else◌, ne→test old 0 handle)
      (next_file_end p m search_type (volume_end p m fv) old r fuel
        (align_addr (u64 (volume_end p m fv + p.file_size m old)) 8)
        (omega
          (arith, align_addr_eight (u64 (volume_end p m fv + p.file_size m old)) (omega arith))))
