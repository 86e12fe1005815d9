-- ===== src/Pei/Ffs/Stuck.antt =====
-- `PeiFfsFindNextFile` at a header of size 0.
use edk2_arc.Base.{
  ℕ, zero, suc, ◌+◌, ◌%◌, ◌<◌, ◌≡◌, ◌≢◌, refl, ◌∙◌, none, some, List, [], ◌∷◌, false, if◌then◌else◌,
  ne→test, arith,
}
use edk2_arc.Edk2.{Mem, Platform}
use edk2_arc.Utils.Info.{align_addr, align_addr_eight}
use edk2_arc.Utils.Section.Find.{InReach}
use edk2_arc.Utils.Volume.{volume_end, first_file}
use edk2_arc.Utils.Volume.Layout.{File, Files, first_hit}
use edk2_arc.Utils.Volume.Total.{file_at, file_at-IsFileAt}
use edk2_arc.Pei.Ffs.{next_file_loop, next_file_start, pei_ffs_find_next_file}
use edk2_arc.Pei.Ffs.Next.{of_type, next_file_step}

-- Behind the files `fs` of other types, a header in the volume says size 0, and another type.
pub record IsStuckAt (p : Platform) (m : Mem) (search_type eov start : ℕ) (fs : List File)
    (stop : ℕ) : Type 0 where
  pub files : Files p m eov start fs stop
  pub others : first_hit (of_type search_type) start fs ≡ none
  pub below : stop < eov
  pub aligned : stop % 8 ≡ 0
  pub empty : p.file_size m stop ≡ 0
  pub other : of_type search_type (file_at p m stop) ≡ false

module _ (p : Platform) (m : Mem) (search_type eov old : ℕ) (r : InReach p eov) where
  -- The header is visited again and again.
  header_again :
      (fuel stop : ℕ)
      → stop < eov
      → stop % 8 ≡ 0
      → p.file_size m stop ≡ 0
      → of_type search_type (file_at p m stop) ≡ false
      → next_file_loop p m search_type eov old fuel stop ≡ none
  unfolding next_file_loop
  header_again zero stop below aligned size other = refl
  header_again (suc fuel) stop below aligned size other =
      let same : align_addr (stop + p.file_size m stop) 8 ≡ stop =
        omega (arith, align_addr_eight (stop + p.file_size m stop) (omega arith)) in
      next_file_step p m search_type eov old r fuel stop (file_at p m stop)
        (file_at-IsFileAt p m eov stop below (omega arith))
      ∙ rw (other, if◌then◌else◌, same) (header_again fuel stop below aligned size other)

  next_file_loop_stuck :
      (fuel addr stop : ℕ) (fs : List File)
      → Files p m eov addr fs stop
      → first_hit (of_type search_type) addr fs ≡ none
      → stop < eov
      → stop % 8 ≡ 0
      → p.file_size m stop ≡ 0
      → of_type search_type (file_at p m stop) ≡ false
      → next_file_loop p m search_type eov old fuel addr ≡ none
  unfolding next_file_loop
  next_file_loop_stuck fuel addr stop [] c e below aligned size other =
      rw c (header_again fuel stop below aligned size other)
  next_file_loop_stuck zero addr stop (f ∷ fs) c e below aligned size other = refl
  next_file_loop_stuck (suc fuel) addr stop (f ∷ fs) c e below aligned size other = ground (
    arith,
    next_file_step p m search_type eov old r fuel addr f c.0,
    next_file_loop_stuck fuel (align_addr (addr + f.size) 8) stop fs c.1,
  )

module _ (p : Platform) (m : Mem) (fuel search_type fv unset : ℕ)
    (r : InReach p (volume_end p m fv)) where
  -- The search from the start of the volume does not end.
  pub pei_ffs_find_next_file_stuck :
      (stop : ℕ) (fs : List File)
      → fv ≢ 0
      → IsStuckAt p m search_type (volume_end p m fv) (first_file p m fv) fs stop
      → pei_ffs_find_next_file p m unset fuel search_type fv (some 0) ≡ none
  unfolding pei_ffs_find_next_file next_file_start
  pei_ffs_find_next_file_stuck stop fs there s =
      rw (ne→test fv 0 there, if◌then◌else◌)
        (next_file_loop_stuck p m search_type (volume_end p m fv) 0 r fuel (first_file p m fv) stop
          fs s.files s.others s.below s.aligned s.empty s.other)
