-- ===== src/Tests/Ffs.antt =====
-- The Ffs services on the toy volume.
use edk2_arc.Base.{◌≡◌, some, [], ◌∷◌, arith}
use edk2_arc.Edk2.{Status}
use edk2_arc.Utils.Volume.{volume_end}
use edk2_arc.Utils.Volume.Layout.{Files, first_hit}
use edk2_arc.Pei.Ffs.{handed, next_file_start, pei_ffs_find_next_file}
use edk2_arc.Pei.Ffs.Next.{
  next_answer, of_type, pei_ffs_find_next_file_lem, pei_ffs_find_next_file_unset,
}
use edk2_arc.Tests.Toy.{toy, flash}
use edk2_arc.Tests.Volume.{file_a, file_b, flash-Files, volume_reach}

from_start :
    Files toy flash
      (volume_end toy flash 64)
      (next_file_start toy flash 5 64 0)
      (file_a ∷ file_b ∷ [])
      128
unfolding next_file_start
from_start = flash-Files

pei_ffs_find_next_file_lem_example :
    pei_ffs_find_next_file toy flash 5 10 6 64 (some 0)
    ≡ some (
        next_answer 0
          (first_hit (of_type 6) (next_file_start toy flash 5 64 0) (file_a ∷ file_b ∷ [])))
pei_ffs_find_next_file_lem_example =
    pei_ffs_find_next_file_lem toy flash 10 6 64 5 0 volume_reach 128 (file_a ∷ file_b ∷ [])
      (omega arith) (omega arith) from_start (unfold volume_end in omega arith)

-- With 128 in the unset variable the file at 88, behind the one at 72, is not found.
pei_ffs_find_next_file_unset_example :
    pei_ffs_find_next_file toy flash (volume_end toy flash 64) 10 6 64 (some 72)
    ≡ some (handed Status.not_found (some 72))
pei_ffs_find_next_file_unset_example =
    pei_ffs_find_next_file_unset toy flash 9 6 64 72 volume_reach (omega arith) (omega arith)
      (omega arith)
