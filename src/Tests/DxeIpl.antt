-- ===== src/Tests/DxeIpl.antt =====
-- The DXE IPL on the toy volume, whose file at 88 serves as the DXE core.
use edk2_arc.Base.{◌+◌, ◌≡◌, ◌≢◌, refl, true, none, some, [], ◌∷◌, subst, arith}
use edk2_arc.Edk2.{Status, uintn}
use edk2_arc.Utils.Info.{align_addr}
use edk2_arc.Utils.Section.Layout.{first_of_kind}
use edk2_arc.Utils.Volume.{volume_end, first_file}
use edk2_arc.Utils.Volume.Layout.{Hit, first_hit}
use edk2_arc.Utils.Volume.Find.{IsBody}
use edk2_arc.Pei.Ffs.Next.{of_type}
use edk2_arc.DxeIpl.{returned, Unset, pei_load_pe32, pei_load_file, dxe_ipl_main}
use edk2_arc.DxeIpl.Load.{load_answer, pei_load_file_lem}
use edk2_arc.DxeIpl.Main.{core_answer, dxe_ipl_main_never_succeeds, dxe_ipl_main_of_volume}
use edk2_arc.Pei.Ffs.Stuck.{IsStuckAt}
use edk2_arc.DxeIpl.Stuck.{dxe_ipl_main_stuck}
use edk2_arc.Tests.Toy.{toy, flash, erased}
use edk2_arc.Tests.Volume.{
  file_a, file_b, flash-Files, volume_reach, reach, two_sections, body-Sections, hit_b,
  hit_b-IsBody,
}
use edk2_arc.Tests.Ppi.{database}

abbrev pub garbage : Unset
garbage = record {
  file = 3;
  addr = 5;
  volume = 7;
  pe32_data = 9;
  info = record { status = Status.success; line = 0 };
}

-- The image has 24 bytes, and its entry point is 101.
image_loads : pei_load_pe32 toy flash 96 ≡ record {
  status = Status.success;
  image = some (record { address = 96; size = 24; entry_point = 101 });
}
unfolding pei_load_pe32 uintn
image_loads = refl

pei_load_file_lem_example :
    pei_load_file toy flash garbage 10 true 88
    ≡ some (load_answer toy flash (first_of_kind 0x10 (align_addr (88 + 4) 4) two_sections))
unfolding align_addr
pei_load_file_lem_example =
    pei_load_file_lem toy flash garbage 10 88 128 two_sections reach (omega arith) (omega arith)
      (omega arith) body-Sections (omega arith)

dxe_ipl_main_never_succeeds_example :
    dxe_ipl_main toy flash garbage 10 database ≢ some (returned Status.success)
dxe_ipl_main_never_succeeds_example = dxe_ipl_main_never_succeeds toy flash garbage 10 database

core_is_b :
    (hit : Hit)
    → first_hit (of_type 6) (first_file toy flash 64) (file_a ∷ file_b ∷ []) ≡ some hit
    → (hit.addr ≢ 0) × IsBody toy flash hit two_sections
unfolding first_file align_addr
core_is_b hit e =
    let same : hit_b ≡ hit = cc in
    subst (λ h. (h.addr ≢ 0) × IsBody toy flash h two_sections) same (omega arith, hit_b-IsBody)

dxe_ipl_main_of_volume_example :
    dxe_ipl_main toy flash garbage 10 database
    ≡ some (
        core_answer toy flash garbage two_sections
          (first_hit (of_type 6) (first_file toy flash 64) (file_a ∷ file_b ∷ [])))
dxe_ipl_main_of_volume_example =
    dxe_ipl_main_of_volume toy flash garbage 10 64 128 database (file_a ∷ file_b ∷ []) two_sections
      volume_reach refl (omega arith) (omega arith) (omega arith) flash-Files
      (unfold volume_end in omega arith) core_is_b

-- The core is loaded, and the answer is EFI_LOAD_ERROR.
loaded_and_refused :
    core_answer toy flash garbage two_sections (some hit_b) ≡ returned Status.load_error
unfolding pei_load_pe32 uintn align_addr
loaded_and_refused = refl

-- In `erased` the second file has size 0.
erased-IsStuckAt :
    IsStuckAt toy erased 6 (volume_end toy erased 64) (first_file toy erased 64) (file_a ∷ []) 88
unfolding volume_end first_file align_addr
erased-IsStuckAt = record {
  files = (
    record {
      below = omega arith;
      size_eq = refl;
      kind_eq = refl;
      name_eq = refl;
      fits = omega arith;
    },
    refl,
  );
  others = refl;
  below = omega arith;
  aligned = refl;
  empty = refl;
  other = refl;
}

dxe_ipl_main_stuck_example : dxe_ipl_main toy erased garbage 1000 database ≡ none
unfolding volume_end
dxe_ipl_main_stuck_example =
    dxe_ipl_main_stuck toy erased garbage 1000 64 88 database (file_a ∷ []) reach refl (omega arith)
      erased-IsStuckAt
