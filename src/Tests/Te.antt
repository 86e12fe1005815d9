-- ===== src/Tests/Te.antt =====
-- The entry point of the PEI core in the toy boot volume.
use edk2_arc.Base.{ℕ, ◌+◌, ◌≡◌, refl, sym, ◌∙◌, subst, none, some, List, [], ◌∷◌, arith}
use edk2_arc.Utils.Info.{align_addr}
use edk2_arc.Utils.Section.Layout.{Section, first_of_kind}
use edk2_arc.Utils.Volume.{volume_end, first_file, file_name_ok, get_te_entry_point}
use edk2_arc.Utils.Volume.Layout.{Hit, first_hit, is_wanted}
use edk2_arc.Utils.Volume.Find.{IsBody}
use edk2_arc.Utils.Te.{IsTe, te_answer, get_te_entry_point_of_volume}
use edk2_arc.Tests.Toy.{toy_guid, boot_platform, boot_flash}
use edk2_arc.Tests.Boot.{info, boot_files, boot_volume-Files, boot_reach, some_injective}

abbrev core_sections : List Section
core_sections = record { size = 8; kind = 0x18 } ∷ record { size = 28; kind = 0x12 } ∷ []

abbrev core_hit : Hit
core_hit = record { addr = 312; file = record { size = 40; kind = 4; name = toy_guid 1 } }

abbrev Wanted : Hit → Type 0
Wanted hit =
    IsBody boot_platform boot_flash hit core_sections
    × ((q : ℕ)
        → first_of_kind 0x12 (align_addr (hit.addr + 4) 4) core_sections ≡ some q
        → IsTe boot_platform boot_flash q)

core_image : IsTe boot_platform boot_flash 324
core_image = record {
  header = omega arith;
  stripped = omega arith;
  entry = omega arith;
  in_reach = omega arith;
}

core_hit-Wanted : Wanted core_hit
unfolding align_addr
core_hit-Wanted = (
  record {
    stop = 352;
    header = omega arith;
    sections = (ground arith, (ground arith, refl));
    complete = omega arith;
  },
  λ q first. subst (IsTe boot_platform boot_flash) (some_injective 324 q first) core_image,
)

core_first :
    first_hit (is_wanted 4 none) (first_file boot_platform boot_flash 256) boot_files
    ≡ some core_hit
unfolding first_file align_addr file_name_ok
core_first = refl

get_te_entry_point_of_volume_example :
    get_te_entry_point boot_platform boot_flash 20 256 4 none (some info)
    ≡ some (
        te_answer boot_platform boot_flash
          (some info)
          core_sections
          (first_hit (is_wanted 4 none) (first_file boot_platform boot_flash 256) boot_files))
get_te_entry_point_of_volume_example =
    get_te_entry_point_of_volume boot_platform boot_flash 20 256 4 408 none (some info) boot_files
      core_sections boot_reach (omega arith) (omega arith) (omega arith) boot_volume-Files
      (unfold volume_end in omega arith)
      (λ hit e. subst Wanted (some_injective core_hit hit (sym core_first ∙ e)) core_hit-Wanted)
