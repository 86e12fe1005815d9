-- ===== src/Tests/Volume.antt =====
-- The searches on the toy volume.
use edk2_arc.Base.{
  ℕ, ◌^◌, ◌<◌, ◌≡◌, refl, Option, none, some, List, [], ◌∷◌, subst, ◌==◌, if◌then◌else◌, arith,
}
use edk2_arc.Edk2.{Status, Mem, uintn}
use edk2_arc.Utils.Info.{StatusInfo, align_addr}
use edk2_arc.Utils.Section.{section_loop, find_section}
use edk2_arc.Utils.Section.Layout.{Section, Sections, first_of_kind}
use edk2_arc.Utils.Section.Find.{InReach, section_answer, find_section_of_run}
use edk2_arc.Utils.Section.Total.{find_section-Walk, Walk as SectionWalk}
use edk2_arc.Utils.Volume.{volume_end, first_file, file_loop, get_file_section, file_name_ok}
use edk2_arc.Utils.Volume.Layout.{File, Files, Hit, first_hit, is_wanted}
use edk2_arc.Utils.Volume.Find.{IsBody, volume_answer, get_file_section_of_volume}
use edk2_arc.Utils.Volume.Total.{Walk as FileWalk, get_file_section-Walk}
use edk2_arc.Utils.Volume.Stuck.{get_file_section_stuck}
use edk2_arc.Tests.Toy.{toy, toy_guid, flash, erased}

abbrev info : Option StatusInfo
info = some (record { status = Status.success; line = 0 })

pub reach : InReach toy 128
reach = record { pointer = omega arith; no_wrap = omega arith }

abbrev pub two_sections : List Section
two_sections = record { size = 4; kind = 0x10 } ∷ record { size = 32; kind = 0x12 } ∷ []

pub body-Sections : Sections toy flash 128 92 two_sections 128
body-Sections = (
  record {
    below = omega arith;
    size_eq = refl;
    kind_eq = refl;
    whole = omega arith;
    fits = omega arith;
  },
  (
    record {
      below = omega arith;
      size_eq = refl;
      kind_eq = refl;
      whole = omega arith;
      fits = omega arith;
    },
    refl,
  ),
)

find_section_of_run_example :
    find_section toy flash 0x12 128 info 3 89
    ≡ some (section_answer info (first_of_kind 0x12 (align_addr 89 4) two_sections))
unfolding align_addr
find_section_of_run_example =
    find_section_of_run toy flash 0x12 128 info reach 3 89 128 two_sections (omega arith)
      body-Sections (omega arith)

find_section-Walk_example :
    SectionWalk toy flash 0x77 128 info
      (align_addr 89 4)
      (find_section toy flash 0x77 128 info 200 89)
find_section-Walk_example =
    find_section-Walk toy flash 0x77 128 info 200 89 reach (omega arith) (omega arith)

abbrev pub file_a : File
file_a = record { size = 12; kind = 4; name = toy_guid 1 }

abbrev pub file_b : File
file_b = record { size = 40; kind = 6; name = toy_guid 2 }

pub flash-Files :
    Files toy flash (volume_end toy flash 64) (first_file toy flash 64) (file_a ∷ file_b ∷ []) 128
unfolding volume_end first_file align_addr
flash-Files = (
  record {
    below = omega arith;
    size_eq = refl;
    kind_eq = refl;
    name_eq = refl;
    fits = omega arith;
  },
  (
    record {
      below = omega arith;
      size_eq = refl;
      kind_eq = refl;
      name_eq = refl;
      fits = omega arith;
    },
    refl,
  ),
)

pub volume_reach : InReach toy (volume_end toy flash 64)
unfolding volume_end
volume_reach = reach

abbrev pub hit_b : Hit
hit_b = record { addr = 88; file = file_b }

pub hit_b-IsBody : IsBody toy flash hit_b two_sections
unfolding align_addr
hit_b-IsBody = record {
  stop = 128;
  header = omega arith;
  sections = body-Sections;
  complete = omega arith;
}

only_b :
    (hit : Hit)
    → first_hit (is_wanted 6 none) (first_file toy flash 64) (file_a ∷ file_b ∷ []) ≡ some hit
    → IsBody toy flash hit two_sections
unfolding first_file align_addr file_name_ok
only_b hit e =
    let same : hit_b ≡ hit = cc in subst (λ h. IsBody toy flash h two_sections) same hit_b-IsBody

get_file_section_of_volume_example :
    get_file_section toy flash 10 64 0x12 6 none info
    ≡ some (
        volume_answer toy info 0x12 two_sections
          (first_hit (is_wanted 6 none) (first_file toy flash 64) (file_a ∷ file_b ∷ [])))
get_file_section_of_volume_example =
    get_file_section_of_volume toy flash 10 64 0x12 6 none info volume_reach 128
      (file_a ∷ file_b ∷ []) two_sections (omega arith) (omega arith) flash-Files
      (unfold volume_end in omega arith) only_b

-- The section stands at 96.
te_found :
    get_file_section toy flash 10 64 0x12 6 none info
    ≡ some (record { ptr = 96; info = some (record { status = Status.success; line = 183 }) })
unfolding get_file_section file_loop volume_end first_file align_addr section_loop find_section
    uintn file_name_ok
te_found = refl

-- The second file of `erased` has size 0, at 88.
get_file_section_stuck_example : get_file_section toy erased 1000 64 0x12 6 none info ≡ none
unfolding volume_end first_file align_addr file_name_ok
get_file_section_stuck_example =
    get_file_section_stuck toy erased 64 0x12 6 none info reach 1000 88 (file_a ∷ [])
      (
        record {
          below = omega arith;
          size_eq = refl;
          kind_eq = refl;
          name_eq = refl;
          fits = omega arith;
        },
        refl,
      )
      refl (omega arith) refl refl refl

-- A volume of 64 bytes at 64 in which every other byte is 8: files of 8 bytes.
abbrev uniform : Mem
uniform a = if a == 64 then 64 else 8

uniform_sizes :
    (a : ℕ) → a < 128 → (0 < toy.file_size uniform a) × (toy.file_size uniform a < 2 ^ 32)
uniform_sizes a h = ground arith

get_file_section-Walk_example :
    FileWalk toy uniform 200 0x12 8 none info
      (volume_end toy uniform 64)
      (first_file toy uniform 64)
      (get_file_section toy uniform 200 64 0x12 8 none info)
unfolding volume_end
get_file_section-Walk_example =
    get_file_section-Walk toy uniform 64 0x12 8 none info reach 200 (omega arith) (omega arith)
      (λ a from below. uniform_sizes a below)
