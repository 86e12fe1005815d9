-- ===== src/Tests/Boot.antt =====
-- The chain of the boot stages on the toy volumes: the boot volume at 256 and the DXE volume at 64.
use edk2_arc.Base.{ℕ, ◌≡◌, ◌≢◌, refl, sym, ◌∙◌, subst, Option, none, some, List, [], ◌∷◌, arith}
use edk2_arc.Edk2.{Status, uintn}
use edk2_arc.Utils.Info.{StatusInfo, align_addr}
use edk2_arc.Utils.Guids.{compare_guids, first_word, second_word}
use edk2_arc.Utils.Section.{section_loop, find_section}
use edk2_arc.Utils.Section.Layout.{Section}
use edk2_arc.Utils.Section.Find.{InReach}
use edk2_arc.Utils.Volume.{
  volume_end, first_file, file_loop, get_file_section, get_te_entry_point, te_entry, file_name_ok,
  get_apriori_file,
}
use edk2_arc.Utils.Volume.Layout.{File, Files, Hit, first_hit, is_wanted}
use edk2_arc.Utils.Volume.Find.{IsBody}
use edk2_arc.Utils.Volume.Apriori.{apriori_guid, apriori_answer, get_apriori_file_of_volume}
use edk2_arc.Pei.Ppi.{calc_peim_fixup, is_no_ppi, is_pic_ppi, is_last_ppi}
use edk2_arc.Pei.Core.{World, Flow, calc_pei_fixup}
use edk2_arc.Pei.Ffs.Next.{of_type}
use edk2_arc.Boot.{Log, IplImage}
use edk2_arc.Boot.Chain.{IsBootImage}
use edk2_arc.Tests.Toy.{toy_guid, boot_platform, boot_flash}
use edk2_arc.Tests.Volume.{file_a, file_b, two_sections, hit_b}
use edk2_arc.Tests.DxeIpl.{garbage}

abbrev pub info : StatusInfo
info = record { status = Status.success; line = 0 }

-- The files of the boot volume.
abbrev pub boot_files : List File
boot_files =
    record { size = 40; kind = 4; name = toy_guid 1 }
    ∷ record { size = 16; kind = 2; name = apriori_guid }
    ∷ record { size = 40; kind = 7; name = toy_guid 3 }
    ∷ []

pub boot_volume-Files :
    Files boot_platform boot_flash
      (volume_end boot_platform boot_flash 256)
      (first_file boot_platform boot_flash 256)
      boot_files
      408
unfolding volume_end first_file align_addr
boot_volume-Files = (ground arith, (ground arith, (ground arith, refl)))

abbrev apriori_sections : List Section
apriori_sections = record { size = 12; kind = 0x19 } ∷ []

abbrev apriori_hit : Hit
apriori_hit = record { addr = 352; file = record { size = 16; kind = 2; name = apriori_guid } }

apriori_hit-IsBody : IsBody boot_platform boot_flash apriori_hit apriori_sections
unfolding align_addr
apriori_hit-IsBody = record {
  stop = 368;
  header = omega arith;
  sections = (ground arith, refl);
  complete = omega arith;
}

apriori_first :
    first_hit (is_wanted 2 (some apriori_guid)) (first_file boot_platform boot_flash 256) boot_files
    ≡ some apriori_hit
unfolding first_file align_addr file_name_ok compare_guids first_word second_word
apriori_first = refl

pub some_injective : {A : Type 0} (a b : A) → some a ≡ some b → a ≡ b
some_injective a b e = cc

only_apriori :
    (hit : Hit)
    → first_hit
        (is_wanted 2 (some apriori_guid))
        (first_file boot_platform boot_flash 256)
        boot_files
      ≡ some hit
    → IsBody boot_platform boot_flash hit apriori_sections
only_apriori hit e =
    subst (λ h. IsBody boot_platform boot_flash h apriori_sections)
      (some_injective apriori_hit hit (sym apriori_first ∙ e)) apriori_hit-IsBody

pub boot_reach : InReach boot_platform (volume_end boot_platform boot_flash 256)
unfolding volume_end
boot_reach = record { pointer = omega arith; no_wrap = omega arith }

get_apriori_file_of_volume_example :
    get_apriori_file boot_platform boot_flash 20 256 (some info)
    ≡ some (
        apriori_answer boot_platform boot_flash (some info) apriori_sections (
          first_hit
            (is_wanted 2 (some apriori_guid))
            (first_file boot_platform boot_flash 256)
            boot_files))
get_apriori_file_of_volume_example =
    get_apriori_file_of_volume boot_platform boot_flash 20 256 408 (some info) boot_files
      apriori_sections boot_reach (omega arith) (omega arith) (omega arith) boot_volume-Files
      (unfold volume_end in omega arith) only_apriori

-- The DXE volume, whose file of type 6 stands at 88.
pub dxe_volume-Files :
    Files boot_platform boot_flash
      (volume_end boot_platform boot_flash 64)
      (first_file boot_platform boot_flash 64)
      (file_a ∷ file_b ∷ [])
      128
unfolding volume_end first_file align_addr
dxe_volume-Files = (ground arith, (ground arith, refl))

hit_b-IsBody : IsBody boot_platform boot_flash hit_b two_sections
unfolding align_addr
hit_b-IsBody = record {
  stop = 128;
  header = omega arith;
  sections = (ground arith, (ground arith, refl));
  complete = omega arith;
}

pub core_is_b :
    (hit : Hit)
    → first_hit (of_type 6) (first_file boot_platform boot_flash 64) (file_a ∷ file_b ∷ [])
      ≡ some hit
    → (hit.addr ≢ 0) × IsBody boot_platform boot_flash hit two_sections
unfolding first_file align_addr
core_is_b hit e =
    let same : hit_b ≡ hit = cc in
    subst (λ h. (h.addr ≢ 0) × IsBody boot_platform boot_flash h two_sections) same
      (omega arith, hit_b-IsBody)

-- The list of PPIs stands at 300, and the fixup is 372, the address of a section of the PEIM.
abbrev pub image : IplImage
image = record { init_entry = 392; main_entry = 1372; ppi_list = 300 }

abbrev pub no_other : ℕ → ℕ → World Log → Option (Flow (World Log))
no_other f a w = none

abbrev pub world : World Log
world = record {
  services = record {
    install_ppi = 0;
    locate_ppi = 0;
    notify_ppi = 0;
    ffs_find_next_volume = 0;
    ffs_find_next_file = 0;
    ffs_find_section_data = 0;
    ffs_get_file_info = 0;
  };
  core = record {
    current_count = 0;
    max_count = 4;
    ppi_ptrs = λ i. 0;
    fv_handle = λ i. 0;
    desc = λ a. record { flags = 0x8000_0011; guid = 90; ppi = 400 };
    entry = λ a. 1000;
  };
  table_pointer = 0;
  machine = [];
}

pub world-IsBootImage :
    IsBootImage boot_platform boot_flash 20 256 info garbage image no_other world.core.desc
      world.core.entry
unfolding calc_pei_fixup calc_peim_fixup get_apriori_file get_te_entry_point te_entry
    get_file_section file_loop volume_end first_file align_addr section_loop find_section uintn
    file_name_ok compare_guids first_word second_word is_no_ppi is_pic_ppi is_last_ppi
world-IsBootImage = record {
  core_fixup = 316;
  core_fixup_found = refl;
  apriori = record { ptr = 360; info = some (record { status = Status.success; line = 183 }) };
  apriori_found = refl;
  apriori_there = omega arith;
  entry = record { ptr = 392; info = some (record { status = Status.success; line = 183 }) };
  entry_found = refl;
  entry_there = omega arith;
  entry_is_init = refl;
  fixup = record { ptr = 372; info = some (record { status = Status.success; line = 183 }) };
  fixup_found = refl;
  fixup_ok = refl;
  only = record { ppi = refl; pic = refl; last = refl };
  list_there = omega arith;
  main_is_other = omega arith;
  main_moved = refl;
}

pub dxe_reach : InReach boot_platform (volume_end boot_platform boot_flash 64)
unfolding volume_end
dxe_reach = record { pointer = omega arith; no_wrap = omega arith }
