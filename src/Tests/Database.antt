-- ===== src/Tests/Database.antt =====
-- A list of two PPIs is published in an empty database, and the second one is looked up.
use edk2_arc.Base.{◌≡◌, refl, some, if◌then◌else◌, ◌==◌, arith}
use edk2_arc.Edk2.{uintn}
use edk2_arc.Utils.Info.{align_addr}
use edk2_arc.Utils.Section.{section_loop, find_section}
use edk2_arc.Utils.Volume.{volume_end, first_file, file_loop, get_file_section, file_name_ok}
use edk2_arc.Pei.Context.{PeiCore}
use edk2_arc.Pei.Ppi.{
  Reply, pei_install_ppi, install_loop, install_round, next_fixup, accept, fixup_ppi,
  calc_peim_fixup, is_no_ppi, is_pic_ppi, is_last_ppi,
}
use edk2_arc.Pei.Ppi.OneRound.{IsValid, Outcome}
use edk2_arc.Pei.Ppi.Returns.{pei_install_ppi-returns}
use edk2_arc.Pei.Database.{Database}
use edk2_arc.Pei.Database.View.{view}
use edk2_arc.Pei.Database.Session.{Session, begin, install, locate, events}
use edk2_arc.Pei.Database.Refine.{ppi_services_refine-Database}
use edk2_arc.Tests.Toy.{toy_guid, boot_platform, boot_flash}
use edk2_arc.Tests.Sec.{info}
use edk2_arc.Tests.Walkable.{boot-IsWalkable}

abbrev unused : PeiCore
unused = record {
  current_count = 0;
  max_count = 4;
  ppi_ptrs = λ i. 0;
  fv_handle = λ i. 0;
  desc = λ a.
      if a == 312
      then record { flags = 0x8000_0011; guid = 90; ppi = 400 }
      else record { flags = 0x10; guid = 74; ppi = 404 };
  entry = λ a. 1000;
}

call : (r : Reply) × (pei_install_ppi boot_platform boot_flash 500 256 info 300 unused ≡ some r)
unfolding pei_install_ppi install_loop install_round next_fixup accept fixup_ppi calc_peim_fixup
    is_no_ppi is_pic_ppi is_last_ppi get_file_section file_loop volume_end first_file align_addr
    section_loop find_section uintn file_name_ok
call = (_, refl)

abbrev session : Session boot_platform boot_flash 500 256 call.0.core
session =
    locate (toy_guid 0) 1 (some 7) 8
      (install info 300 call.0
        (begin unused (record { within = omega arith; countable = omega arith }) refl)
        (record { reach = omega arith; apart = λ i k used below. absurd (omega arith) }) call.1)
      (omega arith)

ppi_services_refine-Database_example :
    Database boot_platform
      (events boot_platform boot_flash 500 256 session)
      (view boot_platform boot_flash call.0.core)
ppi_services_refine-Database_example =
    ppi_services_refine-Database boot_platform boot_flash 500 256 boot-IsWalkable call.0.core
      session

pei_install_ppi-returns_example :
    (r : Reply) × (pei_install_ppi boot_platform boot_flash 500 256 info 300 unused ≡ some r)
    × Outcome 0 unused r
    × IsValid boot_platform r.core
pei_install_ppi-returns_example =
    pei_install_ppi-returns boot_platform boot_flash 500 256 boot-IsWalkable info 300 unused
      (record { within = omega arith; countable = omega arith })
