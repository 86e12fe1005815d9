-- ===== src/Tests/Installed.antt =====
-- The fixup of the list of `Tests/Lists`, in the toy boot volume.
use edk2_arc.Base.{◌≡◌, refl, some}
use edk2_arc.Edk2.{Status, uintn}
use edk2_arc.Utils.Info.{align_addr}
use edk2_arc.Utils.Section.{section_loop, find_section}
use edk2_arc.Utils.Volume.{volume_end, first_file, file_loop, get_file_section, file_name_ok}
use edk2_arc.Pei.Ppi.{calc_peim_fixup}
use edk2_arc.Tests.Toy.{boot_platform, boot_flash}
use edk2_arc.Tests.Sec.{info}

pub fixup_found :
    calc_peim_fixup boot_platform boot_flash 10 256 (some info)
    ≡ some (record { ptr = 372; info = some (record { status = Status.success; line = 183 }) })
unfolding calc_peim_fixup get_file_section file_loop volume_end first_file align_addr section_loop
    find_section uintn file_name_ok
fixup_found = refl
