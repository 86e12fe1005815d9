-- ===== src/Tests/Power.antt =====
-- The board of the start-up test with the toy volumes, from the reset on.
use edk2_arc.Base.{◌≡◌, refl, true, some, [], ◌∷◌, arith}
use edk2_arc.Edk2.{Status}
use edk2_arc.Utils.Volume.{volume_end}
use edk2_arc.Pei.Core.{World, stops}
use edk2_arc.Sec.Entry.{start_up}
use edk2_arc.Sec.Entry.Ready.{Ready}
use edk2_arc.Boot.{Log}
use edk2_arc.Boot.Power.{BootImage, core_ended, power_on}
use edk2_arc.Boot.Power.Reset.{IsDxeVolume, IsSecVolume, IplDone, power_on_lem}
use edk2_arc.Tests.Toy.{boot_platform, boot_flash}
use edk2_arc.Tests.Volume.{file_a, file_b, two_sections}
use edk2_arc.Tests.DxeIpl.{garbage}
use edk2_arc.Tests.Serial.{pcd}
use edk2_arc.Tests.Sec.{lib, sec_pcd, lib-IsSecLib, info, pei_core_found}
use edk2_arc.Tests.Entry.{aux, aux-IsAux, bus, board, board_initialized}
use edk2_arc.Tests.Boot.{
  image, no_other, world, world-IsBootImage, dxe_reach, dxe_volume-Files, core_is_b,
}

abbrev pub flash_image : BootImage
flash_image = record {
  core_entry = 336;
  context = 9;
  dxe_fv = 64;
  ipl = image;
  services = world.services;
  desc = world.core.desc;
  entry = world.core.entry;
}

dxe-IsDxeVolume : IsDxeVolume boot_platform boot_flash 20 64 (file_a ∷ file_b ∷ []) two_sections
dxe-IsDxeVolume = record {
  reach = dxe_reach;
  there = omega arith;
  enough_for_files = omega arith;
  enough_for_sections = omega arith;
  stop = 128;
  files = dxe_volume-Files;
  complete = unfold volume_end in omega arith;
  body = core_is_b;
}

sec-IsSecVolume : IsSecVolume boot_platform boot_flash 20 lib sec_pcd info 336
sec-IsSecVolume = record {
  valid = record { signature = refl; file_system = refl };
  covered = omega arith;
  room = omega arith;
  core = record { ptr = 336; info = some (record { status = Status.success; line = 183 }) };
  core_found = pei_core_found;
  core_at = refl;
  core_there = omega arith;
}

power_on_lem_example :
    Ready aux board (start_up aux true board)
    × (w' : World Log) × (power_on boot_platform boot_flash 20 info garbage flash_image no_other aux
          lib sec_pcd bus
          (pcd 1)
          (λ i. 1)
          (λ i. 2)
          true
          board
        ≡ some (core_ended (stops w') board_initialized.0))
    × IplDone boot_platform boot_flash garbage flash_image 256
        (file_a ∷ file_b ∷ [])
        two_sections
        w'
power_on_lem_example =
    power_on_lem boot_platform boot_flash 20 info garbage flash_image no_other aux lib sec_pcd bus
      (pcd 1) 0x1000 (λ i. 1) (λ i. 2) true board board_initialized.0 (file_a ∷ file_b ∷ [])
      two_sections lib-IsSecLib aux-IsAux sec-IsSecVolume board_initialized.1 world-IsBootImage
      dxe-IsDxeVolume (omega arith) (omega arith)
