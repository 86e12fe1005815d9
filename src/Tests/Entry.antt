-- ===== src/Tests/Entry.antt =====
-- The start of a board with an instruction cache, a data cache and no other unit, on the toy volume.
use edk2_arc.Base.{ℕ, ◌≡◌, refl, true, some, update, ==_refl, ne→test, arith}
use edk2_arc.Edk2.{Status}
use edk2_arc.Serial.{Bus, serial_port_initialize, poll, serial_in, get_serial_register_base}
use edk2_arc.Sec.Entry.{
  Aux, PowerOn, start_icache, start_dcache, start_slc, start_dsp, start_up, module_entry_point,
}
use edk2_arc.Sec.Entry.Units.{IsAux}
use edk2_arc.Sec.Entry.Ready.{Ready}
use edk2_arc.Sec.Entry.End.{StartsWell, module_entry_point-StartsWell}
use edk2_arc.Tests.Toy.{boot_platform, boot_flash}
use edk2_arc.Tests.Serial.{Line, read, write, pcd, quiet}
use edk2_arc.Tests.Sec.{lib, sec_pcd, lib-IsSecLib, info, pei_core_found}

pub record Board : Type 0 where
  pub line : Line
  pub regs : ℕ → ℕ
  pub status32 : ℕ

abbrev pub aux : Aux Board
aux = record {
  lr = λ b r. b.regs r;
  sr = λ b r v. record b { regs = update b.regs r v };
  flag = λ b v. record b { status32 = v };
}

pub aux-IsAux : IsAux aux
aux-IsAux = record {
  written = λ b r v setting. rw (==_refl r) refl;
  kept = λ b r v r' setting ne. rw (ne→test r' r ne) refl;
  flagged = λ b v r setting. refl;
}

abbrev pub read_board : Board → ℕ → ℕ × Board
read_board b addr = ((read b.line addr).0, record b { line = (read b.line addr).1 })

abbrev pub write_board : Board → ℕ → ℕ → Board
write_board b addr v = record b { line = write b.line addr v }

abbrev pub bus : Bus Board
bus = record {
  io_read8 = read_board;
  mmio_read8 = read_board;
  mmio_read32 = read_board;
  io_write8 = write_board;
  mmio_write8 = write_board;
  mmio_write32 = write_board;
}

-- Registers 0x77 and 0x72 say that the caches exist; 0x48 has bit 6 set.
abbrev pub board : Board
board = record {
  line = quiet;
  regs = update (update (update (λ r. 0) 0x77 1) 0x72 1) 0x48 0x40;
  status32 = 0;
}

pub board_initialized :
    (b : Board) × (serial_port_initialize bus (pcd 1) 20 (start_up aux true board)
      ≡ some (0x1000, b))
unfolding serial_port_initialize poll serial_in get_serial_register_base start_up start_icache
    start_dcache start_slc start_dsp
board_initialized = (_, refl)

module_entry_point-StartsWell_example :
    Ready aux board (start_up aux true board)
    × (e : PowerOn Board) × (module_entry_point aux boot_platform lib sec_pcd boot_flash bus
          (pcd 1)
          20
          (λ i. 1)
          (λ i. 2)
          info
          true
          board
        ≡ some e)
    × StartsWell boot_platform lib sec_pcd boot_flash 336 board_initialized.0 e
module_entry_point-StartsWell_example =
    module_entry_point-StartsWell boot_platform lib sec_pcd lib-IsSecLib boot_flash aux bus (pcd 1)
      20 0x1000 (λ i. 1) (λ i. 2) info true board board_initialized.0
      (record { ptr = 336; info = some (record { status = Status.success; line = 183 }) }) aux-IsAux
      (omega arith) (omega arith) board_initialized.1 pei_core_found
