-- ===== src/Tests/Setup.antt =====
-- A UART with its control registers, which is busy for one reading of its status.
use edk2_arc.Base.{
  List, ℕ, zero, ◌+◌, ◌*◌, ◌-◌, ◌/◌, ◌%◌, ◌^◌, ◌≡◌, refl, Bool, true, false, some, if◌then◌else◌,
  ◌==◌, not, bit_and, u8, ap, arith,
}
use edk2_arc.Serial.{Bus, serial_outs, serial_in, serial_out, serial_port_initialize}
use edk2_arc.Serial.Setup.{
  line_setting, IsNearest, Controls, set_register, IsProgrammable, serial_port_initialize_lem,
}
use edk2_arc.Tests.Serial.{pcd}

record Chip : Type 0 where
  registers : Controls
  busy : Bool

abbrev read : Chip → ℕ → ℕ × Chip
read s addr =
    if addr == 0x1005 then ((if s.busy then 0 else 0x60), record s { busy = false }) else (0x30, s)

abbrev write : Chip → ℕ → ℕ → Chip
write s addr v = record s { registers = set_register (addr - 0x1000) v s.registers }

abbrev bus : Bus Chip
bus = record {
  io_read8 = read;
  mmio_read8 = read;
  mmio_read32 = read;
  io_write8 = write;
  mmio_write8 = write;
  mmio_write32 = write;
}

abbrev chip : Chip
chip = record {
  registers = record { ier = 5; fcr = 0; lcr = 0; mcr = 0; dll = 0; dlm = 0 };
  busy = true;
}

transmitter_empty :
    (b : Bool)
    → (if b then 1 else zero) ≡ 0
    → not (bit_and (u8 (if b then 0 else 0x60)) 0x40 == 0) ≡ true
transmitter_empty true e = absurd (omega arith)
transmitter_empty false e = refl

unfoldable uart : IsProgrammable bus (pcd 1) 0x1000
unfolding serial_in serial_out
uart = record {
  controls = λ s. s.registers;
  writes = λ offset v s low.
      let at : (0x1000 + offset * 1) % 2 ^ 32 - 0x1000 ≡ offset = omega arith in
      ap (λ o. set_register o (u8 v) s.registers) at;
  reads = λ s. refl;
  delay = λ s. if s.busy then 1 else 0;
  empty = λ s e. transmitter_empty s.busy e;
  drains = λ s h. h;
}

serial_port_initialize_lem_example :
    (asked : Chip) × (d : ℕ) × (writes : List (ℕ × ℕ)) × (serial_port_initialize bus (pcd 1) 20 chip
      ≡ some
          (0x1000, serial_outs bus (pcd 1) 0x1000 writes (serial_in bus (pcd 1) 0x1000 5 asked).1))
    × (not (bit_and (serial_in bus (pcd 1) 0x1000 5 asked).0 0x40 == 0) ≡ true)
    × IsNearest (pcd 1) d
    × (uart.controls
          (serial_outs bus (pcd 1) 0x1000 writes (serial_in bus (pcd 1) 0x1000 5 asked).1)
        ≡ record {
          ier = 0;
          fcr = 0x0b;
          lcr = line_setting (pcd 1).line_control;
          mcr = 3;
          dll = d % 256;
          dlm = d / 256 % 256;
        })
unfolding uart
serial_port_initialize_lem_example =
    serial_port_initialize_lem bus (pcd 1) uart 20 chip (omega arith) (omega arith) refl
      (omega arith) (omega arith) (omega arith) (omega arith)
