-- ===== src/Tests/Overrun.antt =====
-- A driver for a FIFO of 64 places at a UART with 16, on a slow line.
use edk2_arc.Base.{
  ℕ, ◌+◌, ◌≤◌, ◌<◌, ◌≡◌, refl, false, dec_lt, some, List, [], ◌∷◌, ◌++◌, ltb, lt→ltb, le→ltb, ◌==◌,
  if◌then◌else◌, u8, arith,
}
use edk2_arc.Serial.{Bus, Pcd, serial_in, serial_out, fifo_size, serial_port_write}
use edk2_arc.Serial.Reg
use edk2_arc.Serial.Poll.{IsUart}
use edk2_arc.Serial.Write.{bytes_at}
use edk2_arc.Serial.Overrun.{IsSlow, serial_port_write_loses}
use edk2_arc.Tests.Serial.{pcd}

record Line : Type 0 where
  sent : List ℕ
  queued : ℕ

abbrev read : Line → ℕ → ℕ × Line
read s addr = if addr == 0x1005 then (0x60, record s { queued = 0 }) else (0x30, s)

abbrev write : Line → ℕ → ℕ → Line
write s addr v =
    if addr == 0x1000
    then if ltb s.queued 16 then record { sent = s.sent ++ (v ∷ []); queued = s.queued + 1 } else s
    else s

abbrev bus : Bus Line
bus = record {
  io_read8 = read;
  mmio_read8 = read;
  mmio_read32 = read;
  io_write8 = write;
  mmio_write8 = write;
  mmio_write32 = write;
}

abbrev large : Pcd
large = record (pcd 0x21) { use_hardware_flow_control = false; extended_tx_fifo_size = 64 }

abbrev put : ℕ → Line → Line
put v s = serial_out bus large 0x1000 Reg.txbuf v s

put_room :
    (s : Line) (v : ℕ)
    → s.queued < 16
    → put v s ≡ record { sent = s.sent ++ (u8 v ∷ []); queued = s.queued + 1 }
unfolding serial_out
put_room s v h = rw (lt→ltb s.queued 16 h) refl

put_full : (s : Line) (v : ℕ) → 16 ≤ s.queued → put v s ≡ s
unfolding serial_out
put_full s v h = rw (le→ltb s.queued 16 h) refl

put-queued : (s : Line) (v : ℕ) → (put v s).queued ≤ s.queued + 1
put-queued s v = elim (dec_lt s.queued 16) [
  | yes h ↦ rw (put_room s v h) (omega arith)
  | no h ↦ rw (put_full s v (omega arith)) (omega arith)
]

unfoldable uart : IsUart bus large 0x1000
unfolding serial_in
uart = record {
  sent = λ s. s.sent;
  queued = λ s. s.queued;
  depth = 16;
  Clear = λ s. Unit {0};
  busy = λ s. 0;
  blocked = λ s. 0;
  longest = 0;
  busy_bound = λ s. omega arith;
  blocked_bound = λ s. omega arith;
  empty = λ s e. refl;
  drains = λ s h. absurd (omega arith);
  lsr_quiet = λ s. refl;
  emptied = λ s e. refl;
  opened = λ s e. refl;
  opens = λ s h. absurd (omega arith);
  msr_quiet = λ s. refl;
  msr_queued = λ s. omega arith;
  both_set = λ s e. tt;
  no_cable = λ s off e. tt;
  uncontrolled = λ s off. tt;
  transmits = λ s v clear h. rw (put_room s v h) refl;
  queues = λ s v. put-queued s v;
}

uart-IsSlow : IsSlow bus large 0x1000 uart
unfolding uart
uart-IsSlow = record {
  fills = λ s v h. rw (put_room s v h) refl;
  loses = λ s v h. rw (put_full s v h) (refl, h);
}

abbrev silent : Line
silent = record { sent = []; queued = 0 }

serial_port_write_loses_example :
    (s' : Line) × (serial_port_write bus large (λ a. a) 1 3 100 20 silent ≡ some (20, s'))
    × (s'.sent ≡ [] ++ bytes_at (λ a. a) 100 16)
unfolding fifo_size uart
serial_port_write_loses_example =
    serial_port_write_loses bus large uart (λ a. a) 1 1 100 20 silent uart-IsSlow refl (omega arith)
      (omega arith) (omega arith) (omega arith) (omega arith) (omega arith)
