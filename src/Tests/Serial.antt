-- ===== src/Tests/Serial.antt =====
-- A UART with 16 places that is busy for one reading of its status after each byte, at a peer that
-- is not clear for one reading either.
use edk2_arc.Base.{
  ℕ, zero, bit_and, u8, ◌+◌, ◌≤◌, ◌≡◌, refl, Bool, true, false, none, some, List, [], ◌∷◌, ◌++◌,
  ◌==◌, ◌<◌, ◌≢◌, ap, ltb, if◌then◌else◌, arith,
}
use edk2_arc.Serial.Reg
use edk2_arc.Serial.{
  serial_port_initialize, poll, get_serial_register_base, Bus, Pcd, serial_in, serial_out,
  fifo_size, serial_port_write,
}
use edk2_arc.Serial.Poll.{IsUart}
use edk2_arc.Serial.Write.{bytes_at, serial_port_write_lem}
use edk2_arc.Serial.Stuck.{serial_port_write_stuck}

pub record Line : Type 0 where
  pub sent : List ℕ
  pub queued : ℕ
  pub busy : Bool
  pub blocked : Bool

abbrev pub read : Line → ℕ → ℕ × Line
read s addr =
    if addr == 0x1005
    then if s.busy then (0, record s { busy = false }) else (0x60, record s { queued = 0 })
    else if addr == 0x1006
    then if s.blocked then (0x20, record s { blocked = false }) else (0x30, s)
    else (0, s)

-- A byte that finds no place, or the peer blocked, is lost.
abbrev pub write : Line → ℕ → ℕ → Line
write s addr v =
    if addr == 0x1000
    then if s.blocked
      then s
      else if ltb s.queued 16
      then record { sent = s.sent ++ (v ∷ []); queued = s.queued + 1; busy = true; blocked = true }
      else s
    else s

abbrev pub bus : Bus Line
bus = record {
  io_read8 = read;
  mmio_read8 = read;
  mmio_read32 = read;
  io_write8 = write;
  mmio_write8 = write;
  mmio_write32 = write;
}

abbrev pub pcd : ℕ → Pcd
pcd fifo_control = record {
  uintn_bits = 32;
  register_base = 0x1000;
  register_stride = 1;
  use_mmio = true;
  access_width = 8;
  use_hardware_flow_control = true;
  detect_cable = true;
  clock_rate = 1843200;
  baud_rate = 115200;
  line_control = 3;
  fifo_control = fifo_control;
  extended_tx_fifo_size = 0;
  return_device_error = 0x8000_0007;
}

pub delay-le-one : (b : Bool) → (if b then 1 else zero) ≤ 1
delay-le-one b = ground arith

module _ (sent : List ℕ) (queued : ℕ) where
  -- A state of the line.
  abbrev pub line : Bool → Bool → Line
  line busy blocked = record { sent = sent; queued = queued; busy = busy; blocked = blocked }

  pub flushed :
      (busy blocked : Bool)
      → (if busy then 1 else zero) ≡ zero
      → bit_and (serial_in bus (pcd 1) 0x1000 Reg.lsr (line busy blocked)).0 0x60 ≡ 0x60
  unfolding serial_in
  flushed true blocked e = absurd (omega arith)
  flushed false blocked e = refl

  pub drained :
      (busy blocked : Bool)
      → 0 < (if busy then 1 else zero)
      → (if (serial_in bus (pcd 1) 0x1000 Reg.lsr (line busy blocked)).1.busy then 1 else zero)
        < (if busy then 1 else zero)
  unfolding serial_in
  drained true blocked h = omega arith
  drained false blocked h = absurd (omega arith)

  pub lsr_quiet :
      (busy blocked : Bool)
      → (serial_in bus (pcd 1) 0x1000 Reg.lsr (line busy blocked)).1.sent ≡ sent
  unfolding serial_in
  lsr_quiet true blocked = refl
  lsr_quiet false blocked = refl

  pub emptied :
      (busy blocked : Bool)
      → bit_and (serial_in bus (pcd 1) 0x1000 Reg.lsr (line busy blocked)).0 0x60 ≡ 0x60
      → (serial_in bus (pcd 1) 0x1000 Reg.lsr (line busy blocked)).1.queued ≡ 0
  unfolding serial_in
  emptied true blocked e = absurd (omega (arith, e))
  emptied false blocked e = refl

  pub opened :
      (busy blocked : Bool)
      → (if blocked then 1 else zero) ≡ zero
      → bit_and (serial_in bus (pcd 1) 0x1000 Reg.msr (line busy blocked)).0 0x30 ≡ 0x30
  unfolding serial_in
  opened busy true e = absurd (omega arith)
  opened busy false e = refl

  pub after_msr :
      (busy blocked : Bool)
      → (serial_in bus (pcd 1) 0x1000 Reg.msr (line busy blocked)).1 ≡ line busy false
  unfolding serial_in
  after_msr busy true = refl
  after_msr busy false = refl

room : (queued : ℕ) → queued < 16 → ltb queued 16 ≡ true
room queued h = ground arith

pub written :
    (s : Line) (v : ℕ)
    → s.blocked ≡ false
    → s.queued < 16
    → (serial_out bus (pcd 1) 0x1000 Reg.txbuf v s).sent ≡ s.sent ++ (u8 v ∷ [])
unfolding serial_out
written s v clear h = rw (clear, room s.queued h) refl

pub queued_one :
    (sent : List ℕ) (queued v : ℕ) (busy blocked : Bool)
    → (serial_out bus (pcd 1) 0x1000 Reg.txbuf v (line sent queued busy blocked)).queued
      ≤ queued + 1
unfolding serial_out
queued_one sent queued v busy true = omega arith
queued_one sent queued v busy false =
    elim (ltb queued 16)
      as (λ b.
        (if b
          then record {
            sent = sent ++ (u8 v ∷ []);
            queued = queued + 1;
            busy = true;
            blocked = true;
          }
          else line sent queued busy false).queued
        ≤ queued + 1) [ true ↦ omega arith | false ↦ omega arith ]

pub no_clash : true ≢ false
no_clash e = cc

unfoldable pub uart : IsUart bus (pcd 1) 0x1000
uart = record {
  sent = λ s. s.sent;
  queued = λ s. s.queued;
  depth = 16;
  Clear = λ s. s.blocked ≡ false;
  busy = λ s. if s.busy then 1 else 0;
  blocked = λ s. if s.blocked then 1 else 0;
  longest = 1;
  busy_bound = λ s. delay-le-one s.busy;
  blocked_bound = λ s. delay-le-one s.blocked;
  empty = λ s e. flushed s.sent s.queued s.busy s.blocked e;
  drains = λ s h. drained s.sent s.queued s.busy s.blocked h;
  lsr_quiet = λ s. lsr_quiet s.sent s.queued s.busy s.blocked;
  emptied = λ s e. emptied s.sent s.queued s.busy s.blocked e;
  opened = λ s e. opened s.sent s.queued s.busy s.blocked e;
  opens = λ s h. rw (after_msr s.sent s.queued s.busy s.blocked) h;
  msr_quiet = λ s. ap (λ l. l.sent) (after_msr s.sent s.queued s.busy s.blocked);
  msr_queued = λ s. rw (after_msr s.sent s.queued s.busy s.blocked) (omega arith);
  both_set = λ s e. ap (λ l. l.blocked) (after_msr s.sent s.queued s.busy s.blocked);
  no_cable = λ s off e. ap (λ l. l.blocked) (after_msr s.sent s.queued s.busy s.blocked);
  uncontrolled = λ s off. absurd (no_clash off);
  transmits = λ s v clear h. written s v clear h;
  queues = λ s v. queued_one s.sent s.queued v s.busy s.blocked;
}

abbrev pub quiet : Line
quiet = record { sent = []; queued = 0; busy = false; blocked = true }

serial_port_write_lem_example :
    (s' : Line) × (serial_port_write bus (pcd 1) (λ a. a) 2 4 100 3 quiet ≡ some (3, s'))
    × (s'.sent ≡ [] ++ bytes_at (λ a. a) 100 3)
unfolding fifo_size uart
serial_port_write_lem_example =
    serial_port_write_lem bus (pcd 1) uart (λ a. a) 2 4 100 3 quiet (omega arith) (omega arith)
      (omega arith) (omega arith) (omega arith) (omega arith) (omega arith)

serial_port_write_stuck_example : serial_port_write bus (pcd 0x21) (λ a. a) 9 9 100 3 quiet ≡ none
unfolding fifo_size
serial_port_write_stuck_example =
    serial_port_write_stuck bus (pcd 0x21) (λ a. a) 9 9 100 3 quiet refl (omega arith) (omega arith)
      (omega arith)

-- The status is 0x1000 after a success.
pub initialized : (s' : Line) × (serial_port_initialize bus (pcd 1) 20 quiet ≡ some (0x1000, s'))
unfolding serial_port_initialize poll serial_in get_serial_register_base
initialized = (_, refl)
