-- ===== src/Tests/SerialRead.antt =====
-- A UART whose receiver takes one reading of the status for each byte, from when RTS asks for it.
-- The peer counts, and a byte is lost if RTS is set while one is taken.
use edk2_arc.Base.{
  ℕ, zero, ◌+◌, ◌/◌, ◌%◌, ◌<◌, ◌≤◌, ◌≡◌, ◌≢◌, refl, fun_ext, ap, Bool, true, false, some, ◌==◌,
  if◌then◌else◌, u8, bit_and, bit_or, arith,
}
use edk2_arc.Base.Bits.{bit_and_halves, bit_or_halves}
use edk2_arc.Serial.{Bus, serial_in, serial_out, serial_port_read}
use edk2_arc.Serial.Reg
use edk2_arc.Serial.Read.{IsReceiver, stream_take, serial_port_read_lem}
use edk2_arc.Tests.Serial.{pcd, no_clash}

record Peer : Type 0 where
  count : ℕ
  ready : Bool
  rts : Bool

abbrev read : Peer → ℕ → ℕ × Peer
read s addr =
    if addr == 0x1005
    then if s.ready then (1, s) else (0, record s { ready = s.rts })
    else if addr == 0x1000
    then (s.count, record s { count = if s.rts then s.count + 2 else s.count + 1; ready = false })
    else (0, s)

abbrev write : Peer → ℕ → ℕ → Peer
write s addr v = if addr == 0x1004 then record s { rts = v / 2 % 2 == 1 } else s

abbrev bus : Bus Peer
bus = record {
  io_read8 = read;
  mmio_read8 = read;
  mmio_read32 = read;
  io_write8 = write;
  mmio_write8 = write;
  mmio_write32 = write;
}

abbrev counting : ℕ → ℕ → ℕ
counting n i = u8 (n + i)

counting_next : (n : ℕ) → counting (n + 1) ≡ (λ i. counting n (i + 1))
counting_next n = fun_ext (λ i. let e : n + 1 + i ≡ n + (i + 1) = omega arith in ap u8 e)

rts_set : (v : ℕ) → (u8 (bit_or v 0x02) / 2 % 2 == 1) ≡ true
rts_set v =
    let e : u8 (bit_or v 0x02) / 2 % 2 ≡ 1 =
      omega (arith, bit_or_halves v 2, bit_or_halves (v / 2) 1) in
    rw e refl

rts_clear : (v : ℕ) → (u8 (bit_and v 0xfd) / 2 % 2 == 1) ≡ false
rts_clear v =
    let e : u8 (bit_and v 0xfd) / 2 % 2 ≡ 0 =
      omega (arith, bit_and_halves v 0xfd, bit_and_halves (v / 2) 0x7e) in
    rw e refl

module _ (count : ℕ) where
  abbrev peer : Bool → Bool → Peer
  peer ready rts = record { count = count; ready = ready; rts = rts }

  -- The line status, and the peer after it.
  abbrev status : Peer → ℕ × Peer
  status s = serial_in bus (pcd 1) 0x1000 Reg.lsr s

  delay_le_one : (b : Bool) → (if b then zero else 1) ≤ 1
  delay_le_one b = ground arith

  arrives :
      (ready rts : Bool)
      → (if ready then zero else 1) ≡ zero
      → bit_and (status (peer ready rts)).0 1 ≢ 0
  unfolding serial_in
  arrives true rts e = omega arith
  arrives false rts e = absurd (omega arith)

  comes_nearer :
      (ready rts : Bool)
      → rts ≡ true
      → 0 < (if ready then zero else 1)
      → (if (status (peer ready rts)).1.ready then zero else 1) < (if ready then zero else 1)
  unfolding serial_in
  comes_nearer true rts asked h = absurd (omega arith)
  comes_nearer false rts asked h = rw asked (omega arith)

  says :
      (ready rts : Bool)
      → bit_and (status (peer ready rts)).0 1 ≢ 0
      → (status (peer ready rts)).1.ready ≡ true
  unfolding serial_in
  says true rts h = refl
  says false rts h = absurd (h refl)

  same_count : (ready rts : Bool) → (status (peer ready rts)).1.count ≡ count
  unfolding serial_in
  same_count true rts = refl
  same_count false rts = refl

unfoldable receiver : IsReceiver bus (pcd 1) 0x1000
unfolding serial_in serial_out
receiver = record {
  incoming = λ s. counting s.count;
  delay = λ s. if s.ready then 0 else 1;
  longest = 1;
  Arrived = λ s. s.ready ≡ true;
  Asked = λ s. s.rts ≡ true;
  Held = λ s. s.rts ≡ false;
  delay_bound = λ s. delay_le_one s.count s.ready;
  arrives = λ s e. arrives s.count s.ready s.rts e;
  comes_nearer = λ s asked h. comes_nearer s.count s.ready s.rts asked h;
  says = λ s h. says s.count s.ready s.rts h;
  lsr_keeps = λ s. ap counting (same_count s.count s.ready s.rts);
  mcr_read_keeps = λ s. refl;
  mcr_keeps = λ s v. refl;
  mcr_delay = λ s v. omega arith;
  mcr_arrived = λ s v a. a;
  rts_asks = λ s v. rts_set v;
  rts_holds = λ s v. rts_clear v;
  uncontrolled = λ s off. absurd (no_clash off);
  takes = λ s a held. (
    let e : s.count + 0 ≡ s.count = omega arith in rw e refl,
    rw (held, if◌then◌else◌) (counting_next s.count),
  );
}

abbrev five : Peer
five = record { count = 5; ready = false; rts = false }

serial_port_read_lem_example :
    (s' : Peer) × (serial_port_read bus (pcd 1) 3 100 3 five
      ≡ some (3, stream_take 3 (counting 5), s'))
unfolding receiver
serial_port_read_lem_example =
    serial_port_read_lem bus (pcd 1) receiver 2 100 3 five (omega arith) (omega arith) (omega arith)
