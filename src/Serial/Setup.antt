-- ===== src/Serial/Setup.antt =====
-- What SerialPortInitialize leaves in the registers of the UART.
use edk2_arc.Base.{
  ℕ, ◌*◌, ◌^◌, ◌≤◌, ◌+◌, ◌/◌, ◌%◌, ◌<◌, ◌≡◌, ◌≢◌, refl, ◌∙◌, ap, Bool, true, false, not, leb,
  le→leb, ◌==◌, ne→test, if◌then◌else◌, some, ◌>>=◌, List, [], ◌∷◌, u8, bit_and, bit_or, ◌>>>◌,
  arith,
}
use edk2_arc.Base.Bits.{bit_and_byte, bit_or_high}
use edk2_arc.Serial.{
  Bus, Pcd, serial_in, serial_out, serial_outs, get_serial_register_base, line_ctl, settings,
  divisor, serial_port_initialize,
}
use edk2_arc.Serial.Poll.{poll-ends}
use edk2_arc.Serial.Divisor.{divisor_nearest}
use edk2_arc.Serial.Reg

-- The registers of a 16550 that control it.
pub record Controls : Type 0 where
  pub ier : ℕ
  pub fcr : ℕ
  pub lcr : ℕ
  pub mcr : ℕ
  pub dll : ℕ
  pub dlm : ℕ

-- DLAB, bit 7 of the line control register, is set: the first two offsets are those of the divisor.
abbrev pub dlab : Controls → Bool
dlab c = leb 0x80 c.lcr

-- What the data sheet says of a write.
abbrev pub set_register : ℕ → ℕ → Controls → Controls
set_register offset v c =
    if offset == Reg.dll
    then if dlab c then record c { dll = v } else c
    else if offset == Reg.dlm
    then if dlab c then record c { dlm = v } else record c { ier = v }
    else if offset == Reg.fcr
    then record c { fcr = v }
    else if offset == Reg.lcr
    then record c { lcr = v }
    else if offset == Reg.mcr
    then record c { mcr = v }
    else c

module _ {S : Type 0} (bus : Bus S) (pcd : Pcd) (base : ℕ) where
  -- The documented behaviour of the registers: a write sets them, and reading the line status leaves
  -- them. The delay bounds how often the status is read before it says that the transmitter is empty.
  pub record IsProgrammable : Type 0 where
    pub controls : S → Controls
    pub writes :
        (offset v : ℕ) (s : S)
        → offset < 8
        → controls (serial_out bus pcd base offset v s) ≡ set_register offset (u8 v) (controls s)
    pub reads : (s : S) → controls (serial_in bus pcd base Reg.lsr s).1 ≡ controls s
    pub delay : S → ℕ
    pub empty :
        (s : S) → delay s ≡ 0 → not (bit_and (serial_in bus pcd base Reg.lsr s).0 0x40 == 0) ≡ true
    pub drains : (s : S) → 0 < delay s → delay (serial_in bus pcd base Reg.lsr s).1 < delay s

  -- The registers after a list of writes.
  abbrev set_registers : List (ℕ × ℕ) → Controls → Controls
  set_registers [] c = c
  set_registers ((offset, v) ∷ rest) c = set_registers rest (set_register offset (u8 v) c)

  -- The offsets are those of the registers.
  abbrev InRange : List (ℕ × ℕ) → Type 0
  InRange [] = Unit {0}
  InRange ((offset, v) ∷ rest) = (offset < 8) × InRange rest

  settings-InRange : InRange (settings bus pcd)
  unfolding settings
  settings-InRange = ground arith

  module _ (uart : IsProgrammable) where
    serial_outs-controls :
        (ws : List (ℕ × ℕ)) (s : S)
        → InRange ws
        → uart.controls (serial_outs bus pcd base ws s) ≡ set_registers ws (uart.controls s)
    unfolding serial_outs
    serial_outs-controls [] s all = refl
    serial_outs-controls ((offset, v) ∷ ws) s (low, rest) =
        serial_outs-controls ws (serial_out bus pcd base offset v s) rest
        ∙ ap (set_registers ws) (uart.writes offset v s low)

  -- What the writes of SerialPortInitialize come to.
  settings-controls :
      (c : Controls)
      → dlab c ≡ false
      → line_ctl bus pcd < 0x80
      → set_registers (settings bus pcd) c ≡ record {
        ier = 0;
        fcr = 0x0b;
        lcr = line_ctl bus pcd;
        mcr = 3;
        dll = divisor pcd.clock_rate pcd.baud_rate % 256;
        dlm = divisor pcd.clock_rate pcd.baud_rate / 256 % 256;
      }
  unfolding settings
  settings-controls c clear seven =
      let high : u8 (bit_or (line_ctl bus pcd) 0x80) ≡ line_ctl bus pcd + 128 =
        rw (bit_or_high (line_ctl bus pcd) seven) (omega arith) in
      let set : leb 0x80 (line_ctl bus pcd + 128) ≡ true =
        le→leb 0x80 (line_ctl bus pcd + 128) (omega arith) in
      let d = divisor pcd.clock_rate pcd.baud_rate in
      let low_byte : u8 (bit_and d 0xff) ≡ d % 256 = rw (bit_and_byte d) (omega arith) in
      let high_byte : u8 (bit_and (d >>> 8) 0xff) ≡ d / 256 % 256 =
        rw (bit_and_byte (d >>> 8)) (omega arith) in
      let whole : u8 (line_ctl bus pcd) ≡ line_ctl bus pcd = omega arith in
      rw (clear, if◌then◌else◌, high, set, set, low_byte, high_byte, whole) refl

-- The value for the line control register: that of the PCD, as a UINT8, or else 8 data bits, 1 stop bit
-- and no parity.
abbrev pub line_setting : ℕ → ℕ
line_setting line_control = if line_control % 256 == 0 then 3 else line_control % 256

line_ctl_lem :
    {S : Type 0} (bus : Bus S) (pcd : Pcd) → line_ctl bus pcd ≡ line_setting pcd.line_control
unfolding line_ctl
line_ctl_lem bus pcd = refl

-- `d` is nearest to the clock rate over 16 times the baud rate.
abbrev pub IsNearest : Pcd → ℕ → Type 0
IsNearest pcd d =
    (d * (pcd.baud_rate * 16) ≤ pcd.clock_rate + pcd.baud_rate * 8)
    × (pcd.clock_rate ≤ d * (pcd.baud_rate * 16) + pcd.baud_rate * 8)

-- SerialPortInitialize reads the line status until that says that the transmitter is empty, and
-- only then writes. It leaves the interrupts off, the FIFOs enabled, the modem lines on, the line
-- control of the PCD, or 8N1 if that is 0, with the divisor latch closed, and in the two latches
-- the number nearest to the clock rate over 16 times the baud rate; it returns the base address,
-- also on success. The base address is not NULL, the divisor latch is closed at the start, the line
-- control has seven bits, the rates are in range, the baud rate is not 0, and the fuel is more than
-- the time in which the transmitter empties.
pub serial_port_initialize_lem :
    {S : Type 0} (bus : Bus S) (pcd : Pcd) (uart : IsProgrammable bus pcd pcd.register_base)
    (fuel : ℕ) (s : S)
    → pcd.register_base ≢ 0
    → uart.delay s < fuel
    → dlab (uart.controls s) ≡ false
    → line_setting pcd.line_control < 0x80
    → 0 < pcd.baud_rate
    → pcd.baud_rate * 16 < 2 ^ 32
    → pcd.clock_rate < 2 ^ 32
    → (asked : S) × (d : ℕ) × (writes : List (ℕ × ℕ)) × (serial_port_initialize bus pcd fuel s
        ≡ some (
          pcd.register_base,
          serial_outs bus pcd pcd.register_base writes
              (serial_in bus pcd pcd.register_base Reg.lsr asked).1,
        ))
      × (not (bit_and (serial_in bus pcd pcd.register_base Reg.lsr asked).0 0x40 == 0) ≡ true)
      × IsNearest pcd d
      × (uart.controls (
            serial_outs bus pcd pcd.register_base writes
              (serial_in bus pcd pcd.register_base Reg.lsr asked).1)
          ≡ record {
            ier = 0;
            fcr = 0x0b;
            lcr = line_setting pcd.line_control;
            mcr = 3;
            dll = d % 256;
            dlm = d / 256 % 256;
          })
unfolding serial_port_initialize get_serial_register_base
serial_port_initialize_lem {S} bus pcd uart fuel s base_set patient closed seven rate fits
      clock_fits =
    let base = pcd.register_base in
    let (s', waited, same, (asked, empty, after)) =
      poll-ends bus pcd base (λ t. uart.controls t ≡ uart.controls s)
        (λ t.
          (asked : S) × (not (bit_and (serial_in bus pcd base Reg.lsr asked).0 0x40 == 0) ≡ true)
          × (t ≡ (serial_in bus pcd base Reg.lsr asked).1))
        (λ v. not (bit_and v 0x40 == 0)) Reg.lsr uart.delay uart.empty uart.drains
        (λ t k. uart.reads t ∙ k) (λ t now. (t, now, refl)) fuel s patient refl in
    (
      asked,
      divisor pcd.clock_rate pcd.baud_rate,
      settings bus pcd,
      rw (← after) (rw (ne→test base 0 base_set, if◌then◌else◌, waited, ◌>>=◌) refl),
      empty,
      divisor_nearest pcd.clock_rate pcd.baud_rate rate fits clock_fits,
      rw (← after, ← line_ctl_lem bus pcd)
          (serial_outs-controls bus pcd base uart (settings bus pcd) s'
              (settings-InRange bus pcd base)
            ∙ ap (set_registers bus pcd base (settings bus pcd)) same
            ∙ settings-controls bus pcd base (uart.controls s) closed
                (rw (line_ctl_lem bus pcd) seven)),
    )
