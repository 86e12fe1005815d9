-- ===== src/Serial.antt =====
-- Platform/ARC/Library/SerialPortLib/Ns16550.c: the driver of the 16550 UART. The accesses to the
-- device, of IoLib, are parameters over a state of the device.
pub mod Reg
pub mod Poll
pub mod Divisor
pub mod Write
pub mod Read
pub mod Stuck
pub mod Overrun
pub mod Setup
use edk2_arc.Base.{
  ℕ, zero, suc, ◌+◌, ◌-◌, ◌*◌, ◌/◌, ◌%◌, ◌^◌, Bool, true, false, not, leb, ◌==◌, if◌then◌else◌,
  Option, none, some, ◌>>=◌, List, [], ◌∷◌, ◌++◌, u8, u32, bit_and, bit_or, ◌>>>◌,
}
use edk2_arc.Edk2.{Mem}
use edk2_arc.Serial.Reg

-- IoRead8, MmioRead8, MmioRead32, IoWrite8, MmioWrite8 and MmioWrite32; a read may change the device.
pub record Bus (S : Type 0) : Type 0 where
  pub io_read8 : S → ℕ → ℕ × S
  pub mmio_read8 : S → ℕ → ℕ × S
  pub mmio_read32 : S → ℕ → ℕ × S
  pub io_write8 : S → ℕ → ℕ → S
  pub mmio_write8 : S → ℕ → ℕ → S
  pub mmio_write32 : S → ℕ → ℕ → S

-- The PCDs of the build, the width of UINTN, and RETURN_DEVICE_ERROR.
pub record Pcd : Type 0 where
  pub uintn_bits : ℕ
  pub register_base : ℕ
  pub register_stride : ℕ
  pub use_mmio : Bool
  pub access_width : ℕ
  pub use_hardware_flow_control : Bool
  pub detect_cable : Bool
  pub clock_rate : ℕ
  pub baud_rate : ℕ
  pub line_control : ℕ
  pub fifo_control : ℕ
  pub extended_tx_fifo_size : ℕ
  pub return_device_error : ℕ

-- `Clock / (Baud * 16)`, rounded.
unfoldable pub divisor : ℕ → ℕ → ℕ
divisor clock_rate baud_rate =
    let div = clock_rate / u32 (baud_rate * 16) in
    let rem = clock_rate % u32 (baud_rate * 16) in
    if leb (u32 (baud_rate * 8)) rem then u32 (div + 1) else div

module _ {S : Type 0} (bus : Bus S) (pcd : Pcd) where
  abbrev pub address : ℕ → ℕ → ℕ
  address base offset = (base + offset * pcd.register_stride) % 2 ^ pcd.uintn_bits

  abbrev pub as_byte : ℕ × S → ℕ × S
  as_byte (v, s) = (u8 v, s)

  unfoldable pub serial_in : ℕ → ℕ → S → ℕ × S
  serial_in base offset s =
      let addr = address base offset in
      if not pcd.use_mmio
      then as_byte (bus.io_read8 s addr)
      else if pcd.access_width == 32
      then as_byte (bus.mmio_read32 s addr)
      else as_byte (bus.mmio_read8 s addr)

  -- `Value` is a UINT8.
  unfoldable pub serial_out : ℕ → ℕ → ℕ → S → S
  serial_out base offset value s =
      let addr = address base offset in
      if not pcd.use_mmio
      then bus.io_write8 s addr (u8 value)
      else if pcd.access_width == 32
      then bus.mmio_write32 s addr (u8 value)
      else bus.mmio_write8 s addr (u8 value)

  unfoldable pub get_serial_register_base : ℕ
  get_serial_register_base = pcd.register_base

  -- A loop that reads a register until a test on the value passes; `none`: the fuel ran out.
  unfoldable pub poll : (ℕ → Bool) → ℕ → ℕ → ℕ → S → Option S
  poll ready base offset zero s = none
  poll ready base offset (suc fuel) s =
      let r = serial_in base offset s in
      let rest = poll ready base offset fuel r.1 in if ready r.0 then some r.1 else rest

  abbrev pub is_writable : ℕ → Bool
  is_writable v =
      let bits = bit_and v (bit_or Reg.msr_dsr Reg.msr_cts) in
      if pcd.detect_cable then bits == bit_or Reg.msr_dsr Reg.msr_cts else not (bits == Reg.msr_dsr)

  unfoldable pub serial_port_wait_writable : ℕ → ℕ → S → Option S
  serial_port_wait_writable base fuel s =
      if not pcd.use_hardware_flow_control then some s else poll is_writable base Reg.msr fuel s

  abbrev pub is_flushed : ℕ → Bool
  is_flushed v = let mask = bit_or Reg.lsr_temt Reg.lsr_txrdy in bit_and v mask == mask

  unfoldable pub serial_port_flush : ℕ → ℕ → S → Option S
  serial_port_flush base fuel s = poll is_flushed base Reg.lsr fuel s

  -- `SerialOut(...)` one after the other.
  unfoldable pub serial_outs : ℕ → List (ℕ × ℕ) → S → S
  serial_outs base [] s = s
  serial_outs base ((offset, value) ∷ rest) s =
      serial_outs base rest (serial_out base offset value s)

  unfoldable pub line_ctl : ℕ
  line_ctl = if u8 pcd.line_control == 0 then Reg.lcr_8n1 else u8 pcd.line_control

  unfoldable pub settings : List (ℕ × ℕ)
  settings =
      let div = divisor pcd.clock_rate pcd.baud_rate in
      (Reg.ier, 0)
      ∷ (Reg.mcr, Reg.mcrval)
      ∷ (Reg.fcr, Reg.fcrval)
      ∷ (Reg.lcr, bit_or line_ctl Reg.lcr_dlab)
      ∷ (Reg.dll, bit_and div 0xff)
      ∷ (Reg.dlm, bit_and (div >>> 8) 0xff)
      ∷ (Reg.lcr, line_ctl)
      ∷ []

  -- What is returned, and the device.
  unfoldable pub serial_port_initialize : ℕ → S → Option (ℕ × S)
  serial_port_initialize fuel s =
      let base = get_serial_register_base in
      if base == 0
      then some (pcd.return_device_error, s)
      else poll (λ v. not (bit_and v Reg.lsr_temt == 0)) base Reg.lsr fuel s >>= λ s'.
          some (base, serial_outs base settings s')

  unfoldable pub fifo_size : ℕ
  fifo_size =
      if not (bit_and pcd.fifo_control Reg.fcr_fifoe == 0)
      then if bit_and pcd.fifo_control Reg.fcr_fifo64 == 0 then 16 else pcd.extended_tx_fifo_size
      else 1

  module _ (m : Mem) (fuel : ℕ) (base : ℕ) where
    -- The `for`, with `left` places in the FIFO: the bytes that are left, the pointer, the device.
    unfoldable pub fill_fifo : ℕ → ℕ → ℕ → S → Option (ℕ × ℕ × S)
    fill_fifo zero bytes buffer s = some (bytes, buffer, s)
    fill_fifo (suc left) zero buffer s = some (zero, buffer, s)
    fill_fifo (suc left) (suc bytes) buffer s = serial_port_wait_writable base fuel s >>= λ s'.
        fill_fifo left bytes (buffer + 1) (serial_out base Reg.txbuf (m buffer) s')

    unfoldable pub write_loop : ℕ → ℕ → ℕ → S → Option S
    write_loop zero bytes buffer s = none
    write_loop (suc rounds) zero buffer s = some s
    write_loop (suc rounds) (suc bytes) buffer s = serial_port_flush base fuel s >>= λ s'.
        fill_fifo fifo_size (suc bytes) buffer s' >>= λ (b, q, s''). write_loop rounds b q s''

  -- `rounds` is for the outer loop, `fuel` for each wait.
  unfoldable pub serial_port_write : Mem → ℕ → ℕ → ℕ → ℕ → S → Option (ℕ × S)
  serial_port_write m fuel rounds buffer bytes s =
      let base = get_serial_register_base in
      if buffer == 0
      then some (0, s)
      else if base == 0
      then some (0, s)
      else if bytes == 0
      then (serial_port_flush base fuel s >>= λ s'. some (0, s'))
      else (write_loop m fuel base rounds bytes buffer s >>= λ s'. some (bytes, s'))

  -- The inner `while` of SerialPortRead.
  unfoldable pub wait_data : ℕ → ℕ → ℕ → S → Option S
  wait_data mcr base zero s = none
  wait_data mcr base (suc fuel) s =
      let r = serial_in base Reg.lsr s in
      let rest = wait_data mcr base fuel (
        if pcd.use_hardware_flow_control
        then serial_out base Reg.mcr (bit_or mcr Reg.mcr_rts) r.1
        else r.1) in
      if bit_and r.0 Reg.lsr_rxrdy == 0 then rest else some r.1

  -- The `for`: the bytes that are stored behind `Buffer`, in order.
  unfoldable pub read_loop : ℕ → ℕ → ℕ → ℕ → S → Option (List ℕ × S)
  read_loop mcr base fuel zero s = some ([], s)
  read_loop mcr base fuel (suc bytes) s = wait_data mcr base fuel s >>= λ s'.
      let s'' = if pcd.use_hardware_flow_control then serial_out base Reg.mcr mcr s' else s' in
      let r = serial_in base Reg.rxbuf s'' in
      read_loop mcr base fuel bytes r.1 >>= λ (rest, t). some (r.0 ∷ rest, t)

  -- The number of bytes read, the bytes, and the device. `Mcr` has 8 bits, RTS cleared.
  unfoldable pub serial_port_read : ℕ → ℕ → ℕ → S → Option (ℕ × List ℕ × S)
  serial_port_read fuel buffer bytes s =
      let base = get_serial_register_base in
      if buffer == 0
      then some (0, [], s)
      else if base == 0
      then some (0, [], s)
      else let r = serial_in base Reg.mcr s in
        read_loop (bit_and r.0 (0xff - Reg.mcr_rts)) base fuel bytes r.1 >>= λ (bs, t).
        some (bytes, bs, t)
