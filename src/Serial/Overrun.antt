-- ===== src/Serial/Overrun.antt =====
-- SerialPortWrite at a FIFO with fewer places than it takes it to have.
use edk2_arc.Base.{
  ℕ, zero, suc, ◌+◌, ◌≤◌, ◌<◌, ◌≡◌, ◌≢◌, refl, false, some, [], ◌∷◌, ◌++◌, ◌∙◌, ap, sym, ne→test,
  if◌then◌else◌, ◌>>=◌, u8, arith,
}
use mathlib.Core.List.{append_assoc, append-nil}
use edk2_arc.Edk2.{Mem}
use edk2_arc.Serial.{
  Bus, Pcd, serial_out, get_serial_register_base, fifo_size, fill_fifo, write_loop,
  serial_port_wait_writable, serial_port_write,
}
use edk2_arc.Serial.Reg
use edk2_arc.Serial.Poll.{IsUart, flush-ends}
use edk2_arc.Serial.Write.{bytes_at}

module _ {S : Type 0} (bus : Bus S) (pcd : Pcd) (base : ℕ) (uart : IsUart bus pcd base) where
  -- The line is slow: no byte leaves the FIFO between two writes, and one that finds no place is lost.
  pub record IsSlow : Type 0 where
    pub fills :
        (s : S) (v : ℕ)
        → uart.queued s < uart.depth
        → uart.queued (serial_out bus pcd base Reg.txbuf v s) ≡ uart.queued s + 1
    pub loses :
        (s : S) (v : ℕ)
        → uart.depth ≤ uart.queued s
        → (uart.sent (serial_out bus pcd base Reg.txbuf v s) ≡ uart.sent s)
          × (uart.depth ≤ uart.queued (serial_out bus pcd base Reg.txbuf v s))

  module _ (m : Mem) (fuel : ℕ) (slow : IsSlow) (off : pcd.use_hardware_flow_control ≡ false) where
    unwaited : (s : S) → serial_port_wait_writable bus pcd base fuel s ≡ some s
    unfolding serial_port_wait_writable
    unwaited s = simp off refl

    -- `room` places are left: so many bytes are sent, and the others are lost.
    fill_fifo-loses :
        (places bytes room buffer : ℕ) (s : S)
        → bytes ≤ places
        → room ≤ bytes
        → uart.depth ≤ uart.queued s + room
        → (0 < room → uart.queued s + room ≡ uart.depth)
        → (buffer' : ℕ) × (s' : S) × (fill_fifo bus pcd m fuel base places bytes buffer s
            ≡ some (zero, buffer', s'))
          × (uart.sent s' ≡ uart.sent s ++ bytes_at m buffer room)
    unfolding fill_fifo
    fill_fifo-loses zero zero zero buffer s fits le full left =
        (buffer, s, refl, sym (append-nil (uart.sent s)))
    fill_fifo-loses zero zero (suc room) buffer s fits le full left = absurd (omega arith)
    fill_fifo-loses zero (suc bytes) room buffer s fits le full left = absurd (omega arith)
    fill_fifo-loses (suc places) zero zero buffer s fits le full left =
        (buffer, s, refl, sym (append-nil (uart.sent s)))
    fill_fifo-loses (suc places) zero (suc room) buffer s fits le full left = absurd (omega arith)
    fill_fifo-loses (suc places) (suc bytes) zero buffer s fits le full left =
        let lost = slow.loses s (m buffer) (omega arith) in
        let (buffer', s', e, sent) =
          fill_fifo-loses places bytes zero (buffer + 1)
            (serial_out bus pcd base Reg.txbuf (m buffer) s) (omega arith) (omega arith)
            (omega (arith, lost.1)) (λ none_left. absurd (omega arith)) in
        (buffer', s', rw (unwaited s) e, sent ∙ ap (λ l. l ++ []) lost.0)
    fill_fifo-loses (suc places) (suc bytes) (suc room) buffer s fits le full left =
        let some_left : uart.queued s + suc room ≡ uart.depth = left (omega arith) in
        let filled = slow.fills s (m buffer) (omega arith) in
        let (buffer', s', e, sent) =
          fill_fifo-loses places bytes room (buffer + 1)
            (serial_out bus pcd base Reg.txbuf (m buffer) s) (omega arith) (omega arith)
            (omega (arith, filled)) (λ more. omega (arith, filled)) in
        (
          buffer',
          s',
          rw (unwaited s) e,
          sent
              ∙ ap (λ l. l ++ bytes_at m (buffer + 1) room)
                  (uart.transmits s (m buffer) (uart.uncontrolled s off) (omega arith))
              ∙ append_assoc (uart.sent s) (u8 (m buffer) ∷ []) (bytes_at m (buffer + 1) room),
        )

-- SerialPortWrite loses bytes if the FIFO has fewer places than it takes it to have: of up to so
-- many bytes, it sends only as many as there are places, and returns the number of all. The line
-- is slow, there is no hardware flow control, the UART empties its transmitter in time, the bytes
-- are at least as many as the places, and at most as many as the driver puts into the FIFO at
-- once. The buffer and the base address are not NULL, there is a byte to send, and the fuel is
-- more than the longest delay and, in the outer loop, for two rounds.
pub serial_port_write_loses :
    {S : Type 0} (bus : Bus S) (pcd : Pcd) (uart : IsUart bus pcd pcd.register_base) (m : Mem)
    (fuel rounds buffer bytes : ℕ) (s : S)
    → IsSlow bus pcd pcd.register_base uart
    → pcd.use_hardware_flow_control ≡ false
    → uart.longest < fuel
    → buffer ≢ 0
    → pcd.register_base ≢ 0
    → bytes ≢ 0
    → uart.depth ≤ bytes
    → bytes ≤ fifo_size bus pcd
    → (s' : S) × (serial_port_write bus pcd m fuel (suc (suc rounds)) buffer bytes s
        ≡ some (bytes, s'))
      × (uart.sent s' ≡ uart.sent s ++ bytes_at m buffer uart.depth)
unfolding serial_port_write get_serial_register_base write_loop
serial_port_write_loses bus pcd uart m fuel rounds buffer zero s slow off patient nb base_set
      some_bytes many fits =
    absurd (omega arith)
serial_port_write_loses bus pcd uart m fuel rounds buffer (suc bytes) s slow off patient nb base_set
      some_bytes many fits =
    let base = pcd.register_base in
    let (t, e, same, none_queued) = flush-ends bus pcd base uart fuel s patient in
    let (buffer', s', e', sent) =
      fill_fifo-loses bus pcd base uart m fuel slow off (fifo_size bus pcd) (suc bytes) uart.depth
        buffer t fits many (omega (arith, none_queued)) (λ _. omega (arith, none_queued)) in
    (
      s',
      rw
          (
            ne→test buffer 0 nb,
            if◌then◌else◌,
            ne→test base 0 base_set,
            ne→test (suc bytes) 0 some_bytes,
            e,
            ◌>>=◌,
            e',
          )
          refl,
      sent ∙ ap (λ l. l ++ bytes_at m buffer uart.depth) same,
    )
