-- ===== src/Serial/Write.antt =====
-- What SerialPortWrite sends.
use edk2_arc.Base.{
  ℕ, zero, suc, ◌+◌, ◌≤◌, ◌<◌, ◌≡◌, ◌≢◌, refl, some, List, [], ◌∷◌, ◌++◌, ◌∙◌, ap, sym, ne→test,
  if◌then◌else◌, ◌>>=◌, u8, arith,
}
use mathlib.Core.List.{append_assoc, append-nil}
use edk2_arc.Edk2.{Mem}
use edk2_arc.Serial.{
  Bus, Pcd, serial_out, get_serial_register_base, fifo_size, fill_fifo, write_loop,
  serial_port_write,
}
use edk2_arc.Serial.Reg
use edk2_arc.Serial.Poll.{IsUart, flush-ends, wait_writable-ends}

-- The bytes of the buffer.
abbrev pub bytes_at : Mem → ℕ → ℕ → List ℕ
bytes_at m buffer zero = []
bytes_at m buffer (suc n) = u8 (m buffer) ∷ bytes_at m (buffer + 1) n

module _ {S : Type 0} (bus : Bus S) (pcd : Pcd) (base : ℕ) (uart : IsUart bus pcd base) (m : Mem)
    (fuel : ℕ) (patient : uart.longest < fuel) where
  -- What is left after a part of `bytes` was sent.
  record Partly (bytes buffer : ℕ) (s : S) (left buffer' : ℕ) (s' : S) : Type 0 where
    some_sent : left ≤ bytes
    all_or_rest : uart.sent s' ++ bytes_at m buffer' left ≡ uart.sent s ++ bytes_at m buffer bytes

  fill_fifo-Partly :
      (places bytes buffer : ℕ) (s : S)
      → uart.queued s + places ≤ uart.depth
      → (left : ℕ) × (buffer' : ℕ) × (s' : S) × (fill_fifo bus pcd m fuel base places bytes buffer s
          ≡ some (left, buffer', s'))
        × Partly bytes buffer s left buffer' s'
        × (0 < places → 0 < bytes → left < bytes)
  unfolding fill_fifo
  fill_fifo-Partly zero bytes buffer s fits = (
    bytes,
    buffer,
    s,
    refl,
    record { some_sent = omega arith; all_or_rest = refl },
    λ p q. absurd (omega arith),
  )
  fill_fifo-Partly (suc places) zero buffer s fits = (
    zero,
    buffer,
    s,
    refl,
    record { some_sent = omega arith; all_or_rest = refl },
    λ p q. absurd (omega arith),
  )
  fill_fifo-Partly (suc places) (suc bytes) buffer s fits =
      let (s', e, (same, queued), clear) = wait_writable-ends bus pcd base uart fuel s patient in
      let (left, buffer', t, e', part, less) =
        fill_fifo-Partly places bytes (buffer + 1) (serial_out bus pcd base Reg.txbuf (m buffer) s')
          (omega (arith, queued, uart.queues s' (m buffer))) in
      (
        left,
        buffer',
        t,
        rw e e',
        record {
          some_sent = omega (arith, part.some_sent);
          all_or_rest =
              part.all_or_rest
              ∙ ap (λ l. l ++ bytes_at m (buffer + 1) bytes)
                  (uart.transmits s' (m buffer) clear (omega (arith, queued))
                    ∙ ap (λ l. l ++ (u8 (m buffer) ∷ [])) same)
              ∙ append_assoc (uart.sent s) (u8 (m buffer) ∷ []) (bytes_at m (buffer + 1) bytes);
        },
        λ p q. omega (arith, part.some_sent),
      )

  write_loop-sends :
      (rounds bytes buffer : ℕ) (s : S)
      → 0 < fifo_size bus pcd
      → fifo_size bus pcd ≤ uart.depth
      → bytes < rounds
      → (s' : S) × (write_loop bus pcd m fuel base rounds bytes buffer s ≡ some s')
        × (uart.sent s' ≡ uart.sent s ++ bytes_at m buffer bytes)
  unfolding write_loop
  write_loop-sends zero bytes buffer s places fits h = absurd (omega arith)
  write_loop-sends (suc rounds) zero buffer s places fits h =
      (s, refl, sym (append-nil (uart.sent s)))
  write_loop-sends (suc rounds) (suc bytes) buffer s places fits h =
      let (s', e, same, none_queued) = flush-ends bus pcd base uart fuel s patient in
      let (left, buffer', t, e', part, less) =
        fill_fifo-Partly (fifo_size bus pcd) (suc bytes) buffer s'
          (omega (arith, none_queued, fits)) in
      let (u, e'', sends) =
        write_loop-sends rounds left buffer' t places fits
          (omega (arith, less places (omega arith))) in
      (
        u,
        rw (e, ◌>>=◌, e') e'',
        sends ∙ part.all_or_rest ∙ ap (λ l. l ++ bytes_at m buffer (suc bytes)) same,
      )

-- SerialPortWrite sends every byte of the buffer, in order and nothing else, and returns their
-- number: it never writes a byte when the FIFO is full, nor, with hardware flow control, when the
-- peer is not clear to receive. The UART empties its transmitter and its peer becomes ready in
-- time, its FIFO has at least as many places as the driver takes it to have, and one at least. The
-- buffer and the base address are not NULL, and there is a byte to send. The fuel is more than the
-- longest delay, and that of the outer loop more than the number of bytes.
pub serial_port_write_lem :
    {S : Type 0} (bus : Bus S) (pcd : Pcd) (uart : IsUart bus pcd pcd.register_base) (m : Mem)
    (fuel rounds buffer bytes : ℕ) (s : S)
    → uart.longest < fuel
    → bytes < rounds
    → buffer ≢ 0
    → pcd.register_base ≢ 0
    → bytes ≢ 0
    → 0 < fifo_size bus pcd
    → fifo_size bus pcd ≤ uart.depth
    → (s' : S) × (serial_port_write bus pcd m fuel rounds buffer bytes s ≡ some (bytes, s'))
      × (uart.sent s' ≡ uart.sent s ++ bytes_at m buffer bytes)
unfolding serial_port_write get_serial_register_base
serial_port_write_lem bus pcd uart m fuel rounds buffer bytes s patient h nb base_set some_bytes
      places fits =
    let (s', e, sends) =
      write_loop-sends bus pcd pcd.register_base uart m fuel patient rounds bytes buffer s places
        fits h in
    (
      s',
      rw
          (
            ne→test buffer 0 nb,
            if◌then◌else◌,
            ne→test pcd.register_base 0 base_set,
            ne→test bytes 0 some_bytes,
            e,
          )
          refl,
      sends,
    )
