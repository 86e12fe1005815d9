-- ===== src/Serial/Poll.antt =====
-- What the driver relies on at the registers of a 16550, and its waits.
use edk2_arc.Base.{
  ℕ, zero, suc, ◌≤◌, ◌<◌, ◌≡◌, ◌≢◌, ◌+◌, refl, sym, inl, inr, Bool, true, false, not, ◌==◌,
  eq_of_test, some, List, [], ◌∷◌, ◌++◌, u8, bit_and, ℕ_discrete, Bool-cases, ◌∙◌, arith,
}
use edk2_arc.Serial.{
  Bus, Pcd, serial_in, serial_out, is_flushed, is_writable, poll, serial_port_flush,
  serial_port_wait_writable,
}
use edk2_arc.Serial.Reg

module _ {S : Type 0} (bus : Bus S) (pcd : Pcd) (base : ℕ) where
  -- The documented behaviour of the transmitter. `sent` is what it was given so far, `queued` how
  -- many of these bytes wait in its FIFO, of `depth` places, and the two delays bound how often a
  -- status register is read before it says that the transmitter is empty, and that the peer is
  -- ready. The peer is `Clear` to receive when the modem status has just said so, and always
  -- without hardware flow control. Of a byte that is written when the FIFO is full or the peer is
  -- not clear, nothing is said: it may get lost.
  pub record IsUart : Type 1 where
    pub sent : S → List ℕ
    pub queued : S → ℕ
    pub depth : ℕ
    pub Clear : S → Type 0
    pub busy : S → ℕ
    pub blocked : S → ℕ
    pub longest : ℕ
    pub busy_bound : (s : S) → busy s ≤ longest
    pub blocked_bound : (s : S) → blocked s ≤ longest
    pub empty : (s : S) → busy s ≡ 0 → bit_and (serial_in bus pcd base Reg.lsr s).0 0x60 ≡ 0x60
    pub drains : (s : S) → 0 < busy s → busy (serial_in bus pcd base Reg.lsr s).1 < busy s
    pub lsr_quiet : (s : S) → sent (serial_in bus pcd base Reg.lsr s).1 ≡ sent s
    pub emptied :
        (s : S)
        → bit_and (serial_in bus pcd base Reg.lsr s).0 0x60 ≡ 0x60
        → queued (serial_in bus pcd base Reg.lsr s).1 ≡ 0
    pub opened : (s : S) → blocked s ≡ 0 → bit_and (serial_in bus pcd base Reg.msr s).0 0x30 ≡ 0x30
    pub opens : (s : S) → 0 < blocked s → blocked (serial_in bus pcd base Reg.msr s).1 < blocked s
    pub msr_quiet : (s : S) → sent (serial_in bus pcd base Reg.msr s).1 ≡ sent s
    pub msr_queued : (s : S) → queued (serial_in bus pcd base Reg.msr s).1 ≤ queued s
    pub both_set :
        (s : S)
        → bit_and (serial_in bus pcd base Reg.msr s).0 0x30 ≡ 0x30
        → Clear (serial_in bus pcd base Reg.msr s).1
    pub no_cable :
        (s : S)
        → pcd.detect_cable ≡ false
        → bit_and (serial_in bus pcd base Reg.msr s).0 0x30 ≢ 0x20
        → Clear (serial_in bus pcd base Reg.msr s).1
    pub uncontrolled : (s : S) → pcd.use_hardware_flow_control ≡ false → Clear s
    pub transmits :
        (s : S) (v : ℕ)
        → Clear s
        → queued s < depth
        → sent (serial_out bus pcd base Reg.txbuf v s) ≡ sent s ++ (u8 v ∷ [])
    pub queues : (s : S) (v : ℕ) → queued (serial_out bus pcd base Reg.txbuf v s) ≤ queued s + 1

  module _ {ℓ ℓ'} (Kept : S → Type ℓ) (Seen : S → Type ℓ') (ready : ℕ → Bool) (offset : ℕ)
      (delay : S → ℕ)
      (passes : (s : S) → delay s ≡ 0 → ready (serial_in bus pcd base offset s).0 ≡ true)
      (falls : (s : S) → 0 < delay s → delay (serial_in bus pcd base offset s).1 < delay s)
      (keeps : (s : S) → Kept s → Kept (serial_in bus pcd base offset s).1)
      (sees : (s : S)
        → ready (serial_in bus pcd base offset s).0 ≡ true
        → Seen (serial_in bus pcd base offset s).1) where
    -- A wait ends within its delay, keeps what a reading keeps, and has seen what the last one says.
    pub poll-ends :
        (fuel : ℕ) (s : S)
        → delay s < fuel
        → Kept s
        → (s' : S) × (poll bus pcd ready base offset fuel s ≡ some s') × Kept s' × Seen s'
    unfolding poll
    poll-ends zero s h k = absurd (omega arith)
    poll-ends (suc fuel) s h k = elim (Bool-cases (ready (serial_in bus pcd base offset s).0)) [
      | inl now ↦ ((serial_in bus pcd base offset s).1, rw now refl, keeps s k, sees s now)
      | inr later ↦ elim (ℕ_discrete (delay s) 0) [
        | yes none_left ↦ let clash : true ≡ false = sym (passes s none_left) ∙ later in cc
        | no some_left ↦
            let (s', e, kept, seen) =
              poll-ends fuel (serial_in bus pcd base offset s).1
                (omega (arith, falls s (omega arith))) (keeps s k) in
            (s', rw later e, kept, seen)
      ]
    ]

  module _ (uart : IsUart) where
    pub flush-ends :
        (fuel : ℕ) (s : S)
        → uart.longest < fuel
        → (s' : S) × (serial_port_flush bus pcd base fuel s ≡ some s')
          × (uart.sent s' ≡ uart.sent s)
          × (uart.queued s' ≡ 0)
    unfolding serial_port_flush
    flush-ends fuel s h =
        poll-ends (λ t. uart.sent t ≡ uart.sent s) (λ t. uart.queued t ≡ 0) (is_flushed bus pcd)
          Reg.lsr uart.busy (λ t e. rw (uart.empty t e) refl) uart.drains
          (λ t k. uart.lsr_quiet t ∙ k)
          (λ t now.
            uart.emptied t
              (eq_of_test (bit_and (serial_in bus pcd base Reg.lsr t).0 0x60) 0x60 now))
          fuel s (omega (arith, uart.busy_bound s)) refl

    writable : (v : ℕ) → bit_and v 0x30 ≡ 0x30 → is_writable bus pcd v ≡ true
    writable v e = elim (Bool-cases (pcd.detect_cable)) [
      | inl on ↦ rw (on, e) refl
      | inr off ↦ rw (off, e) refl
    ]

    not_only : (b : ℕ) → not (b == 0x20) ≡ true → b ≢ 0x20
    not_only b now = ground arith

    writable-Clear :
        (s : S)
        → is_writable bus pcd (serial_in bus pcd base Reg.msr s).0 ≡ true
        → uart.Clear (serial_in bus pcd base Reg.msr s).1
    unfolding serial_in
    writable-Clear s now = elim (Bool-cases (pcd.detect_cable)) [
      | inl on ↦
          uart.both_set s
            (eq_of_test (bit_and (serial_in bus pcd base Reg.msr s).0 0x30) 0x30 (rw on at now))
      | inr off ↦
          uart.no_cable s off
            (not_only (bit_and (serial_in bus pcd base Reg.msr s).0 0x30) (rw off at now))
    ]

    pub wait_writable-ends :
        (fuel : ℕ) (s : S)
        → uart.longest < fuel
        → (s' : S) × (serial_port_wait_writable bus pcd base fuel s ≡ some s')
          × ((uart.sent s' ≡ uart.sent s) × (uart.queued s' ≤ uart.queued s))
          × uart.Clear s'
    unfolding serial_port_wait_writable
    wait_writable-ends fuel s h = elim (Bool-cases (pcd.use_hardware_flow_control)) [
      | inr off ↦ (s, simp off refl, (refl, omega arith), uart.uncontrolled s off)
      | inl on ↦
          let (s', e, kept, seen) =
            poll-ends (λ t. (uart.sent t ≡ uart.sent s) × (uart.queued t ≤ uart.queued s))
              uart.Clear (is_writable bus pcd) Reg.msr uart.blocked
              (λ t z. writable (serial_in bus pcd base Reg.msr t).0 (uart.opened t z)) uart.opens
              (λ t k. (uart.msr_quiet t ∙ k.0, omega (arith, k.1, uart.msr_queued t)))
              writable-Clear fuel s (omega (arith, uart.blocked_bound s)) (refl, omega arith) in
          (s', simp on e, kept, seen)
    ]
