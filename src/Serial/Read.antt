-- ===== src/Serial/Read.antt =====
-- What SerialPortRead stores.
use edk2_arc.Base.{
  ℕ, zero, suc, ◌+◌, ◌≤◌, ◌<◌, ◌≡◌, ◌≢◌, refl, false, some, List, [], ◌∷◌, ◌>>=◌, if◌then◌else◌,
  bit_and, bit_or, ne→test, ℕ_discrete, ap, ap₂, ◌∙◌, Bool-cases, inl, inr, arith,
}
use edk2_arc.Serial.{
  Bus, Pcd, serial_in, serial_out, get_serial_register_base, wait_data, read_loop, serial_port_read,
}
use edk2_arc.Serial.Reg

-- The first `n` elements of a stream.
abbrev pub stream_take : ℕ → (ℕ → ℕ) → List ℕ
stream_take zero f = []
stream_take (suc n) f = f 0 ∷ stream_take n (λ i. f (i + 1))

module _ {S : Type 0} (bus : Bus S) (pcd : Pcd) (base : ℕ) where
  -- The documented behaviour of the receiver. `incoming` are the bytes that the peer sends from
  -- here on, and `delay` bounds how often the line status is read before it says that one has
  -- arrived, from when the peer is `Asked`. With hardware flow control it is asked by RTS, and
  -- `Held` when RTS is clear; without, it always sends, and never too soon. A byte that has
  -- arrived stays until it is read from the receive buffer, if no other one may come meanwhile.
  pub record IsReceiver : Type 1 where
    pub incoming : S → ℕ → ℕ
    pub delay : S → ℕ
    pub longest : ℕ
    pub Arrived : S → Type 0
    pub Asked : S → Type 0
    pub Held : S → Type 0
    pub delay_bound : (s : S) → delay s ≤ longest
    pub arrives : (s : S) → delay s ≡ 0 → bit_and (serial_in bus pcd base Reg.lsr s).0 0x01 ≢ 0
    pub comes_nearer :
        (s : S) → Asked s → 0 < delay s → delay (serial_in bus pcd base Reg.lsr s).1 < delay s
    pub says :
        (s : S)
        → bit_and (serial_in bus pcd base Reg.lsr s).0 0x01 ≢ 0
        → Arrived (serial_in bus pcd base Reg.lsr s).1
    pub lsr_keeps : (s : S) → incoming (serial_in bus pcd base Reg.lsr s).1 ≡ incoming s
    pub mcr_read_keeps : (s : S) → incoming (serial_in bus pcd base Reg.mcr s).1 ≡ incoming s
    pub mcr_keeps : (s : S) (v : ℕ) → incoming (serial_out bus pcd base Reg.mcr v s) ≡ incoming s
    pub mcr_delay : (s : S) (v : ℕ) → delay (serial_out bus pcd base Reg.mcr v s) ≤ delay s
    pub mcr_arrived : (s : S) (v : ℕ) → Arrived s → Arrived (serial_out bus pcd base Reg.mcr v s)
    pub rts_asks : (s : S) (v : ℕ) → Asked (serial_out bus pcd base Reg.mcr (bit_or v 0x02) s)
    pub rts_holds : (s : S) (v : ℕ) → Held (serial_out bus pcd base Reg.mcr (bit_and v 0xfd) s)
    pub uncontrolled : (s : S) → pcd.use_hardware_flow_control ≡ false → Asked s × Held s
    pub takes :
        (s : S)
        → Arrived s
        → Held s
        → ((serial_in bus pcd base Reg.rxbuf s).0 ≡ incoming s 0)
          × (incoming (serial_in bus pcd base Reg.rxbuf s).1 ≡ (λ i. incoming s (i + 1)))

  module _ (r : IsReceiver) where
    -- The device after the write that flow control asks for.
    abbrev with_mcr : ℕ → S → S
    with_mcr v s = if pcd.use_hardware_flow_control then serial_out bus pcd base Reg.mcr v s else s

    record Kept (s t : S) : Type 0 where
      same : r.incoming t ≡ r.incoming s
      nearer : r.delay t ≤ r.delay s
      arrived : r.Arrived s → r.Arrived t

    -- What holds after the write, and always without flow control, holds.
    with_mcr-holds :
        (Q : S → Type 0) (v : ℕ) (s : S)
        → Q (serial_out bus pcd base Reg.mcr v s)
        → (pcd.use_hardware_flow_control ≡ false → Q s)
        → Q (with_mcr v s)
    with_mcr-holds Q v s written unwritten = elim (Bool-cases (pcd.use_hardware_flow_control)) [
      | inl on ↦ simp on written
      | inr off ↦ simp off (unwritten off)
    ]

    with_mcr-Kept : (v : ℕ) (s : S) → Kept s (with_mcr v s)
    with_mcr-Kept v s =
        with_mcr-holds (Kept s) v s
          (record { same = r.mcr_keeps s v; nearer = r.mcr_delay s v; arrived = r.mcr_arrived s v })
          (λ off. record { same = refl; nearer = omega arith; arrived = λ a. a })

    -- The wait ends, with a byte that has arrived.
    abbrev Waits : ℕ → ℕ → S → Type 0
    Waits mcr fuel s =
        (s' : S) × (wait_data bus pcd mcr base fuel s ≡ some s')
        × (r.incoming s' ≡ r.incoming s)
        × r.Arrived s'

    -- A round that sees no byte sets RTS, and goes on.
    wait_data-round :
        (mcr fuel : ℕ) (s : S)
        → (bit_and (serial_in bus pcd base Reg.lsr s).0 0x01 ≡ 0
            → Waits mcr fuel (with_mcr (bit_or mcr 0x02) (serial_in bus pcd base Reg.lsr s).1))
        → Waits mcr (suc fuel) s
    unfolding wait_data
    wait_data-round mcr fuel s go =
        elim (ℕ_discrete (bit_and (serial_in bus pcd base Reg.lsr s).0 0x01) 0) [
          | no here ↦ (
            (serial_in bus pcd base Reg.lsr s).1,
            rw (ne→test (bit_and (serial_in bus pcd base Reg.lsr s).0 0x01) 0 here) refl,
            r.lsr_keeps s,
            r.says s here,
          )
          | yes not_yet ↦
              let t : S = (serial_in bus pcd base Reg.lsr s).1 in
              let (s', e, same, arrived) = go not_yet in
              (
                s',
                rw not_yet e,
                same ∙ (with_mcr-Kept (bit_or mcr 0x02) t).same ∙ r.lsr_keeps s,
                arrived,
              )
        ]

    wait_data-Asked : (mcr fuel : ℕ) (s : S) → r.Asked s → r.delay s < fuel → Waits mcr fuel s
    wait_data-Asked mcr zero s asked h = absurd (omega arith)
    wait_data-Asked mcr (suc fuel) s asked h = wait_data-round mcr fuel s λ not_yet.
        let waits : 0 < r.delay s = elim (ℕ_discrete (r.delay s) 0) [
          | yes over ↦ absurd (r.arrives s over not_yet)
          | no some_left ↦ omega arith
        ] in
        let t : S = (serial_in bus pcd base Reg.lsr s).1 in
        wait_data-Asked mcr fuel (with_mcr (bit_or mcr 0x02) t)
          (with_mcr-holds r.Asked (bit_or mcr 0x02) t (r.rts_asks t mcr)
            λ off. (r.uncontrolled t off).0)
          (omega (arith, (with_mcr-Kept (bit_or mcr 0x02) t).nearer, r.comes_nearer s asked waits))

    -- The peer may still be held in the first round.
    wait_data-ends : (mcr fuel : ℕ) (s : S) → r.longest < fuel → Waits mcr (suc fuel) s
    wait_data-ends mcr fuel s h = wait_data-round mcr fuel s λ not_yet.
        let t : S = (serial_in bus pcd base Reg.lsr s).1 in
        wait_data-Asked mcr fuel (with_mcr (bit_or mcr 0x02) t)
          (with_mcr-holds r.Asked (bit_or mcr 0x02) t (r.rts_asks t mcr)
            λ off. (r.uncontrolled t off).0)
          (omega (arith, r.delay_bound (with_mcr (bit_or mcr 0x02) t)))

    read_loop-reads :
        (mcr fuel bytes : ℕ) (s : S)
        → r.longest < fuel
        → (s' : S) × (read_loop bus pcd (bit_and mcr 0xfd) base (suc fuel) bytes s
            ≡ some (stream_take bytes (r.incoming s), s'))
    unfolding read_loop
    read_loop-reads mcr fuel zero s h = (s, refl)
    read_loop-reads mcr fuel (suc bytes) s h =
        let clear = bit_and mcr 0xfd in
        let (t, e, same, arrived) = wait_data-ends clear fuel s h in
        let k = with_mcr-Kept clear t in
        let held =
          with_mcr-holds r.Held clear t (r.rts_holds t mcr) (λ off. (r.uncontrolled t off).1) in
        let taken = r.takes (with_mcr clear t) (k.arrived arrived) held in
        let (s', e') =
          read_loop-reads mcr fuel bytes (serial_in bus pcd base Reg.rxbuf (with_mcr clear t)).1
            h in
        let unread : r.incoming (with_mcr clear t) ≡ r.incoming s = k.same ∙ same in
        (
          s',
          rw (e, ◌>>=◌, e', ◌>>=◌)
              (ap₂ (λ (x : ℕ) (f : ℕ → ℕ). some (x ∷ stream_take bytes f, s'))
                (taken.0 ∙ ap (λ f. f 0) unread)
                (taken.1 ∙ ap {B = ℕ → ℕ} (λ (f : ℕ → ℕ) i. f (i + 1)) unread)),
        )

-- SerialPortRead returns the number of bytes that was asked for, and has stored that many of the
-- bytes that the peer sends, each once and in order, with or without hardware flow control. With
-- it, the peer sends only while it is asked, and a byte is taken only while the peer is held: the
-- function asks it while it waits, and holds it before it takes a byte. Each byte arrives in time at a
-- UART whose peer is asked, the buffer and the base address are not NULL, and the fuel is more
-- than the longest delay and one round.
pub serial_port_read_lem :
    {S : Type 0} (bus : Bus S) (pcd : Pcd) (r : IsReceiver bus pcd pcd.register_base)
    (fuel buffer bytes : ℕ) (s : S)
    → r.longest < fuel
    → buffer ≢ 0
    → pcd.register_base ≢ 0
    → (s' : S) × (serial_port_read bus pcd (suc fuel) buffer bytes s
        ≡ some (bytes, stream_take bytes (r.incoming s), s'))
unfolding serial_port_read get_serial_register_base
serial_port_read_lem bus pcd r fuel buffer bytes s patient nb base_set =
    let mcr = serial_in bus pcd pcd.register_base Reg.mcr s in
    let (s', e) = read_loop-reads bus pcd pcd.register_base r mcr.0 fuel bytes mcr.1 patient in
    (
      s',
      rw
          (
            ne→test buffer 0 nb,
            if◌then◌else◌,
            ne→test pcd.register_base 0 base_set,
            if◌then◌else◌,
            e,
            ◌>>=◌,
          )
          (ap (λ (f : ℕ → ℕ). some (bytes, stream_take bytes f, s')) (r.mcr_read_keeps s)),
    )
