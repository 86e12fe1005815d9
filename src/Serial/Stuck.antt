-- ===== src/Serial/Stuck.antt =====
-- SerialPortWrite with a FIFO that has no place, and the status of SerialPortInitialize.
use edk2_arc.Base.{
  ℕ, zero, suc, ◌≡◌, ◌≢◌, refl, inl, inr, Option, none, some, Option-cases, ◌==◌, ne→test,
  ℕ_discrete, if◌then◌else◌, ◌>>=◌, not, bit_and, ◌∙◌, sym,
}
use edk2_arc.Edk2.{Mem}
use edk2_arc.Serial.{
  Bus, Pcd, get_serial_register_base, fifo_size, fill_fifo, write_loop, serial_port_write,
  serial_port_flush, poll, serial_port_initialize, serial_outs, settings,
}
use edk2_arc.Serial.Reg

write_loop-stuck :
    {S : Type 0} (bus : Bus S) (pcd : Pcd) (m : Mem) (fuel base rounds bytes buffer : ℕ) (s : S)
    → fifo_size bus pcd ≡ 0
    → bytes ≢ 0
    → write_loop bus pcd m fuel base rounds bytes buffer s ≡ none
unfolding write_loop fill_fifo
write_loop-stuck bus pcd m fuel base zero bytes buffer s e ne = refl
write_loop-stuck bus pcd m fuel base (suc rounds) zero buffer s e ne = absurd (ne refl)
write_loop-stuck bus pcd m fuel base (suc rounds) (suc bytes) buffer s e ne =
    elim (Option-cases (serial_port_flush bus pcd base fuel s)) [
      | inl never ↦ rw never refl
      | inr (s', flushed) ↦
          rw (flushed, ◌>>=◌, e)
            (write_loop-stuck bus pcd m fuel base rounds (suc bytes) buffer s' e ne)
    ]

-- With a FIFO size of 0, which PcdSerialExtendedTxFifoSize can give, SerialPortWrite never returns,
-- whatever the device does, if there is a byte to send and neither the buffer nor the base address
-- is NULL.
pub serial_port_write_stuck :
    {S : Type 0} (bus : Bus S) (pcd : Pcd) (m : Mem) (fuel rounds buffer bytes : ℕ) (s : S)
    → fifo_size bus pcd ≡ 0
    → buffer ≢ 0
    → pcd.register_base ≢ 0
    → bytes ≢ 0
    → serial_port_write bus pcd m fuel rounds buffer bytes s ≡ none
unfolding serial_port_write get_serial_register_base
serial_port_write_stuck bus pcd m fuel rounds buffer bytes s e nb base_set some_bytes =
    rw
      (
        ne→test buffer 0 nb,
        if◌then◌else◌,
        ne→test pcd.register_base 0 base_set,
        ne→test bytes 0 some_bytes,
        write_loop-stuck bus pcd m fuel pcd.register_base rounds bytes buffer s e some_bytes,
      )
      refl

-- SerialPortInitialize never returns RETURN_SUCCESS, which is 0: it returns the base address of
-- the device, or RETURN_DEVICE_ERROR without one. RETURN_DEVICE_ERROR is not 0.
pub serial_port_initialize_status :
    {S : Type 0} (bus : Bus S) (pcd : Pcd) (fuel status : ℕ) (s s' : S)
    → pcd.return_device_error ≢ 0
    → serial_port_initialize bus pcd fuel s ≡ some (status, s')
    → (status ≢ 0)
      × ((pcd.register_base ≡ 0 → status ≡ pcd.return_device_error)
          × (pcd.register_base ≢ 0 → status ≡ pcd.register_base))
unfolding serial_port_initialize get_serial_register_base
serial_port_initialize_status {S} bus pcd fuel status s s' ne h =
    elim (ℕ_discrete pcd.register_base 0) [
      | yes none_set ↦
          let h' : ◌≡◌ {A = Option (ℕ × S)} (some (pcd.return_device_error, s))
              (some (status, s')) =
            simp none_set at h in
          let same : pcd.return_device_error ≡ status = cc in
          ((λ z. ne (same ∙ z)), ((λ _. sym same), (λ base_set. absurd (base_set none_set))))
      | no base_set ↦
          elim (Option-cases
            (poll bus pcd (λ v. not (bit_and v 0x40 == 0)) pcd.register_base Reg.lsr fuel s)) [
              | inl never ↦
                  let h' : ◌≡◌ {A = Option (ℕ × S)} none (some (status, s')) =
                    rw (ne→test pcd.register_base 0 base_set, if◌then◌else◌, never) at h in
                  absurd (cc)
              | inr (s₁, ready) ↦
                  let h' : ◌≡◌ {A = Option (ℕ × S)}
                      (some (
                        pcd.register_base,
                        serial_outs bus pcd pcd.register_base (settings bus pcd) s₁,
                      ))
                      (some (status, s')) =
                    rw (ne→test pcd.register_base 0 base_set, if◌then◌else◌, ready) at h in
                  let same : pcd.register_base ≡ status = cc in
                  ((λ z. base_set (same ∙ z)), ((λ z. absurd (base_set z)), (λ _. sym same)))
            ]
    ]
