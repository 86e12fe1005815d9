-- ===== src/Sync/Wait.antt =====
-- When AcquireSpinLock returns.
use edk2_arc.Base.{
  if◌then◌else◌, none, ℕ, zero, suc, ◌+◌, ◌^◌, ◌≤◌, ◌<◌, ◌≡◌, ◌≢◌, refl, ◌⊎◌, inl, inr, Bool, true,
  false, Option, some, ltb, ltb→lt, ne→test, u64, Bool-cases, arith,
}
use edk2_arc.Sync.{
  Checked, done, assertion, Primitives, Clock, spin_lock_released, spin_lock_acquired, delta,
  acquire_spin_lock_or_fail, unless_acquired, wait_loop, timed_loop, timeout_ticks,
  acquire_spin_lock,
}
use edk2_arc.Sync.Attempt.{IsAtomic, attempt_released, attempt_acquired}

module _ (prims : Primitives) (uintn_bits : ℕ) (clock : Clock) (seen : ℕ → Option ℕ) where
  module _ (a : IsAtomic prims) (width : (uintn_bits ≡ 32) ⊎ (uintn_bits ≡ 64)) where
    waits :
        (n fuel attempt : ℕ)
        → n < fuel
        → ((i : ℕ) → i < n → seen (attempt + i) ≡ some spin_lock_acquired)
        → seen (attempt + n) ≡ some spin_lock_released
        → wait_loop prims uintn_bits clock seen fuel attempt ≡ some (done spin_lock_acquired)
    unfolding wait_loop
    waits n zero attempt h taken free = absurd (omega arith)
    waits zero (suc fuel) attempt h taken free =
        let here : attempt + 0 ≡ attempt = omega arith in
        let free' : seen attempt ≡ some spin_lock_released = rw here at free in
        rw (free', attempt_released prims uintn_bits a width) refl
    waits (suc n) (suc fuel) attempt h taken free =
        let here : attempt + 0 ≡ attempt = omega arith in
        let first : seen attempt ≡ some spin_lock_acquired = rw here at (taken 0 (omega arith)) in
        let shift : (i : ℕ) → attempt + 1 + i ≡ attempt + suc i = λ i. omega arith in
        rw (first, attempt_acquired prims uintn_bits a width)
          (waits n fuel (attempt + 1) (omega arith)
            (λ i lt. rw (shift i) (taken (suc i) (omega arith))) (rw (shift n) free))

    -- Without a timeout AcquireSpinLock takes the lock at the first attempt that sees it released,
    -- whichever that is; until then other processors hold the lock. The fuel is more than the
    -- number of failed attempts. Pointers have 4 or 8 bytes, and the exchange is atomic, as its
    -- library documents.
    pub acquire_spin_lock_waits :
        (n fuel : ℕ)
        → clock.pcd_timeout ≡ 0
        → n < fuel
        → ((i : ℕ) → i < n → seen i ≡ some spin_lock_acquired)
        → seen n ≡ some spin_lock_released
        → acquire_spin_lock prims uintn_bits clock seen fuel ≡ some (done spin_lock_acquired)
    unfolding acquire_spin_lock
    acquire_spin_lock_waits n fuel no_timeout h taken free =
        simp no_timeout
          (waits n fuel 0 h (λ i lt. rw (from_zero i) (taken i lt)) (rw (from_zero n) free))
      where
        from_zero : (i : ℕ) → 0 + i ≡ i
        from_zero i = omega arith

  -- An attempt or what follows it ends the call.
  unless_acquired-ends :
      (attempt : Checked (ℕ × Bool)) (later : Option (Checked ℕ))
      → (r : Checked ℕ) × (later ≡ some r)
      → (r : Checked ℕ) × (unless_acquired prims uintn_bits attempt later ≡ some r)
  unless_acquired-ends assertion later ends = (assertion, refl)
  unless_acquired-ends (done (v, true)) later ends = (done v, refl)
  unless_acquired-ends (done (v, false)) later ends = ends

  -- Each round sees the counter go on by at least one tick.
  abbrev pub Ticking : Type 0
  Ticking =
      (i : ℕ)
      → (0 < delta clock.start clock.end_ (clock.counter (i + 1)) (clock.counter i))
        × (delta clock.start clock.end_ (clock.counter (i + 1)) (clock.counter i) < 2 ^ 63)

  timed_loop-ends :
      (timeout fuel i total : ℕ)
      → Ticking
      → clock.assert_stops ≡ true
      → timeout ≤ 2 ^ 63
      → total ≤ timeout
      → timeout < fuel + total
      → (r : Checked ℕ) × (timed_loop prims uintn_bits clock seen timeout fuel
            (i + 1)
            (clock.counter i)
            total
          ≡ some r)
  unfolding timed_loop
  timed_loop-ends timeout zero i total ticking stopping bound below enough = absurd (omega arith)
  timed_loop-ends timeout (suc fuel) i total ticking stopping bound below enough =
      unless_acquired-ends (acquire_spin_lock_or_fail prims uintn_bits (seen (i + 1))) _
        (elim (Bool-cases (ltb (u64 (total + step)) timeout)) [
          | inr late ↦ (assertion, rw (late, if◌then◌else◌, stopping) refl)
          | inl early ↦
              let (r, e) =
                timed_loop-ends timeout fuel (i + 1) (u64 (total + step)) ticking stopping bound
                  (omega (arith, ltb→lt (u64 (total + step)) timeout early))
                  (omega (arith, ticking i)) in
              (r, rw early e)
        ])
    where
      step : ℕ
      step = delta clock.start clock.end_ (clock.counter (i + 1)) (clock.counter i)

  acquire-stops :
      (fuel : ℕ)
      → clock.pcd_timeout ≢ 0
      → Ticking
      → clock.assert_stops ≡ true
      → timeout_ticks prims uintn_bits clock seen ≤ 2 ^ 63
      → timeout_ticks prims uintn_bits clock seen < fuel
      → (r : Checked ℕ) × (acquire_spin_lock prims uintn_bits clock seen fuel ≡ some r)
  unfolding acquire_spin_lock
  acquire-stops fuel timed ticking stopping bound enough = rw (ne→test clock.pcd_timeout 0 timed) (
      unless_acquired-ends (acquire_spin_lock_or_fail prims uintn_bits (seen 0)) _ (
        timed_loop-ends (timeout_ticks prims uintn_bits clock seen) fuel 0 0 ticking stopping bound
          (omega arith) (omega arith)))

  module _ (a : IsAtomic prims) (width : (uintn_bits ≡ 32) ⊎ (uintn_bits ≡ 64))
      (ignored : clock.assert_stops ≡ false)
      (taken : (i : ℕ) → seen i ≡ some spin_lock_acquired) where
    timed_loop-waits :
        (timeout fuel attempt current total : ℕ)
        → timed_loop prims uintn_bits clock seen timeout fuel attempt current total ≡ none
    unfolding timed_loop
    timed_loop-waits timeout zero attempt current total = refl
    timed_loop-waits timeout (suc fuel) attempt current total =
        let total' = u64 (total + delta clock.start clock.end_ (clock.counter attempt) current) in
        let later = timed_loop-waits timeout fuel (attempt + 1) (clock.counter attempt) total' in
        rw (taken attempt, attempt_acquired prims uintn_bits a width, ignored)
          (elim (Bool-cases (ltb total' timeout)) [
            | inl early ↦ rw early later
            | inr late ↦ rw late later
          ])

    acquire-waits :
        (fuel : ℕ)
        → clock.pcd_timeout ≢ 0
        → acquire_spin_lock prims uintn_bits clock seen fuel ≡ none
    unfolding acquire_spin_lock
    acquire-waits fuel timed =
        rw
          (
            ne→test clock.pcd_timeout 0 timed,
            if◌then◌else◌,
            taken 0,
            attempt_acquired prims uintn_bits a width,
          )
          (timed_loop-waits (timeout_ticks prims uintn_bits clock seen) fuel 1 (clock.counter 0) 0)

  -- The timeout of AcquireSpinLock ends the wait only where a failed ASSERT stops the processor.
  -- There a call with a timeout always ends, whatever the other processors do with the lock: it
  -- takes the lock, or an ASSERT fails. Where a failed ASSERT does nothing, a call with a timeout
  -- does not return, however long it runs, if the lock is never seen released. The counter goes on
  -- in each round, the timeout is not 0 and at most 2 ^ 63 ticks, and in the first case the fuel is
  -- more than the timeout in ticks. Pointers have 4 or 8 bytes, and the exchange is atomic, as its
  -- library documents.
  pub acquire_spin_lock_timeout :
      IsAtomic prims
      → (uintn_bits ≡ 32) ⊎ (uintn_bits ≡ 64)
      → clock.pcd_timeout ≢ 0
      → Ticking
      → timeout_ticks prims uintn_bits clock seen ≤ 2 ^ 63
      → (clock.assert_stops ≡ true
          → (fuel : ℕ) → timeout_ticks prims uintn_bits clock seen < fuel
          → (r : Checked ℕ) × (acquire_spin_lock prims uintn_bits clock seen fuel ≡ some r))
        × (clock.assert_stops ≡ false
            → ((i : ℕ) → seen i ≡ some spin_lock_acquired)
            → (fuel : ℕ) → acquire_spin_lock prims uintn_bits clock seen fuel ≡ none)
  acquire_spin_lock_timeout a width timed ticking bound = (
    λ stopping fuel enough. acquire-stops fuel timed ticking stopping bound enough,
    λ ignored taken fuel. acquire-waits a width ignored taken fuel timed,
  )
