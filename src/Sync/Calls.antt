-- ===== src/Sync/Calls.antt =====
-- AcquireSpinLockOrFail and ReleaseSpinLock as wholes, in the states that the processors can reach.
use edk2_arc.Base.{ℕ, ◌≡◌, ◌↔◌, refl, ◌⊎◌, Bool, true, false, some, update, if◌then◌else◌, ==_refl}
use edk2_arc.Sync.{
  done, Primitives, spin_lock_released, spin_lock_acquired, is_lock_value, exchange_lock,
  acquire_spin_lock_or_fail, release_spin_lock,
}
use edk2_arc.Sync.Attempt.{IsAtomic}
use edk2_arc.Sync.System.{
  outside, attempting, inside, leaving, holds, Shared, check_acquire, take, miss, check_release,
  release, Reach, later,
}
use edk2_arc.Sync.Exclusion.{released_result, spin_lock_no_assertion}

-- Where a processor is after AcquireSpinLockOrFail, by what the function returned.
abbrev pub after_attempt : Shared → ℕ → ℕ → Bool → Shared
after_attempt s i v won = record {
  lock = v;
  place = update (update s.place i attempting) i (if won then inside else outside);
}

abbrev pub after_release : Shared → ℕ → ℕ → Shared
after_release s i v = record { lock = v; place = update (update s.place i leaving) i outside }

module _ (prims : Primitives) (uintn_bits : ℕ) where
  attempt-Reach :
      (s : Shared) (i v : ℕ) (won : Bool)
      → Reach prims uintn_bits s
      → s.place i ≡ outside
      → is_lock_value s.lock ≡ true
      → exchange_lock prims uintn_bits s.lock ≡ done (v, won)
      → Reach prims uintn_bits (after_attempt s i v won)
  attempt-Reach s i v true r at ok e =
      later (later r (check_acquire i at ok)) (take i v (rw (==_refl i) refl) e)
  attempt-Reach s i v false r at ok e =
      later (later r (check_acquire i at ok)) (miss i v (rw (==_refl i) refl) e)

  release-Reach :
      (s : Shared) (i : ℕ)
      → Reach prims uintn_bits s
      → s.place i ≡ inside
      → is_lock_value s.lock ≡ true
      → Reach prims uintn_bits (after_release s i spin_lock_released)
  release-Reach s i r at ok =
      later (later r (check_release i at ok)) (release i (rw (==_refl i) refl))

module _ (prims : Primitives) (uintn_bits : ℕ) (a : IsAtomic prims)
    (width : (uintn_bits ≡ 32) ⊎ (uintn_bits ≡ 64)) where
  -- The lock with the released value is free.
  released-free :
      (s : Shared)
      → Reach prims uintn_bits s
      → s.lock ≡ spin_lock_released
      → (i : ℕ) → holds (s.place i) ≡ false
  released-free s r free =
      let (ok, won, e, wins) = spin_lock_no_assertion prims uintn_bits a width s r in
      wins.0 (released_result prims uintn_bits a width spin_lock_acquired s.lock won free e).1

  -- However the accesses of the processors interleave after InitializeSpinLock, in each state that
  -- is reached: the lock's value passes the ASSERTs, and an exchange on it wins exactly if no
  -- processor is in the region; a call of AcquireSpinLockOrFail that no other access interrupts
  -- returns, and TRUE exactly if no processor is in the region; a call of ReleaseSpinLock by the
  -- processor in the region, that no other access interrupts, returns and leaves no processor in
  -- it. The states behind these calls are reached by the accesses that the calls make. Pointers
  -- have 4 or 8 bytes, and the exchange is atomic, as its library documents.
  pub spin_lock_calls :
      (s : Shared)
      → Reach prims uintn_bits s
      → (is_lock_value s.lock ≡ true)
        × (won : Bool) × (exchange_lock prims uintn_bits s.lock ≡ done (spin_lock_acquired, won))
        × ((won ≡ true) ↔ ((j : ℕ) → holds (s.place j) ≡ false))
        × ((i : ℕ)
            → s.place i ≡ outside
            → (acquire_spin_lock_or_fail prims uintn_bits (some s.lock)
                ≡ done (spin_lock_acquired, won))
              × Reach prims uintn_bits (after_attempt s i spin_lock_acquired won))
        × ((i : ℕ)
            → s.place i ≡ inside
            → (release_spin_lock (some s.lock) ≡ done spin_lock_released)
              × Reach prims uintn_bits (after_release s i spin_lock_released)
              × ((j : ℕ) → holds ((after_release s i spin_lock_released).place j) ≡ false))
  unfolding acquire_spin_lock_or_fail release_spin_lock
  spin_lock_calls s r =
      let (ok, won, e, wins) = spin_lock_no_assertion prims uintn_bits a width s r in
      (
        ok,
        won,
        e,
        wins,
        λ i at. (rw ok e, attempt-Reach prims uintn_bits s i spin_lock_acquired won r at ok e),
        λ i at.
            let after = release-Reach prims uintn_bits s i r at ok in
            (rw ok refl, after, released-free (after_release s i spin_lock_released) after refl),
      )
