-- ===== src/Sync/Attempt.antt =====
-- AcquireSpinLockOrFail on a processor with pointers of 4 or 8 bytes.
use edk2_arc.Base.{
  ℕ, ◌^◌, ◌<◌, ◌≡◌, refl, ◌⊎◌, inl, inr, true, false, some, ◌==◌, if◌then◌else◌, u32, u64, arith,
}
use edk2_arc.Sync.{
  done, Primitives, spin_lock_released, spin_lock_acquired, is_lock_value,
  interlocked_compare_exchange32, interlocked_compare_exchange64,
  interlocked_compare_exchange_pointer, exchange_lock, acquire_spin_lock_or_fail,
}

-- What BaseSynchronizationLib documents of InternalSyncCompareExchange32 and 64: the old value is
-- returned, and it is replaced if it is the one to compare with.
pub record IsAtomic (prims : Primitives) : Type 0 where
  pub exchange32 : (v c e : ℕ) → prims.compare_exchange32 v c e ≡ ((if v == c then e else v), v)
  pub exchange64 : (v c e : ℕ) → prims.compare_exchange64 v c e ≡ ((if v == c then e else v), v)

module _ (prims : Primitives) (uintn_bits : ℕ) (a : IsAtomic prims)
    (width : (uintn_bits ≡ 32) ⊎ (uintn_bits ≡ 64)) where
  pub exchange_pointer :
      (v c e : ℕ)
      → c < 2 ^ 32
      → e < 2 ^ 32
      → interlocked_compare_exchange_pointer prims uintn_bits (some v) c e
        ≡ done ((if v == c then e else v), v)
  unfolding interlocked_compare_exchange_pointer interlocked_compare_exchange32
      interlocked_compare_exchange64
  exchange_pointer v c e hc he = elim width [
    | inl small ↦
        let c' : u32 c ≡ c = omega arith in
        let e' : u32 e ≡ e = omega arith in rw (small, c', e', a.exchange32 v c e) refl
    | inr large ↦
        let c' : u64 c ≡ c = omega arith in
        let e' : u64 e ≡ e = omega arith in rw (large, c', e', a.exchange64 v c e) refl
  ]

  pub exchange_released : exchange_lock prims uintn_bits 1 ≡ done (2, true)
  unfolding exchange_lock
  exchange_released = rw (exchange_pointer 1 1 2 (omega arith) (omega arith)) refl

  pub exchange_acquired : exchange_lock prims uintn_bits 2 ≡ done (2, false)
  unfolding exchange_lock
  exchange_acquired = rw (exchange_pointer 2 1 2 (omega arith) (omega arith)) refl

  pub attempt_released :
      acquire_spin_lock_or_fail prims uintn_bits (some spin_lock_released)
      ≡ done (spin_lock_acquired, true)
  unfolding acquire_spin_lock_or_fail is_lock_value
  attempt_released = exchange_released

  pub attempt_acquired :
      acquire_spin_lock_or_fail prims uintn_bits (some spin_lock_acquired)
      ≡ done (spin_lock_acquired, false)
  unfolding acquire_spin_lock_or_fail is_lock_value
  attempt_acquired = exchange_acquired
