-- ===== src/Sync/System.antt =====
-- Processors that share one spin lock. A step is one access to the lock: AcquireSpinLockOrFail and
-- ReleaseSpinLock make two each, and other processors can come in between.
use edk2_arc.Base.{ℕ, ◌≡◌, Bool, true, false, some, update}
use edk2_arc.Sync.{
  done, Primitives, spin_lock_released, is_lock_value, exchange_lock, initialize_spin_lock,
}

-- Where a processor is: outside of the locked region, or before the next attempt; behind the check of
-- AcquireSpinLockOrFail; in the region; behind the check of ReleaseSpinLock.
pub data Place : Type 0 where
  outside attempting inside leaving : Place

abbrev pub holds : Place → Bool
holds inside = true
holds leaving = true
holds _ = false

pub record Shared : Type 0 where
  pub lock : ℕ
  pub place : ℕ → Place

module _ (prims : Primitives) (uintn_bits : ℕ) where
  -- One access of processor `i`.
  pub data Step (s : Shared) : Shared → Type 0 where
    check_acquire :
        (i : ℕ)
        → s.place i ≡ outside
        → is_lock_value s.lock ≡ true
        → Step s (record { lock = s.lock; place = update s.place i attempting })
    take :
        (i v : ℕ)
        → s.place i ≡ attempting
        → exchange_lock prims uintn_bits s.lock ≡ done (v, true)
        → Step s (record { lock = v; place = update s.place i inside })
    miss :
        (i v : ℕ)
        → s.place i ≡ attempting
        → exchange_lock prims uintn_bits s.lock ≡ done (v, false)
        → Step s (record { lock = v; place = update s.place i outside })
    check_release :
        (i : ℕ)
        → s.place i ≡ inside
        → is_lock_value s.lock ≡ true
        → Step s (record { lock = s.lock; place = update s.place i leaving })
    release :
        (i : ℕ)
        → s.place i ≡ leaving
        → Step s (record { lock = spin_lock_released; place = update s.place i outside })

  -- What can happen after InitializeSpinLock, with all processors outside.
  pub data Reach : Shared → Type 0 where
    start :
        (old v : ℕ)
        → initialize_spin_lock (some old) ≡ done v
        → Reach (record { lock = v; place = λ _. outside })
    later : {s t : Shared} → Reach s → Step s t → Reach t
