-- ===== src/Sync.antt =====
-- Platform/ARC/Library/CpuLib/CpuSync.c: spin locks and interlocked operations. The InternalSync
-- functions are not in the repository; they are a parameter.
pub mod Attempt
pub mod Timer
pub mod Wait
pub mod System
pub mod Exclusion
pub mod Calls
pub mod Mutex
use edk2_arc.Base.{
  ℕ, zero, suc, ◌+◌, ◌-◌, ◌/◌, ◌^◌, Bool, true, false, ◌||◌, ltb, leb, ◌==◌, if◌then◌else◌, Option,
  none, some, u8, u32, u64,
}

-- The outcome of code with ASSERT.
pub data Checked (A : Type 0) : Type 0 where
  done : A → Checked A
  assertion : Checked A

-- InternalSyncIncrement and its kin: the old value, the value to compare with and the one to store
-- give the new value and what is returned.
pub record Primitives : Type 0 where
  pub increment : ℕ → ℕ × ℕ
  pub decrement : ℕ → ℕ × ℕ
  pub compare_exchange16 : ℕ → ℕ → ℕ → ℕ × ℕ
  pub compare_exchange32 : ℕ → ℕ → ℕ → ℕ × ℕ
  pub compare_exchange64 : ℕ → ℕ → ℕ → ℕ × ℕ

abbrev pub spin_lock_released : ℕ
spin_lock_released = 1

abbrev pub spin_lock_acquired : ℕ
spin_lock_acquired = 2

unfoldable pub get_spin_lock_properties : ℕ
get_spin_lock_properties = 32

-- A pointer is given as the value that it points at, `none` for NULL; the result has the new value.
-- A function that returns the pointer SpinLock itself returns the new value only.
unfoldable pub initialize_spin_lock : Option ℕ → Checked ℕ
initialize_spin_lock none = assertion
initialize_spin_lock (some _) = done spin_lock_released

-- The second ASSERT of the functions on locks.
unfoldable pub is_lock_value : ℕ → Bool
is_lock_value v = spin_lock_acquired == v || spin_lock_released == v

unfoldable pub release_spin_lock : Option ℕ → Checked ℕ
release_spin_lock none = assertion
release_spin_lock (some v) = if is_lock_value v then done spin_lock_released else assertion

-- What AcquireSpinLock reads beside the lock: the PCD in microseconds, the counter's properties
-- and readings, the 64-bit operations of BaseLib, and whether a failed ASSERT stops the processor. That
-- is up to DebugLib: with BaseDebugLibNull, which Arc.dsc.inc links, ASSERT does nothing.
pub record Clock : Type 0 where
  pub pcd_timeout : ℕ
  pub frequency : ℕ
  pub start : ℕ
  pub end_ : ℕ
  pub counter : ℕ → ℕ
  pub mult_u64x32 : ℕ → ℕ → ℕ
  pub div_u64x32 : ℕ → ℕ → ℕ
  pub assert_stops : Bool

-- INT64 values are kept as 64 bits: one is negative from 2 ^ 63 on.
abbrev pub negative : ℕ → Bool
negative x = leb (2 ^ 63) x

abbrev pub negate : ℕ → ℕ
negate x = u64 (2 ^ 64 - x)

unfoldable pub cycle : ℕ → ℕ → ℕ
cycle start end_ =
    let d = u64 (end_ + 2 ^ 64 - start) in
    let d' = if negative d then negate d else d in u64 (d' + 1)

-- `Delta`, the ticks between two readings.
unfoldable pub delta : ℕ → ℕ → ℕ → ℕ → ℕ
delta start end_ current previous =
    let d = u64 (current + 2 ^ 64 - previous) in
    let d' = if ltb end_ start then negate d else d in
    if negative d' then u64 (d' + cycle start end_) else d'

module _ (prims : Primitives) where
  unfoldable pub interlocked_increment : Option ℕ → Checked (ℕ × ℕ)
  interlocked_increment none = assertion
  interlocked_increment (some v) = done (prims.increment v)

  unfoldable pub interlocked_decrement : Option ℕ → Checked (ℕ × ℕ)
  interlocked_decrement none = assertion
  interlocked_decrement (some v) = done (prims.decrement v)

  unfoldable pub interlocked_compare_exchange16 : Option ℕ → ℕ → ℕ → Checked (ℕ × ℕ)
  interlocked_compare_exchange16 none compare_value exchange_value = assertion
  interlocked_compare_exchange16 (some v) compare_value exchange_value =
      done (prims.compare_exchange16 v compare_value exchange_value)

  unfoldable pub interlocked_compare_exchange32 : Option ℕ → ℕ → ℕ → Checked (ℕ × ℕ)
  interlocked_compare_exchange32 none compare_value exchange_value = assertion
  interlocked_compare_exchange32 (some v) compare_value exchange_value =
      done (prims.compare_exchange32 v compare_value exchange_value)

  unfoldable pub interlocked_compare_exchange64 : Option ℕ → ℕ → ℕ → Checked (ℕ × ℕ)
  interlocked_compare_exchange64 none compare_value exchange_value = assertion
  interlocked_compare_exchange64 (some v) compare_value exchange_value =
      done (prims.compare_exchange64 v compare_value exchange_value)

  module _ (uintn_bits : ℕ) where
    -- `sizeof (*Value)` is the size of a pointer.
    unfoldable pub interlocked_compare_exchange_pointer : Option ℕ → ℕ → ℕ → Checked (ℕ × ℕ)
    interlocked_compare_exchange_pointer value compare_value exchange_value =
        let size = u8 (uintn_bits / 8) in
        if size == 4
        then interlocked_compare_exchange32 value (u32 compare_value) (u32 exchange_value)
        else if size == 8
        then interlocked_compare_exchange64 value (u64 compare_value) (u64 exchange_value)
        else assertion

    abbrev pub was_released : Checked (ℕ × ℕ) → Checked (ℕ × Bool)
    was_released assertion = assertion
    was_released (done (v, old)) = done (v, old == spin_lock_released)

    -- The `return` of AcquireSpinLockOrFail, which reads the lock a second time.
    unfoldable pub exchange_lock : ℕ → Checked (ℕ × Bool)
    exchange_lock v =
        was_released
          (interlocked_compare_exchange_pointer (some v) spin_lock_released spin_lock_acquired)

    unfoldable pub acquire_spin_lock_or_fail : Option ℕ → Checked (ℕ × Bool)
    acquire_spin_lock_or_fail none = assertion
    acquire_spin_lock_or_fail (some v) = if is_lock_value v then exchange_lock v else assertion

    -- `while (!AcquireSpinLockOrFail (SpinLock))`: an attempt, and what follows a failed one.
    abbrev pub unless_acquired : Checked (ℕ × Bool) → Option (Checked ℕ) → Option (Checked ℕ)
    unless_acquired assertion later = some assertion
    unless_acquired (done (v, true)) later = some (done v)
    unless_acquired (done (v, false)) later = later

    -- `seen` gives the lock at each attempt, since other processors change it meanwhile; the counter
    -- is read once before the loop and once in each round. `none`: the fuel ran out.
    module _ (clock : Clock) (seen : ℕ → Option ℕ) where
      unfoldable pub wait_loop : ℕ → ℕ → Option (Checked ℕ)
      wait_loop zero attempt = none
      wait_loop (suc fuel) attempt =
          unless_acquired (acquire_spin_lock_or_fail (seen attempt)) (wait_loop fuel (attempt + 1))

      unfoldable pub timed_loop : ℕ → ℕ → ℕ → ℕ → ℕ → Option (Checked ℕ)
      timed_loop timeout zero attempt current total = none
      timed_loop timeout (suc fuel) attempt current total =
          let now = clock.counter attempt in
          let total' = u64 (total + delta clock.start clock.end_ now current) in
          let rest = timed_loop timeout fuel (attempt + 1) now total' in
          unless_acquired (acquire_spin_lock_or_fail (seen attempt)) (
            if ltb total' timeout
            then rest
            else if clock.assert_stops
            then some assertion
            else rest)

      unfoldable pub timeout_ticks : ℕ
      timeout_ticks = clock.div_u64x32 (clock.mult_u64x32 clock.frequency clock.pcd_timeout) 1000000

      unfoldable pub acquire_spin_lock : ℕ → Option (Checked ℕ)
      acquire_spin_lock fuel =
          if clock.pcd_timeout == 0
          then wait_loop fuel 0
          else unless_acquired (acquire_spin_lock_or_fail (seen 0))
              (timed_loop timeout_ticks fuel 1 (clock.counter 0) 0)
