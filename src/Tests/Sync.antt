-- ===== src/Tests/Sync.antt =====
-- Spin locks with a concrete exchange and a concrete counter.
use edk2_arc.Base.{
  none, ◌<◌, ℕ, ◌+◌, ◌-◌, ◌*◌, ◌/◌, ◌^◌, ◌≡◌, ◌↔◌, refl, inl, inr, Bool, true, false, Option, some,
  update, ltb, ◌==◌, if◌then◌else◌, u64, arith,
}
use edk2_arc.Sync.{
  Checked, done, Primitives, Clock, is_lock_value, initialize_spin_lock, exchange_lock, delta,
  cycle, interlocked_compare_exchange_pointer, interlocked_compare_exchange32, acquire_spin_lock,
  timeout_ticks, acquire_spin_lock_or_fail, release_spin_lock,
}
use edk2_arc.Sync.Attempt.{IsAtomic}
use edk2_arc.Sync.Timer.{delta_lem}
use edk2_arc.Sync.Wait.{Ticking, acquire_spin_lock_waits, acquire_spin_lock_timeout}
use edk2_arc.Sync.System.{
  outside, attempting, inside, holds, Shared, check_acquire, take, Reach, start, later,
}
use edk2_arc.Sync.Mutex.{Mutex, Owns, actions, spin_lock_refines-Mutex}
use edk2_arc.Sync.Calls.{after_attempt, after_release, spin_lock_calls}

abbrev swap : ℕ → ℕ → ℕ → ℕ × ℕ
swap v c e = ((if v == c then e else v), v)

abbrev prims : Primitives
prims = record {
  increment = λ v. (v + 1, v + 1);
  decrement = λ v. (v - 1, v - 1);
  compare_exchange16 = swap;
  compare_exchange32 = swap;
  compare_exchange64 = swap;
}

prims-IsAtomic : IsAtomic prims
prims-IsAtomic = record { exchange32 = λ v c e. refl; exchange64 = λ v c e. refl }

abbrev clock : ℕ → Clock
clock timeout = record {
  pcd_timeout = timeout;
  frequency = 1000000;
  start = 0;
  end_ = 255;
  counter = λ i. u64 i;
  mult_u64x32 = λ a b. a * b;
  div_u64x32 = λ a b. a / b;
  assert_stops = true;
}

-- The counter runs down from 9 to 0, and has passed its end: from 2 over 0 and 9 to 8.
delta_lem_example : delta 9 0 8 2 ≡ 4
delta_lem_example = delta_lem 9 0 2 4 8 (record {
  low = 0;
  span = 9;
  short = omega arith;
  fits = omega arith;
  previous_in = (omega arith, omega arith);
  current_in = (omega arith, omega arith);
  less = omega arith;
  moved = inr (refl, refl, omega arith, inr refl);
})

-- The lock is released at the attempt with number 3.
acquire_spin_lock_waits_example :
    acquire_spin_lock prims 32 (clock 0) (λ i. some (if ltb i 3 then 2 else 1)) 10 ≡ some (done 2)
acquire_spin_lock_waits_example =
    acquire_spin_lock_waits prims 32 (clock 0) (λ i. some (if ltb i 3 then 2 else 1)) prims-IsAtomic
      (inl refl) 3 10 refl (omega arith) (λ i lt. ground arith) refl

ticking : Ticking prims 32 (clock 5) (λ i. some 2)
unfolding delta cycle
ticking i =
    let one : u64 (u64 (i + 1) + 2 ^ 64 - u64 i) ≡ 1 = omega arith in
    (rw one (omega arith), rw one (omega arith))

-- The lock is never released.
acquire_spin_lock_timeout_example :
    (◌≡◌ {A = Bool} true true
      → (fuel : ℕ) → timeout_ticks prims 32 (clock 5) (λ i. some 2) < fuel
      → (r : Checked ℕ) × (acquire_spin_lock prims 32 (clock 5) (λ i. some 2) fuel ≡ some r))
    × (◌≡◌ {A = Bool} true false
        → ((i : ℕ) → ◌≡◌ {A = Option ℕ} (some 2) (some 2))
        → (fuel : ℕ) → acquire_spin_lock prims 32 (clock 5) (λ i. some 2) fuel ≡ none)
unfolding timeout_ticks
acquire_spin_lock_timeout_example =
    acquire_spin_lock_timeout prims 32 (clock 5) (λ i. some 2) prims-IsAtomic (inl refl)
      (omega arith) ticking (omega arith)

abbrev taken : Shared
taken = record { lock = 2; place = update (update (λ _. outside) 0 attempting) 0 inside }

taken-Reach : Reach prims 32 taken
unfolding is_lock_value initialize_spin_lock exchange_lock interlocked_compare_exchange_pointer
    interlocked_compare_exchange32
taken-Reach = later (later (start 0 1 refl) (check_acquire 0 refl refl)) (take 0 2 refl refl)

spin_lock_calls_example :
    (is_lock_value 2 ≡ true)
    × (won : Bool) × (exchange_lock prims 32 2 ≡ done (2, won))
    × ((won ≡ true) ↔ ((j : ℕ) → holds (taken.place j) ≡ false))
    × ((i : ℕ)
        → taken.place i ≡ outside
        → (acquire_spin_lock_or_fail prims 32 (some 2) ≡ done (2, won))
          × Reach prims 32 (after_attempt taken i 2 won))
    × ((i : ℕ)
        → taken.place i ≡ inside
        → (release_spin_lock (some 2) ≡ done 1)
          × Reach prims 32 (after_release taken i 1)
          × ((j : ℕ) → holds ((after_release taken i 1).place j) ≡ false))
spin_lock_calls_example = spin_lock_calls prims 32 prims-IsAtomic (inl refl) taken taken-Reach

spin_lock_refines-Mutex_example :
    (o : Option ℕ) × Mutex (actions prims 32 taken-Reach) o × Owns taken o
spin_lock_refines-Mutex_example =
    spin_lock_refines-Mutex prims 32 prims-IsAtomic (inl refl) taken taken-Reach
