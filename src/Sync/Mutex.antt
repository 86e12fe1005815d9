-- ===== src/Sync/Mutex.antt =====
-- What a spin lock is for: an owner, or none, and processors that take and release the lock in turn.
use edk2_arc.Base.{
  ℕ, ◌≡◌, refl, sym, ◌∙◌, subst, ◌⊎◌, true, false, Option, none, some, List, [], ◌∷◌, ==_refl,
}
use edk2_arc.Sync.{Primitives, spin_lock_released, spin_lock_acquired, initialize_spin_lock}
use edk2_arc.Sync.Attempt.{IsAtomic}
use edk2_arc.Sync.System.{
  outside, attempting, leaving, holds, Shared, Step, check_acquire, take, miss, check_release,
  release, Reach, start, later,
}
use edk2_arc.Sync.Exclusion.{
  Free, Held, holds_after_move, released_result, acquired_result, entered, left,
}

-- What is seen of the lock.
pub data Action : Type 0 where
  acquires releases : ℕ → Action

-- The mutex: what was done, the last one first, and the owner afterwards.
pub data Mutex : List Action → Option ℕ → Type 0 where
  unused : Mutex [] none
  acquired : {log : List Action} → (i : ℕ) → Mutex log none → Mutex (acquires i ∷ log) (some i)
  released : {log : List Action} → (i : ℕ) → Mutex log (some i) → Mutex (releases i ∷ log) none

-- The state of the lock and of the processors, for an owner.
abbrev pub Owns : Shared → Option ℕ → Type 0
Owns s none = Free s
Owns s (some i) =
    (s.lock ≡ spin_lock_acquired)
    × (holds (s.place i) ≡ true)
    × ((j : ℕ) → holds (s.place j) ≡ true → j ≡ i)

-- A step in which no processor enters or leaves the region.
unseen-Owns :
    (s t : Shared) (o : Option ℕ)
    → t.lock ≡ s.lock
    → ((j : ℕ) → holds (t.place j) ≡ holds (s.place j))
    → Owns s o
    → Owns t o
unseen-Owns s t none lock same (free, nobody) = (lock ∙ free, λ j. same j ∙ nobody j)
unseen-Owns s t (some i) lock same (taken, held, only) =
    (lock ∙ taken, same i ∙ held, λ j h. only j (sym (same j) ∙ h))

Held-Owns : (s : Shared) (i : ℕ) → holds (s.place i) ≡ true → Held s → Owns s (some i)
Held-Owns s i here (taken, owner, held, only) = (taken, here, λ j h. only j h ∙ sym (only i here))

module _ (prims : Primitives) (uintn_bits : ℕ) where
  -- The actions of a run, the last one first.
  abbrev pub seen : {s t : Shared} → Step prims uintn_bits s t → List Action → List Action
  seen (take i v at won) log = acquires i ∷ log
  seen (release i at) log = releases i ∷ log
  seen (check_acquire i at ok) log = log
  seen (miss i v at lost) log = log
  seen (check_release i at ok) log = log

  abbrev pub actions : {s : Shared} → Reach prims uintn_bits s → List Action
  actions (start old v e) = []
  actions (later r st) = seen st (actions r)

module _ (prims : Primitives) (uintn_bits : ℕ) (a : IsAtomic prims)
    (width : (uintn_bits ≡ 32) ⊎ (uintn_bits ≡ 64)) where
  abbrev Implements : Shared → List Action → Type 0
  Implements s log = (o : Option ℕ) × Mutex log o × Owns s o

  Step-Implements :
      {s t : Shared} (st : Step prims uintn_bits s t) (log : List Action)
      → Implements s log
      → Implements t (seen prims uintn_bits st log)
  Step-Implements {s} {t} (check_acquire i at ok) log (o, m, owns) =
      (o, m, unseen-Owns s t o refl (holds_after_move s i attempting (rw at refl)) owns)
  Step-Implements {s} {t} (check_release i at ok) log (o, m, owns) =
      (o, m, unseen-Owns s t o refl (holds_after_move s i leaving (rw at refl)) owns)
  Step-Implements {s} {t} (take i v at won) log (none, m, (free, nobody)) = (
    some i,
    acquired i m,
    Held-Owns t i (rw (==_refl i) refl) (
        entered prims uintn_bits a width s i v
          (released_result prims uintn_bits a width v s.lock true free won).0 nobody),
  )
  Step-Implements {s} {t} (take i v at won) log (some j, m, (taken, held, only)) =
      let no : true ≡ false =
        (acquired_result prims uintn_bits a width v s.lock true taken won).1 in
      cc
  Step-Implements {s} {t} (miss i v at lost) log (none, m, (free, nobody)) =
      let no : false ≡ true =
        (released_result prims uintn_bits a width v s.lock false free lost).1 in
      cc
  Step-Implements {s} {t} (miss i v at lost) log (some j, m, (taken, held, only)) = (
    some j,
    m,
    unseen-Owns s t (some j)
        ((acquired_result prims uintn_bits a width v s.lock false taken lost).0 ∙ sym taken)
        (holds_after_move s i outside (rw at refl)) (taken, held, only),
  )
  Step-Implements {s} {t} (release i at) log (none, m, (free, nobody)) =
      let no : true ≡ false = rw at at (nobody i) in cc
  Step-Implements {s} {t} (release i at) log (some j, m, (taken, held, only)) = (
    none,
    released i (subst (λ k. Mutex log (some k)) (sym (only i (rw at refl))) m),
    left prims uintn_bits a width s i at (taken, j, held, only),
  )

  -- The spin lock implements a mutex. Whatever the processors do after InitializeSpinLock, in any
  -- interleaving of their accesses to the lock, the successful AcquireSpinLockOrFail and the
  -- stores of ReleaseSpinLock are a run of a mutex: they alternate, and each release is that of
  -- the processor which acquired the lock last. The mutex has an owner exactly while the lock has
  -- the acquired value, and the owner is the one processor that holds the lock. Pointers have 4 or
  -- 8 bytes, and the exchange is atomic, as its library documents.
  pub spin_lock_refines-Mutex :
      (s : Shared) (r : Reach prims uintn_bits s)
      → (o : Option ℕ) × Mutex (actions prims uintn_bits r) o × Owns s o
  unfolding initialize_spin_lock
  spin_lock_refines-Mutex s (start old v e) =
      let same : v ≡ spin_lock_released = cc in (none, unused, (same, λ i. refl))
  spin_lock_refines-Mutex s (later {s = s'} r st) =
      Step-Implements st (actions prims uintn_bits r) (spin_lock_refines-Mutex s' r)
