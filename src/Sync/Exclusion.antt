-- ===== src/Sync/Exclusion.antt =====
-- The states of the lock and of the processors that share it.
use edk2_arc.Base.{
  ℕ, ◌≡◌, ◌↔◌, Bool-cases, refl, sym, ◌⊎◌, inl, inr, Bool, true, false, update, ◌∙◌, ℕ_discrete,
  ==_refl, ne→test,
}
use edk2_arc.Sync.{
  Checked, done, Primitives, spin_lock_released, spin_lock_acquired, is_lock_value, exchange_lock,
  initialize_spin_lock,
}
use edk2_arc.Sync.Attempt.{IsAtomic, exchange_released, exchange_acquired}
use edk2_arc.Sync.System.{
  Place, outside, attempting, inside, leaving, holds, Shared, Step, check_acquire, take, miss,
  check_release, release, Reach, start, later,
}

-- The lock is released and nobody is in the region, or it is acquired and exactly one processor is.
abbrev pub Free : Shared → Type 0
Free s = (s.lock ≡ spin_lock_released) × ((i : ℕ) → holds (s.place i) ≡ false)

abbrev pub Held : Shared → Type 0
Held s =
    (s.lock ≡ spin_lock_acquired)
    × (owner : ℕ) × (holds (s.place owner) ≡ true)
    × ((i : ℕ) → holds (s.place i) ≡ true → i ≡ owner)

abbrev Inv : Shared → Type 0
Inv s = Free s ⊎ Held s

-- A move of a processor that does not enter or leave the region.
pub holds_after_move :
    (s : Shared) (i : ℕ) (to : Place)
    → holds to ≡ holds (s.place i)
    → (j : ℕ) → holds (update s.place i to j) ≡ holds (s.place j)
holds_after_move s i to same j = elim (ℕ_discrete j i) [
  | yes e ↦ rw (e, ==_refl i) same
  | no ne ↦ rw (ne→test j i ne) refl
]

module _ (prims : Primitives) (uintn_bits : ℕ) (a : IsAtomic prims)
    (width : (uintn_bits ≡ 32) ⊎ (uintn_bits ≡ 64)) where
  same_holds :
      (s : Shared) (i : ℕ) (to : Place)
      → holds to ≡ holds (s.place i)
      → Inv s
      → Inv (record { lock = s.lock; place = update s.place i to })
  same_holds s i to same inv =
      let same_at = holds_after_move s i to same in
      elim inv [
        | inl (free, nobody) ↦ inl (free, λ j. same_at j ∙ nobody j)
        | inr (taken, owner, held, only) ↦
            inr (taken, owner, same_at owner ∙ held, λ j h. only j (sym (same_at j) ∙ h))
      ]

  -- An exchange on a lock with a known value.
  pub released_result :
      (v x : ℕ) (won : Bool)
      → x ≡ spin_lock_released
      → exchange_lock prims uintn_bits x ≡ done (v, won)
      → (v ≡ spin_lock_acquired) × (won ≡ true)
  released_result v x won e h =
      let same : exchange_lock prims uintn_bits 1 ≡ done (v, won) = rw e at h in
      let both : ◌≡◌ {A = Checked (ℕ × Bool)} (done (2, true)) (done (v, won)) =
        sym (exchange_released prims uintn_bits a width) ∙ same in
      (cc, cc)

  pub acquired_result :
      (v x : ℕ) (won : Bool)
      → x ≡ spin_lock_acquired
      → exchange_lock prims uintn_bits x ≡ done (v, won)
      → (v ≡ spin_lock_acquired) × (won ≡ false)
  acquired_result v x won e h =
      let same : exchange_lock prims uintn_bits 2 ≡ done (v, won) = rw e at h in
      let both : ◌≡◌ {A = Checked (ℕ × Bool)} (done (2, false)) (done (v, won)) =
        sym (exchange_acquired prims uintn_bits a width) ∙ same in
      (cc, cc)

  pub entered :
      (s : Shared) (i v : ℕ)
      → v ≡ spin_lock_acquired
      → ((j : ℕ) → holds (s.place j) ≡ false)
      → Held (record { lock = v; place = update s.place i inside })
  entered s i v e nobody = (
    e,
    i,
    rw (==_refl i) refl,
    λ j h. elim (ℕ_discrete j i) [
      | yes same ↦ same
      | no ne ↦
          let h' : holds (s.place j) ≡ true = rw (ne→test j i ne) at h in
          let clash : true ≡ false = sym h' ∙ nobody j in cc
    ],
  )

  pub left :
      (s : Shared) (i : ℕ)
      → s.place i ≡ leaving
      → Held s
      → Free (record { lock = spin_lock_released; place = update s.place i outside })
  left s i at (taken, owner, held, only) = (
    refl,
    λ j. elim (ℕ_discrete j i) [
      | yes same ↦ rw (same, ==_refl i) refl
      | no ne ↦ elim (Bool-cases (holds (s.place j))) [
        | inr out ↦ rw (ne→test j i ne) out
        | inl too ↦ absurd (ne (only j too ∙ sym (only i (rw at refl))))
      ]
    ],
  )

  Step-Inv : {s t : Shared} → Step prims uintn_bits s t → Inv s → Inv t
  Step-Inv {s} (check_acquire i at ok) inv = same_holds s i attempting (rw at refl) inv
  Step-Inv {s} (check_release i at ok) inv = same_holds s i leaving (rw at refl) inv
  Step-Inv {s} (take i v at won) (inl (free, nobody)) =
      inr (entered s i v (released_result v s.lock true free won).0 nobody)
  Step-Inv {s} (take i v at won) (inr (taken, owner, held, only)) =
      let no : true ≡ false = (acquired_result v s.lock true taken won).1 in cc
  Step-Inv {s} (miss i v at lost) (inl (free, nobody)) =
      let no : false ≡ true = (released_result v s.lock false free lost).1 in cc
  Step-Inv {s} (miss i v at lost) (inr (taken, owner, held, only)) =
      let same : v ≡ s.lock = (acquired_result v s.lock false taken lost).0 ∙ sym taken in
      rw same (same_holds s i outside (rw at refl) (inr (taken, owner, held, only)))
  Step-Inv {s} (release i at) (inl (free, nobody)) =
      let no : true ≡ false = rw at at (nobody i) in cc
  Step-Inv {s} (release i at) (inr held) = inl (left s i at held)

  Reach-Inv : {s : Shared} → Reach prims uintn_bits s → Inv s
  unfolding initialize_spin_lock
  Reach-Inv (start old v e) = let same : v ≡ spin_lock_released = cc in inl (same, λ i. refl)
  Reach-Inv (later r st) = Step-Inv st (Reach-Inv r)

  -- After InitializeSpinLock, and however the accesses of the processors interleave, at most one
  -- processor is between a successful AcquireSpinLockOrFail and the store of ReleaseSpinLock.
  -- Pointers have 4 or 8 bytes, and the exchange is atomic, as its library documents.
  pub spin_lock_exclusion :
      (s : Shared) (i j : ℕ)
      → Reach prims uintn_bits s
      → holds (s.place i) ≡ true
      → holds (s.place j) ≡ true
      → i ≡ j
  spin_lock_exclusion s i j r hi hj = elim (Reach-Inv r) [
    | inl (free, nobody) ↦ let clash : true ≡ false = sym hi ∙ nobody i in cc
    | inr (taken, owner, held, only) ↦ only i hi ∙ sym (only j hj)
  ]

  -- In every state that can be reached the lock's value passes the ASSERTs on it, and an exchange
  -- on it wins exactly if no processor is in the region. Pointers have 4 or 8 bytes, and the
  -- exchange is atomic, as its library documents.
  pub spin_lock_no_assertion :
      (s : Shared)
      → Reach prims uintn_bits s
      → (is_lock_value s.lock ≡ true)
        × (won : Bool) × (exchange_lock prims uintn_bits s.lock ≡ done (spin_lock_acquired, won))
        × ((won ≡ true) ↔ ((i : ℕ) → holds (s.place i) ≡ false))
  unfolding is_lock_value
  spin_lock_no_assertion s r = elim (Reach-Inv r) [
    | inl (free, nobody) ↦ (
      rw free refl,
      true,
      rw free (exchange_released prims uintn_bits a width),
      ((λ _. nobody), (λ _. refl)),
    )
    | inr (taken, owner, held, only) ↦ (
      rw taken refl,
      false,
      rw taken (exchange_acquired prims uintn_bits a width),
      ((λ (no : false ≡ true). cc), (λ none_in. sym (none_in owner) ∙ held)),
    )
  ]
