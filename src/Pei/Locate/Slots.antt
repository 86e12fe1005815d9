-- ===== src/Pei/Locate/Slots.antt =====
-- The list of the installed PPIs with a GUID, as slots are added.
use edk2_arc.Base.{
  ℕ, zero, suc, ◌+◌, ◌≤◌, ◌<◌, ◌≡◌, refl, ap, Bool-cases, inl, inr, Option, List, ◌∷◌, ◌++◌, length,
  get_elem?, arith,
}
use edk2_arc.Edk2.{Guid, Mem, Platform}
use edk2_arc.Pei.Context.{PeiCore}
use edk2_arc.Pei.Locate.Nth.{has_guid, with_guid, located}

module _ (p : Platform) (m : Mem) (guid : Guid) where
  pub with_guid-length :
      (c : PeiCore) (left idx : ℕ) → length (with_guid p m c guid left idx) ≤ left
  with_guid-length c zero idx = omega arith
  with_guid-length c (suc left) idx = elim (Bool-cases (has_guid p m c guid (c.ppi_ptrs idx))) [
    | inl yes_ ↦ rw yes_ (omega (arith, with_guid-length c left (idx + 1)))
    | inr no_ ↦ rw no_ (omega (arith, with_guid-length c left (idx + 1)))
  ]

  -- The first `left` slots, and the others.
  pub with_guid-split :
      (c : PeiCore) (all left more idx : ℕ)
      → all ≡ left + more
      → with_guid p m c guid all idx
        ≡ with_guid p m c guid left idx ++ with_guid p m c guid more (idx + left)
  with_guid-split c all zero more idx e =
      let same : idx + 0 ≡ idx = omega arith in
      let every : all ≡ more = omega arith in rw (same, every) refl
  with_guid-split c zero (suc left) more idx e = absurd (omega arith)
  with_guid-split c (suc all) (suc left) more idx e =
      let same : idx + 1 + left ≡ idx + suc left = omega arith in
      let rest = with_guid-split c all left more (idx + 1) (omega arith) in
      elim (Bool-cases (has_guid p m c guid (c.ppi_ptrs idx))) [
        | inl yes_ ↦ rw yes_ (ap (λ l. c.ppi_ptrs idx ∷ l) (rw same at rest))
        | inr no_ ↦ rw no_ (rw same at rest)
      ]

  -- Two databases with the same slots, and the same descriptors behind them.
  abbrev pub Agree : PeiCore → PeiCore → ℕ → ℕ → Type 0
  Agree c c' left idx =
      (i : ℕ)
      → idx ≤ i
      → i < idx + left
      → (c'.ppi_ptrs i ≡ c.ppi_ptrs i) × (c'.desc (c.ppi_ptrs i) ≡ c.desc (c.ppi_ptrs i))

  Agree-later :
      (c c' : PeiCore) (left idx : ℕ) → Agree c c' (suc left) idx → Agree c c' left (idx + 1)
  Agree-later c c' left idx same i low high = same i (omega arith) (omega arith)

  pub with_guid-Agree :
      (c c' : PeiCore) (left idx : ℕ)
      → Agree c c' left idx
      → with_guid p m c' guid left idx ≡ with_guid p m c guid left idx
  with_guid-Agree c c' zero idx same = refl
  with_guid-Agree c c' (suc left) idx same =
      let (slot, descriptor) = same idx (omega arith) (omega arith) in
      rw (slot, descriptor, with_guid-Agree c c' left (idx + 1) (Agree-later c c' left idx same))
        refl

  located-cons :
      (c c' : PeiCore) (out_desc out_ppi : Option ℕ) (d : ℕ) (ds : List ℕ)
      → c'.desc d ≡ c.desc d
      → ((i : ℕ)
          → located c' out_desc out_ppi (get_elem? ds i)
            ≡ located c out_desc out_ppi (get_elem? ds i))
      → (i : ℕ)
      → located c' out_desc out_ppi (get_elem? (d ∷ ds) i)
        ≡ located c out_desc out_ppi (get_elem? (d ∷ ds) i)
  located-cons c c' out_desc out_ppi d ds same rest zero = rw same refl
  located-cons c c' out_desc out_ppi d ds same rest (suc i) = rest i

  pub located-Agree :
      (c c' : PeiCore) (out_desc out_ppi : Option ℕ) (left idx k : ℕ)
      → Agree c c' left idx
      → located c' out_desc out_ppi (get_elem? (with_guid p m c guid left idx) k)
        ≡ located c out_desc out_ppi (get_elem? (with_guid p m c guid left idx) k)
  located-Agree c c' out_desc out_ppi zero idx k same = refl
  located-Agree c c' out_desc out_ppi (suc left) idx k same =
      let later = Agree-later c c' left idx same in
      elim (Bool-cases (has_guid p m c guid (c.ppi_ptrs idx))) [
        | inr no_ ↦ rw no_ (located-Agree c c' out_desc out_ppi left (idx + 1) k later)
        | inl yes_ ↦ rw yes_ (
            located-cons c c' out_desc out_ppi (c.ppi_ptrs idx)
              (with_guid p m c guid left (idx + 1)) (same idx (omega arith) (omega arith)).1
              (λ i. located-Agree c c' out_desc out_ppi left (idx + 1) i later) k)
      ]
