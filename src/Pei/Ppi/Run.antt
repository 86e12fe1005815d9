-- ===== src/Pei/Ppi/Run.antt =====
-- Lists of PPI descriptors in memory, and what `PeiInstallPpi` makes of them.
use edk2_arc.Base.{
  refl, update, ℕ, zero, suc, ◌+◌, ◌≤◌, ◌<◌, ◌≡◌, ◌≢◌, Bool, true, false, ◌||◌, if◌then◌else◌, List,
  [], ◌∷◌, length, arith,
}
use edk2_arc.Edk2.{Status, Platform, uintn}
use edk2_arc.Pei.Context.{PpiDescriptor, PeiCore}
use edk2_arc.Pei.Ppi.{Reply, reply, is_no_ppi, is_pic_ppi, is_last_ppi}

-- The list ends with its last descriptor, or the database is full before.
pub data Ending : Type 0 where
  at_last no_room : Ending

abbrev pub finish : Ending → ℕ → PeiCore → Reply
finish at_last last_count c = reply Status.success c
finish no_room last_count c = reply Status.not_found (record c { current_count = last_count })

module _ (p : Platform) where
  -- The address `k` descriptors further.
  abbrev pub address : ℕ → ℕ → ℕ
  address a zero = a
  address a (suc k) = address (a + p.sizeof_ppi_descriptor) k

  pub address-le : (a k : ℕ) → a ≤ address a k
  address-le a zero = omega arith
  address-le a (suc k) = omega (arith, address-le (a + p.sizeof_ppi_descriptor) k)

  -- The fixup of descriptor `k`: `g` from the first position-independent one on, and 0 before. `seen`
  -- says that there was one in front of the list.
  abbrev pub fixup_for : ℕ → Bool → List ℕ → ℕ → ℕ
  fixup_for g seen [] k = 0
  fixup_for g seen (f ∷ fs) zero = if seen || is_pic_ppi p f then g else 0
  fixup_for g seen (f ∷ fs) (suc k) = fixup_for g (seen || is_pic_ppi p f) fs k

  abbrev pub moved : ℕ → PpiDescriptor → PpiDescriptor
  moved fixup d = record d { ppi = uintn p (d.ppi + fixup); guid = uintn p (d.guid + fixup) }

  -- The entry points, after the descriptors with the flags `fs` from `a` on are moved one by one: that of
  -- each PPI, where the PPI is then, is moved by the fixup of its descriptor.
  abbrev pub moved_entries : ℕ → Bool → List ℕ → ℕ → (ℕ → PpiDescriptor) → (ℕ → ℕ) → ℕ → ℕ
  moved_entries g seen [] a desc entry = entry
  moved_entries g seen (f ∷ fs) a desc entry =
      let fixup = if seen || is_pic_ppi p f then g else 0 in
      let ppi = uintn p ((desc a).ppi + fixup) in
      moved_entries g (seen || is_pic_ppi p f) fs (a + p.sizeof_ppi_descriptor) desc
        (update entry ppi (uintn p (entry ppi + fixup)))

  -- Only the descriptors of the list matter.
  pub moved_entries_cong :
      (g : ℕ) (seen : Bool) (fs : List ℕ) (a : ℕ) (desc desc' : ℕ → PpiDescriptor) (entry : ℕ → ℕ)
      → ((k : ℕ) → k < length fs → desc (address a k) ≡ desc' (address a k))
      → moved_entries g seen fs a desc entry ≡ moved_entries g seen fs a desc' entry
  moved_entries_cong g seen [] a desc desc' entry same = refl
  moved_entries_cong g seen (f ∷ fs) a desc desc' entry same = rw (same 0 (omega arith)) (
      moved_entries_cong g (seen || is_pic_ppi p f) fs (a + p.sizeof_ppi_descriptor) desc desc' _
        (λ k below. same (suc k) (omega arith)))

  -- The descriptor with the flags `f`, for slot `idx` of `max`, ends the list.
  abbrev pub EndsAs : Ending → ℕ → ℕ → ℕ → Type 0
  EndsAs at_last max idx f = is_last_ppi p f ≡ true
  EndsAs no_room max idx f = (is_last_ppi p f ≡ false) × (idx + 1 ≡ max)

  -- From `a` on, for the slots from `idx` on, stand descriptors of PPIs with the flags `f ∷ fs`,
  -- and the last of them is the first that ends the list.
  abbrev pub Run : Ending → ℕ → (ℕ → ℕ) → ℕ → ℕ → ℕ → List ℕ → Type 0
  Run e max flags idx a f [] = (flags a ≡ f) × (is_no_ppi p f ≡ false) × EndsAs e max idx f
  Run e max flags idx a f (f' ∷ fs) =
      (flags a ≡ f)
      × (is_no_ppi p f ≡ false)
      × (is_last_ppi p f ≡ false)
      × (idx + 1 < max)
      × Run e max flags (idx + 1) (a + p.sizeof_ppi_descriptor) f' fs

  -- `c'` has the descriptors at `a` with the flags `fs` in its slots from `idx` on, each moved by its
  -- fixup, and the entry points of their PPIs too, and is as `c` otherwise.
  pub record Installed (g : ℕ) (c c' : PeiCore) (idx a : ℕ) (seen : Bool) (fs : List ℕ)
      : Type 0 where
    pub count : c'.current_count ≡ idx + length fs
    pub same_max : c'.max_count ≡ c.max_count
    pub same_volumes : c'.fv_handle ≡ c.fv_handle
    pub kept : (i : ℕ) → i < idx → c'.ppi_ptrs i ≡ c.ppi_ptrs i
    pub slots : (k : ℕ) → k < length fs → c'.ppi_ptrs (idx + k) ≡ address a k
    pub fixed :
        (k : ℕ)
        → k < length fs
        → c'.desc (address a k) ≡ moved (fixup_for g seen fs k) (c.desc (address a k))
    pub after : (i : ℕ) → idx + length fs ≤ i → c'.ppi_ptrs i ≡ c.ppi_ptrs i
    pub entries : c'.entry ≡ moved_entries g seen fs a c.desc c.entry
    pub others : (x : ℕ) → ((k : ℕ) → k < length fs → x ≢ address a k) → c'.desc x ≡ c.desc x
