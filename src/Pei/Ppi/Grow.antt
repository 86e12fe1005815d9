-- ===== src/Pei/Ppi/Grow.antt =====
-- A descriptor more in the database, and what a list of them comes to.
use edk2_arc.Base.{
  ℕ, zero, suc, ◌+◌, ◌^◌, ◌<◌, ◌≡◌, ◌≢◌, refl, sym, ap, ◌∙◌, Bool, ◌||◌, if◌then◌else◌, List, [],
  ◌∷◌, length, ne→test, ==_refl, ℕ_discrete, arith,
}
use edk2_arc.Edk2.{Mem, Platform, uintn_of_lt}
use edk2_arc.Pei.Context.{PeiCore}
use edk2_arc.Pei.Ppi.{is_pic_ppi, fixup_ppi, accept}
use edk2_arc.Pei.Ppi.Run.{
  address, address-le, fixup_for, moved, moved_entries, moved_entries_cong, Installed,
}

module _ (p : Platform) (m : Mem) (fuel boot_fv_base g : ℕ) where
  -- The fixup in use, if a position-independent descriptor was seen.
  abbrev pub fixup_of : Bool → ℕ
  fixup_of seen = if seen then g else 0

  -- What a round does to the database.
  pub accept_all_flags :
      (idx fixup a : ℕ) (c : PeiCore) (x : ℕ)
      → ((accept p m fuel boot_fv_base idx fixup a c).desc x).flags ≡ (c.desc x).flags
  unfolding accept fixup_ppi
  accept_all_flags idx fixup a c x = elim (ℕ_discrete x a) [
    | yes same ↦ rw (same, ==_refl a) refl
    | no other ↦ rw (ne→test x a other) refl
  ]

  accept_slot :
      (idx fixup a : ℕ) (c : PeiCore) (k : ℕ)
      → k < 1
      → (accept p m fuel boot_fv_base idx fixup a c).ppi_ptrs (idx + k) ≡ address p a k
  unfolding accept fixup_ppi
  accept_slot idx fixup a c zero below =
      let same : idx + 0 ≡ idx = omega arith in rw (same, ==_refl idx) refl
  accept_slot idx fixup a c (suc k) below = absurd (omega arith)

  accept_fixed :
      (idx a : ℕ) (seen : Bool) (f : ℕ) (c : PeiCore) (k : ℕ)
      → k < 1
      → (accept p m fuel boot_fv_base idx (fixup_of (seen || is_pic_ppi p f)) a c).desc
          (address p a k)
        ≡ moved p (fixup_for p g seen (f ∷ []) k) (c.desc (address p a k))
  unfolding accept fixup_ppi
  accept_fixed idx a seen f c zero below = rw (==_refl a) refl
  accept_fixed idx a seen f c (suc k) below = absurd (omega arith)

  pub accept-Installed :
      (idx a : ℕ) (seen : Bool) (f : ℕ) (c : PeiCore)
      → c.current_count ≡ idx
      → idx < c.max_count
      → c.max_count < 2 ^ p.uintn_bits
      → Installed p g c
          (accept p m fuel boot_fv_base idx (fixup_of (seen || is_pic_ppi p f)) a c)
          idx
          a
          seen
          (f ∷ [])
  unfolding accept fixup_ppi
  accept-Installed idx a seen f c e room countable = record {
    count = omega (arith, uintn_of_lt p (c.current_count + 1) (omega arith));
    same_max = refl;
    same_volumes = refl;
    kept = λ i below. rw (ne→test i idx (omega arith)) refl;
    slots = accept_slot idx (fixup_of (seen || is_pic_ppi p f)) a c;
    fixed = accept_fixed idx a seen f c;
    after = λ i behind. rw (ne→test i idx (omega arith)) refl;
    entries = refl;
    others = λ x apart. rw (ne→test x a (apart 0 (omega arith))) refl;
  }

  -- The first descriptor, and then the others.
  module _ (c c₁ c' : PeiCore) (idx a : ℕ) (seen : Bool) (f : ℕ) (fs : List ℕ)
      (wide : 0 < p.sizeof_ppi_descriptor) (first : Installed p g c c₁ idx a seen (f ∷ []))
      (rest : Installed p g c₁ c'
        (idx + 1)
        (a + p.sizeof_ppi_descriptor)
        (seen || is_pic_ppi p f)
        fs) where
    later_address : (k : ℕ) → a ≢ address p (a + p.sizeof_ppi_descriptor) k
    later_address k = omega (arith, address-le p (a + p.sizeof_ppi_descriptor) k)

    cons_slot : (k : ℕ) → k < length (f ∷ fs) → c'.ppi_ptrs (idx + k) ≡ address p a k
    cons_slot zero below =
        let same : idx + 0 ≡ idx = omega arith in
        rest.kept (idx + 0) (omega arith) ∙ first.slots 0 (omega arith)
    cons_slot (suc k) below =
        let same : idx + 1 + k ≡ idx + suc k = omega arith in
        ap c'.ppi_ptrs (sym same) ∙ rest.slots k (omega arith)

    cons_fixed :
        (k : ℕ)
        → k < length (f ∷ fs)
        → c'.desc (address p a k) ≡ moved p (fixup_for p g seen (f ∷ fs) k) (c.desc (address p a k))
    cons_fixed zero below =
        rest.others a (λ k in_list. later_address k) ∙ first.fixed 0 (omega arith)
    cons_fixed (suc k) below =
        rest.fixed k (omega arith)
        ∙ ap (moved p (fixup_for p g (seen || is_pic_ppi p f) fs k))
            (first.others (address p (a + p.sizeof_ppi_descriptor) k) (not_first k))
      where
        not_first : (k j : ℕ) → j < 1 → address p (a + p.sizeof_ppi_descriptor) k ≢ address p a j
        not_first k zero below = λ e. later_address k (sym e)
        not_first k (suc j) below = absurd (omega arith)

    cons_entries : c'.entry ≡ moved_entries p g seen (f ∷ fs) a c.desc c.entry
    cons_entries =
        rest.entries
        ∙ rw first.entries (
            moved_entries_cong p g (seen || is_pic_ppi p f) fs (a + p.sizeof_ppi_descriptor) c₁.desc
              c.desc _
              λ k below. first.others (address p (a + p.sizeof_ppi_descriptor) k) (not_the_first k))
      where
        not_the_first :
            (k j : ℕ) → j < 1 → address p (a + p.sizeof_ppi_descriptor) k ≢ address p a j
        not_the_first k zero below = λ e. later_address k (sym e)
        not_the_first k (suc j) below = absurd (omega arith)

    pub Installed-cons : Installed p g c c' idx a seen (f ∷ fs)
    Installed-cons = record {
      count = omega (arith, rest.count);
      same_max = rest.same_max ∙ first.same_max;
      same_volumes = rest.same_volumes ∙ first.same_volumes;
      kept = λ i below. rest.kept i (omega arith) ∙ first.kept i below;
      slots = cons_slot;
      fixed = cons_fixed;
      after = λ i behind. rest.after i (omega arith) ∙ first.after i (omega arith);
      entries = cons_entries;
      others = λ x apart.
          rest.others x (λ k below. apart (suc k) (omega arith))
          ∙ first.others x (first_only x apart);
    }
      where
        first_only :
            (x : ℕ)
            → ((k : ℕ) → k < length (f ∷ fs) → x ≢ address p a k)
            → (k : ℕ) → k < 1
            → x ≢ address p a k
        first_only x apart zero below = apart 0 (omega arith)
        first_only x apart (suc k) below = absurd (omega arith)
