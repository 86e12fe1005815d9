-- ===== src/Pei/Database/View.antt =====
-- The entries of the slots in use, and `PeiLocatePpi` as a look-up in them.
use edk2_arc.Base.{
  ℕ, zero, suc, ◌+◌, ◌^◌, ◌≤◌, ◌<◌, ◌≡◌, ◌≢◌, refl, ap, ◌∙◌, Bool-cases, inl, inr, ne→test, Option,
  none, some, List, [], ◌∷◌, ◌++◌, length, get_elem?, arith,
}
use edk2_arc.Edk2.{Guid, Mem, Platform}
use edk2_arc.Utils.Guids.{compare_guids}
use edk2_arc.Pei.Context.{PeiCore}
use edk2_arc.Pei.Ppi.Run.{address}
use edk2_arc.Pei.Locate.{pei_locate_ppi}
use edk2_arc.Pei.Locate.Nth.{with_guid, located, pei_locate_ppi_lem}
use edk2_arc.Pei.Database.Grew.{Listed, flags_of}
use edk2_arc.Pei.Database.{IsWhole, Entry, matching, reply_for, Stands}

module _ (p : Platform) (m : Mem) where
  abbrev pub entry_of : PeiCore → ℕ → Entry
  entry_of c d = record {
    descriptor = d;
    flags = (c.desc d).flags;
    guid = p.guid_at m (c.desc d).guid;
    ppi = (c.desc d).ppi;
  }

  -- The entries of the `left` slots from `idx` on.
  abbrev pub entries : PeiCore → ℕ → ℕ → List Entry
  entries c zero idx = []
  entries c (suc left) idx = entry_of c (c.ppi_ptrs idx) ∷ entries c left (idx + 1)

  abbrev pub view : PeiCore → List Entry
  view c = entries c c.current_count 0

  pub length-entries : (c : PeiCore) (left idx : ℕ) → length (entries c left idx) ≡ left
  length-entries c zero idx = refl
  length-entries c (suc left) idx = ap suc (length-entries c left (idx + 1))

  pub entries-split :
      (c : PeiCore) (left more idx : ℕ)
      → entries c (left + more) idx ≡ entries c left idx ++ entries c more (idx + left)
  entries-split c zero more idx =
      let same : idx + 0 ≡ idx = omega arith in
      let every : 0 + more ≡ more = omega arith in rw (same, every) refl
  entries-split c (suc left) more idx =
      let same : idx + 1 + left ≡ idx + suc left = omega arith in
      let every : suc left + more ≡ suc (left + more) = omega arith in
      rw every (
        ap (λ l. entry_of c (c.ppi_ptrs idx) ∷ l)
          (rw same at (entries-split c left more (idx + 1))))

  -- Slots that are kept, with descriptors that are kept, have the same entries.
  pub entries_kept :
      (c c' : PeiCore) (left idx : ℕ)
      → ((i : ℕ) → idx ≤ i → i < idx + left → c'.ppi_ptrs i ≡ c.ppi_ptrs i)
      → ((i : ℕ) → idx ≤ i → i < idx + left → c'.desc (c.ppi_ptrs i) ≡ c.desc (c.ppi_ptrs i))
      → entries c' left idx ≡ entries c left idx
  entries_kept c c' zero idx slots descs = refl
  entries_kept c c' (suc left) idx slots descs =
      rw
        (
          slots idx (omega arith) (omega arith),
          descs idx (omega arith) (omega arith),
          entries_kept c c' left (idx + 1) (λ i low high. slots i (omega arith) (omega arith))
              (λ i low high. descs i (omega arith) (omega arith)),
        )
        refl

  pub entries-Stands :
      (c : PeiCore) (left idx a : ℕ)
      → ((k : ℕ) → k < left → c.ppi_ptrs (idx + k) ≡ address p a k)
      → Stands p a (entries c left idx)
  entries-Stands c zero idx a slots = tt
  entries-Stands c (suc left) idx a slots =
      let same : idx + 0 ≡ idx = omega arith in
      (
        rw same at (slots 0 (omega arith)),
        entries-Stands c left (idx + 1) (a + p.sizeof_ppi_descriptor) (λ k below.
            let later : idx + 1 + k ≡ idx + suc k = omega arith in
            rw later (slots (suc k) (omega arith))),
      )

  pub entries-IsWhole :
      (c : PeiCore) (flags : ℕ → ℕ) (left idx a : ℕ)
      → ((k : ℕ) → k < left → c.ppi_ptrs (idx + k) ≡ address p a k)
      → flags_of c ≡ flags
      → Listed p flags a left
      → IsWhole p (entries c left idx)
  entries-IsWhole c flags zero idx a slots same listed = absurd listed
  entries-IsWhole c flags (suc zero) idx a slots same (ppi, last_one) =
      let here : idx + 0 ≡ idx = omega arith in
      let slot : c.ppi_ptrs idx ≡ a = rw here at (slots 0 (omega arith)) in
      let f : flags_of c (c.ppi_ptrs idx) ≡ flags a = ap (flags_of c) slot ∙ ap (λ g. g a) same in
      (rw f ppi, rw f last_one)
  entries-IsWhole c flags (suc (suc left)) idx a slots same (ppi, not_last, listed) =
      let here : idx + 0 ≡ idx = omega arith in
      let slot : c.ppi_ptrs idx ≡ a = rw here at (slots 0 (omega arith)) in
      let f : flags_of c (c.ppi_ptrs idx) ≡ flags a = ap (flags_of c) slot ∙ ap (λ g. g a) same in
      (
        rw f ppi,
        rw f not_last,
        entries-IsWhole c flags (suc left) (idx + 1) (a + p.sizeof_ppi_descriptor)
            (λ k below.
              let later : idx + 1 + k ≡ idx + suc k = omega arith in
              rw later (slots (suc k) (omega arith)))
            same listed,
      )

  abbrev entry_if : PeiCore → Option ℕ → Option Entry
  entry_if c none = none
  entry_if c (some d) = some (entry_of c d)

  get_elem?-cons_if :
      (c : PeiCore) (d : ℕ) (ds : List ℕ) (es : List Entry) (n : ℕ)
      → ((n : ℕ) → entry_if c (get_elem? ds n) ≡ get_elem? es n)
      → entry_if c (get_elem? (d ∷ ds) n) ≡ get_elem? (entry_of c d ∷ es) n
  get_elem?-cons_if c d ds es zero rest = refl
  get_elem?-cons_if c d ds es (suc n) rest = rest n

  -- The descriptors with a GUID are those of the matching entries, if no slot holds NULL.
  with_guid-entries :
      (c : PeiCore) (guid : Guid) (left idx n : ℕ)
      → ((i : ℕ) → idx ≤ i → i < idx + left → c.ppi_ptrs i ≢ 0)
      → entry_if c (get_elem? (with_guid p m c guid left idx) n)
        ≡ get_elem? (matching guid (entries c left idx)) n
  with_guid-entries c guid zero idx n there = refl
  with_guid-entries c guid (suc left) idx n there =
      let d = c.ppi_ptrs idx in
      let here = ne→test d 0 (there idx (omega arith) (omega arith)) in
      let rest = λ (k : ℕ).
        with_guid-entries c guid left (idx + 1) k
          (λ i low high. there i (omega arith) (omega arith)) in
      elim (Bool-cases (compare_guids guid (p.guid_at m (c.desc d).guid))) [
        | inl same ↦
            rw (here, same)
              (get_elem?-cons_if c d (with_guid p m c guid left (idx + 1))
                (matching guid (entries c left (idx + 1))) n rest)
        | inr other ↦ rw (here, other) (rest n)
      ]

  located-reply :
      (c : PeiCore) (out_desc : Option ℕ) (old : ℕ) (d : Option ℕ)
      → located c out_desc (some old) d ≡ reply_for out_desc old (entry_if c d)
  located-reply c out_desc old none = refl
  located-reply c out_desc old (some d) = refl

  pub pei_locate_ppi-view :
      (c : PeiCore) (guid : Guid) (instance_ : ℕ) (out_desc : Option ℕ) (old : ℕ)
      → instance_ < 2 ^ p.uintn_bits
      → ((i : ℕ) → i < c.current_count → c.ppi_ptrs i ≢ 0)
      → pei_locate_ppi p m c (some guid) instance_ out_desc (some old)
        ≡ reply_for out_desc old (get_elem? (matching guid (view c)) instance_)
  pei_locate_ppi-view c guid instance_ out_desc old small there =
      pei_locate_ppi_lem p m c guid instance_ out_desc old small
      ∙ located-reply c out_desc old (get_elem? (with_guid p m c guid c.current_count 0) instance_)
      ∙ ap (reply_for out_desc old) (
          with_guid-entries c guid c.current_count 0 instance_
            (λ i low high. there i (omega arith)))
