-- ===== src/Pei/Database/Directory.antt =====
-- What can be learnt from `PeiLocatePpi` of the database: the PPIs with each GUID in order, but not how
-- PPIs with different GUIDs follow one another.
use edk2_arc.Base.{
  ℕ, zero, suc, ◌+◌, ◌^◌, ◌≤◌, ◌<◌, ◌≡◌, ◌≢◌, ◌↔◌, refl, sym, ap, ap₂, ◌∙◌, inl, inr, Bool-cases,
  Option, none, some, List, [], ◌∷◌, length, get_elem?, if◌then◌else◌, arith,
}
use mathlib.Core.Quot
use mathlib.Core.Quot.{Quot}
use native.Mathlib.Nat.{ℕ_set}
use edk2_arc.Edk2.{Status, Guid, Mem, Platform}
use edk2_arc.Utils.Guids.{compare_guids}
use edk2_arc.Pei.Context.{PeiCore}
use edk2_arc.Pei.Locate.{Located, store_out, pei_locate_ppi}
use edk2_arc.Pei.Database.{Entry, matching, reply_for}
use edk2_arc.Pei.Database.View.{entries, view, pei_locate_ppi-view}

-- The descriptors and PPIs that are published under a GUID, in order.
abbrev pub offers : Guid → List Entry → List (ℕ × ℕ)
offers guid [] = []
offers guid (e ∷ es) =
    let rest = offers guid es in
    if compare_guids guid e.guid then (e.descriptor, e.ppi) ∷ rest else rest

abbrev pub SameOffers : List Entry → List Entry → Type 0
SameOffers xs ys = (guid : Guid) → offers guid xs ≡ offers guid ys

-- A database up to the order of PPIs with different GUIDs.
abbrev pub Directory : Type 0
Directory = Quot SameOffers

offered : Guid → Directory → List (ℕ × ℕ)
offered guid = Quot.lift (hlevel (ℕ_set)) (offers guid) (λ xs ys h. h guid)

exact : (xs ys : List Entry) → ◌≡◌ {A = Directory} (Quot.mk xs) (Quot.mk ys) → SameOffers xs ys
unfolding offered
exact xs ys e guid = ap (offered guid) e

-- The answer to a look-up by an offer.
abbrev reply_by : Option ℕ → ℕ → Option (ℕ × ℕ) → Located
reply_by out_desc old none = record {
  status = Status.not_found;
  ppi_descriptor = out_desc;
  ppi = some old;
}
reply_by out_desc old (some (descriptor, ppi)) = record {
  status = Status.success;
  ppi_descriptor = store_out out_desc descriptor;
  ppi = some ppi;
}

abbrev offer_if : Option Entry → Option (ℕ × ℕ)
offer_if none = none
offer_if (some e) = some (e.descriptor, e.ppi)

reply_for-offer :
    (out_desc : Option ℕ) (old : ℕ) (o : Option Entry)
    → reply_for out_desc old o ≡ reply_by out_desc old (offer_if o)
reply_for-offer out_desc old none = refl
reply_for-offer out_desc old (some e) = refl

first_offer :
    (e : Entry) (es : List Entry) (os : List (ℕ × ℕ)) (n : ℕ)
    → ((n : ℕ) → offer_if (get_elem? es n) ≡ get_elem? os n)
    → offer_if (get_elem? (e ∷ es) n) ≡ get_elem? ((e.descriptor, e.ppi) ∷ os) n
first_offer e es os zero rest = refl
first_offer e es os (suc n) rest = rest n

matching-offers :
    (guid : Guid) (es : List Entry) (n : ℕ)
    → offer_if (get_elem? (matching guid es) n) ≡ get_elem? (offers guid es) n
matching-offers guid [] n = refl
matching-offers guid (e ∷ es) n =
    let rest = λ (k : ℕ). matching-offers guid es k in
    elim (Bool-cases (compare_guids guid e.guid)) [
      | inr other ↦ rw other (rest n)
      | inl same ↦ rw same (first_offer e (matching guid es) (offers guid es) n rest)
    ]

-- A look-up that asks for the descriptor tells the offer.
reply_by-injective : (a b : Option (ℕ × ℕ)) → reply_by (some 0) 0 a ≡ reply_by (some 0) 0 b → a ≡ b
reply_by-injective none none e = refl
reply_by-injective none (some b) e =
    let clash : Status.not_found ≡ Status.success = ap (λ (l : Located). l.status) e in cc
reply_by-injective (some a) none e =
    let clash : Status.success ≡ Status.not_found = ap (λ (l : Located). l.status) e in cc
reply_by-injective (some (d, q)) (some (d', q')) e =
    let desc : some d ≡ some d' = ap (λ (l : Located). l.ppi_descriptor) e in
    let ppi : some q ≡ some q' = ap (λ (l : Located). l.ppi) e in cc

-- Two lists that agree on the first `bound` places, and are shorter, are the same.
eq_of_places :
    {A : Type 0} (bound : ℕ) (xs ys : List A)
    → length xs < bound
    → length ys < bound
    → ((n : ℕ) → n < bound → get_elem? xs n ≡ get_elem? ys n)
    → xs ≡ ys
eq_of_places zero xs ys hx hy same = absurd (omega arith)
eq_of_places (suc bound) [] [] hx hy same = refl
eq_of_places (suc bound) [] (y ∷ ys) hx hy same =
    let clash : none ≡ some y = same 0 (omega arith) in cc
eq_of_places (suc bound) (x ∷ xs) [] hx hy same =
    let clash : some x ≡ none = same 0 (omega arith) in cc
eq_of_places (suc bound) (x ∷ xs) (y ∷ ys) hx hy same =
    let first : some x ≡ some y = same 0 (omega arith) in
    let head : x ≡ y = cc in
    ap₂ ◌∷◌ head
      (eq_of_places bound xs ys (omega arith) (omega arith) (λ n below. same (suc n) (omega arith)))

module _ (p : Platform) (m : Mem) where
  abbrev pub directory : PeiCore → Directory
  directory c = Quot.mk (view p m c)

  -- The two databases answer every look-up alike.
  abbrev pub SameAnswers : PeiCore → PeiCore → Type 0
  SameAnswers c d =
      (guid : Guid) (instance_ : ℕ) (out_desc : Option ℕ) (old : ℕ)
      → instance_ < 2 ^ p.uintn_bits
      → pei_locate_ppi p m c (some guid) instance_ out_desc (some old)
        ≡ pei_locate_ppi p m d (some guid) instance_ out_desc (some old)

  -- No slot in use holds NULL, and their number is in the range of a UINTN.
  pub record IsFilled (c : PeiCore) : Type 0 where
    pub countable : c.current_count < 2 ^ p.uintn_bits
    pub there : (i : ℕ) → i < c.current_count → c.ppi_ptrs i ≢ 0

  length-offers :
      (guid : Guid) (c : PeiCore) (left idx : ℕ)
      → length (offers guid (entries p m c left idx)) ≤ left
  length-offers guid c zero idx = omega arith
  length-offers guid c (suc left) idx =
      elim (Bool-cases (compare_guids guid (p.guid_at m (c.desc (c.ppi_ptrs idx)).guid))) [
        | inl same ↦ rw same (omega (arith, length-offers guid c left (idx + 1)))
        | inr other ↦ rw other (omega (arith, length-offers guid c left (idx + 1)))
      ]

  answer-offers :
      (c : PeiCore) (guid : Guid) (instance_ : ℕ) (out_desc : Option ℕ) (old : ℕ)
      → IsFilled c
      → instance_ < 2 ^ p.uintn_bits
      → pei_locate_ppi p m c (some guid) instance_ out_desc (some old)
        ≡ reply_by out_desc old (get_elem? (offers guid (view p m c)) instance_)
  answer-offers c guid instance_ out_desc old filled small =
      pei_locate_ppi-view p m c guid instance_ out_desc old small filled.there
      ∙ reply_for-offer out_desc old (get_elem? (matching guid (view p m c)) instance_)
      ∙ ap (reply_by out_desc old) (matching-offers guid (view p m c) instance_)

  -- PeiLocatePpi sees of a database exactly the PPIs with each GUID, in order: two databases answer
  -- every look-up alike if and only if they are the same up to the order of PPIs with different
  -- GUIDs. No slot in use holds NULL in either of them, and their numbers of slots in use and the
  -- numbers asked for are in the range of a UINTN.
  pub pei_locate_ppi-Directory :
      (c d : PeiCore)
      → IsFilled c
      → IsFilled d
      → SameAnswers c d ↔ (◌≡◌ {A = Directory} (directory c) (directory d))
  pei_locate_ppi-Directory c d fc fd = (
    (λ same. Quot.sound λ guid.
        eq_of_places (2 ^ p.uintn_bits) (offers guid (view p m c)) (offers guid (view p m d))
          (omega (arith, length-offers guid c c.current_count 0, fc.countable))
          (omega (arith, length-offers guid d d.current_count 0, fd.countable))
          (λ n small.
            reply_by-injective (get_elem? (offers guid (view p m c)) n)
              (get_elem? (offers guid (view p m d)) n)
              (sym (answer-offers c guid n (some 0) 0 fc small)
                ∙ same guid n (some 0) 0 small
                ∙ answer-offers d guid n (some 0) 0 fd small))),
    (λ same guid n out_desc old small.
        answer-offers c guid n out_desc old fc small
        ∙ ap (λ l. reply_by out_desc old (get_elem? l n))
            (exact (view p m c) (view p m d) same guid)
        ∙ sym (answer-offers d guid n out_desc old fd small)),
  )
