-- ===== src/Pei/Database/Grew.antt =====
-- What any call of `PeiInstallPpi` does to the slots and to the descriptors.
use edk2_arc.Base.{
  false, fun_ext, bit_and, eq_of_test, ne_of_test, subst, ℕ, zero, suc, ◌+◌, ◌-◌, ◌^◌, ◌≤◌, ◌<◌,
  ◌≡◌, ◌≢◌, refl, sym, ap, ◌∙◌, true, Option, some, if◌then◌else◌, [], ◌∷◌, ℕ_discrete, dec_lt,
  ne→test, lt→leb, le→leb, arith,
}
use edk2_arc.Edk2.{Status, Mem, Platform, uintn, uintn_of_lt}
use edk2_arc.Utils.Info.{StatusInfo}
use edk2_arc.Utils.Section.{Found}
use edk2_arc.Pei.Context.{PeiCore}
use edk2_arc.Pei.Ppi.{
  is_no_ppi, is_last_ppi, Reply, reply, calc_peim_fixup, fixup_ppi, accept, Round, done, again,
  install_loop, pei_install_ppi,
}
use edk2_arc.Pei.Ppi.OneRound.{IsValid, Shape, refused, ended, overfull, more, install_round-Shape}
use edk2_arc.Pei.Ppi.Run.{address, address-le, Installed}
use edk2_arc.Pei.Ppi.Grow.{accept_all_flags, accept-Installed}
use edk2_arc.Pei.Database.{IsPpi, EndsList}

-- The flags of the `n` descriptors from `a` on are those of a whole list: PPIs, of which the last one ends
-- the list, and no other does.
abbrev pub Listed : Platform → (ℕ → ℕ) → ℕ → ℕ → Type 0
Listed p flags a zero = ⊥
Listed p flags a (suc zero) = IsPpi p (flags a) × EndsList p (flags a)
Listed p flags a (suc (suc n)) =
    IsPpi p (flags a)
    × (¬ EndsList p (flags a))
    × Listed p flags (a + p.sizeof_ppi_descriptor) (suc n)

abbrev pub flags_of : PeiCore → ℕ → ℕ
flags_of c a = (c.desc a).flags

-- From slot `idx` on, the reply has in its slots what stands from `a` on; the slots before are as in `c`, and the
-- descriptors that do not stand there, for a slot below `max`, too. No flags have changed, and after a
-- success the new slots hold a whole list.
pub record Grew (p : Platform) (max idx a : ℕ) (c : PeiCore) (r : Reply) : Type 0 where
  pub kept : (i : ℕ) → i < idx → r.core.ppi_ptrs i ≡ c.ppi_ptrs i
  pub others : (x : ℕ) → ((k : ℕ) → idx + k < max → x ≢ address p a k) → r.core.desc x ≡ c.desc x
  pub slots : (k : ℕ) → idx + k < r.core.current_count → r.core.ppi_ptrs (idx + k) ≡ address p a k
  pub same_flags : flags_of r.core ≡ flags_of c
  pub whole :
      r.status ≡ Status.success
      → (n : ℕ) × (r.core.current_count ≡ idx + n) × Listed p (flags_of c) a n

is_no_ppi→IsPpi : (p : Platform) (f : ℕ) → is_no_ppi p f ≡ false → IsPpi p f
unfolding is_no_ppi
is_no_ppi→IsPpi p f e = ne_of_test (bit_and f p.flag_ppi) 0 e

is_last_ppi→EndsList : (p : Platform) (f : ℕ) → is_last_ppi p f ≡ true → EndsList p f
unfolding is_last_ppi
is_last_ppi→EndsList p f e = eq_of_test (bit_and f p.flag_terminate_list) p.flag_terminate_list e

is_last_ppi→not_EndsList : (p : Platform) (f : ℕ) → is_last_ppi p f ≡ false → ¬ EndsList p f
unfolding is_last_ppi
is_last_ppi→not_EndsList p f e =
    ne_of_test (bit_and f p.flag_terminate_list) p.flag_terminate_list e

address_le_of_le : (p : Platform) (a j k : ℕ) → j ≤ k → address p a j ≤ address p a k
address_le_of_le p a zero k le = address-le p a k
address_le_of_le p a (suc j) zero le = absurd (omega arith)
address_le_of_le p a (suc j) (suc k) le =
    address_le_of_le p (a + p.sizeof_ppi_descriptor) j k (omega arith)

module _ (p : Platform) (m : Mem) (fuel boot_fv : ℕ) where
  module _ (idx fixup a : ℕ) (c : PeiCore) (v : IsValid p c) (e : c.current_count ≡ idx)
      (below : idx < c.max_count) where
    accepted : Installed p fixup c (accept p m fuel boot_fv idx fixup a c) idx a true (0 ∷ [])
    accepted = accept-Installed p m fuel boot_fv fixup idx a true 0 c e below v.countable

    accepted_flags : flags_of (accept p m fuel boot_fv idx fixup a c) ≡ flags_of c
    accepted_flags = fun_ext λ x. accept_all_flags p m fuel boot_fv 0 idx fixup a c x

    -- A round that takes the descriptor, and no further one.
    one-Grew :
        (s : Status) (count : ℕ)
        → count ≤ idx + 1
        → (s ≡ Status.success → (n : ℕ) × (count ≡ idx + n) × Listed p (flags_of c) a n)
        → Grew p c.max_count idx a c
            (reply s (record (accept p m fuel boot_fv idx fixup a c) { current_count = count }))
    one-Grew s count few whole = record {
      same_flags = accepted_flags;
      whole = whole;
      kept = accepted.kept;
      others = λ x apart. accepted.others x λ k first. apart k (omega arith);
      slots = λ k used. accepted.slots k (omega arith);
    }

    again-Grew :
        (r : Reply)
        → is_no_ppi p (flags_of c a) ≡ false
        → is_last_ppi p (flags_of c a) ≡ false
        → Grew p c.max_count
            (idx + 1)
            (a + p.sizeof_ppi_descriptor)
            (accept p m fuel boot_fv idx fixup a c)
            r
        → Grew p c.max_count idx a c r
    again-Grew r ppi not_last rest = record {
      same_flags = rest.same_flags ∙ accepted_flags;
      whole = λ ok. longer (rest.whole ok);
      kept = λ i before. rest.kept i (omega arith) ∙ accepted.kept i before;
      others = λ x apart.
          rest.others x (λ k low. apart (suc k) (omega arith))
          ∙ accepted.others x λ k first. apart k (omega arith);
      slots = slot;
    }
      where
        longer :
            ((n : ℕ) × (r.core.current_count ≡ idx + 1 + n)
              × Listed p
                  (flags_of (accept p m fuel boot_fv idx fixup a c))
                  (a + p.sizeof_ppi_descriptor)
                  n)
            → (n : ℕ) × (r.core.current_count ≡ idx + n) × Listed p (flags_of c) a n
        longer (zero, count, listed) = absurd listed
        longer (suc n, count, listed) = (
          suc (suc n),
          omega (arith, count),
          (
            is_no_ppi→IsPpi p (flags_of c a) ppi,
            is_last_ppi→not_EndsList p (flags_of c a) not_last,
            subst (λ flags. Listed p flags (a + p.sizeof_ppi_descriptor) (suc n)) accepted_flags
                listed,
          ),
        )

        slot : (k : ℕ) → idx + k < r.core.current_count → r.core.ppi_ptrs (idx + k) ≡ address p a k
        slot zero used = rest.kept (idx + 0) (omega arith) ∙ accepted.slots 0 (omega arith)
        slot (suc k) used =
            let same : idx + 1 + k ≡ idx + suc k = omega arith in
            ap r.core.ppi_ptrs (sym same) ∙ rest.slots k (omega arith)

  same-Grew :
      (s : Status) (max idx a count : ℕ) (c : PeiCore)
      → s ≢ Status.success
      → count ≤ idx
      → Grew p max idx a c (reply s (record c { current_count = count }))
  same-Grew s max idx a count c bad few = record {
    same_flags = refl;
    whole = λ ok. absurd (bad ok);
    kept = λ i before. refl;
    others = λ x apart. refl;
    slots = λ k used. absurd (omega arith);
  }

  -- What follows a round.
  after_round :
      (last rounds idx a : ℕ) (info : StatusInfo) (c : PeiCore)
      → IsValid p c
      → c.current_count ≡ idx
      → idx < c.max_count
      → last ≤ idx
      → ((fixup : ℕ)
          → idx + 1 < c.max_count
          → (r : Reply) × (install_loop p m fuel boot_fv last rounds info
                (uintn p (idx + 1))
                fixup
                (uintn p (a + p.sizeof_ppi_descriptor))
                (accept p m fuel boot_fv idx fixup a c)
              ≡ some r)
            × Grew p c.max_count
                (idx + 1)
                (a + p.sizeof_ppi_descriptor)
                (accept p m fuel boot_fv idx fixup a c)
                r)
      → (rd : Round) → Shape p m fuel boot_fv last idx a c rd
      → (r : Reply) × (elim rd as (λ _. Option Reply) [
        | done r ↦ some r
        | again fixup' c' ↦
            install_loop p m fuel boot_fv last rounds info
              (uintn p (idx + 1))
              fixup'
              (uintn p (a + p.sizeof_ppi_descriptor))
              c'
      ]
          ≡ some r)
        × Grew p c.max_count idx a c r
  after_round last rounds idx a info c v e h l go rd (refused s ne) =
      (reply s (record c { current_count = last }), refl, same-Grew s c.max_count idx a last c ne l)
  after_round last rounds idx a info c v e h l go rd (ended fixup ppi last_one) =
      let c' = accept p m fuel boot_fv idx fixup a c in
      (
        reply Status.success c',
        refl,
        one-Grew idx fixup a c v e h Status.success c'.current_count
            (omega (arith, (accepted idx fixup a c v e h).count))
            (λ ok. (
              1,
              (accepted idx fixup a c v e h).count,
              (
                is_no_ppi→IsPpi p (flags_of c a) ppi,
                is_last_ppi→EndsList p (flags_of c a) last_one,
              ),
            )),
      )
  after_round last rounds idx a info c v e h l go rd (overfull fixup) = (
    reply Status.not_found
        (record (accept p m fuel boot_fv idx fixup a c) { current_count = last }),
    refl,
    one-Grew idx fixup a c v e h Status.not_found last (omega arith) (λ bad. cc),
  )
  after_round last rounds idx a info c v e h l go rd (more fixup ppi not_last room) =
      let (r, returns, rest) = go fixup room in
      (r, returns, again-Grew idx fixup a c v e h r ppi not_last rest)

  module _
      (ends : (info : StatusInfo)
        → (f : Found) × (calc_peim_fixup p m fuel boot_fv (some info) ≡ some f)) where
    -- The loop, for `left` more slots, whose descriptors are in reach of a pointer.
    install_loop-Grew :
        (last rounds : ℕ) (info : StatusInfo) (idx fixup a left : ℕ) (c : PeiCore)
        → IsValid p c
        → c.current_count ≡ idx
        → idx < c.max_count
        → last ≤ idx
        → c.max_count ≤ idx + rounds
        → idx + left ≡ c.max_count
        → address p a left < 2 ^ p.uintn_bits
        → (r : Reply) × (install_loop p m fuel boot_fv last rounds info idx fixup a c ≡ some r)
          × Grew p c.max_count idx a c r
    unfolding install_loop accept fixup_ppi
    install_loop-Grew last zero info idx fixup a left c v e h l enough size reach =
        absurd (omega arith)
    install_loop-Grew last (suc rounds) info idx fixup a zero c v e h l enough size reach =
        absurd (omega arith)
    install_loop-Grew last (suc rounds) info idx fixup a (suc left) c v e h l enough size reach =
        let (rd, round, shape) =
          install_round-Shape p m fuel boot_fv ends last info idx fixup a c v e h in
        let idx' : uintn p (idx + 1) ≡ idx + 1 =
          uintn_of_lt p (idx + 1) (omega (arith, v.countable)) in
        let a' : uintn p (a + p.sizeof_ppi_descriptor) ≡ a + p.sizeof_ppi_descriptor =
          uintn_of_lt p (a + p.sizeof_ppi_descriptor)
            (omega (arith, address-le p (a + p.sizeof_ppi_descriptor) left)) in
        rw round (
          after_round last rounds idx a info c v e h l
            (λ fixup' room.
              let grown = accepted idx fixup' a c v e h in
              let c' = accept p m fuel boot_fv idx fixup' a c in
              rw (idx', a')
                (install_loop-Grew last rounds info (idx + 1) fixup' (a + p.sizeof_ppi_descriptor)
                  left c' (record { within = omega (arith, grown.count); countable = v.countable })
                  grown.count room (omega arith) (omega arith) (omega arith) reach))
            rd shape)

    -- The list would be in reach of a pointer if it filled the database. The slots in use are kept, the
    -- descriptors that are not in the list too, and the new slots hold the descriptors of the list in order.
    pub pei_install_ppi-Grew :
        (info : StatusInfo) (ppi_list : ℕ) (c : PeiCore)
        → IsValid p c
        → address p ppi_list c.max_count < 2 ^ p.uintn_bits
        → (r : Reply) × (pei_install_ppi p m fuel boot_fv info ppi_list c ≡ some r)
          × Grew p c.max_count c.current_count ppi_list c r
    unfolding pei_install_ppi
    pei_install_ppi-Grew info ppi_list c v reach = elim (ℕ_discrete ppi_list 0) [
      | yes nothing ↦ (
        reply Status.invalid_parameter c,
        rw nothing refl,
        same-Grew Status.invalid_parameter c.max_count c.current_count ppi_list c.current_count c
            (cc) (omega arith),
      )
      | no list ↦ elim (dec_lt c.current_count c.max_count) [
        | no full ↦ (
          reply Status.not_found c,
          rw
              (
                ne→test ppi_list 0 list,
                if◌then◌else◌,
                le→leb c.max_count c.current_count (omega arith),
              )
              refl,
          same-Grew Status.not_found c.max_count c.current_count ppi_list c.current_count c (cc)
              (omega arith),
        )
        | yes room ↦
            let left = c.max_count - c.current_count in
            let (r, returns, grew) =
              install_loop-Grew c.current_count c.max_count info c.current_count 0 ppi_list left c v
                refl room (omega arith) (omega arith) (omega arith)
                (omega (arith, address_le_of_le p ppi_list left c.max_count (omega arith))) in
            (
              r,
              rw (ne→test ppi_list 0 list, if◌then◌else◌, lt→leb c.max_count c.current_count room)
                  returns,
              grew,
            )
      ]
    ]
