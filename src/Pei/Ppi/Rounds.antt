-- ===== src/Pei/Ppi/Rounds.antt =====
-- The rounds of `PeiInstallPpi` for a list of descriptors.
use edk2_arc.Base.{
  ℕ, zero, suc, ◌+◌, ◌^◌, ◌<◌, ◌≡◌, refl, sym, ◌∙◌, subst, fun_ext, Bool, true, false, ◌||◌, ◌&&◌,
  if◌then◌else◌, Bool-cases, inl, inr, List, [], ◌∷◌, length, some, ◌>>=◌, leb, ◌==◌, lt→leb,
  le→leb, ne→test, ℕ_discrete, arith,
}
use edk2_arc.Edk2.{Status, Mem, Platform, uintn, uintn_of_lt}
use edk2_arc.Utils.Info.{StatusInfo}
use edk2_arc.Utils.Section.{Found}
use edk2_arc.Pei.Context.{PeiCore}
use edk2_arc.Pei.Ppi.{
  reply, status_of, is_no_ppi, is_pic_ppi, is_last_ppi, calc_peim_fixup, next_fixup, accept, reject,
  install_round, done, again, install_loop,
}
use edk2_arc.Pei.Ppi.Run.{Ending, at_last, no_room, finish, address, address-le, Run, Installed}
use edk2_arc.Pei.Ppi.Grow.{fixup_of, accept_all_flags, accept-Installed, Installed-cons}

module _ (p : Platform) (m : Mem) (fuel boot_fv_base : ℕ) (info : StatusInfo) (g : Found)
    (found : calc_peim_fixup p m fuel boot_fv_base (some info) ≡ some g)
    (ok : status_of info g.info ≡ Status.success) where
  fixup_computed :
      (flags : ℕ) (seen : Bool)
      → fixup_of p m fuel boot_fv_base g.ptr (seen || is_pic_ppi p flags) ≡ g.ptr
      → (fixup_of p m fuel boot_fv_base g.ptr seen == 0 && is_pic_ppi p flags) ≡ true
      → next_fixup p m fuel boot_fv_base flags (fixup_of p m fuel boot_fv_base g.ptr seen) info
        ≡ some (Status.success, fixup_of p m fuel boot_fv_base g.ptr (seen || is_pic_ppi p flags))
  unfolding next_fixup
  fixup_computed flags seen e test = rw (test, if◌then◌else◌, found, ◌>>=◌, ok, e) refl

  fixup_kept :
      (flags : ℕ) (seen : Bool)
      → fixup_of p m fuel boot_fv_base g.ptr (seen || is_pic_ppi p flags)
        ≡ fixup_of p m fuel boot_fv_base g.ptr seen
      → (fixup_of p m fuel boot_fv_base g.ptr seen == 0 && is_pic_ppi p flags) ≡ false
      → next_fixup p m fuel boot_fv_base flags (fixup_of p m fuel boot_fv_base g.ptr seen) info
        ≡ some (Status.success, fixup_of p m fuel boot_fv_base g.ptr (seen || is_pic_ppi p flags))
  unfolding next_fixup
  fixup_kept flags seen e test = rw (test, e) refl

  next_fixup_lem :
      (flags : ℕ) (seen : Bool)
      → next_fixup p m fuel boot_fv_base flags (fixup_of p m fuel boot_fv_base g.ptr seen) info
        ≡ some (Status.success, fixup_of p m fuel boot_fv_base g.ptr (seen || is_pic_ppi p flags))
  next_fixup_lem flags false = elim (Bool-cases (is_pic_ppi p flags)) [
    | inl pic ↦ fixup_computed flags false (rw pic refl) (rw pic refl)
    | inr other ↦ fixup_kept flags false (rw other refl) (rw other refl)
  ]
  next_fixup_lem flags true = elim (ℕ_discrete g.ptr 0) [
    | no set ↦ fixup_kept flags true refl (rw (ne→test g.ptr 0 set) refl)
    | yes unset ↦ elim (Bool-cases (is_pic_ppi p flags)) [
      | inl pic ↦ fixup_computed flags true refl (rw (unset, pic) refl)
      | inr other ↦ fixup_kept flags true refl (rw (unset, other) refl)
    ]
  ]

  module _ (last : ℕ) where
    -- One round at a descriptor of a PPI with the flags `f`.
    module _ (idx a : ℕ) (seen : Bool) (f : ℕ) (c : PeiCore) (at : (c.desc a).flags ≡ f)
        (ppi : is_no_ppi p f ≡ false) where
      abbrev accepted : PeiCore
      accepted =
          accept p m fuel boot_fv_base idx
            (fixup_of p m fuel boot_fv_base g.ptr (seen || is_pic_ppi p f)) a c

      accepted_flags : (accepted.desc a).flags ≡ f
      accepted_flags =
          accept_all_flags p m fuel boot_fv_base g.ptr idx
            (fixup_of p m fuel boot_fv_base g.ptr (seen || is_pic_ppi p f)) a c a
          ∙ at

      round_last :
          is_last_ppi p f ≡ true
          → install_round p m fuel boot_fv_base last info idx
              (fixup_of p m fuel boot_fv_base g.ptr seen)
              a
              c
            ≡ some (done (reply Status.success accepted))
      unfolding install_round
      round_last ends = rw (at, ppi, next_fixup_lem f seen, ◌>>=◌, accepted_flags, ends) refl

      round_full :
          is_last_ppi p f ≡ false
          → leb accepted.max_count (uintn p (idx + 1)) ≡ true
          → install_round p m fuel boot_fv_base last info idx
              (fixup_of p m fuel boot_fv_base g.ptr seen)
              a
              c
            ≡ some (reject last Status.not_found accepted)
      unfolding install_round
      round_full more full =
          rw (at, ppi, next_fixup_lem f seen, ◌>>=◌, accepted_flags, more, full) refl

      round_again :
          is_last_ppi p f ≡ false
          → leb accepted.max_count (uintn p (idx + 1)) ≡ false
          → install_round p m fuel boot_fv_base last info idx
              (fixup_of p m fuel boot_fv_base g.ptr seen)
              a
              c
            ≡ some (again (fixup_of p m fuel boot_fv_base g.ptr (seen || is_pic_ppi p f)) accepted)
      unfolding install_round
      round_again more room =
          rw (at, ppi, next_fixup_lem f seen, ◌>>=◌, accepted_flags, more, room) refl

      loop_again :
          (rounds : ℕ)
          → is_last_ppi p f ≡ false
          → idx + 1 < c.max_count
          → c.max_count < 2 ^ p.uintn_bits
          → accepted.max_count ≡ c.max_count
          → a + p.sizeof_ppi_descriptor < 2 ^ p.uintn_bits
          → install_loop p m fuel boot_fv_base last
              (suc rounds)
              info
              idx
              (fixup_of p m fuel boot_fv_base g.ptr seen)
              a
              c
            ≡ install_loop p m fuel boot_fv_base last rounds info
                (idx + 1)
                (fixup_of p m fuel boot_fv_base g.ptr (seen || is_pic_ppi p f))
                (a + p.sizeof_ppi_descriptor)
                accepted
      unfolding install_loop
      loop_again rounds more room countable same reach =
          let next : uintn p (idx + 1) ≡ idx + 1 = uintn_of_lt p (idx + 1) (omega arith) in
          let there : uintn p (a + p.sizeof_ppi_descriptor) ≡ a + p.sizeof_ppi_descriptor =
            uintn_of_lt p (a + p.sizeof_ppi_descriptor) reach in
          let free : leb accepted.max_count (uintn p (idx + 1)) ≡ false =
            lt→leb accepted.max_count (uintn p (idx + 1)) (omega arith) in
          rw (round_again more free, next, there) refl

    -- The rounds for a list, from a descriptor on.
    pub install_run :
        (e : Ending) (rounds idx a : ℕ) (seen : Bool) (c : PeiCore) (f : ℕ) (fs : List ℕ)
        → Run p e c.max_count (λ x. (c.desc x).flags) idx a f fs
        → c.current_count ≡ idx
        → idx < c.max_count
        → c.max_count < 2 ^ p.uintn_bits
        → length fs < rounds
        → 0 < p.sizeof_ppi_descriptor
        → address p a (length fs) < 2 ^ p.uintn_bits
        → (c' : PeiCore) × (install_loop p m fuel boot_fv_base last rounds info idx
              (fixup_of p m fuel boot_fv_base g.ptr seen)
              a
              c
            ≡ some (finish e last c'))
          × Installed p g.ptr c c' idx a seen (f ∷ fs)
    unfolding install_loop
    install_run e zero idx a seen c f fs run count room countable enough wide reach =
        absurd (omega arith)
    install_run at_last (suc rounds) idx a seen c f [] (at, ppi, ends) count room countable enough
          wide reach =
        (
          accepted idx a seen f c at ppi,
          rw (round_last idx a seen f c at ppi ends) refl,
          accept-Installed p m fuel boot_fv_base g.ptr idx a seen f c count room countable,
        )
    install_run no_room (suc rounds) idx a seen c f [] (at, ppi, (more, full)) count room countable
          enough wide reach =
        let first =
          accept-Installed p m fuel boot_fv_base g.ptr idx a seen f c count room countable in
        (
          accepted idx a seen f c at ppi,
          rw
              (round_full idx a seen f c at ppi more (
                le→leb (accepted idx a seen f c at ppi).max_count (uintn p (idx + 1))
                  (omega (arith, first.same_max, uintn_of_lt p (idx + 1) (omega arith)))))
              refl,
          first,
        )
    install_run e (suc rounds) idx a seen c f (f' ∷ fs) (at, ppi, more, below, run) count room
          countable enough wide reach =
        let c₁ = accepted idx a seen f c at ppi in
        let first =
          accept-Installed p m fuel boot_fv_base g.ptr idx a seen f c count room countable in
        let flags : ◌≡◌ {A = ℕ → ℕ} (λ x. (c.desc x).flags) (λ x. (c₁.desc x).flags) = fun_ext λ x.
          sym (
            accept_all_flags p m fuel boot_fv_base g.ptr idx
              (fixup_of p m fuel boot_fv_base g.ptr (seen || is_pic_ppi p f)) a c x) in
        let (c', returns, rest) =
          install_run e rounds (idx + 1) (a + p.sizeof_ppi_descriptor) (seen || is_pic_ppi p f) c₁
            f' fs
            (subst (λ h. Run p e c₁.max_count h (idx + 1) (a + p.sizeof_ppi_descriptor) f' fs) flags
              (rw first.same_max run))
            (omega (arith, first.count)) (omega (arith, first.same_max))
            (omega (arith, first.same_max)) (omega arith) wide reach in
        (
          c',
          loop_again idx a seen f c at ppi rounds more below countable first.same_max
                (omega (arith, address-le p (a + p.sizeof_ppi_descriptor) (length fs)))
              ∙ returns,
          Installed-cons p m fuel boot_fv_base g.ptr c c₁ c' idx a seen f (f' ∷ fs) wide first rest,
        )
