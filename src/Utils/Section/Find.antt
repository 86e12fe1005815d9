-- ===== src/Utils/Section/Find.antt =====
-- `FindSection` on a run of sections.
use edk2_arc.Base.{
  ℕ, zero, suc, ◌+◌, ◌-◌, ◌^◌, ◌≤◌, ◌<◌, ◌≡◌, ◌∙◌, inl, inr, Option, none, some, List, [], ◌∷◌,
  length, ◌==◌, if◌then◌else◌, u64, lt→ltb, le→ltb, Option-cases, arith,
}
use edk2_arc.Edk2.{Status, Mem, Platform, uintn_of_lt}
use edk2_arc.Utils.Info.{StatusInfo, align_addr}
use edk2_arc.Utils.Section.{Found, found, null, section_loop, find_section}
use edk2_arc.Utils.Section.Layout.{Section, IsSectionAt, Sections, first_of_kind}

-- The addresses of the walk are in reach of a pointer and far from the end of 64 bits.
pub record InReach (p : Platform) (limit : ℕ) : Type 0 where
  pub pointer : limit < 2 ^ p.uintn_bits
  pub no_wrap : limit + 2 ^ 32 ≤ 2 ^ 64

-- What the search answers for a run of sections, by the address of the first one of the type.
abbrev pub section_answer : Option StatusInfo → Option ℕ → Found
section_answer info none = found null info Status.not_found 190
section_answer info (some q) = found q info Status.success 183

module _ (p : Platform) (m : Mem) (kind limit : ℕ) (info : Option StatusInfo)
    (r : InReach p limit) where
  -- One round at a section that is whole.
  pub section_step :
      (fuel addr : ℕ) (s : Section)
      → IsSectionAt p m limit addr s
      → section_loop p m kind limit info (suc fuel) addr ≡ (
          if s.kind == kind
          then some (found addr info Status.success 183)
          else section_loop p m kind limit info fuel (addr + s.size))
  unfolding section_loop
  section_step fuel addr s h = rw (
    uintn_of_lt p addr (omega arith),
    lt→ltb addr limit h.below,
    h.size_eq,
    h.kind_eq,
    le→ltb s.size p.sizeof_section h.whole,
    no_wrap,
    le→ltb limit (addr + s.size) h.fits,
  )
    where
      no_wrap : u64 (addr + s.size) ≡ addr + s.size
      no_wrap = omega (arith, h.size_eq)

  -- The walk stops at the first section of the type.
  section_loop_hit :
      (fuel addr stop q : ℕ) (ss : List Section)
      → length ss ≤ fuel
      → Sections p m limit addr ss stop
      → first_of_kind kind addr ss ≡ some q
      → section_loop p m kind limit info fuel addr ≡ some (found q info Status.success 183)
  section_loop_hit fuel addr stop q [] h c e = cc
  section_loop_hit zero addr stop q (s ∷ ss) h c e = absurd (omega arith)
  section_loop_hit (suc fuel) addr stop q (s ∷ ss) h c e = ground (
    arith,
    section_step fuel addr s c.0,
    section_loop_hit fuel (addr + s.size) stop q ss (omega arith) c.1,
  )

  -- It passes a run of sections of other types.
  section_loop_miss :
      (fuel rest addr stop : ℕ) (ss : List Section)
      → fuel ≡ length ss + rest
      → Sections p m limit addr ss stop
      → first_of_kind kind addr ss ≡ none
      → section_loop p m kind limit info fuel addr ≡ section_loop p m kind limit info rest stop
  section_loop_miss fuel rest addr stop [] h c e = ground arith
  section_loop_miss zero rest addr stop (s ∷ ss) h c e = absurd (omega arith)
  section_loop_miss (suc fuel) rest addr stop (s ∷ ss) h c e = ground (
    arith,
    section_step fuel addr s c.0,
    section_loop_miss fuel rest (addr + s.size) stop ss (omega arith) c.1,
  )

  pub section_loop_end :
      (fuel addr : ℕ)
      → limit ≤ addr
      → section_loop p m kind limit info (suc fuel) addr
        ≡ some (found null info Status.not_found 190)
  unfolding section_loop
  section_loop_end fuel addr h = rw (le→ltb addr limit h)

  -- On sections that stand one behind the other up to the end of the file, `FindSection` returns
  -- the address of the first one of the type with EFI_SUCCESS, and NULL with EFI_NOT_FOUND if
  -- there is none; the fuel is more than the number of sections. The end of the file is in reach
  -- of a pointer.
  pub find_section_of_run :
      (fuel start stop : ℕ) (ss : List Section)
      → length ss < fuel
      → Sections p m limit (align_addr start 4) ss stop
      → limit ≤ stop
      → find_section p m kind limit info fuel start
        ≡ some (section_answer info (first_of_kind kind (align_addr start 4) ss))
  unfolding find_section
  find_section_of_run fuel start stop ss h c e =
      elim (Option-cases (first_of_kind kind (align_addr start 4) ss)) [
        | inl absent ↦ rw absent (
            section_loop_miss fuel (suc (fuel - length ss - 1)) (align_addr start 4) stop ss
              (omega arith) c absent
            ∙ section_loop_end (fuel - length ss - 1) stop e)
        | inr (q, present) ↦
            rw present
              (section_loop_hit fuel (align_addr start 4) stop q ss (omega arith) c present)
      ]
