-- ===== src/Utils/Section/Total.antt =====
-- The answers of `FindSection` on any memory.
use edk2_arc.Base.{
  ℕ, zero, suc, ◌+◌, ◌-◌, ◌≤◌, ◌<◌, ◌≡◌, ◌≢◌, refl, Option, none, some, List, [], ◌∷◌, true, ◌==◌,
  u32, u64, dec_lt, ℕ_discrete, lt→ltb, le→ltb, ne→test, ==_refl, ◌∙◌, arith,
}
use edk2_arc.Edk2.{Status, Mem, Platform, uintn_of_lt}
use edk2_arc.Utils.Info.{StatusInfo, align_addr}
use edk2_arc.Utils.Section.{Found, found, null, section_loop, find_section}
use edk2_arc.Utils.Section.Layout.{Section, IsSectionAt, Sections, first_of_kind}
use edk2_arc.Utils.Section.Find.{InReach, section_step, section_loop_end}

module _ (p : Platform) (m : Mem) (kind limit : ℕ) (info : Option StatusInfo) where
  -- What stands at `stop` where the walk ends, and the answer for it.
  pub data Verdict (stop : ℕ) : Found → Type 0 where
    missing : limit ≤ stop → Verdict stop (found null info Status.not_found 190)
    short :
        stop < limit
        → u32 (p.section_size m stop) < p.sizeof_section
        → Verdict stop (found null info Status.volume_corrupted 173)
    overrun :
        stop < limit
        → p.sizeof_section ≤ u32 (p.section_size m stop)
        → limit < stop + u32 (p.section_size m stop)
        → Verdict stop (found null info Status.volume_corrupted 178)
    match :
        (s : Section)
        → IsSectionAt p m limit stop s
        → s.kind ≡ kind
        → Verdict stop (found stop info Status.success 183)

  -- The walk from `addr` passed whole sections of other types, and ended at `stop`.
  pub record Walk (addr : ℕ) (result : Option Found) : Type 0 where
    pub passed : List Section
    pub stop : ℕ
    pub outcome : Found
    pub sections : Sections p m limit addr passed stop
    pub others : first_of_kind kind addr passed ≡ none
    pub returns : result ≡ some outcome
    pub verdict : Verdict stop outcome

  here-Walk :
      {addr : ℕ} {result : Option Found} {out : Found}
      → result ≡ some out
      → Verdict addr out
      → Walk addr result
  here-Walk {addr} {out} e v = record {
    passed = [];
    stop = addr;
    outcome = out;
    sections = refl;
    others = refl;
    returns = e;
    verdict = v;
  }

  past-Walk :
      {addr : ℕ} {result : Option Found} (s : Section)
      → IsSectionAt p m limit addr s
      → s.kind ≢ kind
      → Walk (addr + s.size) result
      → Walk addr result
  past-Walk s at other w = record {
    passed = s ∷ w.passed;
    stop = w.stop;
    outcome = w.outcome;
    sections = (at, w.sections);
    others = ground (arith, w.others);
    returns = w.returns;
    verdict = w.verdict;
  }

  module _ (r : InReach p limit) (header : 0 < p.sizeof_section) where
    section_loop_short :
        (fuel addr : ℕ)
        → addr < limit
        → u32 (p.section_size m addr) < p.sizeof_section
        → section_loop p m kind limit info (suc fuel) addr
          ≡ some (found null info Status.volume_corrupted 173)
    unfolding section_loop
    section_loop_short fuel addr h k =
        rw (uintn_of_lt p addr (omega arith), lt→ltb addr limit h, lt→ltb _ _ k)

    section_loop_overrun :
        (fuel addr : ℕ)
        → addr < limit
        → p.sizeof_section ≤ u32 (p.section_size m addr)
        → limit < addr + u32 (p.section_size m addr)
        → section_loop p m kind limit info (suc fuel) addr
          ≡ some (found null info Status.volume_corrupted 178)
    unfolding section_loop
    section_loop_overrun fuel addr h k l =
        let no_wrap : u64 (addr + u32 (p.section_size m addr))
            ≡ addr + u32 (p.section_size m addr) =
          omega arith in
        rw (
          uintn_of_lt p addr (omega arith),
          lt→ltb addr limit h,
          le→ltb _ _ k,
          no_wrap,
          lt→ltb _ _ l,
        )

    abbrev section_here : ℕ → Section
    section_here addr = record { size = u32 (p.section_size m addr); kind = p.section_type m addr }

    -- A whole section ends the walk, or is passed.
    at_whole :
        (fuel addr : ℕ)
        → IsSectionAt p m limit addr (section_here addr)
        → Walk
            (addr + u32 (p.section_size m addr))
            (section_loop p m kind limit info fuel (addr + u32 (p.section_size m addr)))
        → Walk addr (section_loop p m kind limit info (suc fuel) addr)
    at_whole fuel addr at rest = elim (ℕ_discrete (p.section_type m addr) kind) [
      | yes same ↦
          here-Walk
            (section_step p m kind limit info r fuel addr (section_here addr) at ∙ rw (→test same))
            (match (section_here addr) at same)
      | no other ↦
          rw
            (section_step p m kind limit info r fuel addr (section_here addr) at, ne→test _ _ other)
            (past-Walk (section_here addr) at other rest)
    ]
      where
        →test : p.section_type m addr ≡ kind → (p.section_type m addr == kind) ≡ true
        →test e = rw e (==_refl kind)

    -- With more fuel than bytes are left the walk ends.
    section_loop-Walk :
        (fuel addr : ℕ)
        → limit - addr < fuel
        → Walk addr (section_loop p m kind limit info fuel addr)
    section_loop-Walk zero addr h = absurd (omega arith)
    section_loop-Walk (suc fuel) addr h = elim (dec_lt addr limit) [
      | no out ↦
          here-Walk (section_loop_end p m kind limit info r fuel addr (omega arith))
            (missing (omega arith))
      | yes below ↦ elim (dec_lt (u32 (p.section_size m addr)) p.sizeof_section) [
        | yes small ↦ here-Walk (section_loop_short fuel addr below small) (short below small)
        | no whole ↦ elim (dec_lt limit (addr + u32 (p.section_size m addr))) [
          | yes over ↦
              here-Walk (section_loop_overrun fuel addr below (omega arith) over)
                (overrun below (omega arith) over)
          | no fits ↦
              at_whole fuel addr (at below (omega arith) (omega arith))
                (section_loop-Walk fuel (addr + u32 (p.section_size m addr)) (omega arith))
        ]
      ]
    ]
      where
        at :
            addr < limit
            → p.sizeof_section ≤ u32 (p.section_size m addr)
            → addr + u32 (p.section_size m addr) ≤ limit
            → IsSectionAt p m limit addr (section_here addr)
        at below whole fits = record {
          below = below;
          size_eq = refl;
          kind_eq = refl;
          whole = whole;
          fits = fits;
        }

  -- `FindSection` ends whatever the memory holds: it passes whole sections of other types, and
  -- then either finds the type (EFI_SUCCESS and the address), meets the end (EFI_NOT_FOUND), or
  -- meets a header that is too short or runs over the end (EFI_VOLUME_CORRUPTED). The fuel is more
  -- than the bytes of the file. The end of the file is in reach of a pointer.
  pub find_section-Walk :
      (fuel start : ℕ)
      → InReach p limit
      → 0 < p.sizeof_section
      → limit - align_addr start 4 < fuel
      → Walk (align_addr start 4) (find_section p m kind limit info fuel start)
  unfolding find_section
  find_section-Walk fuel start r header h = section_loop-Walk r header fuel (align_addr start 4) h
