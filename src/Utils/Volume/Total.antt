-- ===== src/Utils/Volume/Total.antt =====
-- The answers of `GetFileSection` on any memory, and its fuel.
use edk2_arc.Base.{
  ℕ, zero, suc, ◌+◌, ◌-◌, ◌^◌, ◌≤◌, ◌<◌, ◌≡◌, refl, ◌∙◌, inl, inr, Option, none, some, List, [],
  ◌∷◌, true, false, if◌then◌else◌, u64, dec_lt, lt→ltb, Bool-cases, arith,
}
use edk2_arc.Edk2.{Status, Guid, Mem, Platform, uintn, uintn_of_lt}
use edk2_arc.Utils.Info.{StatusInfo, align_addr, align_addr_eight}
use edk2_arc.Utils.Section.{Found, found, null}
use edk2_arc.Utils.Section.Find.{InReach}
use edk2_arc.Utils.Section.Total.{find_section-Walk}
use edk2_arc.Utils.Volume.{file_loop, get_file_section, volume_end, first_file}
use edk2_arc.Utils.Volume.Layout.{Chain, first, next, File, is_wanted, IsFileAt, Files, first_hit}
use edk2_arc.Utils.Volume.Find.{search_in, file_step, file_loop_end}

-- The file whose header stands at `addr`.
abbrev pub file_at : Platform → Mem → ℕ → File
file_at p m addr = record {
  size = p.file_size m addr;
  kind = p.file_type m addr;
  name = p.file_name m addr;
}

pub file_at-IsFileAt :
    (p : Platform) (m : Mem) (eov addr : ℕ)
    → addr < eov
    → addr + p.file_size m addr ≤ eov
    → IsFileAt p m eov addr (file_at p m addr)
file_at-IsFileAt p m eov addr below fits = record {
  below = below;
  size_eq = refl;
  kind_eq = refl;
  name_eq = refl;
  fits = fits;
}

module _ (p : Platform) (m : Mem) (section_fuel section_type file_type : ℕ)
    (file_name : Option Guid) (info : Option StatusInfo) (eov : ℕ) where
  abbrev pub loop : ℕ → ℕ → Option Found
  loop = file_loop p m section_fuel section_type file_type file_name info eov

  -- What stands at `stop` where the walk ends, and the answer for it.
  pub data Verdict (stop : ℕ) : Found → Type 0 where
    missing : eov ≤ stop → Verdict stop (found null info Status.not_found 241)
    overrun :
        stop < eov
        → eov < stop + p.file_size m stop
        → Verdict stop (found null info Status.volume_corrupted 224)
    inside :
        {out : Found}
        → IsFileAt p m eov stop (file_at p m stop)
        → is_wanted file_type file_name (file_at p m stop) ≡ true
        → search_in p m section_fuel section_type file_type file_name info eov
            (record { addr = stop; file = file_at p m stop })
          ≡ some out
        → Verdict stop out

  -- The walk from `addr` passed files that are not wanted, and ended at `stop`.
  pub record Walk (addr : ℕ) (result : Option Found) : Type 0 where
    pub passed : List File
    pub stop : ℕ
    pub outcome : Found
    pub files : Files p m eov addr passed stop
    pub others : first_hit (is_wanted file_type file_name) addr passed ≡ none
    pub returns : result ≡ some outcome
    pub verdict : Verdict stop outcome

  here-Walk :
      {addr : ℕ} {result : Option Found} {out : Found}
      → result ≡ some out
      → Verdict addr out
      → Walk addr result
  here-Walk {addr} {out} e v = record {
    passed = [];
    stop = addr;
    outcome = out;
    files = refl;
    others = refl;
    returns = e;
    verdict = v;
  }

  past-Walk :
      {addr : ℕ} {result : Option Found} (f : File)
      → IsFileAt p m eov addr f
      → is_wanted file_type file_name f ≡ false
      → Walk (align_addr (addr + f.size) 8) result
      → Walk addr result
  past-Walk f at other w = record {
    passed = f ∷ w.passed;
    stop = w.stop;
    outcome = w.outcome;
    files = (at, w.files);
    others = rw (other, if◌then◌else◌) w.others;
    returns = w.returns;
    verdict = w.verdict;
  }

  module _ (r : InReach p eov) where
    pub step :
        (fuel addr : ℕ)
        → addr < eov
        → addr + p.file_size m addr ≤ eov
        → loop (suc fuel) addr ≡ (
            if is_wanted file_type file_name (file_at p m addr)
            then search_in p m section_fuel section_type file_type file_name info eov
                (record { addr = addr; file = file_at p m addr })
            else loop fuel (align_addr (addr + p.file_size m addr) 8))
    step fuel addr below fits =
        file_step p m section_fuel section_type file_type file_name info eov r fuel addr
          (file_at p m addr) (file_at-IsFileAt p m eov addr below fits)

    file_loop_overrun :
        (fuel addr : ℕ)
        → addr < eov
        → p.file_size m addr < 2 ^ 32
        → eov < addr + p.file_size m addr
        → loop (suc fuel) addr ≡ some (found null info Status.volume_corrupted 224)
    unfolding file_loop
    file_loop_overrun fuel addr h small l =
        let no_wrap : u64 (addr + p.file_size m addr) ≡ addr + p.file_size m addr = omega arith in
        rw (uintn_of_lt p addr (omega arith), lt→ltb addr eov h, no_wrap, lt→ltb _ _ l)

    -- The search inside a file of the volume ends.
    search_in-ends :
        (addr : ℕ)
        → 0 < p.sizeof_section
        → eov < section_fuel
        → addr + p.file_size m addr ≤ eov
        → (out : Found) × (search_in p m section_fuel section_type file_type file_name info eov
              (record { addr = addr; file = file_at p m addr })
            ≡ some out)
    search_in-ends addr header enough fits =
        let w =
          find_section-Walk p m section_type (addr + p.file_size m addr) info section_fuel
            (uintn p (addr + p.sizeof_file))
            (record { pointer = omega arith; no_wrap = omega arith }) header (omega arith) in
        (w.outcome, w.returns)

    file_loop-Walk :
        (start : ℕ)
        → 0 < p.sizeof_section
        → eov < section_fuel
        → ((a : ℕ)
            → Chain p m eov start a
            → a < eov
            → (0 < p.file_size m a) × (p.file_size m a < 2 ^ 32))
        → (fuel addr : ℕ) → Chain p m eov start addr
        → eov - addr < fuel
        → Walk addr (loop fuel addr)
    file_loop-Walk start header enough sizes zero addr from h = absurd (omega arith)
    file_loop-Walk start header enough sizes (suc fuel) addr from h = elim (dec_lt addr eov) [
      | no out ↦
          here-Walk
            (file_loop_end p m section_fuel section_type file_type file_name info eov r fuel addr
              (omega arith))
            (missing (omega arith))
      | yes below ↦ elim (dec_lt eov (addr + p.file_size m addr)) [
        | yes over ↦
            here-Walk (file_loop_overrun fuel addr below (sizes addr from below).1 over)
              (overrun below over)
        | no whole ↦ elim (Bool-cases (is_wanted file_type file_name (file_at p m addr))) [
          | inl wanted ↦
              let (out, returns) = search_in-ends addr header enough (omega arith) in
              here-Walk (step fuel addr below (omega arith) ∙ rw (wanted, if◌then◌else◌) returns)
                (inside (file_at-IsFileAt p m eov addr below (omega arith)) wanted returns)
          | inr other ↦
              rw (step fuel addr below (omega arith), other, if◌then◌else◌)
                (past-Walk (file_at p m addr) (file_at-IsFileAt p m eov addr below (omega arith))
                  other
                  (file_loop-Walk start header enough sizes fuel
                    (align_addr (addr + p.file_size m addr) 8) (next addr from below (omega arith))
                    (omega (
                      arith,
                      sizes addr from below,
                      align_addr_eight (addr + p.file_size m addr) (omega arith),
                    ))))
        ]
      ]
    ]

module _ (p : Platform) (m : Mem) (fv section_type file_type : ℕ) (file_name : Option Guid)
    (info : Option StatusInfo) (r : InReach p (volume_end p m fv)) where
  -- If no header of the chain of files in the volume has size 0, or a size of 2 ^ 32 or more,
  -- `GetFileSection` ends: it passes files that are not wanted, and then meets the end of the
  -- volume (NULL, EFI_NOT_FOUND) or a file that runs over it (NULL, EFI_VOLUME_CORRUPTED), or
  -- answers what `FindSection` answers for the file where it stands. The fuel is more than the end
  -- of the volume. The end of the volume is in reach of a pointer, and the header of a section has a
  -- size.
  pub get_file_section-Walk :
      (fuel : ℕ)
      → 0 < p.sizeof_section
      → volume_end p m fv < fuel
      → ((a : ℕ)
          → Chain p m (volume_end p m fv) (first_file p m fv) a
          → a < volume_end p m fv
          → (0 < p.file_size m a) × (p.file_size m a < 2 ^ 32))
      → Walk p m fuel section_type file_type file_name info
          (volume_end p m fv)
          (first_file p m fv)
          (get_file_section p m fuel fv section_type file_type file_name info)
  unfolding get_file_section
  get_file_section-Walk fuel header enough sizes =
      file_loop-Walk p m fuel section_type file_type file_name info (volume_end p m fv) r
        (first_file p m fv) header enough sizes fuel (first_file p m fv) first (omega arith)
