-- ===== src/Utils/Volume/Find.antt =====
-- `GetFileSection` on the files of a volume.
use edk2_arc.Base.{
  ℕ, zero, suc, ◌+◌, ◌-◌, ◌≤◌, ◌<◌, ◌≡◌, refl, ◌∙◌, inl, inr, Bool-cases, subst, Option, none, some,
  List, [], ◌∷◌, Bool, ◌&&◌, ◌==◌, length, if◌then◌else◌, u64, lt→ltb, le→ltb, Option-cases, arith,
}
use edk2_arc.Edk2.{Status, Guid, Mem, Platform, uintn, uintn_of_lt}
use edk2_arc.Utils.Info.{StatusInfo, align_addr}
use edk2_arc.Utils.Section.{Found, found, null, find_section}
use edk2_arc.Utils.Section.Layout.{Section, Sections, first_of_kind}
use edk2_arc.Utils.Section.Find.{InReach, section_answer, find_section_of_run}
use edk2_arc.Utils.Volume.{file_name_ok, file_loop, get_file_section, volume_end, first_file}
use edk2_arc.Utils.Volume.Layout.{File, is_wanted, IsFileAt, Files, Hit, first_hit}

module _ (p : Platform) (m : Mem) (section_fuel section_type file_type : ℕ)
    (file_name : Option Guid) (info : Option StatusInfo) (eov : ℕ) where
  abbrev pub walk : ℕ → ℕ → Option Found
  walk = file_loop p m section_fuel section_type file_type file_name info eov

  -- The search in a file: from behind its header to its end.
  abbrev pub search_in : Hit → Option Found
  search_in hit =
      find_section p m section_type (hit.addr + hit.file.size) info section_fuel
        (uintn p (hit.addr + p.sizeof_file))

  module _ (r : InReach p eov) where
    test-is_wanted :
        (o : Option Guid) (f : File)
        → (file_name_ok o f.name && f.kind == file_type) ≡ is_wanted file_type o f
    unfolding file_name_ok
    test-is_wanted none f = refl
    test-is_wanted (some wanted) f = refl

    pub file_step :
        (fuel addr : ℕ) (f : File)
        → IsFileAt p m eov addr f
        → walk (suc fuel) addr ≡ (
            if is_wanted file_type file_name f
            then search_in (record { addr = addr; file = f })
            else walk fuel (align_addr (addr + f.size) 8))
    unfolding file_loop
    file_step fuel addr f h = rw (
      uintn_of_lt p addr (omega arith),
      lt→ltb addr eov h.below,
      h.size_eq,
      h.kind_eq,
      h.name_eq,
      no_wrap,
      le→ltb eov (addr + f.size) h.fits,
      test-is_wanted file_name f,
    )
      where
        no_wrap : u64 (addr + f.size) ≡ addr + f.size
        no_wrap = omega arith

    pub file_loop_end :
        (fuel addr : ℕ)
        → eov ≤ addr
        → walk (suc fuel) addr ≡ some (found null info Status.not_found 241)
    unfolding file_loop
    file_loop_end fuel addr h = rw (le→ltb addr eov h)

    file_loop_hit :
        (fuel addr stop : ℕ) (hit : Hit) (fs : List File)
        → length fs ≤ fuel
        → Files p m eov addr fs stop
        → first_hit (is_wanted file_type file_name) addr fs ≡ some hit
        → walk fuel addr ≡ search_in hit
    file_loop_hit fuel addr stop hit [] h c e = cc
    file_loop_hit zero addr stop hit (f ∷ fs) h c e = absurd (omega arith)
    file_loop_hit (suc fuel) addr stop hit (f ∷ fs) h c e = ground (
      arith,
      file_step fuel addr f c.0,
      file_loop_hit fuel (align_addr (addr + f.size) 8) stop hit fs (omega arith) c.1,
    )

    pub file_loop_miss :
        (fuel rest addr stop : ℕ) (fs : List File)
        → fuel ≡ length fs + rest
        → Files p m eov addr fs stop
        → first_hit (is_wanted file_type file_name) addr fs ≡ none
        → walk fuel addr ≡ walk rest stop
    file_loop_miss fuel rest addr stop [] h c e = ground arith
    file_loop_miss zero rest addr stop (f ∷ fs) h c e = absurd (omega arith)
    file_loop_miss (suc fuel) rest addr stop (f ∷ fs) h c e = ground (
      arith,
      file_step fuel addr f c.0,
      file_loop_miss fuel rest (align_addr (addr + f.size) 8) stop fs (omega arith) c.1,
    )

    -- What the walk answers for a run of files that ends with the volume.
    abbrev pub file_answer : Option Hit → Option Found
    file_answer none = some (found null info Status.not_found 241)
    file_answer (some hit) = search_in hit

    pub file_loop_of_run :
        (fuel addr stop : ℕ) (fs : List File)
        → length fs < fuel
        → Files p m eov addr fs stop
        → eov ≤ stop
        → walk fuel addr ≡ file_answer (first_hit (is_wanted file_type file_name) addr fs)
    file_loop_of_run fuel addr stop fs h c e =
        elim (Option-cases (first_hit (is_wanted file_type file_name) addr fs)) [
          | inl absent ↦ rw absent (
              file_loop_miss fuel (suc (fuel - length fs - 1)) addr stop fs (omega arith) c absent
              ∙ file_loop_end (fuel - length fs - 1) stop e)
          | inr (hit, present) ↦
              rw present (file_loop_hit fuel addr stop hit fs (omega arith) c present)
        ]

-- The outcome of a search in a volume, by its two levels of lists: NULL and EFI_NOT_FOUND without a
-- wanted file; else the outcome for the sections `ss` of that file.
abbrev pub volume_answer : Platform → Option StatusInfo → ℕ → List Section → Option Hit → Found
volume_answer p info section_type ss none = found null info Status.not_found 241
volume_answer p info section_type ss (some hit) =
    section_answer info (first_of_kind section_type (align_addr (hit.addr + p.sizeof_file) 4) ss)

module _ (p : Platform) (m : Mem) where
  -- The file of a hit holds the sections `ss`, from behind its header to its end.
  pub record IsBody (hit : Hit) (ss : List Section) : Type 0 where
    pub stop : ℕ
    pub header : p.sizeof_file < hit.file.size
    pub sections :
        Sections p m (hit.addr + hit.file.size) (align_addr (hit.addr + p.sizeof_file) 4) ss stop
    pub complete : hit.addr + hit.file.size ≤ stop

  -- A hit is a file of the run.
  pub first_hit-IsFileAt :
      (eov : ℕ) (test : File → Bool) (addr stop : ℕ) (hit : Hit) (fs : List File)
      → Files p m eov addr fs stop
      → first_hit test addr fs ≡ some hit
      → IsFileAt p m eov hit.addr hit.file
  first_hit-IsFileAt eov test addr stop hit [] c e = cc
  first_hit-IsFileAt eov test addr stop hit (f ∷ fs) c e = elim (Bool-cases (test f)) [
    | inl wanted ↦
        let e' : some (record { addr = addr; file = f }) ≡ some hit = rw wanted at e in
        let same : record { addr = addr; file = f } ≡ hit = cc in
        subst (λ (h : Hit). IsFileAt p m eov h.addr h.file) same c.0
    | inr other ↦
        let e' : first_hit test (align_addr (addr + f.size) 8) fs ≡ some hit = rw other at e in
        first_hit-IsFileAt eov test (align_addr (addr + f.size) 8) stop hit fs c.1 e'
  ]

  module _ (fuel fv section_type file_type : ℕ) (file_name : Option Guid) (info : Option StatusInfo)
      (r : InReach p (volume_end p m fv)) where
    -- `GetFileSection` on a volume whose files `fs` stand one behind the other up to its end,
    -- where the wanted file, if there is one, holds the sections `ss`: the result is the address
    -- of the first section of the type in the first file of the name and type, with EFI_SUCCESS;
    -- without such a file or section it is NULL with EFI_NOT_FOUND. The fuel is more than the
    -- number of files, and than that of the sections. The end of the volume is in reach of a
    -- pointer.
    pub get_file_section_of_volume :
        (stop : ℕ) (fs : List File) (ss : List Section)
        → length fs < fuel
        → length ss < fuel
        → Files p m (volume_end p m fv) (first_file p m fv) fs stop
        → volume_end p m fv ≤ stop
        → ((hit : Hit)
            → first_hit (is_wanted file_type file_name) (first_file p m fv) fs ≡ some hit
            → IsBody hit ss)
        → get_file_section p m fuel fv section_type file_type file_name info
          ≡ some (
              volume_answer p info section_type ss
                (first_hit (is_wanted file_type file_name) (first_file p m fv) fs))
    unfolding get_file_section
    get_file_section_of_volume stop fs ss hf hs c e body =
        file_loop_of_run p m fuel section_type file_type file_name info (volume_end p m fv) r fuel
          (first_file p m fv) stop fs hf c e
        ∙ inner (first_hit (is_wanted file_type file_name) (first_file p m fv) fs) refl
      where
        inner :
            (o : Option Hit)
            → first_hit (is_wanted file_type file_name) (first_file p m fv) fs ≡ o
            → file_answer p m fuel section_type file_type file_name info (volume_end p m fv) r o
              ≡ some (volume_answer p info section_type ss o)
        inner none absent = refl
        inner (some hit) present =
            let b = body hit present in
            let room =
              first_hit-IsFileAt (volume_end p m fv) (is_wanted file_type file_name)
                (first_file p m fv) stop hit fs c present in
            rw (uintn_of_lt p (hit.addr + p.sizeof_file) (omega arith)) (
              find_section_of_run p m section_type (hit.addr + hit.file.size) info
                (record { pointer = omega arith; no_wrap = omega arith }) fuel
                (hit.addr + p.sizeof_file) b.stop ss hs b.sections b.complete)
