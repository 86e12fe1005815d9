-- ===== src/Utils/Volume/Behind.antt =====
-- What `GetTeEntryPoint` and `GetAprioriFile` have in common: they move on from the section that
-- `GetFileSection` finds in a volume.
use edk2_arc.Base.{
  ℕ, ◌+◌, ◌≤◌, ◌<◌, ◌≡◌, refl, inl, inr, Bool-cases, Option, none, some, List, [], ◌∷◌, length,
  ◌==◌, ◌>>=◌, if◌then◌else◌, ne→test, arith,
}
use edk2_arc.Edk2.{Status, Guid, Mem, Platform}
use edk2_arc.Utils.Info.{StatusInfo, align_addr, align_addr_four}
use edk2_arc.Utils.Section.{Found, found, null}
use edk2_arc.Utils.Section.Layout.{Section, Sections, first_of_kind}
use edk2_arc.Utils.Section.Find.{InReach, section_answer}
use edk2_arc.Utils.Volume.{volume_end, first_file, get_file_section}
use edk2_arc.Utils.Volume.Layout.{File, is_wanted, Files, Hit, first_hit}
use edk2_arc.Utils.Volume.Find.{
  IsBody, first_hit-IsFileAt, volume_answer, get_file_section_of_volume,
}

-- What lies behind a section at `aim`, with the status of the search.
abbrev pub aimed_section : (ℕ → ℕ) → Option StatusInfo → Option ℕ → Found
aimed_section aim info none = found null info Status.not_found 190
aimed_section aim info (some q) = found (aim q) info Status.success 183

-- The answer for the first wanted file of the volume, whose sections are `ss`.
abbrev pub aimed_answer :
    Platform → (ℕ → ℕ) → ℕ → Option StatusInfo → List Section → Option Hit → Found
aimed_answer p aim section_type info ss none = found null info Status.not_found 241
aimed_answer p aim section_type info ss (some hit) =
    aimed_section aim info (first_of_kind section_type (align_addr (hit.addr + p.sizeof_file) 4) ss)

-- The step of the code behind the search.
abbrev pub moved : (ℕ → ℕ) → Found → Option Found
moved move f = if f.ptr == null then some f else some (record f { ptr = move f.ptr })

module _ (p : Platform) (m : Mem) where
  -- A section that is found lies between the start of the run and its limit.
  first_of_kind-bounds :
      (kind limit addr stop q : ℕ) (ss : List Section)
      → Sections p m limit addr ss stop
      → first_of_kind kind addr ss ≡ some q
      → (addr ≤ q) × (q + p.sizeof_section ≤ limit)
  first_of_kind-bounds kind limit addr stop q [] c e = cc
  first_of_kind-bounds kind limit addr stop q (s ∷ ss) c e = elim (Bool-cases (s.kind == kind)) [
    | inl here ↦
        let e' : some addr ≡ some q = rw here at e in
        let same : addr ≡ q = cc in (omega arith, omega (arith, (c.0).whole, (c.0).fits))
    | inr other ↦
        let e' : first_of_kind kind (addr + s.size) ss ≡ some q = rw other at e in
        let b = first_of_kind-bounds kind limit (addr + s.size) stop q ss c.1 e' in
        (omega (arith, b.0), b.1)
  ]

  module _ (move aim : ℕ → ℕ) (section_type : ℕ) where
    -- The code moves from the first section of the type in the file to where it aims.
    abbrev pub Reaches : Hit → List Section → Type 0
    Reaches hit ss =
        (q : ℕ)
        → first_of_kind section_type (align_addr (hit.addr + p.sizeof_file) 4) ss ≡ some q
        → q + p.sizeof_section ≤ hit.addr + hit.file.size
        → move q ≡ aim q

    moved-section_answer :
        (info : Option StatusInfo) (limit start stop : ℕ) (ss : List Section) (o : Option ℕ)
        → 0 < start
        → Sections p m limit start ss stop
        → ((q : ℕ)
            → first_of_kind section_type start ss ≡ some q
            → q + p.sizeof_section ≤ limit
            → move q ≡ aim q)
        → first_of_kind section_type start ss ≡ o
        → moved move (section_answer info o) ≡ some (aimed_section aim info o)
    moved-section_answer info limit start stop ss none pos c reaches e = refl
    moved-section_answer info limit start stop ss (some q) pos c reaches e =
        let b = first_of_kind-bounds section_type limit start stop q ss c e in
        rw (ne→test q 0 (omega (arith, b.0)), if◌then◌else◌, reaches q e b.1) refl

    pub get_file_section-moved :
        (fuel fv file_type stop : ℕ) (file_name : Option Guid) (info : Option StatusInfo)
        (fs : List File) (ss : List Section)
        → InReach p (volume_end p m fv)
        → 0 < p.sizeof_file
        → length fs < fuel
        → length ss < fuel
        → Files p m (volume_end p m fv) (first_file p m fv) fs stop
        → volume_end p m fv ≤ stop
        → ((hit : Hit)
            → first_hit (is_wanted file_type file_name) (first_file p m fv) fs ≡ some hit
            → hit.addr + hit.file.size ≤ volume_end p m fv
            → IsBody p m hit ss × Reaches hit ss)
        → (get_file_section p m fuel fv section_type file_type file_name info >>= moved move)
          ≡ some (
              aimed_answer p aim section_type info ss
                (first_hit (is_wanted file_type file_name) (first_file p m fv) fs))
    get_file_section-moved fuel fv file_type stop file_name info fs ss r header hf hs c e wanted =
        rw
          (get_file_section_of_volume p m fuel fv section_type file_type file_name info r stop fs ss
            hf hs c e (λ hit present. (wanted hit present (inside hit present)).0))
          (behind (first_hit (is_wanted file_type file_name) (first_file p m fv) fs) refl)
      where
        inside :
            (hit : Hit)
            → first_hit (is_wanted file_type file_name) (first_file p m fv) fs ≡ some hit
            → hit.addr + hit.file.size ≤ volume_end p m fv
        inside hit present =
            (first_hit-IsFileAt p m (volume_end p m fv) (is_wanted file_type file_name)
              (first_file p m fv) stop hit fs c present).fits

        behind :
            (o : Option Hit)
            → first_hit (is_wanted file_type file_name) (first_file p m fv) fs ≡ o
            → moved move (volume_answer p info section_type ss o)
              ≡ some (aimed_answer p aim section_type info ss o)
        behind none absent = refl
        behind (some hit) present =
            let (b, reaches) = wanted hit present (inside hit present) in
            let whole = inside hit present in
            moved-section_answer info (hit.addr + hit.file.size)
              (align_addr (hit.addr + p.sizeof_file) 4) b.stop ss
              (first_of_kind section_type (align_addr (hit.addr + p.sizeof_file) 4) ss)
              (omega (arith, align_addr_four (hit.addr + p.sizeof_file) (omega arith))) b.sections
              reaches refl
