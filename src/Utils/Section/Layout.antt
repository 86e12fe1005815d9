-- ===== src/Utils/Section/Layout.antt =====
-- What a run of sections is, and the first section of a type in it: an independent description for
-- the walk of `FindSection`.
use edk2_arc.Base.{
  ℕ, ◌+◌, ◌≤◌, ◌<◌, ◌≡◌, List, [], ◌∷◌, Option, none, some, ◌==◌, u32, if◌then◌else◌,
}
use edk2_arc.Edk2.{Mem, Platform}

pub record Section : Type 0 where
  pub size : ℕ
  pub kind : ℕ

module _ (p : Platform) (m : Mem) where
  -- A section with that header stands at `addr`, and ends in reach of `limit`.
  pub record IsSectionAt (limit addr : ℕ) (s : Section) : Type 0 where
    pub below : addr < limit
    pub size_eq : u32 (p.section_size m addr) ≡ s.size
    pub kind_eq : p.section_type m addr ≡ s.kind
    pub whole : p.sizeof_section ≤ s.size
    pub fits : addr + s.size ≤ limit

  -- The sections `ss` stand one behind the other from `addr` up to `stop`.
  abbrev pub Sections : ℕ → ℕ → List Section → ℕ → Type 0
  Sections limit addr [] stop = addr ≡ stop
  Sections limit addr (s ∷ ss) stop =
      IsSectionAt limit addr s × Sections limit (addr + s.size) ss stop

-- The address of the first section of a type, in a run that starts at `addr`.
abbrev pub first_of_kind : ℕ → ℕ → List Section → Option ℕ
first_of_kind kind addr [] = none
first_of_kind kind addr (s ∷ ss) =
    if s.kind == kind then some addr else first_of_kind kind (addr + s.size) ss
