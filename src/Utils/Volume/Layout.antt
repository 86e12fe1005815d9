-- ===== src/Utils/Volume/Layout.antt =====
-- What the files of a volume are, and the first one that a search wants.
use edk2_arc.Base.{
  ℕ, ◌+◌, ◌≤◌, ◌<◌, ◌≡◌, List, [], ◌∷◌, Bool, ◌&&◌, Option, none, some, ◌==◌, if◌then◌else◌,
}
use edk2_arc.Edk2.{Guid, Mem, Platform}
use edk2_arc.Utils.Info.{align_addr}
use edk2_arc.Utils.Guids.{compare_guids}

pub record File : Type 0 where
  pub size : ℕ
  pub kind : ℕ
  pub name : Guid

-- The file has the wanted name, if there is one, and the wanted type.
abbrev pub is_wanted : ℕ → Option Guid → File → Bool
is_wanted file_type none f = f.kind == file_type
is_wanted file_type (some wanted) f = compare_guids wanted f.name && f.kind == file_type

module _ (p : Platform) (m : Mem) where
  -- A file with that header stands at `addr`, and ends in the volume, which ends at `eov`.
  pub record IsFileAt (eov addr : ℕ) (f : File) : Type 0 where
    pub below : addr < eov
    pub size_eq : p.file_size m addr ≡ f.size
    pub kind_eq : p.file_type m addr ≡ f.kind
    pub name_eq : p.file_name m addr ≡ f.name
    pub fits : addr + f.size ≤ eov

  -- The files `fs` stand one behind the other from `addr` up to `stop`, each at a multiple of 8.
  abbrev pub Files : ℕ → ℕ → List File → ℕ → Type 0
  Files eov addr [] stop = addr ≡ stop
  Files eov addr (f ∷ fs) stop =
      IsFileAt eov addr f × Files eov (align_addr (addr + f.size) 8) fs stop

  -- The addresses from `start` on at which a walk over the files up to `eov` looks for a header,
  -- if all of them pass.
  pub data Chain (eov start : ℕ) : ℕ → Type 0 where
    first : Chain eov start start
    next :
        (a : ℕ)
        → Chain eov start a
        → a < eov
        → a + p.file_size m a ≤ eov
        → Chain eov start (align_addr (a + p.file_size m a) 8)

-- A file and its address.
pub record Hit : Type 0 where
  pub addr : ℕ
  pub file : File

-- The first file, in a run that starts at `addr`, that passes the test.
abbrev pub first_hit : (File → Bool) → ℕ → List File → Option Hit
first_hit test addr [] = none
first_hit test addr (f ∷ fs) =
    if test f
    then some (record { addr = addr; file = f })
    else first_hit test (align_addr (addr + f.size) 8) fs
