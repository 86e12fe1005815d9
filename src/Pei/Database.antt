-- ===== src/Pei/Database.antt =====
-- What the PPI services of PeiServices.c are for: a database of published PPIs, in the order of their
-- publication, which are looked up by GUID.
pub mod Grew
pub mod View
pub mod Session
pub mod Refine
pub mod Directory
use edk2_arc.Base.{
  bit_and, ℕ, ◌+◌, ◌<◌, ◌≡◌, ◌≢◌, if◌then◌else◌, Option, none, some, List, [], ◌∷◌, ◌++◌, length,
  get_elem?,
}
use edk2_arc.Edk2.{Status, Guid, Platform}
use edk2_arc.Utils.Guids.{compare_guids}
use edk2_arc.Pei.Locate.{Located, store_out}

-- A published PPI: its descriptor, the flags of that, its GUID, and the PPI itself.
pub record Entry : Type 0 where
  pub descriptor : ℕ
  pub flags : ℕ
  pub guid : Guid
  pub ppi : ℕ

-- The PPIs with the GUID, in order.
abbrev pub matching : Guid → List Entry → List Entry
matching guid [] = []
matching guid (e ∷ es) =
    let rest = matching guid es in if compare_guids guid e.guid then e ∷ rest else rest

-- The answer to a look-up, where `out_desc` and `old` are what the two output pointers point at before.
abbrev pub reply_for : Option ℕ → ℕ → Option Entry → Located
reply_for out_desc old none = record {
  status = Status.not_found;
  ppi_descriptor = out_desc;
  ppi = some old;
}
reply_for out_desc old (some e) = record {
  status = Status.success;
  ppi_descriptor = store_out out_desc e.descriptor;
  ppi = some e.ppi;
}

-- What the callers see: lists at an address that are published or refused, and look-ups with the outputs
-- before and the answer.
pub data Event : Type 0 where
  published : ℕ → List Entry → Event
  refused : ℕ → Status → Event
  answered : Guid → ℕ → Option ℕ → ℕ → Located → Event

-- The bits of the flags that say that a descriptor is that of a PPI, and that it ends the list.
abbrev pub IsPpi : Platform → ℕ → Type 0
IsPpi p flags = bit_and flags p.flag_ppi ≢ 0

abbrev pub EndsList : Platform → ℕ → Type 0
EndsList p flags = bit_and flags p.flag_terminate_list ≡ p.flag_terminate_list

module _ (p : Platform) where
  -- A whole list: all entries are PPIs, the last one ends the list, and no other does.
  abbrev pub IsWhole : List Entry → Type 0
  IsWhole [] = ⊥
  IsWhole (e ∷ []) = IsPpi p e.flags × EndsList p e.flags
  IsWhole (e ∷ e' ∷ es) = IsPpi p e.flags × (¬ EndsList p e.flags) × IsWhole (e' ∷ es)

  -- The descriptors of the entries stand one behind the other from `a` on.
  abbrev pub Stands : ℕ → List Entry → Type 0
  Stands a [] = Unit {0}
  Stands a (e ∷ es) = (e.descriptor ≡ a) × Stands (a + p.sizeof_ppi_descriptor) es

  -- The database: what happened, the last one first, and the entries afterwards.
  pub data Database : List Event → List Entry → Type 0 where
    empty : Database [] []
    publish :
        {log : List Event} {db : List Entry}
        → (ppi_list : ℕ) (es : List Entry) → IsWhole es
        → Stands ppi_list es
        → Database log db
        → Database (published ppi_list es ∷ log) (db ++ es)
    refuse :
        {log : List Event} {db : List Entry}
        → (ppi_list : ℕ) (s : Status) → s ≢ Status.success
        → Database log db
        → Database (refused ppi_list s ∷ log) db
    answer :
        {log : List Event} {db : List Entry}
        → (guid : Guid) (instance_ : ℕ) (out_desc : Option ℕ) (old : ℕ) → Database log db
        → Database
            (answered guid instance_ out_desc old
                (reply_for out_desc old (get_elem? (matching guid db) instance_))
              ∷ log)
            db
