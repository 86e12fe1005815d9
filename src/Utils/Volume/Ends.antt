-- ===== src/Utils/Volume/Ends.antt =====
-- Volumes in which every search of the stages ends.
use edk2_arc.Base.{
  ℕ, ◌+◌, ◌^◌, ◌<◌, ◌≡◌, refl, Option, some, ◌>>=◌, Bool-cases, inl, inr, ◌==◌, if◌then◌else◌,
}
use edk2_arc.Edk2.{Guid, Mem, Platform, uintn}
use edk2_arc.Utils.Info.{StatusInfo}
use edk2_arc.Utils.Section.{Found, null}
use edk2_arc.Utils.Section.Find.{InReach}
use edk2_arc.Utils.Volume.{
  volume_end, first_file, get_file_section, te_entry, get_te_entry_point, apriori_file_name,
  get_apriori_file,
}
use edk2_arc.Utils.Volume.Layout.{Chain}
use edk2_arc.Utils.Volume.Total.{get_file_section-Walk}

-- The end of the volume is in reach of a pointer and below the fuel, and no header
-- of the chain of its files has size 0.
pub record IsWalkable (p : Platform) (m : Mem) (fuel fv : ℕ) : Type 0 where
  pub reach : InReach p (volume_end p m fv)
  pub enough : volume_end p m fv < fuel
  pub header : 0 < p.sizeof_section
  pub sizes :
      (a : ℕ)
      → Chain p m (volume_end p m fv) (first_file p m fv) a
      → a < volume_end p m fv
      → (0 < p.file_size m a) × (p.file_size m a < 2 ^ 32)

-- A search that returns something.
abbrev pub Ends : {A : Type 0} → Option A → Type 0
Ends {A} o = (a : A) × (o ≡ some a)

module _ (p : Platform) (m : Mem) (fuel fv : ℕ) (w : IsWalkable p m fuel fv) where
  pub get_file_section-Ends :
      (section_type file_type : ℕ) (file_name : Option Guid) (info : Option StatusInfo)
      → Ends (get_file_section p m fuel fv section_type file_type file_name info)
  get_file_section-Ends section_type file_type file_name info =
      let walk =
        get_file_section-Walk p m fv section_type file_type file_name info w.reach fuel w.header
          w.enough w.sizes in
      (walk.outcome, walk.returns)

  -- A result that is computed from that of a search.
  after_search :
      (o : Option Found) (k : Found → Found)
      → Ends o
      → Ends (o >>= λ f. if f.ptr == null then some f else some (k f))
  after_search o k (f, e) = elim (Bool-cases (f.ptr == null)) [
    | inl absent ↦ (f, rw (e, ◌>>=◌, absent) refl)
    | inr there ↦ (k f, rw (e, ◌>>=◌, there) refl)
  ]

  pub get_te_entry_point-Ends :
      (file_type : ℕ) (file_name : Option Guid) (info : Option StatusInfo)
      → Ends (get_te_entry_point p m fuel fv file_type file_name info)
  unfolding get_te_entry_point
  get_te_entry_point-Ends file_type file_name info =
      after_search (get_file_section p m fuel fv p.section_te file_type file_name info)
        (λ f. record f { ptr = te_entry p m f.ptr })
        (get_file_section-Ends p.section_te file_type file_name info)

  pub get_apriori_file-Ends : (info : Option StatusInfo) → Ends (get_apriori_file p m fuel fv info)
  unfolding get_apriori_file
  get_apriori_file-Ends info =
      after_search
        (get_file_section p m fuel fv p.section_raw p.filetype_freeform
          (some (apriori_file_name p m)) info)
        (λ f. record f { ptr = uintn p (f.ptr + p.sizeof_section) })
        (get_file_section-Ends p.section_raw p.filetype_freeform (some (apriori_file_name p m))
          info)
