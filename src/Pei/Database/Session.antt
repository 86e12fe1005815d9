-- ===== src/Pei/Database/Session.antt =====
-- Calls of PeiInstallPpi and PeiLocatePpi, one after the other, against the database of PPIs.
use edk2_arc.Base.{ℕ, ◌+◌, ◌-◌, ◌^◌, ◌<◌, ◌≡◌, ◌≢◌, Option, some, if◌then◌else◌, List, [], ◌∷◌}
use edk2_arc.Edk2.{Guid, Mem, Platform}
use edk2_arc.Utils.Info.{StatusInfo}
use edk2_arc.Pei.Context.{PeiCore}
use edk2_arc.Pei.Ppi.{Reply, is_success, pei_install_ppi}
use edk2_arc.Pei.Ppi.OneRound.{IsValid}
use edk2_arc.Pei.Ppi.Run.{address}
use edk2_arc.Pei.Locate.{pei_locate_ppi}
use edk2_arc.Pei.Database.{Event, published, refused, answered}
use edk2_arc.Pei.Database.View.{entries}

-- The list would be in reach of a pointer if it filled the database, and none of the descriptors that it
-- could have is in use.
pub record IsFresh (p : Platform) (c : PeiCore) (ppi_list : ℕ) : Type 0 where
  pub reach : address p ppi_list c.max_count < 2 ^ p.uintn_bits
  pub apart :
      (i k : ℕ)
      → i < c.current_count
      → c.current_count + k < c.max_count
      → c.ppi_ptrs i ≢ address p ppi_list k

module _ (p : Platform) (m : Mem) (fuel boot_fv : ℕ) where
  -- From an empty database on, calls of the two services, each with the `StatusInfo` and outputs that it finds.
  pub data Session : PeiCore → Type 0 where
    begin : (c : PeiCore) → IsValid p c → c.current_count ≡ 0 → Session c
    install :
        {c : PeiCore}
        → (info : StatusInfo) (ppi_list : ℕ) (r : Reply) → Session c
        → IsFresh p c ppi_list
        → pei_install_ppi p m fuel boot_fv info ppi_list c ≡ some r
        → Session r.core
    locate :
        {c : PeiCore}
        → (guid : Guid) (instance_ : ℕ) (out_desc : Option ℕ) (old : ℕ) → Session c
        → instance_ < 2 ^ p.uintn_bits
        → Session c

  -- What a call of PeiInstallPpi shows: the new slots, or the status.
  abbrev pub shown : PeiCore → ℕ → Reply → Event
  shown c ppi_list r =
      if is_success r.status
      then published ppi_list
          (entries p m r.core (r.core.current_count - c.current_count) c.current_count)
      else refused ppi_list r.status

  abbrev pub events : {c : PeiCore} → Session c → List Event
  events (begin c valid unused) = []
  events (install {c = c} info ppi_list r s fresh returns) = shown c ppi_list r ∷ events s
  events (locate {c = c} guid instance_ out_desc old s small) =
      answered guid instance_ out_desc old
        (pei_locate_ppi p m c (some guid) instance_ out_desc (some old))
      ∷ events s
