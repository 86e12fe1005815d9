-- ===== src/Pei/Database/Refine.antt =====
-- The PPI services against the database of PPIs.
use edk2_arc.Base.{
  ℕ, ◌+◌, ◌-◌, ◌≤◌, ◌<◌, ◌≡◌, ◌≢◌, refl, sym, ap, subst, ◌∙◌, false, inl, inr, Option, some,
  if◌then◌else◌, List, ◌∷◌, ◌++◌, dec_lt, arith,
}
use edk2_arc.Edk2.{Status, Mem, Platform}
use edk2_arc.Utils.Info.{StatusInfo}
use edk2_arc.Utils.Section.{Found}
use edk2_arc.Pei.Context.{PeiCore}
use edk2_arc.Pei.Ppi.{Reply, reply, is_success, calc_peim_fixup, pei_install_ppi}
use edk2_arc.Pei.Ppi.OneRound.{IsValid, Outcome}
use edk2_arc.Pei.Ppi.Invariant.{pei_install_ppi-Outcome}
use edk2_arc.Pei.Ppi.Run.{address, address-le}
use edk2_arc.Pei.Database.{IsWhole, Event, Database, empty, publish, refuse, answer}
use edk2_arc.Utils.Volume.Ends.{IsWalkable}
use edk2_arc.Pei.Ppi.Returns.{calc_peim_fixup-Ends}
use edk2_arc.Pei.Database.Grew.{flags_of, Grew, pei_install_ppi-Grew}
use edk2_arc.Pei.Database.View.{
  entries-IsWhole, entries, view, entries-split, entries_kept, entries-Stands, pei_locate_ppi-view,
}
use edk2_arc.Pei.Database.Session.{IsFresh, Session, begin, install, locate, shown, events}

not_success : (s : Status) → s ≢ Status.success → is_success s ≡ false
not_success Status.success ne = absurd (ne refl)
not_success _ ne = refl

module _ (p : Platform) (m : Mem) (fuel boot_fv : ℕ)
    (ends : (info : StatusInfo)
      → (f : Found) × (calc_peim_fixup p m fuel boot_fv (some info) ≡ some f)) where
  -- The database is well formed, no slot holds NULL, and it is what the events come to.
  record Refines (c : PeiCore) (log : List Event) : Type 0 where
    valid : IsValid p c
    there : (i : ℕ) → i < c.current_count → c.ppi_ptrs i ≢ 0
    run : Database p log (view p m c)

  -- A call that has returned has the outcome of the theorems on it.
  call_facts :
      (info : StatusInfo) (ppi_list : ℕ) (c : PeiCore) (r : Reply)
      → IsValid p c
      → IsFresh p c ppi_list
      → pei_install_ppi p m fuel boot_fv info ppi_list c ≡ some r
      → Outcome c.current_count c r
        × IsValid p r.core
        × Grew p c.max_count c.current_count ppi_list c r
  call_facts info ppi_list c r v fresh returns =
      let (r₁, returns₁, outcome, valid) =
        pei_install_ppi-Outcome p m fuel boot_fv info ppi_list c ends v in
      let (r₂, returns₂, grew) =
        pei_install_ppi-Grew p m fuel boot_fv ends info ppi_list c v fresh.reach in
      let same₁ : r₁ ≡ r = some_injective (sym returns₁ ∙ returns) in
      let same₂ : r₂ ≡ r = some_injective (sym returns₂ ∙ returns) in
      (
        subst (Outcome c.current_count c) same₁ outcome,
        subst (λ q. IsValid p q.core) same₁ valid,
        subst (Grew p c.max_count c.current_count ppi_list c) same₂ grew,
      )
    where
      some_injective : {A : Type 0} {a b : A} → some a ≡ some b → a ≡ b
      some_injective e = cc

  -- NULL is refused.
  published_there :
      (info : StatusInfo) (ppi_list : ℕ) (c : PeiCore) (r : Reply)
      → pei_install_ppi p m fuel boot_fv info ppi_list c ≡ some r
      → r.status ≡ Status.success
      → ppi_list ≢ 0
  unfolding pei_install_ppi
  published_there info ppi_list c r returns ok null =
      let refused_ : ◌≡◌ {A = Option Reply} (some (reply Status.invalid_parameter c)) (some r) =
        rw null at returns in
      let status : Status.invalid_parameter ≡ Status.success = cc in cc

  module _ (ppi_list : ℕ) (c : PeiCore) (r : Reply) (fresh : IsFresh p c ppi_list)
      (o : Outcome c.current_count c r)
      (grew : Grew p c.max_count c.current_count ppi_list c r) where
    -- The entries of the slots that were in use.
    old_entries : entries p m r.core c.current_count 0 ≡ view p m c
    old_entries =
        entries_kept p m c r.core c.current_count 0 (λ i low high. grew.kept i (omega arith))
          (λ i low high.
            grew.others (c.ppi_ptrs i) (λ k below. fresh.apart i k (omega arith) below))

    new_view :
        c.current_count ≤ r.core.current_count
        → view p m r.core
          ≡ view p m c
            ++ entries p m r.core (r.core.current_count - c.current_count) c.current_count
    new_view more =
        let new = r.core.current_count - c.current_count in
        let all : r.core.current_count ≡ c.current_count + new = omega arith in
        let from : 0 + c.current_count ≡ c.current_count = omega arith in
        ap (λ n. entries p m r.core n 0) all
        ∙ entries-split p m r.core c.current_count new 0
        ∙ rw from (ap (λ l. l ++ entries p m r.core new c.current_count) old_entries)

    -- What a success has added is a whole list.
    new-IsWhole :
        r.status ≡ Status.success
        → IsWhole p (entries p m r.core (r.core.current_count - c.current_count) c.current_count)
    new-IsWhole ok =
        let (n, count, listed) = grew.whole ok in
        let new : r.core.current_count - c.current_count ≡ n = omega (arith, count) in
        rw new (
          entries-IsWhole p m r.core (flags_of c) n c.current_count ppi_list
            (λ k below. grew.slots k (omega (arith, count))) grew.same_flags listed)

    refused_view : r.core.current_count ≡ c.current_count → view p m r.core ≡ view p m c
    refused_view same = ap (λ n. entries p m r.core n 0) same ∙ old_entries

  install-Refines :
      (info : StatusInfo) (ppi_list : ℕ) (c : PeiCore) (r : Reply) (log : List Event)
      → Refines c log
      → IsFresh p c ppi_list
      → pei_install_ppi p m fuel boot_fv info ppi_list c ≡ some r
      → Refines r.core (shown p m fuel boot_fv c ppi_list r ∷ log)
  install-Refines info ppi_list c r log refines fresh returns =
      let (o, valid, grew) = call_facts info ppi_list c r refines.valid fresh returns in
      elim o.counted [
        | inl (ok, more, within) ↦
            let new = r.core.current_count - c.current_count in
            let there = published_there info ppi_list c r returns ok in
            record {
              valid = valid;
              there = λ i used. elim (dec_lt i c.current_count) [
                | yes old ↦ rw (grew.kept i old) (refines.there i old)
                | no fresh_one ↦
                    let k = i - c.current_count in
                    let at_k : c.current_count + k ≡ i = omega arith in
                    let slot : r.core.ppi_ptrs i ≡ address p ppi_list k =
                      rw at_k at (grew.slots k (omega arith)) in
                    omega (arith, slot, address-le p ppi_list k)
              ];
              run =
                  rw (ok, if◌then◌else◌, new_view ppi_list c r fresh o grew (omega arith))
                    (publish ppi_list (entries p m r.core new c.current_count)
                      (new-IsWhole ppi_list c r fresh o grew ok)
                      (entries-Stands p m r.core new c.current_count ppi_list
                        (λ k below. grew.slots k (omega arith)))
                      refines.run);
            }
        | inr (bad, same) ↦ record {
          valid = valid;
          there = λ i used.
              rw (grew.kept i (omega (arith, same))) (refines.there i (omega (arith, same)));
          run =
              rw
                (
                  not_success r.status bad,
                  if◌then◌else◌,
                  refused_view ppi_list c r fresh o grew same,
                )
                (refuse ppi_list r.status bad refines.run);
        }
      ]

  Session-Refines :
      {c : PeiCore} (s : Session p m fuel boot_fv c) → Refines c (events p m fuel boot_fv s)
  Session-Refines (begin c valid unused) = record {
    valid = valid;
    there = λ i used. absurd (omega (arith, unused));
    run = rw unused empty;
  }
  Session-Refines (install {c = c} info ppi_list r s fresh returns) =
      install-Refines info ppi_list c r (events p m fuel boot_fv s) (Session-Refines s) fresh
        returns
  Session-Refines (locate {c = c} guid instance_ out_desc old s small) =
      let before = Session-Refines s in
      record {
        valid = before.valid;
        there = before.there;
        run =
            rw (pei_locate_ppi-view p m c guid instance_ out_desc old small before.there)
              (answer guid instance_ out_desc old before.run);
      }

-- The PPI services implement a database. In any sequence of calls of PeiInstallPpi and PeiLocatePpi
-- that starts with an empty database, whatever the lists hold, each call of PeiInstallPpi does one
-- of two things: it publishes a whole list, behind all that was
-- published before, that is entries of PPIs whose descriptors stand one behind the other from the
-- list's address on up to the first that ends the list; or the list is refused, with a status other
-- than EFI_SUCCESS, and nothing changes. Each call of PeiLocatePpi answers with the entry of that
-- number among those published so far with the GUID, or EFI_NOT_FOUND; and the slots in use hold
-- the entries of the database. The database is well formed at the start, and none of the
-- descriptors that a list could have is in use already or out of reach of a pointer. The numbers
-- asked for are in the range of a UINTN. No header of the chain of files of the boot volume has
-- size 0, or a size of 2 ^ 32 or more, the end of the volume is in reach of a pointer and below the
-- fuel, and the header of a section has a size.
pub ppi_services_refine-Database :
    (p : Platform) (m : Mem) (fuel boot_fv : ℕ)
    → IsWalkable p m fuel boot_fv
    → (c : PeiCore) (s : Session p m fuel boot_fv c)
    → Database p (events p m fuel boot_fv s) (view p m c)
ppi_services_refine-Database p m fuel boot_fv boot c s =
    (Session-Refines p m fuel boot_fv (calc_peim_fixup-Ends p m fuel boot_fv boot) s).run
