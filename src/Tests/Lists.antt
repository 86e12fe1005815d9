-- ===== src/Tests/Lists.antt =====
-- Two descriptors, the second one position-independent: a list that fits, and one that does not.
use edk2_arc.Base.{
  ℕ, zero, suc, ◌+◌, ◌<◌, ◌≡◌, ◌≢◌, refl, false, some, [], ◌∷◌, if◌then◌else◌, ◌==◌, arith,
}
use edk2_arc.Edk2.{Status}
use edk2_arc.Pei.Context.{PeiCore}
use edk2_arc.Pei.Ppi.{Reply, reply, is_no_ppi, is_last_ppi, pei_install_ppi}
use edk2_arc.Pei.Ppi.Run.{at_last, no_room, address, fixup_for, moved, Installed}
use edk2_arc.Pei.Ppi.Whole.{IsPpiList, pei_install_ppi_no_room}
use edk2_arc.Pei.Locate.Installed.{FindsNew, FindsOld, pei_locate_ppi-list}
use edk2_arc.Tests.Toy.{boot_platform, boot_flash}
use edk2_arc.Tests.Sec.{info}
use edk2_arc.Tests.Installed.{fixup_found}

-- `last` is the flag that ends the list, or 0.
abbrev two_ppis : ℕ → ℕ → PeiCore
two_ppis max last = record {
  current_count = 1;
  max_count = max;
  ppi_ptrs = λ i. if i == 0 then 200 else 0;
  fv_handle = λ i. 0;
  desc = λ a.
      if a == 312
      then record { flags = 0x11 + last; guid = 90; ppi = 400 }
      else record { flags = 0x10; guid = 74; ppi = 404 };
  entry = λ a. 1000;
}

fitting-IsPpiList :
    IsPpiList boot_platform (two_ppis 4 0x8000_0000) at_last 300 0x10 (0x8000_0011 ∷ [])
unfolding is_no_ppi is_last_ppi
fitting-IsPpiList = record {
  run = (refl, refl, refl, omega arith, (refl, refl, refl));
  there = omega arith;
  room = omega arith;
  countable = omega arith;
  wide = omega arith;
  reach = omega arith;
}

pei_locate_ppi-list_example :
    (c' : PeiCore) × (pei_install_ppi boot_platform boot_flash 10 256 info 300
        (two_ppis 4 0x8000_0000)
      ≡ some (reply Status.success c'))
    × FindsNew boot_platform boot_flash 372
        (two_ppis 4 0x8000_0000)
        c'
        300
        (0x10 ∷ 0x8000_0011 ∷ [])
    × FindsOld boot_platform boot_flash (two_ppis 4 0x8000_0000) c'
pei_locate_ppi-list_example =
    pei_locate_ppi-list boot_platform boot_flash 10 256 info 300 (two_ppis 4 0x8000_0000)
      (record { ptr = 372; info = some (record { status = Status.success; line = 183 }) }) 0x10
      (0x8000_0011 ∷ []) fixup_found refl fitting-IsPpiList apart
  where
    apart : (i k : ℕ) → i < 1 → k < 2 → (if i == 0 then 200 else zero) ≢ address boot_platform 300 k
    apart zero zero used below = omega arith
    apart zero (suc zero) used below = omega arith
    apart zero (suc (suc k)) used below = absurd (omega arith)
    apart (suc i) k used below = absurd (omega arith)

long-IsPpiList : IsPpiList boot_platform (two_ppis 3 0) no_room 300 0x10 (0x11 ∷ [])
unfolding is_no_ppi is_last_ppi
long-IsPpiList = record {
  run = (refl, refl, refl, omega arith, (refl, refl, (refl, omega arith)));
  there = omega arith;
  room = omega arith;
  countable = omega arith;
  wide = omega arith;
  reach = omega arith;
}

pei_install_ppi_no_room_example :
    (r : Reply) × (pei_install_ppi boot_platform boot_flash 10 256 info 300 (two_ppis 3 0) ≡ some r)
    × (r.status ≡ Status.not_found)
    × (r.core.current_count ≡ 1)
    × ((k : ℕ)
        → k < 2
        → r.core.desc (address boot_platform 300 k)
          ≡ moved boot_platform
              (fixup_for boot_platform 372 false (0x10 ∷ 0x11 ∷ []) k)
              ((two_ppis 3 0).desc (address boot_platform 300 k)))
pei_install_ppi_no_room_example =
    pei_install_ppi_no_room boot_platform boot_flash 10 256 info
      (record { ptr = 372; info = some (record { status = Status.success; line = 183 }) })
      fixup_found refl 300 (two_ppis 3 0) 0x10 (0x11 ∷ []) long-IsPpiList
