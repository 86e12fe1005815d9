-- ===== src/Tests/Core.antt =====
-- The PEI core with two PPIs, on a machine that keeps the list of the addresses called.
use edk2_arc.Base.{ℕ, ◌≡◌, refl, Option, some, List, [], ◌∷◌, arith}
use edk2_arc.Pei.Core.{World, Flow, goes_on, dispatch_peims, dispatch_loop, dispatch_one}
use edk2_arc.Pei.Core.Dispatch.{Steady, dispatch_each, dispatch_peims_lem}
use edk2_arc.Edk2.{uintn}
use edk2_arc.Tests.Toy.{toy, flash}
use edk2_arc.Tests.Ppi.{in_order}

abbrev call : ℕ → ℕ → World (List ℕ) → Option (Flow (World (List ℕ)))
call f a w = some (goes_on (record w { machine = a ∷ w.machine }))

abbrev world : World (List ℕ)
world = record {
  services = record {
    install_ppi = 0;
    locate_ppi = 0;
    notify_ppi = 0;
    ffs_find_next_volume = 0;
    ffs_find_next_file = 0;
    ffs_find_section_data = 0;
    ffs_get_file_info = 0;
  };
  core = in_order;
  table_pointer = 0;
  machine = [];
}

steady : Steady toy flash call
steady f a w w' e = let same : record w { machine = a ∷ w.machine } ≡ w' = cc in rw⁻¹ same refl

dispatch_peims_lem_example :
    dispatch_peims toy flash call 3 world ≡ dispatch_each toy flash call 2 0 world
dispatch_peims_lem_example =
    dispatch_peims_lem toy flash call steady 3 world (omega arith) (omega arith)

-- The PPIs at 400 and 404 were called, in this order.
called :
    dispatch_peims toy flash call 3 world
    ≡ some (goes_on (record world { machine = 404 ∷ 400 ∷ [] }))
unfolding dispatch_peims dispatch_loop dispatch_one uintn
called = refl
