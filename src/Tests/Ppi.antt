-- ===== src/Tests/Ppi.antt =====
-- The PPI services on a small database.
use edk2_arc.Base.{◌≡◌, ◌↔◌, ◌==◌, if◌then◌else◌, arith}
use edk2_arc.Pei.Context.{PeiCore}
use edk2_arc.Pei.Database.Directory.{
  Directory, directory, IsFilled, SameAnswers, pei_locate_ppi-Directory,
}
use edk2_arc.Tests.Toy.{toy, flash}

-- Two descriptors, at 300 and 312; the second one ends the list. The first one is installed.
abbrev pub database : PeiCore
database = record {
  current_count = 1;
  max_count = 4;
  ppi_ptrs = λ i. if i == 0 then 300 else 0;
  fv_handle = λ i. 64;
  desc = λ a.
      if a == 300
      then record { flags = 0x10; guid = 74; ppi = 400 }
      else record { flags = 0x8000_0010; guid = 90; ppi = 404 };
  entry = λ a. 0;
}

-- The same two descriptors in the two orders.
abbrev pub in_order : PeiCore
in_order = record database { current_count = 2; ppi_ptrs = λ i. if i == 0 then 300 else 312 }

abbrev swapped : PeiCore
swapped = record database { current_count = 2; ppi_ptrs = λ i. if i == 0 then 312 else 300 }

in_order-IsFilled : IsFilled toy flash in_order
in_order-IsFilled = record { countable = omega arith; there = λ i used. ground arith }

swapped-IsFilled : IsFilled toy flash swapped
swapped-IsFilled = record { countable = omega arith; there = λ i used. ground arith }

pei_locate_ppi-Directory_example :
    SameAnswers toy flash in_order swapped
    ↔ (◌≡◌ {A = Directory} (directory toy flash in_order) (directory toy flash swapped))
pei_locate_ppi-Directory_example =
    pei_locate_ppi-Directory toy flash in_order swapped in_order-IsFilled swapped-IsFilled
