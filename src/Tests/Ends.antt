-- ===== src/Tests/Ends.antt =====
-- PeiCoreMain on the toy volumes, with the code of the DXE IPL.
use edk2_arc.Base.{ℕ, ◌≡◌, refl, ap, Option, some, [], ◌∷◌, update, arith}
use edk2_arc.Edk2.{Status}
use edk2_arc.Utils.Volume.{volume_end}
use edk2_arc.Pei.Context.{PeiCore}
use edk2_arc.Pei.Core.{World, Flow, goes_on, stops, pei_core_main}
use edk2_arc.Pei.Core.Ends.{IsOrderly}
use edk2_arc.Pei.Core.Stops.{pei_core_main_always_stops}
use edk2_arc.Pei.Ppi.Returns.{calc_peim_fixup-Ends}
use edk2_arc.Tests.Walkable.{boot-IsWalkable}
use edk2_arc.DxeIpl.{Run, dxe_ipl_main}
use edk2_arc.DxeIpl.Main.{dxe_ipl_main_of_volume}
use edk2_arc.Boot.{Log, call_code}
use edk2_arc.Boot.Orderly.{call_code-IsOrderly}
use edk2_arc.Tests.Toy.{boot_platform, boot_flash}
use edk2_arc.Tests.Volume.{file_a, file_b, two_sections}
use edk2_arc.Tests.DxeIpl.{garbage}
use edk2_arc.Tests.Boot.{info, image, world, dxe_reach, dxe_volume-Files, core_is_b}

abbrev returning : ℕ → ℕ → World Log → Option (Flow (World Log))
returning f a w = some (goes_on w)

abbrev volumes : ℕ → ℕ
volumes = update (update (λ i. 0) 0 256) 1 64

returning-IsOrderly : IsOrderly boot_platform boot_flash returning 4 volumes
returning-IsOrderly f a w h = (goes_on w, refl, h)

main-ends :
    (c : PeiCore)
    → c.fv_handle ≡ volumes
    → (o : Run Status) × (dxe_ipl_main boot_platform boot_flash garbage 500 c ≡ some o)
main-ends c same = (
  _,
  dxe_ipl_main_of_volume boot_platform boot_flash garbage 500 64 128 c (file_a ∷ file_b ∷ [])
      two_sections dxe_reach (ap (λ h. h 1) same) (omega arith) (omega arith) (omega arith)
      dxe_volume-Files (unfold volume_end in omega arith) core_is_b,
)

pei_core_main_always_stops_example :
    (w' : World Log) × (pei_core_main boot_platform boot_flash
        (call_code boot_platform boot_flash 500 256 info garbage image returning)
        500
        info
        9
        64
        256
        world
      ≡ some (stops w'))
pei_core_main_always_stops_example =
    pei_core_main_always_stops boot_platform boot_flash
      (call_code boot_platform boot_flash 500 256 info garbage image returning) 500 256
      boot-IsWalkable 9 64 info world (record { within = omega arith; countable = omega arith })
      (call_code-IsOrderly boot_platform boot_flash 500 256 info garbage image returning
        (calc_peim_fixup-Ends boot_platform boot_flash 500 256 boot-IsWalkable) 4 volumes main-ends
        returning-IsOrderly)
      (omega arith)
