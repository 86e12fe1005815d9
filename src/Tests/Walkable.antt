-- ===== src/Tests/Walkable.antt =====
-- The board with the toy volumes, as volumes in which every search ends.
use edk2_arc.Base.{ℕ, ◌≤◌, ◌≡◌, refl, ◌⊎◌, inl, inr, true, Option, some, update, arith}
use edk2_arc.Utils.Info.{align_addr}
use edk2_arc.Utils.Volume.{volume_end, first_file}
use edk2_arc.Utils.Volume.Layout.{Chain, first, next}
use edk2_arc.Utils.Volume.Ends.{IsWalkable}
use edk2_arc.Pei.Core.{World, Flow, goes_on}
use edk2_arc.Pei.Core.Ends.{IsOrderly}
use edk2_arc.Serial.{serial_port_initialize, poll, serial_in, get_serial_register_base}
use edk2_arc.Sec.Entry.{start_up, start_icache, start_dcache, start_slc, start_dsp}
use edk2_arc.Boot.{Log}
use edk2_arc.Boot.Power.{Booted, power_on}
use edk2_arc.Boot.Power.Ends.{IsEnd, power_on-ends}
use edk2_arc.Tests.Toy.{boot_platform, boot_flash}
use edk2_arc.Tests.DxeIpl.{garbage}
use edk2_arc.Tests.Serial.{pcd}
use edk2_arc.Tests.Sec.{lib, sec_pcd, info}
use edk2_arc.Tests.Entry.{Board, aux, bus, board}
use edk2_arc.Tests.Power.{flash_image}

dxe_headers : {a : ℕ} → Chain boot_platform boot_flash 128 72 a → (a ≡ 72) ⊎ (a ≡ 88) ⊎ (128 ≤ a)
unfolding align_addr
dxe_headers first = inl refl
dxe_headers (next a c below fits) = elim (dxe_headers c) [
  | inl at ↦ inr (inl (rw at refl))
  | inr (inl at) ↦ inr (inr (rw at (omega arith)))
  | inr (inr past) ↦ absurd (omega arith)
]

boot_headers :
    {a : ℕ}
    → Chain boot_platform boot_flash 408 312 a
    → (a ≡ 312) ⊎ (a ≡ 352) ⊎ (a ≡ 368) ⊎ (408 ≤ a)
unfolding align_addr
boot_headers first = inl refl
boot_headers (next a c below fits) = elim (boot_headers c) [
  | inl at ↦ inr (inl (rw at refl))
  | inr (inl at) ↦ inr (inr (inl (rw at refl)))
  | inr (inr (inl at)) ↦ inr (inr (inr (rw at (omega arith))))
  | inr (inr (inr past)) ↦ absurd (omega arith)
]

dxe-IsWalkable : IsWalkable boot_platform boot_flash 500 64
unfolding volume_end first_file align_addr
dxe-IsWalkable = record {
  reach = record { pointer = omega arith; no_wrap = omega arith };
  enough = omega arith;
  header = omega arith;
  sizes = λ a c below. elim (dxe_headers c) [
    | inl at ↦ rw at (omega arith, omega arith)
    | inr (inl at) ↦ rw at (omega arith, omega arith)
    | inr (inr past) ↦ absurd (omega arith)
  ];
}

pub boot-IsWalkable : IsWalkable boot_platform boot_flash 500 256
unfolding volume_end first_file align_addr
boot-IsWalkable = record {
  reach = record { pointer = omega arith; no_wrap = omega arith };
  enough = omega arith;
  header = omega arith;
  sizes = λ a c below. elim (boot_headers c) [
    | inl at ↦ rw at (omega arith, omega arith)
    | inr (inl at) ↦ rw at (omega arith, omega arith)
    | inr (inr (inl at)) ↦ rw at (omega arith, omega arith)
    | inr (inr (inr past)) ↦ absurd (omega arith)
  ];
}

abbrev returning : ℕ → ℕ → World Log → Option (Flow (World Log))
returning f a w = some (goes_on w)

returning-IsOrderly :
    IsOrderly boot_platform boot_flash returning 256 (update (update (λ _. 0) 0 256) 1 64)
returning-IsOrderly f a w h = (goes_on w, refl, h)

initialized :
    (b : Board) × (serial_port_initialize bus (pcd 1) 500 (start_up aux true board)
      ≡ some (0x1000, b))
unfolding serial_port_initialize poll serial_in get_serial_register_base start_up start_icache
    start_dcache start_slc start_dsp
initialized = (_, refl)

power_on-ends_example :
    (b : Booted Board) × (power_on boot_platform boot_flash 500 info garbage flash_image returning
        aux lib sec_pcd bus
        (pcd 1)
        (λ i. 1)
        (λ i. 2)
        true
        board
      ≡ some b)
    × IsEnd flash_image initialized.0 b
power_on-ends_example =
    power_on-ends boot_platform boot_flash 500 info garbage flash_image returning aux lib sec_pcd
      bus (pcd 1) 0x1000 (λ i. 1) (λ i. 2) true board initialized.0 boot-IsWalkable dxe-IsWalkable
      returning-IsOrderly (omega arith) (omega arith) initialized.1
