-- ===== src/Sec/Entry.antt =====
-- Platform/ARC/Library/Sec/Arc2/SecEntry.S: what the processor runs before and behind SecMain.
pub mod Units
pub mod Ready
pub mod End
use edk2_arc.Base.{ℕ, ◌+◌, ◌-◌, ◌/◌, ◌%◌, ◌^◌, Bool, ◌==◌, if◌then◌else◌, Option, some, ◌>>=◌}
use edk2_arc.Edk2.{Mem, Platform}
use edk2_arc.Utils.Info.{StatusInfo}
use edk2_arc.Serial.{Bus, Pcd}
use edk2_arc.Sec.{SecLib, SecPcd, HandOffData, SecEnd, halted, entered, sec_main}
use edk2_arc.Cpu.Reg.{
  aux_ic_ivic, aux_ic_ctrl, bcr_ic_build, aux_dc_ivdc, aux_dc_ctrl, bcr_dc_build, bcr_slc,
  aux_dsp_build, aux_dsp_ctrl, aux_slc_ctrl, status_ad_bit, sys_init_sp_addr,
}

-- The instructions LR, SR and FLAG on the auxiliary registers.
pub record Aux (S : Type 0) : Type 0 where
  pub lr : S → ℕ → ℕ
  pub sr : S → ℕ → ℕ → S
  pub flag : S → ℕ → S

-- A bit of a register, and BSET and BCLR.
abbrev pub bit : ℕ → ℕ → ℕ
bit v b = v / 2 ^ b % 2

abbrev pub bset : ℕ → ℕ → ℕ
bset v b = if bit v b == 1 then v else v + 2 ^ b

abbrev pub bclr : ℕ → ℕ → ℕ
bclr v b = if bit v b == 1 then v - 2 ^ b else v

-- BMSK keeps the bits up to `b`.
abbrev pub bmsk : ℕ → ℕ → ℕ
bmsk v b = v % 2 ^ (b + 1)

-- The processor sleeps, with the stack pointer and the frame pointer, or runs the PEI core.
pub data PowerOn (S : Type 0) : Type 0 where
  asleep : ℕ → ℕ → S → PowerOn S
  in_pei_core : ℕ → HandOffData → S → PowerOn S

module _ {S : Type 0} (aux : Aux S) where
  unfoldable pub start_icache : S → S
  start_icache s =
      if aux.lr s bcr_ic_build == 0
      then s
      else aux.sr (aux.sr s aux_ic_ctrl (bset (aux.lr s aux_ic_ctrl) 0)) aux_ic_ivic 1

  unfoldable pub start_dcache : S → S
  start_dcache s =
      if aux.lr s bcr_dc_build == 0
      then s
      else aux.sr (aux.sr s aux_dc_ctrl (bset (bclr (aux.lr s aux_dc_ctrl) 6) 0)) aux_dc_ivdc 1

  unfoldable pub start_slc : S → S
  start_slc s =
      if aux.lr s bcr_slc == 0
      then s
      else aux.sr s aux_slc_ctrl (bclr (bclr (aux.lr s aux_slc_ctrl) 6) 0)

  unfoldable pub start_dsp : S → S
  start_dsp s = if bmsk (aux.lr s aux_dsp_build) 7 == 0 then s else aux.sr s aux_dsp_ctrl 0

  -- `unaligned`: the code is compiled with __ARC_UNALIGNED__.
  unfoldable pub start_up : Bool → S → S
  start_up unaligned s =
      let s' = start_dsp (start_slc (start_dcache (start_icache s))) in
      if unaligned then aux.flag s' (2 ^ status_ad_bit) else s'

  -- SecMain is called on the initial stack; behind it the processor sleeps.
  abbrev pub behind_sec_main : SecEnd S → PowerOn S
  behind_sec_main (halted s) = asleep sys_init_sp_addr sys_init_sp_addr s
  behind_sec_main (entered pei_ep sec_data s) = in_pei_core pei_ep sec_data s

  unfoldable pub module_entry_point :
      Platform
      → SecLib
      → SecPcd
      → Mem
      → Bus S
      → Pcd
      → ℕ
      → (ℕ → ℕ)
      → (ℕ → ℕ)
      → StatusInfo
      → Bool
      → S
      → Option (PowerOn S)
  module_entry_point p lib pcd m bus serial_pcd fuel stack stack' info unaligned s =
      sec_main p lib pcd m bus serial_pcd fuel stack stack' info (start_up unaligned s) >>= λ e.
      some (behind_sec_main e)
