-- ===== src/Cpu/Reg.antt =====
-- Platform/ARC/Include/Common/Cpu.h: the auxiliary registers, a bit of STATUS32, and the stack address.
use edk2_arc.Base.{ℕ}

abbrev pub aux_ic_ivic : ℕ
aux_ic_ivic = 0x10

abbrev pub aux_ic_ctrl : ℕ
aux_ic_ctrl = 0x11

abbrev pub bcr_ic_build : ℕ
bcr_ic_build = 0x77

abbrev pub aux_dc_ivdc : ℕ
aux_dc_ivdc = 0x47

abbrev pub aux_dc_ctrl : ℕ
aux_dc_ctrl = 0x48

abbrev pub bcr_dc_build : ℕ
bcr_dc_build = 0x72

abbrev pub bcr_slc : ℕ
bcr_slc = 0xce

abbrev pub aux_dsp_build : ℕ
aux_dsp_build = 0x7a

abbrev pub aux_dsp_ctrl : ℕ
aux_dsp_ctrl = 0x59f

abbrev pub aux_slc_ctrl : ℕ
aux_slc_ctrl = 0x903

abbrev pub status_ad_bit : ℕ
status_ad_bit = 19

abbrev pub sys_init_sp_addr : ℕ
sys_init_sp_addr = 0x8000_0f30
