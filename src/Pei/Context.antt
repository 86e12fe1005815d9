-- ===== src/Pei/Context.antt =====
-- `PEI_CORE_CONTEXT` of PeiCoreMain.h with the parts of `PEI_PPI_DATABASE` that the code uses, and
-- the memory that the PPI services write.
use edk2_arc.Base.{ℕ}

-- `EFI_PEI_PPI_DESCRIPTOR`; `guid` and `ppi` are pointers.
pub record PpiDescriptor : Type 0 where
  pub flags : ℕ
  pub guid : ℕ
  pub ppi : ℕ

pub record PeiCore : Type 0 where
  -- PpiData.PpiList; `ppi_ptrs` is the array behind `PpiPtrs`, 0 where a slot holds NULL.
  pub current_count : ℕ
  pub max_count : ℕ
  pub ppi_ptrs : ℕ → ℕ
  -- The handles of `Fv[MAX_CORE_FV]`.
  pub fv_handle : ℕ → ℕ
  -- The PPI descriptors in memory, by address, and the `Entry` of each PPI structure. The program
  -- places both in a module's data, apart from each other and from the headers of the volume.
  pub desc : ℕ → PpiDescriptor
  pub entry : ℕ → ℕ

abbrev pub max_core_fv : ℕ
max_core_fv = 2
