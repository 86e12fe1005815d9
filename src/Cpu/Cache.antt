-- ===== src/Cpu/Cache.antt =====
-- Platform/ARC/Library/CpuLib/Arc2Cache.c: the maintenance of the caches, over the state of the
-- machine. The functions have no body, or return the address that they are given.
use edk2_arc.Base.{ℕ}

module _ {S : Type 0} where
  unfoldable pub invalidate_instruction_cache : S → S
  invalidate_instruction_cache s = s

  unfoldable pub invalidate_instruction_cache_range : ℕ → ℕ → S → ℕ × S
  invalidate_instruction_cache_range address length s = (address, s)

  unfoldable pub write_back_invalidate_data_cache : S → S
  write_back_invalidate_data_cache s = s

  unfoldable pub write_back_invalidate_data_cache_range : ℕ → ℕ → S → ℕ × S
  write_back_invalidate_data_cache_range address length s = (address, s)

  unfoldable pub write_back_data_cache : S → S
  write_back_data_cache s = s

  unfoldable pub write_back_data_cache_range : ℕ → ℕ → S → ℕ × S
  write_back_data_cache_range address length s = (address, s)

  unfoldable pub invalidate_data_cache : S → S
  invalidate_data_cache s = s

  unfoldable pub invalidate_data_cache_range : ℕ → ℕ → S → ℕ × S
  invalidate_data_cache_range address length s = (address, s)
