-- ===== src/Utils/Info.antt =====
-- `STATUS_INFO`, `SET_STATUS_INFO` and `AlignAddr` of UtilsLib.h.
use edk2_arc.Base.Bits.{bit_and_align4, bit_and_align8}
use edk2_arc.Base.{
  ℕ, ◌+◌, ◌-◌, ◌*◌, ◌/◌, ◌%◌, ◌^◌, ◌<◌, ◌≤◌, ◌≡◌, Option, none, some, bit_and, u8, u64, arith,
}
use edk2_arc.Edk2.{Status}

pub record StatusInfo : Type 0 where
  pub status : Status
  pub line : ℕ

-- The pointer is NULL (`none`) where the caller wants no status; `line` is `__LINE__`.
abbrev pub set_status_info : Option StatusInfo → Status → ℕ → Option StatusInfo
set_status_info none s l = none
set_status_info (some info) s l = some (record info { status = s; line = l })

-- `Bytes--` on a UINT8, and `~Bytes` in the 64 bits of EFI_PHYSICAL_ADDRESS: the UINT8 is promoted
-- to int, so the complement has all high bits set.
unfoldable pub align_addr : ℕ → ℕ → ℕ
align_addr addr bytes =
    let below = u8 (bytes + 255) in bit_and (u64 (addr + below)) (2 ^ 64 - 1 - below)

-- The two alignments that the code uses: the next multiple, if the sum does not wrap.
pub align_addr_four : (a : ℕ) → a + 3 < 2 ^ 64 → align_addr a 4 ≡ (a + 3) / 4 * 4
unfolding align_addr
align_addr_four a h = omega (arith, bit_and_align4 (u64 (a + 3)) (omega arith))

pub align_addr_eight : (a : ℕ) → a + 7 < 2 ^ 64 → align_addr a 8 ≡ (a + 7) / 8 * 8
unfolding align_addr
align_addr_eight a h = omega (arith, bit_and_align8 (u64 (a + 7)) (omega arith))

-- The aligned address is the least multiple of 8 that is not below the address.
pub align_addr_least :
    (a : ℕ)
    → a + 7 < 2 ^ 64
    → (a ≤ align_addr a 8)
      × (align_addr a 8 % 8 ≡ 0)
      × ((b : ℕ) → a ≤ b → b % 8 ≡ 0 → align_addr a 8 ≤ b)
align_addr_least a h = (
  omega (arith, align_addr_eight a h),
  omega (arith, align_addr_eight a h),
  λ b le m. omega (arith, align_addr_eight a h),
)
