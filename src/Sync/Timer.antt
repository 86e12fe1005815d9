-- ===== src/Sync/Timer.antt =====
-- The count of ticks in AcquireSpinLock.
use edk2_arc.Base.{
  ℕ, ◌+◌, ◌-◌, ◌^◌, ◌≤◌, ◌<◌, ◌≡◌, refl, ◌⊎◌, inl, inr, le→ltb, lt→ltb, lt→leb, le→leb,
  if◌then◌else◌, u64, arith,
}
use edk2_arc.Sync.{cycle, delta, negate}

-- `k` ticks lead from one reading to the other, less than a whole round of the counter.
pub record Ticks (start end_ previous k current : ℕ) : Type 0 where
  pub low : ℕ
  pub span : ℕ
  pub short : span + 1 < 2 ^ 63
  pub fits : low + span < 2 ^ 64
  pub previous_in : (low ≤ previous) × (previous ≤ low + span)
  pub current_in : (low ≤ current) × (current ≤ low + span)
  pub less : k ≤ span
  pub moved :
      ((start ≡ low)
        × (end_ ≡ low + span)
        × ((current ≡ previous + k) ⊎ (current + (span + 1) ≡ previous + k)))
      ⊎ ((start ≡ low + span)
          × (end_ ≡ low)
          × (0 < span)
          × ((current + k ≡ previous) ⊎ (current + k ≡ previous + (span + 1))))

cycle_up :
    (low span : ℕ) → span + 1 < 2 ^ 63 → low + span < 2 ^ 64 → cycle low (low + span) ≡ span + 1
unfolding cycle
cycle_up low span h f = ground arith

cycle_down :
    (low span : ℕ) → span + 1 < 2 ^ 63 → low + span < 2 ^ 64 → cycle (low + span) low ≡ span + 1
unfolding cycle
cycle_down low span h f = ground arith

-- `Delta` is the number of ticks between the two readings, whether the counter runs up or down,
-- and whether or not it passed its end in between. The counter has less than 2 ^ 63 - 1 values
-- beyond its first, all of 64 bits, and less than one round lies between the readings.
pub delta_lem :
    (start end_ previous k current : ℕ)
    → Ticks start end_ previous k current
    → delta start end_ current previous ≡ k
unfolding delta
delta_lem start end_ previous k current t = elim (t.moved) [
  | inl (s, e, inl near) ↦
      let d : u64 (current + 2 ^ 64 - previous) ≡ k = omega arith in
      rw
        (
          s,
          e,
          le→ltb (t.low + t.span) t.low (omega arith),
          if◌then◌else◌,
          d,
          lt→leb (2 ^ 63) k (omega arith),
        )
        refl
  | inl (s, e, inr past) ↦
      let d : u64 (current + 2 ^ 64 - previous) ≡ 2 ^ 64 + k - (t.span + 1) = omega arith in
      rw
        (
          s,
          e,
          cycle_up t.low t.span t.short t.fits,
          le→ltb (t.low + t.span) t.low (omega arith),
          if◌then◌else◌,
          d,
          le→leb (2 ^ 63) (2 ^ 64 + k - (t.span + 1)) (omega arith),
        )
        (omega arith)
  | inr (s, e, pos, inl near) ↦
      let d : negate (u64 (current + 2 ^ 64 - previous)) ≡ k = omega arith in
      rw
        (
          s,
          e,
          lt→ltb t.low (t.low + t.span) (omega arith),
          if◌then◌else◌,
          d,
          lt→leb (2 ^ 63) k (omega arith),
        )
        refl
  | inr (s, e, pos, inr past) ↦
      let d : negate (u64 (current + 2 ^ 64 - previous)) ≡ 2 ^ 64 + k - (t.span + 1) =
        omega arith in
      rw
        (
          s,
          e,
          cycle_down t.low t.span t.short t.fits,
          lt→ltb t.low (t.low + t.span) (omega arith),
          if◌then◌else◌,
          d,
          le→leb (2 ^ 63) (2 ^ 64 + k - (t.span + 1)) (omega arith),
        )
        (omega arith)
]
