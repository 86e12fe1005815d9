-- ===== src/Serial/Divisor.antt =====
-- The divisor of the baud rate.
use edk2_arc.Base.{
  ℕ, ◌+◌, ◌*◌, ◌/◌, ◌%◌, ◌^◌, ◌≤◌, ◌<◌, ◌≡◌, refl, inl, inr, Bool, true, false, leb, leb→lt,
  if◌then◌else◌, Bool-cases, u32, arith,
}
use edk2_arc.Serial.{divisor}
use native.Mathlib.Nat.{div-add-mod', mod-lt, mul-le-mul_left, add-mul}

-- Rounding a quotient, for the product `m` of the quotient and the divisor `n`.
rounded :
    (n b m r : ℕ) (up : Bool)
    → n ≡ b * 16
    → r < n
    → leb (b * 8) r ≡ up
    → ((if up then m + n else m) ≤ m + r + b * 8) × (m + r ≤ (if up then m + n else m) + b * 8)
rounded n b m r true e less h = (omega (arith, ltb_or b r h), omega arith)
  where
    ltb_or : (b r : ℕ) → leb (b * 8) r ≡ true → b * 8 ≤ r
    ltb_or b r h = ground arith
rounded n b m r false e less h = (omega arith, omega (arith, leb→lt (b * 8) r h))

-- The divisor of SerialPortInitialize is the clock rate over 16 times the baud rate, rounded to the
-- nearest number: it is wrong by half a unit at most. The rates are in range, and the baud rate is
-- not 0.
pub divisor_nearest :
    (clock baud : ℕ)
    → 0 < baud
    → baud * 16 < 2 ^ 32
    → clock < 2 ^ 32
    → (divisor clock baud * (baud * 16) ≤ clock + baud * 8)
      × (clock ≤ divisor clock baud * (baud * 16) + baud * 8)
unfolding divisor
divisor_nearest clock baud pos fits small =
    let n : u32 (baud * 16) ≡ baud * 16 = omega arith in
    let h : u32 (baud * 8) ≡ baud * 8 = omega arith in
    let q : clock / (baud * 16) * (baud * 16) + clock % (baud * 16) ≡ clock =
      div-add-mod' clock (baud * 16) in
    let less : clock % (baud * 16) < baud * 16 = mod-lt clock (omega arith) in
    let at_least : 16 ≤ baud * 16 = omega arith in
    let small_quotient : clock / (baud * 16) * 16 ≤ clock =
      omega (arith, q, mul-le-mul_left (clock / (baud * 16)) at_least) in
    rw (n, h)
      (elim (Bool-cases (leb (baud * 8) (clock % (baud * 16)))) [
        | inl up ↦
            let no_wrap : u32 (clock / (baud * 16) + 1) ≡ clock / (baud * 16) + 1 = omega arith in
            let one_more : (clock / (baud * 16) + 1) * (baud * 16)
                ≡ clock / (baud * 16) * (baud * 16) + baud * 16 =
              omega (arith, add-mul (clock / (baud * 16)) 1 (baud * 16)) in
            rw (up, if◌then◌else◌, no_wrap, one_more)
              (let r =
                  rounded (baud * 16) baud (clock / (baud * 16) * (baud * 16)) (clock % (baud * 16))
                    true refl less up in
                (omega (arith, q, r.0), omega (arith, q, r.1)))
        | inr down ↦ rw down (
            let r =
              rounded (baud * 16) baud (clock / (baud * 16) * (baud * 16)) (clock % (baud * 16))
                false refl less down in
            (omega (arith, q, r.0), omega (arith, q, r.1)))
      ])
