-- ===== src/Utils/Ascii/Text.antt =====
-- The text that a value should be printed as, written without the code's arithmetic, and a reader
-- for it.
use edk2_arc.Base.{
  ℕ, zero, suc, ◌+◌, ◌-◌, ◌/◌, ◌%◌, ◌≡◌, ◌≢◌, refl, ap, List, [], ◌∷◌, ◌++◌, get_or, update, ltb,
  if◌then◌else◌, arith, dec_lt,
}
use edk2_arc.Edk2.{Guid}
use edk2_arc.Utils.Ascii.{Buf}

abbrev hex_digits : List ℕ
hex_digits =
    b'0' ∷ b'1' ∷ b'2' ∷ b'3' ∷ b'4' ∷ b'5' ∷ b'6' ∷ b'7' ∷ b'8' ∷ b'9' ∷ b'a' ∷ b'b' ∷ b'c' ∷ b'd'
    ∷ b'e' ∷ b'f' ∷ []

unfoldable pub hex_digit : ℕ → ℕ
hex_digit n = get_or hex_digits n 0

-- Two digits for a byte, the high one first.
abbrev pub hex2 : ℕ → List ℕ
hex2 b = hex_digit (b / 16) ∷ hex_digit (b % 16) ∷ []

abbrev pub hex4 : ℕ → List ℕ
hex4 x = hex2 (x / 256 % 256) ++ hex2 (x % 256)

abbrev pub hex8 : ℕ → List ℕ
hex8 x = hex4 (x / 65536 % 65536) ++ hex4 (x % 65536)

abbrev pub data4_text : Guid → ℕ → List ℕ
data4_text g i = hex2 (get_or g.data4 i 0)

-- xxxxxxxx-xxxx-xxxx-xxxx-xxxxxxxxxxxx, and the end of the string.
unfoldable pub guid_text : Guid → List ℕ
guid_text g =
    hex8 g.data1
    ++ b'-'
      ∷ (hex4 g.data2
          ++ b'-'
            ∷ (hex4 g.data3
                ++ b'-'
                  ∷ (data4_text g 0
                      ++ (data4_text g 1
                          ++ b'-'
                            ∷ (data4_text g 2
                                ++ (data4_text g 3
                                    ++ (data4_text g 4
                                        ++ (data4_text g 5
                                            ++ (data4_text g 6
                                                ++ (data4_text g 7 ++ 0 ∷ []))))))))))

-- `xs` stored from index `at` on.
unfoldable pub write_list : Buf → ℕ → List ℕ → Buf
write_list str at [] = str
write_list str at (x ∷ xs) = write_list (update str at x) (at + 1) xs

-- Inside the list the buffer holds it; before and behind it the buffer is unchanged.
pub write_list_lem :
    (str : Buf) (at : ℕ) (xs : List ℕ) (j : ℕ)
    → write_list str at xs j ≡ (if ltb j at then str j else get_or xs (j - at) (str j))
unfolding write_list
write_list_lem str at [] j = ground arith
write_list_lem str at (x ∷ xs) j = elim (dec_lt j at) [
  | yes before ↦ ground (arith, write_list_lem (update str at x) (at + 1) xs j)
  | no inside ↦ ground (arith, write_list_lem (update str at x) (at + 1) xs j, step (j - at))
]
  where
    step : (k : ℕ) → k ≢ 0 → get_or (x ∷ xs) k (str j) ≡ get_or xs (k - 1) (str j)
    step zero ne = absurd (ne refl)
    step (suc k) ne = ap (λ i. get_or xs i (str j)) (omega arith)
