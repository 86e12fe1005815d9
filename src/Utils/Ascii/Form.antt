-- ===== src/Utils/Ascii/Form.antt =====
-- The form of the text of a GUID: which character may stand at which index of the buffer.
use edk2_arc.Base.{
  ℕ, zero, suc, ◌+◌, ◌/◌, ◌%◌, ◌≤◌, ◌<◌, ◌≡◌, refl, sym, ◌∙◌, Bool, true, List, [], ◌∷◌, ◌++◌,
  get_or, leb, ltb, ◌==◌, if◌then◌else◌, ◌&&◌, ◌||◌, not, passes_below, passes_below→pass,
  eq_of_test, arith,
}
use edk2_arc.Utils.Ascii.{Buf}
use edk2_arc.Utils.Ascii.Text.{hex_digit, hex2, hex4}
use edk2_arc.Utils.Ascii.Read.{hex_value, read_byte, read_word}

-- A digit, the letters in lower case.
abbrev pub is_hex : ℕ → Bool
is_hex c = leb b'0' c && leb c b'9' || leb b'a' c && leb c b'f'

abbrev pub is_hyphen : ℕ → Bool
is_hyphen j = j == 8 || j == 13 || j == 18 || j == 23

-- Hyphens, 32 digits, and 0 from the end of the string on.
abbrev pub stands_at : ℕ → ℕ → Bool
stands_at j c = if is_hyphen j then c == b'-' else if ltb j 36 then is_hex c else c == 0

abbrev pub IsText : Buf → Type 0
IsText str = (j : ℕ) → stands_at j (str j) ≡ true

-- All of the `n` characters from `at` on are digits.
abbrev pub digits : ℕ → ℕ → Bool
digits at zero = true
digits at (suc n) = not (is_hyphen at) && ltb at 36 && digits (at + 1) n

digit_here :
    (at n c : ℕ)
    → digits at (suc n) ≡ true
    → (stands_at at c ≡ is_hex c) × (digits (at + 1) n ≡ true)
digit_here at n c h = ground arith

pub end_zero : (j c : ℕ) → 36 ≤ j → stands_at j c ≡ true → c ≡ 0
end_zero j c h e = ground arith

zero_end : (j : ℕ) → 36 ≤ j → stands_at j 0 ≡ true
zero_end j h = ground arith

digit_table : passes_below (λ v. is_hex (hex_digit v)) 16 ≡ true
unfolding passes_below hex_digit
digit_table = refl

is_hex-hex_digit : (v : ℕ) → v < 16 → is_hex (hex_digit v) ≡ true
is_hex-hex_digit v h = passes_below→pass _ 16 digit_table v h

value_table :
    passes_below (λ c. not (is_hex c) || ltb (hex_value c) 16 && hex_digit (hex_value c) == c) 128
    ≡ true
unfolding passes_below hex_digit hex_value
value_table = refl

hex_digit-hex_value : (c : ℕ) → is_hex c ≡ true → (hex_value c < 16) × (hex_digit (hex_value c) ≡ c)
hex_digit-hex_value c h =
    let below : c < 128 = ground arith in
    let test = passes_below→pass _ 128 value_table c below in ground (arith, test)

halves : (at : ℕ) → digits at 4 ≡ true → (digits at 2 ≡ true) × (digits (at + 1 + 1) 2 ≡ true)
halves at h = ground arith

-- `cs` may stand from index `at` on, up to the end of the string.
pub data Stands : ℕ → List ℕ → Type 0 where
  ends : {at : ℕ} → at ≡ 37 → Stands at []
  goes : {at c : ℕ} {cs : List ℕ} → stands_at at c ≡ true → Stands (at + 1) cs → Stands at (c ∷ cs)

pub hex2-Stands :
    (b : ℕ) {at : ℕ} {cs : List ℕ}
    → b < 256
    → digits at 2 ≡ true
    → Stands (at + 1 + 1) cs
    → Stands at (hex2 b ++ cs)
hex2-Stands b {at} small places rest =
    let (high, later) = digit_here at 1 (hex_digit (b / 16)) places in
    let (low, no_more) = digit_here (at + 1) 0 (hex_digit (b % 16)) later in
    goes (high ∙ is_hex-hex_digit (b / 16) (omega arith))
      (goes (low ∙ is_hex-hex_digit (b % 16) (omega arith)) rest)

pub hex4-Stands :
    (x : ℕ) {at : ℕ} {cs : List ℕ}
    → digits at 4 ≡ true
    → Stands (at + 1 + 1 + 1 + 1) cs
    → Stands at (hex4 x ++ cs)
hex4-Stands x {at} places rest =
    let (front, back) = halves at places in
    hex2-Stands (x / 256 % 256) (omega arith) front (hex2-Stands (x % 256) (omega arith) back rest)

pub Stands-stands_at :
    (at : ℕ) (cs : List ℕ) (k : ℕ) → Stands at cs → stands_at (at + k) (get_or cs k 0) ≡ true
Stands-stands_at at [] k (ends end_) = zero_end (at + k) (omega (arith, end_))
Stands-stands_at at (c ∷ cs) zero (goes here rest) =
    let same : at + 0 ≡ at = omega arith in rw same here
Stands-stands_at at (c ∷ cs) (suc k) (goes here rest) =
    let same : at + 1 + k ≡ at + suc k = omega arith in
    rw same at (Stands-stands_at (at + 1) cs k rest)

-- `str` has `cs` from index `at` on, up to the end of the string.
pub data Holds (str : Buf) : ℕ → List ℕ → Type 0 where
  stops : {at : ℕ} → at ≡ 37 → Holds str at []
  has : {at c : ℕ} {cs : List ℕ} → c ≡ str at → Holds str (at + 1) cs → Holds str at (c ∷ cs)

module _ (str : Buf) (text : IsText str) where
  digit_at :
      (at n : ℕ)
      → digits at (suc n) ≡ true
      → (hex_value (str at) < 16) × (hex_digit (hex_value (str at)) ≡ str at)
  digit_at at n places =
      hex_digit-hex_value (str at) (sym (digit_here at n (str at) places).0 ∙ text at)

  pub hyphen_at : (at : ℕ) → is_hyphen at ≡ true → b'-' ≡ str at
  hyphen_at at place = sym (eq_of_test (str at) b'-' (hyphen (str at) (text at)))
    where
      hyphen : (c : ℕ) → stands_at at c ≡ true → (c == b'-') ≡ true
      hyphen c h = rw place at h

  read_byte_lem :
      (at : ℕ)
      → digits at 2 ≡ true
      → (read_byte str at < 256)
        × (hex_digit (read_byte str at / 16) ≡ str at)
        × (hex_digit (read_byte str at % 16) ≡ str (at + 1))
  read_byte_lem at places =
      let (h, hd) = digit_at at 1 places in
      let (l, ld) = digit_at (at + 1) 0 (digit_here at 1 0 places).1 in
      let q : read_byte str at / 16 ≡ hex_value (str at) = omega arith in
      let r : read_byte str at % 16 ≡ hex_value (str (at + 1)) = omega arith in
      (omega arith, rw q hd, rw r ld)

  pub read_byte_lt : (at : ℕ) → digits at 2 ≡ true → read_byte str at < 256
  read_byte_lt at places = (read_byte_lem at places).0

  pub read_word_lt : (at : ℕ) → digits at 4 ≡ true → read_word str at < 65536
  read_word_lt at places =
      let (front, back) = halves at places in
      let step : at + 1 + 1 ≡ at + 2 = omega arith in
      omega (arith, read_byte_lt at front, rw step at (read_byte_lt (at + 1 + 1) back))

  pub hex2-Holds :
      (b : ℕ) {at : ℕ} {cs : List ℕ}
      → b ≡ read_byte str at
      → digits at 2 ≡ true
      → Holds str (at + 1 + 1) cs
      → Holds str at (hex2 b ++ cs)
  hex2-Holds b {at} e places rest =
      let (small, first, second) = read_byte_lem at places in rw e (has first (has second rest))

  pub hex4-Holds :
      (x : ℕ) {at : ℕ} {cs : List ℕ}
      → x ≡ read_word str at
      → digits at 4 ≡ true
      → Holds str (at + 1 + 1 + 1 + 1) cs
      → Holds str at (hex4 x ++ cs)
  hex4-Holds x {at} e places rest =
      let (front, back) = halves at places in
      let step : at + 1 + 1 ≡ at + 2 = omega arith in
      let h = read_byte_lt at front in
      let l = rw step at (read_byte_lt (at + 1 + 1) back) in
      hex2-Holds (x / 256 % 256) (omega (arith, e, h, l)) front
        (hex2-Holds (x % 256) (rw step (omega (arith, e, h, l))) back rest)

  pub Holds-get_or : (at : ℕ) (cs : List ℕ) (k : ℕ) → Holds str at cs → get_or cs k 0 ≡ str (at + k)
  Holds-get_or at [] k (stops end_) =
      sym (end_zero (at + k) (str (at + k)) (omega (arith, end_)) (text (at + k)))
  Holds-get_or at (c ∷ cs) zero (has here rest) =
      let same : at + 0 ≡ at = omega arith in rw same here
  Holds-get_or at (c ∷ cs) (suc k) (has here rest) =
      let same : at + 1 + k ≡ at + suc k = omega arith in
      rw same at (Holds-get_or (at + 1) cs k rest)
