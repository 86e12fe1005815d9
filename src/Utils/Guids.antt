-- ===== src/Utils/Guids.antt =====
-- `CompareGuids`: the 16 bytes of a GUID read as two UINT64 words, the low byte first.
use edk2_arc.Base.{
  ℕ, suc, ◌+◌, ◌*◌, ◌^◌, ◌<◌, ◌≡◌, refl, sym, ap₂, ◌∙◌, ◌↔◌, Bool, true, ◌&&◌, List, [], ◌∷◌,
  length, get_or, eight_bytes, ◌==◌, arith,
}
use edk2_arc.Edk2.{Guid, IsGuid}

-- `((UINT64 *) Guid)[0]` and `[1]` on a little-endian processor.
unfoldable pub first_word : Guid → ℕ
first_word g = g.data1 + g.data2 * 2 ^ 32 + g.data3 * 2 ^ 48

unfoldable pub second_word : Guid → ℕ
second_word g =
    get_or g.data4 0 0
    + get_or g.data4 1 0 * 2 ^ 8
    + get_or g.data4 2 0 * 2 ^ 16
    + get_or g.data4 3 0 * 2 ^ 24
    + get_or g.data4 4 0 * 2 ^ 32
    + get_or g.data4 5 0 * 2 ^ 40
    + get_or g.data4 6 0 * 2 ^ 48
    + get_or g.data4 7 0 * 2 ^ 56

unfoldable pub compare_guids : Guid → Guid → Bool
compare_guids a b = first_word a == first_word b && second_word a == second_word b

pub compare_guids_refl : (g : Guid) → compare_guids g g ≡ true
unfolding compare_guids
compare_guids_refl g = ground arith

-- A word of bytes determines its low byte and the word of the others.
low_byte_eq : (x y a b : ℕ) → x < 256 → y < 256 → x + a * 256 ≡ y + b * 256 → (x ≡ y) × (a ≡ b)
low_byte_eq x y a b hx hy e = (omega arith, omega arith)

-- The word of the bytes of `xs` from the first on.
abbrev word_of : List ℕ → ℕ
word_of [] = 0
word_of (x ∷ xs) = x + word_of xs * 256

word_of-injective :
    (xs ys : List ℕ)
    → length xs ≡ length ys
    → ((i : ℕ) → get_or xs i 0 < 256)
    → ((i : ℕ) → get_or ys i 0 < 256)
    → word_of xs ≡ word_of ys
    → xs ≡ ys
word_of-injective [] [] l hx hy e = refl
word_of-injective [] (y ∷ ys) l hx hy e = absurd (omega arith)
word_of-injective (x ∷ xs) [] l hx hy e = absurd (omega arith)
word_of-injective (x ∷ xs) (y ∷ ys) l hx hy e =
    let (head, rest) = low_byte_eq x y (word_of xs) (word_of ys) (hx 0) (hy 0) e in
    ap₂ ◌∷◌ head (word_of-injective xs ys (omega arith) (λ i. hx (suc i)) (λ i. hy (suc i)) rest)

second_word_of_data4 : (g : Guid) → IsGuid g → second_word g ≡ word_of g.data4
unfolding second_word
second_word_of_data4 g h = rw (← eight_bytes g.data4 h.eight) (omega arith)

first_word-injective :
    (a b : Guid)
    → IsGuid a
    → IsGuid b
    → first_word a ≡ first_word b
    → (a.data1 ≡ b.data1) × (a.data2 ≡ b.data2) × (a.data3 ≡ b.data3)
unfolding first_word
first_word-injective a b ha hb e = (omega arith, omega arith, omega arith)

same_words :
    (a b : Guid)
    → compare_guids a b ≡ true
    → (first_word a ≡ first_word b) × (second_word a ≡ second_word b)
unfolding compare_guids
same_words a b h = ground arith

-- `CompareGuids` answers TRUE exactly on equal GUIDs.
compare_guids_iff : (a b : Guid) → IsGuid a → IsGuid b → (compare_guids a b ≡ true) ↔ (a ≡ b)
unfolding compare_guids
compare_guids_iff a b ha hb = (forward, λ e. rw e (ground arith))
  where
    forward : compare_guids a b ≡ true → a ≡ b
    forward h =
        let (first, second) = same_words a b h in
        let fields = first_word-injective a b ha hb first in
        let bytes : a.data4 ≡ b.data4 =
          word_of-injective a.data4 b.data4 (ha.eight ∙ sym hb.eight) ha.bytes_fit hb.bytes_fit
            (sym (second_word_of_data4 a ha) ∙ second ∙ second_word_of_data4 b hb) in
        ground (arith, fields, bytes)
