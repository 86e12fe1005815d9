-- ===== src/Utils/Ascii/Exact.antt =====
-- `GuidToAsciiStr` between the GUIDs and the texts of the form.
use edk2_arc.Base.{
  ℕ, zero, suc, ◌+◌, ◌-◌, ◌*◌, ◌/◌, ◌%◌, ◌<◌, ◌≡◌, refl, sym, ap, ◌∙◌, fun_ext, true, false,
  if◌then◌else◌, List, [], ◌∷◌, ◌++◌, get_or, ltb, arith,
}
use mathlib.Core.Equiv.{IsEquiv, iso_to_equiv}
use mathlib.Core.HLevel.{Σ_prop_path}
use native.Mathlib.Bridge.{le_prop}
use edk2_arc.Edk2.{Guid, IsGuid}
use edk2_arc.Utils.Ascii.{Buf, guid_to_ascii_str}
use edk2_arc.Utils.Ascii.Text.{guid_text, hex2, hex4, data4_text, write_list_lem}
use edk2_arc.Utils.Ascii.Print.{guid_to_ascii_str_lem}
use edk2_arc.Utils.Ascii.Read.{guid_of_ascii, read_byte, read_word, guid_of_ascii-guid_to_ascii_str}
use edk2_arc.Utils.Ascii.Form.{
  IsText, is_hyphen, hyphen_at, end_zero, digits, goes, ends, has, stops, hex4-Stands, hex4-Holds,
  read_byte_lt, read_word_lt, Stands, hex2-Stands, Stands-stands_at, Holds, hex2-Holds,
  Holds-get_or,
}

IsText-prop : (str : Buf) → IsProp (IsText str)
IsText-prop str = hlevel

IsGuid-prop : (g : Guid) → IsProp (IsGuid g)
IsGuid-prop g = hlevel (le_prop)

-- A GUID in the ranges of its fields.
abbrev Guids : Type 0
Guids = (g : Guid) × IsGuid g

-- A buffer that holds a text of the form, and 0 behind it.
abbrev Texts : Type 0
Texts = (str : Buf) × IsText str

abbrev cleared : Buf
cleared i = 0

printed_at :
    (g : Guid) → IsGuid g → (j : ℕ) → guid_to_ascii_str g cleared j ≡ get_or (guid_text g) j 0
printed_at g h j =
    let from_start : j - 0 ≡ j = omega arith in
    let below : ltb j 0 ≡ false = ground arith in
    ap (λ s. s j) (guid_to_ascii_str_lem g cleared h)
    ∙ write_list_lem cleared 0 (guid_text g) j
    ∙ rw (below, if◌then◌else◌, from_start) refl

text_Stands : (g : Guid) → IsGuid g → Stands 0 (guid_text g)
unfolding guid_text
text_Stands g h = hex4-Stands (g.data1 / 65536 % 65536) refl (
    hex4-Stands (g.data1 % 65536) refl (
      goes refl (
        hex4-Stands g.data2 refl (
          goes refl
            (hex4-Stands g.data3 refl (goes refl (pair 0 refl (pair 1 refl (goes refl tail)))))))))
  where
    pair :
        (i : ℕ) {at : ℕ} {cs : List ℕ}
        → digits at 2 ≡ true
        → Stands (at + 1 + 1) cs
        → Stands at (data4_text g i ++ cs)
    pair i places rest = hex2-Stands (get_or g.data4 i 0) (h.bytes_fit i) places rest

    tail : Stands 24 (
        data4_text g 2
        ++ (data4_text g 3
            ++ (data4_text g 4
                ++ (data4_text g 5 ++ (data4_text g 6 ++ (data4_text g 7 ++ 0 ∷ []))))))
    tail = pair 2 refl (
        pair 3 refl (pair 4 refl (pair 5 refl (pair 6 refl (pair 7 refl (goes refl (ends refl)))))))

printed-IsText : (g : Guid) → IsGuid g → IsText (guid_to_ascii_str g cleared)
printed-IsText g h j =
    let same : 0 + j ≡ j = omega arith in
    rw (printed_at g h j) (rw same at (Stands-stands_at 0 (guid_text g) j (text_Stands g h)))

abbrev print : Guids → Texts
print (g, h) = (guid_to_ascii_str g cleared, printed-IsText g h)

abbrev AllBytes : List ℕ → Type 0
AllBytes [] = Unit
AllBytes (x ∷ xs) = (x < 256) × AllBytes xs

get_or-AllBytes : (xs : List ℕ) (i : ℕ) → AllBytes xs → get_or xs i 0 < 256
get_or-AllBytes [] i h = omega arith
get_or-AllBytes (x ∷ xs) zero (h, hs) = h
get_or-AllBytes (x ∷ xs) (suc i) (h, hs) = get_or-AllBytes xs i hs

module _ (str : Buf) (text : IsText str) where
  byte : (at : ℕ) → digits at 2 ≡ true → read_byte str at < 256
  byte = read_byte_lt str text

  data4-AllBytes : AllBytes (guid_of_ascii str).data4
  unfolding guid_of_ascii
  data4-AllBytes = (
    byte 19 refl,
    (
      byte 21 refl,
      (
        byte 24 refl,
        (byte 26 refl, (byte 28 refl, (byte 30 refl, (byte 32 refl, (byte 34 refl, tt))))),
      ),
    ),
  )

  read-IsGuid : IsGuid (guid_of_ascii str)
  unfolding guid_of_ascii
  read-IsGuid = record {
    data1_fits = omega (arith, read_word_lt str text 0 refl, read_word_lt str text 4 refl);
    data2_fits = read_word_lt str text 9 refl;
    data3_fits = read_word_lt str text 14 refl;
    eight = refl;
    bytes_fit = λ i. get_or-AllBytes (guid_of_ascii str).data4 i data4-AllBytes;
  }

  read-Holds : Holds str 0 (guid_text (guid_of_ascii str))
  unfolding guid_of_ascii guid_text
  read-Holds =
      let low = read_word_lt str text 4 refl in
      let high = read_word_lt str text 0 refl in
      word 0 ((read_word str 0 * 65536 + read_word str 4) / 65536 % 65536) (omega arith) refl (
        word 4 ((read_word str 0 * 65536 + read_word str 4) % 65536) (omega arith) refl (
          hyphen 8 refl (
            word 9 (read_word str 9) refl refl (
              hyphen 13 refl (
                word 14 (read_word str 14) refl refl
                  (hyphen 18 refl (pair 19 refl (pair 21 refl (hyphen 23 refl tail)))))))))
    where
      word :
          (at x : ℕ) {cs : List ℕ}
          → x ≡ read_word str at
          → digits at 4 ≡ true
          → Holds str (at + 1 + 1 + 1 + 1) cs
          → Holds str at (hex4 x ++ cs)
      word at x e places rest = hex4-Holds str text x e places rest

      pair :
          (at : ℕ) {cs : List ℕ}
          → digits at 2 ≡ true
          → Holds str (at + 1 + 1) cs
          → Holds str at (hex2 (read_byte str at) ++ cs)
      pair at places rest = hex2-Holds str text (read_byte str at) refl places rest

      hyphen :
          (at : ℕ) {cs : List ℕ}
          → is_hyphen at ≡ true
          → Holds str (at + 1) cs
          → Holds str at (b'-' ∷ cs)
      hyphen at place rest = has (hyphen_at str text at place) rest

      tail : Holds str 24 (
          hex2 (read_byte str 24)
          ++ (hex2 (read_byte str 26)
              ++ (hex2 (read_byte str 28)
                  ++ (hex2 (read_byte str 30)
                      ++ (hex2 (read_byte str 32) ++ (hex2 (read_byte str 34) ++ 0 ∷ []))))))
      tail = pair 24 refl (
          pair 26 refl (
            pair 28 refl (
              pair 30 refl (
                pair 32 refl (
                  pair 34 refl
                    (has (sym (end_zero 36 (str 36) (omega arith) (text 36))) (stops refl)))))))

  print-read : guid_to_ascii_str (guid_of_ascii str) cleared ≡ str
  print-read = fun_ext λ j.
      let same : 0 + j ≡ j = omega arith in
      printed_at (guid_of_ascii str) read-IsGuid j
      ∙ rw same at (Holds-get_or str text 0 (guid_text (guid_of_ascii str)) j read-Holds)

abbrev read : Texts → Guids
read (str, text) = (guid_of_ascii str, read-IsGuid str text)

-- GuidToAsciiStr makes one text of each GUID and each text of one GUID: into a buffer that holds 0
-- it is an equivalence between the GUIDs whose fields are in their ranges and the texts of the
-- form xxxxxxxx-xxxx-xxxx-xxxx-xxxxxxxxxxxx, with the letters of the digits in lower case and the
-- end of the string behind them.
print-IsEquiv : IsEquiv print
print-IsEquiv =
    (iso_to_equiv (record {
      fun = print;
      inv = read;
      rinv = λ (str, text). Σ_prop_path IsText-prop (print-read str text);
      linv = λ (g, h). Σ_prop_path IsGuid-prop (guid_of_ascii-guid_to_ascii_str g cleared h);
    })).1
