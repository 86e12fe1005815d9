-- ===== src/Utils/Log.antt =====
-- LOG of Platform/ARC/Include/Library/UtilsLib.h: a formatted line on the serial port.
use edk2_arc.Base.{
  ℕ, ◌-◌, ◌≤◌, ◌<◌, ◌≡◌, ◌≢◌, refl, Bool, true, false, Option, some, ◌>>=◌, List, ◌++◌, length,
  take, length-take_le, ℕ_discrete, u8, ne→test, if◌then◌else◌, ap, ◌∙◌, sym, arith,
}
use mathlib.Core.List.{append-nil}
use edk2_arc.Edk2.{Mem}
use edk2_arc.Serial.{Bus, Pcd, fifo_size, get_serial_register_base, serial_port_write}
use edk2_arc.Serial.Poll.{IsUart, flush-ends}
use edk2_arc.Serial.Write.{bytes_at, serial_port_write_lem}

abbrev pub max_str_len : ℕ
max_str_len = 256

-- `Str_` is at the address `str`, and `StrLen_` is a UINT8. `ascii_sprint` is AsciiSPrint for the
-- format and the arguments: from the buffer's address and size and the memory, the count and the
-- memory afterwards. LOG is empty without VERBOSE.
unfoldable pub log :
    {S : Type 0} → Bus S → Pcd → (ℕ → ℕ → Mem → ℕ × Mem) → Bool → Mem → ℕ → ℕ → ℕ → S → Option S
log bus pcd ascii_sprint false m fuel rounds str s = some s
log bus pcd ascii_sprint true m fuel rounds str s =
    let r = ascii_sprint str max_str_len m in
    serial_port_write bus pcd r.1 fuel rounds str (u8 r.0) s >>= λ (_, s'). some s'

-- What PrintLib documents of AsciiSPrint, for a buffer of MAX_STR_LEN: it stores the text, as far
-- as it fits before the NUL, and returns the number of characters before the NUL.
pub record IsPrinter (ascii_sprint : ℕ → ℕ → Mem → ℕ × Mem) (text : List ℕ) : Type 0 where
  pub count :
      (str : ℕ) (m : Mem)
      → (ascii_sprint str max_str_len m).0 ≡ length (take (max_str_len - 1) text)
  pub stored :
      (str : ℕ) (m : Mem)
      → bytes_at (ascii_sprint str max_str_len m).1 str (length (take (max_str_len - 1) text))
        ≡ take (max_str_len - 1) text

-- SerialPortWrite also of no bytes.
write-sends :
    {S : Type 0} (bus : Bus S) (pcd : Pcd) (uart : IsUart bus pcd pcd.register_base) (m : Mem)
    (fuel rounds buffer bytes : ℕ) (s : S)
    → uart.longest < fuel
    → bytes < rounds
    → buffer ≢ 0
    → pcd.register_base ≢ 0
    → 0 < fifo_size bus pcd
    → fifo_size bus pcd ≤ uart.depth
    → (n : ℕ) × (s' : S) × (serial_port_write bus pcd m fuel rounds buffer bytes s ≡ some (n, s'))
      × (uart.sent s' ≡ uart.sent s ++ bytes_at m buffer bytes)
unfolding serial_port_write get_serial_register_base
write-sends bus pcd uart m fuel rounds buffer bytes s patient h nb base_set places fits =
    elim (ℕ_discrete bytes 0) [
      | no some_bytes ↦
          let (s', e, sends) =
            serial_port_write_lem bus pcd uart m fuel rounds buffer bytes s patient h nb base_set
              some_bytes places fits in
          (bytes, s', e, sends)
      | yes nothing ↦
          let (s', e, same, none_queued) =
            flush-ends bus pcd pcd.register_base uart fuel s patient in
          (
            0,
            s',
            rw
                (
                  ne→test buffer 0 nb,
                  if◌then◌else◌,
                  ne→test pcd.register_base 0 base_set,
                  nothing,
                  e,
                  ◌>>=◌,
                )
                refl,
            rw nothing (same ∙ sym (append-nil (uart.sent s))),
          )
    ]

-- With VERBOSE, LOG sends the formatted text on the serial port: all of it in order if it has at
-- most 255 characters, and otherwise the first 255; the count that AsciiSPrint returns is not cut
-- by its UINT8. AsciiSPrint does what it documents, the UART gets ready in time, the string and
-- the base address are not NULL, the FIFO has a place and as many as the driver takes it to have,
-- and the fuel of the outer loop is for 255 characters.
pub log_lem :
    {S : Type 0} (bus : Bus S) (pcd : Pcd) (uart : IsUart bus pcd pcd.register_base)
    (ascii_sprint : ℕ → ℕ → Mem → ℕ × Mem) (text : List ℕ) (m : Mem) (fuel rounds str : ℕ) (s : S)
    → IsPrinter ascii_sprint text
    → uart.longest < fuel
    → 256 ≤ rounds
    → str ≢ 0
    → pcd.register_base ≢ 0
    → 0 < fifo_size bus pcd
    → fifo_size bus pcd ≤ uart.depth
    → (s' : S) × (log bus pcd ascii_sprint true m fuel rounds str s ≡ some s')
      × (uart.sent s' ≡ uart.sent s ++ take 255 text)
unfolding log
log_lem bus pcd uart ascii_sprint text m fuel rounds str s prints patient room there base_set places
      fits =
    let r = ascii_sprint str max_str_len m in
    let short = length-take_le 255 text in
    let kept : u8 r.0 ≡ length (take 255 text) = rw (prints.count str m) (omega arith) in
    let (n, s', e, sends) =
      write-sends bus pcd uart r.1 fuel rounds str (u8 r.0) s patient (omega arith) there base_set
        places fits in
    (s', rw (e, ◌>>=◌) refl, sends ∙ ap (λ l. uart.sent s ++ l) (rw kept (prints.stored str m)))
