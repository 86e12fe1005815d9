-- ===== src/Sec/Header.antt =====
-- The copies of the volume's header that SecMain makes on its stack.
use edk2_arc.Base.{
  ℕ, ◌+◌, ◌*◌, ◌≤◌, ◌<◌, ◌≡◌, refl, ◌↔◌, true, ltb, lt→ltb, le→ltb, dec_lt, if◌then◌else◌, ◌∙◌,
  arith,
}
use edk2_arc.Edk2.{Guid, Mem, Platform}
use edk2_arc.Sec.{SecLib, SecPcd, header_length, boot_fv_hdr, boot_fv}

-- What the libraries document, and that the fields of the header up to HeaderLength, which are its
-- first 50 bytes, stand there in EFI_FIRMWARE_VOLUME_HEADER too.
pub record IsSecLib (p : Platform) (lib : SecLib) : Type 0 where
  pub copies :
      (dst src : ℕ → ℕ) (n i : ℕ) → lib.copy_mem dst src n i ≡ (if ltb i n then src i else dst i)
  pub compares : (a b : Guid) → (lib.compare_guid a b ≡ true) ↔ (a ≡ b)
  pub whole : 50 ≤ lib.sizeof_fv_header
  pub fields :
      (b m : Mem) (base : ℕ)
      → ((i : ℕ) → i < 50 → b i ≡ m (base + i))
      → (lib.fv_signature b 0 ≡ lib.fv_signature m base)
        × (lib.fv_file_system_guid b 0 ≡ lib.fv_file_system_guid m base)
        × (p.fv_length b 0 ≡ p.fv_length m base)

-- HeaderLength of the volume in flash.
abbrev pub flash_header_length : SecPcd → Mem → ℕ
flash_header_length pcd m = m (pcd.boot_fv_base + 48) + 256 * m (pcd.boot_fv_base + 49)

module _ (p : Platform) (lib : SecLib) (pcd : SecPcd) (laws : IsSecLib p lib) (m : Mem)
    (stack stack' : ℕ → ℕ) where
  hdr-eq-flash : (i : ℕ) → i < 50 → boot_fv_hdr p lib pcd m stack i ≡ m (pcd.boot_fv_base + i)
  unfolding boot_fv_hdr
  hdr-eq-flash i h =
      laws.copies stack (λ j. m (pcd.boot_fv_base + j)) lib.sizeof_fv_header i
      ∙ rw (lt→ltb i lib.sizeof_fv_header (omega (arith, laws.whole))) refl

  header_length_lem : header_length (boot_fv_hdr p lib pcd m stack) ≡ flash_header_length pcd m
  unfolding header_length
  header_length_lem = rw (hdr-eq-flash 48 (omega arith), hdr-eq-flash 49 (omega arith)) refl

  -- The first 50 bytes arrive in the second copy, if the length covers them.
  pub boot_fv-eq-flash :
      50 ≤ flash_header_length pcd m
      → (i : ℕ) → i < 50
      → boot_fv p lib pcd m stack stack' i ≡ m (pcd.boot_fv_base + i)
  unfolding boot_fv
  boot_fv-eq-flash covered i h =
      laws.copies stack' (boot_fv_hdr p lib pcd m stack)
        (header_length (boot_fv_hdr p lib pcd m stack)) i
      ∙ rw (header_length_lem, lt→ltb i (flash_header_length pcd m) (omega arith), if◌then◌else◌)
          (hdr-eq-flash i h)

  copied_byte :
      (i : ℕ)
      → boot_fv p lib pcd m stack stack' i
        ≡ (if ltb i (flash_header_length pcd m) then boot_fv_hdr p lib pcd m stack i else stack' i)
  unfolding boot_fv
  copied_byte i =
      laws.copies stack' (boot_fv_hdr p lib pcd m stack)
        (header_length (boot_fv_hdr p lib pcd m stack)) i
      ∙ rw header_length_lem refl

module _ (p : Platform) (lib : SecLib) (pcd : SecPcd) (laws : IsSecLib p lib) (m : Mem)
    (stack : ℕ → ℕ) where
  -- The second copy leaves what stands on the stack behind the local `BootFv`, of `size` bytes, as it
  -- was, whatever that is, exactly if HeaderLength in flash is at most `size`.
  pub boot_fv_kept_iff :
      (size : ℕ)
      → ((stack' : ℕ → ℕ) (i : ℕ) → size ≤ i → boot_fv p lib pcd m stack stack' i ≡ stack' i)
        ↔ (flash_header_length pcd m ≤ size)
  boot_fv_kept_iff size = (
    (λ kept. elim (dec_lt size (flash_header_length pcd m)) [
      | no fits ↦ omega arith
      | yes over ↦
          let other : ℕ → ℕ = λ i. boot_fv_hdr p lib pcd m stack i + 1 in
          let copied = copied_byte p lib pcd laws m stack other size in
          let same : boot_fv p lib pcd m stack other size ≡ boot_fv_hdr p lib pcd m stack size =
            copied ∙ rw (lt→ltb size (flash_header_length pcd m) over) refl in
          absurd (omega (arith, same, kept other size (omega arith)))
    ]),
    (λ fits stack' i behind.
        copied_byte p lib pcd laws m stack stack' i
        ∙ rw (le→ltb i (flash_header_length pcd m) (omega arith)) refl),
  )
