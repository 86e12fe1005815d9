-- ===== src/DxeIpl/Load.antt =====
-- What `PeiLoadPe32` and `PeiLoadFile` return.
use edk2_arc.Base.{
  ℕ, ◌+◌, ◌^◌, ◌≤◌, ◌<◌, ◌≡◌, ◌≢◌, refl, true, Option, none, some, List, length, not, ℕ_discrete,
  if◌then◌else◌, ◌>>=◌, ==_refl, ne→test,
}
use edk2_arc.Edk2.{Status, Mem, Platform, uintn}
use edk2_arc.Utils.Info.{align_addr}
use edk2_arc.Utils.Section.Layout.{Section, Sections, first_of_kind}
use edk2_arc.Utils.Section.Find.{InReach}
use edk2_arc.Pei.Ppi.{is_success}
use edk2_arc.Pei.Ffs.Data.{data_answer, pei_ffs_find_section_data_lem}
use edk2_arc.DxeIpl.{Image, Loaded, failed, variable, Unset, pei_load_pe32, pei_load_file}

module _ (p : Platform) (m : Mem) where
  -- The NT header of the image.
  abbrev pub nt_header : ℕ → ℕ
  nt_header a = uintn p (a + p.dos_lfanew m a)

  -- The three signatures of a PE32 image at an address.
  record IsPe32 (a : ℕ) : Type 0 where
    pub dos : p.dos_magic m a ≡ p.image_dos_signature
    pub nt : p.nt_signature m (nt_header a) ≡ p.image_nt_signature
    pub optional : p.optional_magic m (nt_header a) ≡ p.image_hdr32_magic

  -- The image where it stands: it runs in place.
  abbrev pub image_at : ℕ → Image
  image_at a = record {
    address = a;
    size = p.size_of_image m (nt_header a);
    entry_point = uintn p (p.pe_entry_point m (nt_header a) + a);
  }

  pei_load_pe32_good :
      (a : ℕ)
      → IsPe32 a
      → pei_load_pe32 p m a ≡ record { status = Status.success; image = some (image_at a) }
  unfolding pei_load_pe32
  pei_load_pe32_good a h =
      rw
        (
          h.dos,
          h.nt,
          h.optional,
          ==_refl p.image_dos_signature,
          ==_refl p.image_nt_signature,
          ==_refl p.image_hdr32_magic,
        )
        refl

  pei_load_pe32_bad : (a : ℕ) → ¬ IsPe32 a → pei_load_pe32 p m a ≡ failed Status.load_error
  unfolding pei_load_pe32
  pei_load_pe32_bad a h = elim (ℕ_discrete (p.dos_magic m a) p.image_dos_signature) [
    | no bad ↦ rw (ne→test (p.dos_magic m a) p.image_dos_signature bad) refl
    | yes dos ↦ elim (ℕ_discrete (p.nt_signature m (nt_header a)) p.image_nt_signature) [
      | no bad ↦
          rw
            (
              dos,
              ==_refl p.image_dos_signature,
              ne→test (p.nt_signature m (nt_header a)) p.image_nt_signature bad,
            )
            refl
      | yes nt ↦ elim (ℕ_discrete (p.optional_magic m (nt_header a)) p.image_hdr32_magic) [
        | no bad ↦
            rw
              (
                dos,
                ==_refl p.image_dos_signature,
                nt,
                ==_refl p.image_nt_signature,
                ne→test (p.optional_magic m (nt_header a)) p.image_hdr32_magic bad,
              )
              refl
        | yes optional ↦ absurd (h (record { dos = dos; nt = nt; optional = optional }))
      ]
    ]
  ]

  -- `PeiLoadPe32` takes exactly the images whose three signatures are right: for those it stores the
  -- address, the size and the entry point of the image where it stands and returns EFI_SUCCESS; for
  -- all else it stores nothing and returns EFI_LOAD_ERROR.
  pei_load_pe32_lem :
      (a : ℕ)
      → (IsPe32 a
          → pei_load_pe32 p m a ≡ record { status = Status.success; image = some (image_at a) })
        × (¬ IsPe32 a → pei_load_pe32 p m a ≡ failed Status.load_error)
  pei_load_pe32_lem a = (pei_load_pe32_good a, pei_load_pe32_bad a)

  -- The load of a file by the address of its PE32 section, `none` if it has none.
  abbrev pub load_answer : Option ℕ → Loaded
  load_answer none = failed Status.not_found
  load_answer (some q) = pei_load_pe32 p m (uintn p (q + p.sizeof_section))

  -- `PeiLoadFile` looks for the PE32 section in the file and loads what lies behind the section's
  -- header; without such a section it returns EFI_NOT_FOUND. The sections stand one behind the
  -- other up to the end of the file, and the fuel is more than their number. The file is not NULL,
  -- and it is in reach of a pointer.
  pub pei_load_file_lem :
      (unset : Unset) (fuel file stop : ℕ) (ss : List Section)
      → InReach p (file + p.file_size m file)
      → file ≢ 0
      → file + p.sizeof_file < 2 ^ p.uintn_bits
      → length ss < fuel
      → Sections p m (file + p.file_size m file) (align_addr (file + p.sizeof_file) 4) ss stop
      → file + p.file_size m file ≤ stop
      → pei_load_file p m unset fuel true file
        ≡ some (load_answer (first_of_kind p.section_pe32 (align_addr (file + p.sizeof_file) 4) ss))
  unfolding pei_load_file
  pei_load_file_lem unset fuel file stop ss r ne room h c e =
      rw
        (pei_ffs_find_section_data_lem p m unset.info fuel p.section_pe32 file unset.pe32_data stop
          ss r ne room h c e)
        (stored (first_of_kind p.section_pe32 (align_addr (file + p.sizeof_file) 4) ss))
    where
      stored :
          (o : Option ℕ)
          → (some (data_answer o) >>= λ r.
              if not (is_success r.status)
              then some (failed r.status)
              else some (
                  pei_load_pe32 p m
                    (uintn p (variable unset.pe32_data r.handle + p.sizeof_section))))
            ≡ some (load_answer o)
      stored none = refl
      stored (some q) = refl
