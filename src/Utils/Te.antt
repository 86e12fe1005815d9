-- ===== src/Utils/Te.antt =====
-- The entry point that `GetTeEntryPoint` computes.
use edk2_arc.Base.Bits.{bit_and_ones}
use edk2_arc.Base.{
  List, length, ℕ, ◌+◌, ◌-◌, ◌^◌, ◌<◌, ◌≤◌, ◌≡◌, ◌≢◌, refl, Option, some, ℕ_discrete, arith,
}
use edk2_arc.Edk2.{Guid, Mem, Platform, uintn_of_lt, uintn_sub}
use edk2_arc.Utils.Info.{StatusInfo, align_addr}
use edk2_arc.Utils.Section.{Found, found, null}
use edk2_arc.Utils.Section.Layout.{Section, first_of_kind}
use edk2_arc.Utils.Section.Find.{InReach}
use edk2_arc.Utils.Volume.{te_entry, get_te_entry_point, get_file_section, volume_end, first_file}
use edk2_arc.Utils.Volume.Layout.{File, is_wanted, Files, Hit, first_hit}
use edk2_arc.Utils.Volume.Find.{IsBody}
use edk2_arc.Utils.Volume.Behind.{aimed_answer, get_file_section-moved}

module _ (p : Platform) (m : Mem) where
  -- The TE header stands behind the section's.
  abbrev pub te_header : ℕ → ℕ
  te_header section = section + p.sizeof_section

  -- A TE image whose sizes make sense for where it stands: its stripped headers would not begin
  -- below address 0, and its entry point is in reach.
  pub record IsTe (section : ℕ) : Type 0 where
    pub header : te_header section < 2 ^ p.uintn_bits
    pub stripped : p.te_stripped_size m (te_header section) ≤ te_header section
    pub entry : p.sizeof_te + p.te_entry_point m (te_header section) < 2 ^ 32
    pub in_reach :
        te_header section + (p.sizeof_te + p.te_entry_point m (te_header section))
        < 2 ^ p.uintn_bits

  te_entry_lem :
      (section : ℕ)
      → IsTe section
      → te_entry p m section + p.te_stripped_size m (te_header section)
        ≡ te_header section + (p.sizeof_te + p.te_entry_point m (te_header section))
  unfolding te_entry
  te_entry_lem section h =
      rw
        (
          uintn_of_lt p (te_header section) h.header,
          uintn_sub p (te_header section) (p.te_stripped_size m (te_header section)) h.stripped
              h.header,
          bit_and_ones 32 0xffff_ffff (p.sizeof_te + p.te_entry_point m (te_header section)) refl
              h.entry,
          uintn_of_lt p
              (te_header section
                - p.te_stripped_size m (te_header section)
                + (p.sizeof_te + p.te_entry_point m (te_header section)))
              (omega arith),
        )
        (omega arith)

  -- Where `GetFileSection` finds a TE section, `GetTeEntryPoint` returns, with the same status,
  -- the address of the TE header, less the stripped size, plus the size of the TE header and the
  -- image's entry offset; where it returns NULL, so does `GetTeEntryPoint`, with the same status.
  -- The addresses that are computed from the TE header are in reach of a pointer.
  get_te_entry_point_lem :
      (fuel fv file_type : ℕ) (file_name : Option Guid) (info : Option StatusInfo) (f : Found)
      → get_file_section p m fuel fv p.section_te file_type file_name info ≡ some f
      → (f.ptr ≢ null → IsTe f.ptr)
      → (out : Found) × (get_te_entry_point p m fuel fv file_type file_name info ≡ some out)
        × (out.info ≡ f.info)
        × (f.ptr ≡ null → out.ptr ≡ null)
        × (f.ptr ≢ null
            → out.ptr + p.te_stripped_size m (te_header f.ptr)
              ≡ te_header f.ptr + (p.sizeof_te + p.te_entry_point m (te_header f.ptr)))
  unfolding get_te_entry_point
  get_te_entry_point_lem fuel fv file_type file_name info f found te =
      elim (ℕ_discrete f.ptr null) [
        | yes nothing ↦ (f, rw found (ground arith), refl, λ e. e, λ ne. absurd (ne nothing))
        | no some_ptr ↦ (
          record f { ptr = te_entry p m f.ptr },
          rw found (ground arith),
          refl,
          λ e. absurd (some_ptr e),
          λ ne. te_entry_lem f.ptr (te ne),
        )
      ]

  -- Where the entry point of a TE image is: the offset counts from where the image would start if
  -- its headers were not stripped.
  abbrev pub te_address : ℕ → ℕ
  te_address section =
      te_header section
      - p.te_stripped_size m (te_header section)
      + (p.sizeof_te + p.te_entry_point m (te_header section))

  -- The answer for the first wanted file of the volume, whose sections are `ss`.
  abbrev pub te_answer : Option StatusInfo → List Section → Option Hit → Found
  te_answer = aimed_answer p te_address p.section_te

  te_entry-te_address : (section : ℕ) → IsTe section → te_entry p m section ≡ te_address section
  te_entry-te_address section h = omega (arith, te_entry_lem section h, h.stripped)

  -- `GetTeEntryPoint` on a volume whose files `fs` stand one behind the other up to its end: for
  -- the first TE section in the first file of the name and type, the address of its TE header,
  -- less the size that was stripped from the image, plus the size of the TE header and the offset
  -- of the entry point, with EFI_SUCCESS; without such a file or section NULL with EFI_NOT_FOUND.
  -- The sections of that file are `ss`, and the addresses that the first TE section of them gives
  -- are in reach of a pointer. The end of the volume is in reach of a pointer, headers of files are
  -- not empty, and the fuel is more than the number of files, and than that of the sections.
  pub get_te_entry_point_of_volume :
      (fuel fv file_type stop : ℕ) (file_name : Option Guid) (info : Option StatusInfo)
      (fs : List File) (ss : List Section)
      → InReach p (volume_end p m fv)
      → 0 < p.sizeof_file
      → length fs < fuel
      → length ss < fuel
      → Files p m (volume_end p m fv) (first_file p m fv) fs stop
      → volume_end p m fv ≤ stop
      → ((hit : Hit)
          → first_hit (is_wanted file_type file_name) (first_file p m fv) fs ≡ some hit
          → IsBody p m hit ss
            × ((q : ℕ)
                → first_of_kind p.section_te (align_addr (hit.addr + p.sizeof_file) 4) ss ≡ some q
                → IsTe q))
      → get_te_entry_point p m fuel fv file_type file_name info
        ≡ some
            (te_answer info ss (first_hit (is_wanted file_type file_name) (first_file p m fv) fs))
  unfolding get_te_entry_point
  get_te_entry_point_of_volume fuel fv file_type stop file_name info fs ss r header hf hs c e
        wanted =
      get_file_section-moved p m (te_entry p m) te_address p.section_te fuel fv file_type stop
        file_name info fs ss r header hf hs c e
        λ hit present inside. (
          (wanted hit present).0,
          λ q first room. te_entry-te_address q ((wanted hit present).1 q first),
        )
