-- ===== src/Utils/Volume/Apriori.antt =====
-- The file that `GetAprioriFile` returns for a volume.
use edk2_arc.Base.{[], ◌∷◌, ℕ, ◌+◌, ◌≤◌, ◌<◌, ◌≡◌, Option, some, List, length, arith}
use edk2_arc.Edk2.{Guid, Mem, Platform, uintn, uintn_of_lt}
use edk2_arc.Utils.Info.{StatusInfo}
use edk2_arc.Utils.Section.{Found}
use edk2_arc.Utils.Section.Layout.{Section}
use edk2_arc.Utils.Section.Find.{InReach}
use edk2_arc.Utils.Volume.{get_apriori_file, volume_end, first_file}
use edk2_arc.Utils.Volume.Layout.{File, is_wanted, Files, Hit, first_hit}
use edk2_arc.Utils.Volume.Behind.{aimed_answer, get_file_section-moved}
use edk2_arc.Utils.Volume.Find.{IsBody}

-- PEI_APRIORI_FILE_NAME_GUID of the PI specification, 1b45cc0a-156a-428a-af62-49864da0e6e6.
abbrev pub apriori_guid : Guid
apriori_guid = record {
  data1 = 0x1b45cc0a;
  data2 = 0x156a;
  data3 = 0x428a;
  data4 = 0xaf ∷ 0x62 ∷ 0x49 ∷ 0x86 ∷ 0x4d ∷ 0xa0 ∷ 0xe6 ∷ 0xe6 ∷ [];
}

module _ (p : Platform) (m : Mem) where
  -- The answer for the first apriori file of the volume, whose sections are `ss`: what lies behind the
  -- header of the section.
  abbrev pub apriori_answer : Option StatusInfo → List Section → Option Hit → Found
  apriori_answer = aimed_answer p (λ q. q + p.sizeof_section) p.section_raw

  -- `GetAprioriFile` on a volume whose files `fs` stand one behind the other up to its end: what
  -- lies behind the header of the first raw section in the first freeform file with the name
  -- PEI_APRIORI_FILE_NAME_GUID, with EFI_SUCCESS; without such a file or section NULL with EFI_NOT_FOUND.
  -- The sections of that file are `ss`. The end of the volume is in reach of a pointer, headers of
  -- files are not empty, and the fuel is more than the number of files, and than that of the
  -- sections.
  pub get_apriori_file_of_volume :
      (fuel fv stop : ℕ) (info : Option StatusInfo) (fs : List File) (ss : List Section)
      → InReach p (volume_end p m fv)
      → 0 < p.sizeof_file
      → length fs < fuel
      → length ss < fuel
      → Files p m (volume_end p m fv) (first_file p m fv) fs stop
      → volume_end p m fv ≤ stop
      → ((hit : Hit)
          → first_hit (is_wanted p.filetype_freeform (some apriori_guid)) (first_file p m fv) fs
            ≡ some hit
          → IsBody p m hit ss)
      → get_apriori_file p m fuel fv info
        ≡ some (
            apriori_answer info ss (
              first_hit (is_wanted p.filetype_freeform (some apriori_guid)) (first_file p m fv) fs))
  unfolding get_apriori_file
  get_apriori_file_of_volume fuel fv stop info fs ss reach header hf hs c e body =
      get_file_section-moved p m (λ q. uintn p (q + p.sizeof_section)) (λ q. q + p.sizeof_section)
        p.section_raw fuel fv p.filetype_freeform stop (some apriori_guid) info fs ss reach header
        hf hs c e
        λ hit present inside.
          (body hit present, λ q first room. uintn_of_lt p (q + p.sizeof_section) (omega arith))
