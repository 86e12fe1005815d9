-- ===== src/Utils/Statuses.antt =====
-- `StatusToAsciiStr`, over the numeric values of the status codes, which come from UefiBaseType.h.
use Prim.Native.String.{String}
use edk2_arc.Base.{
  ap, sym, ◌∙◌, ℕ, zero, suc, ◌≡◌, ◌≢◌, refl, some, List, [], ◌∷◌, ◌==◌, if◌then◌else◌, get_elem?,
  arith,
}
use edk2_arc.Edk2.{
  Status, success, load_error, invalid_parameter, unsupported, bad_buffer_size, buffer_too_small,
  not_ready, device_error, write_protected, out_of_resources, volume_corrupted, volume_full,
  no_media, media_changed, not_found, access_denied, no_response, no_mapping, timeout, not_started,
  already_started, aborted, icmp_error, tftp_error, protocol_error, incompatible_version,
  security_violation, crc_error, end_of_media, end_of_file,
}

-- `#code` of the macros: the name of the constant as it is written.
unfoldable pub status_name : Status → String
status_name success = "EFI_SUCCESS"
status_name load_error = "EFI_LOAD_ERROR"
status_name invalid_parameter = "EFI_INVALID_PARAMETER"
status_name unsupported = "EFI_UNSUPPORTED"
status_name bad_buffer_size = "EFI_BAD_BUFFER_SIZE"
status_name buffer_too_small = "EFI_BUFFER_TOO_SMALL"
status_name not_ready = "EFI_NOT_READY"
status_name device_error = "EFI_DEVICE_ERROR"
status_name write_protected = "EFI_WRITE_PROTECTED"
status_name out_of_resources = "EFI_OUT_OF_RESOURCES"
status_name volume_corrupted = "EFI_VOLUME_CORRUPTED"
status_name volume_full = "EFI_VOLUME_FULL"
status_name no_media = "EFI_NO_MEDIA"
status_name media_changed = "EFI_MEDIA_CHANGED"
status_name not_found = "EFI_NOT_FOUND"
status_name access_denied = "EFI_ACCESS_DENIED"
status_name no_response = "EFI_NO_RESPONSE"
status_name no_mapping = "EFI_NO_MAPPING"
status_name timeout = "EFI_TIMEOUT"
status_name not_started = "EFI_NOT_STARTED"
status_name already_started = "EFI_ALREADY_STARTED"
status_name aborted = "EFI_ABORTED"
status_name icmp_error = "EFI_ICMP_ERROR"
status_name tftp_error = "EFI_TFTP_ERROR"
status_name protocol_error = "EFI_PROTOCOL_ERROR"
status_name incompatible_version = "EFI_INCOMPATIBLE_VERSION"
status_name security_violation = "EFI_SECURITY_VIOLATION"
status_name crc_error = "EFI_CRC_ERROR"
status_name end_of_media = "EFI_END_OF_MEDIA"
status_name end_of_file = "EFI_END_OF_FILE"

-- The argument of `ELSE_STATUS` is a literal, so that `#code` keeps its quotes.
abbrev pub unknown_status : String
unknown_status = "\"UNKNOWN STATUS\""

-- The constants in the order in which the source compares them.
abbrev pub statuses : List Status
statuses =
    success ∷ load_error ∷ invalid_parameter ∷ unsupported ∷ bad_buffer_size ∷ buffer_too_small
    ∷ not_ready ∷ device_error ∷ write_protected ∷ out_of_resources ∷ volume_corrupted ∷ volume_full
    ∷ no_media ∷ media_changed ∷ not_found ∷ access_denied ∷ no_response ∷ no_mapping ∷ timeout
    ∷ not_started ∷ already_started ∷ aborted ∷ icmp_error ∷ tftp_error ∷ protocol_error
    ∷ incompatible_version ∷ security_violation ∷ crc_error ∷ end_of_media ∷ end_of_file ∷ []

-- The chain of `if (val == code) return #code; else if ...`.
unfoldable pub status_chain : (Status → ℕ) → List Status → ℕ → String
status_chain code [] val = unknown_status
status_chain code (s ∷ ss) val = if val == code s then status_name s else status_chain code ss val

unfoldable pub status_to_ascii_str : (Status → ℕ) → ℕ → String
unfolding status_chain
status_to_ascii_str code status = status_chain code statuses status

-- The place of a status in that order.
unfoldable pub position : Status → ℕ
position success = 0
position load_error = 1
position invalid_parameter = 2
position unsupported = 3
position bad_buffer_size = 4
position buffer_too_small = 5
position not_ready = 6
position device_error = 7
position write_protected = 8
position out_of_resources = 9
position volume_corrupted = 10
position volume_full = 11
position no_media = 12
position media_changed = 13
position not_found = 14
position access_denied = 15
position no_response = 16
position no_mapping = 17
position timeout = 18
position not_started = 19
position already_started = 20
position aborted = 21
position icmp_error = 22
position tftp_error = 23
position protocol_error = 24
position incompatible_version = 25
position security_violation = 26
position crc_error = 27
position end_of_media = 28
position end_of_file = 29

statuses-position : (s : Status) → get_elem? statuses (position s) ≡ some s
unfolding position
statuses-position success = refl
statuses-position _ = refl

pub position-injective : (s t : Status) → position s ≡ position t → s ≡ t
position-injective s t e = cc (statuses-position s, statuses-position t, ap (get_elem? statuses) e)

-- The names in the order of their numbers, as Appendix D of the UEFI specification lists them.
abbrev pub documented_names : List String
documented_names =
    "EFI_SUCCESS" ∷ "EFI_LOAD_ERROR" ∷ "EFI_INVALID_PARAMETER" ∷ "EFI_UNSUPPORTED"
    ∷ "EFI_BAD_BUFFER_SIZE" ∷ "EFI_BUFFER_TOO_SMALL" ∷ "EFI_NOT_READY" ∷ "EFI_DEVICE_ERROR"
    ∷ "EFI_WRITE_PROTECTED" ∷ "EFI_OUT_OF_RESOURCES" ∷ "EFI_VOLUME_CORRUPTED" ∷ "EFI_VOLUME_FULL"
    ∷ "EFI_NO_MEDIA" ∷ "EFI_MEDIA_CHANGED" ∷ "EFI_NOT_FOUND" ∷ "EFI_ACCESS_DENIED"
    ∷ "EFI_NO_RESPONSE" ∷ "EFI_NO_MAPPING" ∷ "EFI_TIMEOUT" ∷ "EFI_NOT_STARTED"
    ∷ "EFI_ALREADY_STARTED" ∷ "EFI_ABORTED" ∷ "EFI_ICMP_ERROR" ∷ "EFI_TFTP_ERROR"
    ∷ "EFI_PROTOCOL_ERROR" ∷ "EFI_INCOMPATIBLE_VERSION" ∷ "EFI_SECURITY_VIOLATION" ∷ "EFI_CRC_ERROR"
    ∷ "EFI_END_OF_MEDIA" ∷ "EFI_END_OF_FILE" ∷ []

status_name_lem : (s : Status) → get_elem? documented_names (position s) ≡ some (status_name s)
unfolding position status_name
status_name_lem success = refl
status_name_lem _ = refl

module _ (code : Status → ℕ) (distinct : (s t : Status) → code s ≡ code t → s ≡ t) where
  status_chain-code :
      (ss : List Status) (i : ℕ) (s : Status)
      → get_elem? ss i ≡ some s
      → status_chain code ss (code s) ≡ status_name s
  unfolding status_chain
  status_chain-code [] i s h = cc
  status_chain-code (t ∷ ss) zero s h = ground (arith, distinct s t)
  status_chain-code (t ∷ ss) (suc i) s h = ground (arith, distinct s t, status_chain-code ss i s h)

  status_chain-unknown :
      (ss : List Status) (val : ℕ)
      → ((s : Status) → val ≢ code s)
      → status_chain code ss val ≡ unknown_status
  unfolding status_chain
  status_chain-unknown [] val h = refl
  status_chain-unknown (t ∷ ss) val h = ground (arith, h t, status_chain-unknown ss val h)

  -- If no two constants have one value, each is printed by the name that the UEFI specification gives
  -- the status, and every other value as "UNKNOWN STATUS" with the quotes.
  pub status_to_ascii_str_lem :
      ((s : Status)
        → some (status_to_ascii_str code (code s)) ≡ get_elem? documented_names (position s))
      × ((val : ℕ)
          → ((s : Status) → val ≢ code s)
          → status_to_ascii_str code val ≡ "\"UNKNOWN STATUS\"")
  unfolding status_to_ascii_str
  status_to_ascii_str_lem = (
    λ s.
        ap some (status_chain-code statuses (position s) s (statuses-position s))
        ∙ sym (status_name_lem s),
    λ val h. status_chain-unknown statuses val h,
  )
