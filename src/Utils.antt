-- ===== src/Utils.antt =====
-- Platform/ARC/Library/UtilsLib/UtilsLib.c and Platform/ARC/Include/Library/UtilsLib.h.
pub mod Ascii
pub mod Guids
pub mod Statuses
pub mod Info
pub mod Log
pub mod Section
pub mod Volume
pub mod Te
