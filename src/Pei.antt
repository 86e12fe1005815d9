-- ===== src/Pei.antt =====
-- Platform/ARC/Library/PeiCore: the PEI services and the PEI core.
pub mod Context
pub mod Ppi
pub mod Locate
pub mod Database
pub mod Ffs
pub mod Core
