-- ===== src/Tests.antt =====
-- Concrete inputs: each theorem that has hypotheses applied where they hold, and runs of the code.
mod Toy
mod Ascii
mod Volume
mod Ppi
mod Installed
mod Lists
mod Database
mod Ends
mod Ffs
mod DxeIpl
mod Sync
mod Serial
mod Log
mod Setup
mod Core
mod Te
mod Sec
mod Entry
mod SerialRead
mod Boot
mod Power
mod Walkable
mod Overrun
