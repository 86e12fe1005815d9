-- ===== src/Lib.antt =====
-- The ARC platform of EDK2: the libraries and modules of the boot stages before DXE.
--
-- The start-up code sets up the processor and calls SEC; SEC checks the boot firmware volume and calls
-- the PEI core; the PEI core fixes up its services, runs the PEIM that the apriori file names, and
-- dispatches the PPIs that it installed; the DXE IPL finds the DXE core in the second volume. All of
-- them search firmware volumes by UtilsLib.
--
-- Which file models which part:
--   Edk2          the names that come from the EDK2 headers, which are not in the repository: status
--                 codes, EFI_GUID, and a record (Platform) of layouts, macros and constants
--   Utils         Platform/ARC/Library/UtilsLib/UtilsLib.c and Platform/ARC/Include/Library/UtilsLib.h:
--                 Utils/Ascii (ByteToAscii, Int32ToAscii, GuidToAsciiStr), Utils/Statuses
--                 (StatusToAsciiStr), Utils/Guids (CompareGuids), Utils/Info (STATUS_INFO,
--                 AlignAddr), Utils/Log (LOG), Utils/Section (FindSection), Utils/Volume (GetFileSection,
--                 GetTeEntryPoint, GetAprioriFile)
--   Pei           Platform/ARC/Library/PeiCore/PeiServices.c: Pei/Context (PEI_CORE_CONTEXT), Pei/Ppi
--                 (PeiInstallPpi), Pei/Locate (PeiLocatePpi, PeiNotifyPpi), Pei/Ffs (the services
--                 PeiFfsFindNextVolume, PeiFfsFindNextFile, PeiFfsFindSectionData, PeiFfsGetFileInfo),
--                 Pei/Database (the abstract database that PeiInstallPpi and PeiLocatePpi
--                 implement; Pei/Database/Directory: the same up to the order of different GUIDs),
--                 Pei/Core (Platform/ARC/Library/PeiCore/PeiCoreMain.c: PeiCoreMain, InitPeims,
--                 DispatchPeims; and PeiServicesTablePointerLib.c)
--   DxeIpl        Platform/ARC/Library/PeiCore/DxeIpl.c: the last PEIM, which loads the DXE core
--   Serial        Platform/ARC/Library/SerialPortLib/Ns16550.c: the functions, over a bus whose accesses
--                 change the state of a device (Serial/Reg: the registers and their bits)
--   Sec           Platform/ARC/Library/Sec/SecMain.c: SecMain, its checks of the boot volume and the data
--                 that it hands over to the PEI core; Sec/Entry: Platform/ARC/Library/Sec/Arc2/SecEntry.S,
--                 the start-up code that calls SecMain, over the auxiliary registers of the core
--   Boot          the stages together: the PEI core with the DXE IPL as the code that it calls; Boot/Power:
--                 all stages, from the reset of the processor on
--   Sync          Platform/ARC/Library/CpuLib/CpuSync.c: the functions, over the InternalSync primitives
--                 that are not in the repository; Sync/System: processors that share a lock, as a step
--                 relation with one access to the lock in each step; Sync/Mutex: the abstract lock
--   Cpu           Platform/ARC/Include/Common/Cpu.h (Cpu/Reg), and of Platform/ARC/Library/CpuLib the
--                 files Arc2Cache.c (Cpu/Cache), and CpuLib.c, CpuException.c and Arc2SetJump.S
--                 (Cpu/Stubs)
--   Tests         concrete inputs
--
-- How the state is modelled. Memory is a function from addresses to bytes; the structures that the
-- code reads there are read by the functions of a Platform, which stand for the EDK2 headers'
-- layouts and macros. A pointer is a number, NULL is 0, and UINTN has the width that the Platform
-- says; EFI_PHYSICAL_ADDRESS has 64 bits, and every wrap is written out. A function that writes
-- through a pointer returns the new value. The PPI database is a record; the descriptors and the entry
-- points that FixupPpi changes in place are two maps of it. A local variable that is read before it is
-- set is an argument: the theorems hold for all of its values.
--
-- Fuel. The walks over sections and files run on fuel, and return none when it runs out. FindSection
-- ends with more fuel than the file has bytes; GetFileSection and PeiFfsFindNextFile with more fuel
-- than the end of the volume, if no header of the chain of files has size 0. The waits of the serial
-- port end with more fuel than the longest delay of the device, the loop of AcquireSpinLock with more
-- than the timeout in ticks, and DispatchPeims with more than the number of PPIs, or than the capacity
-- of the database if what it calls installs more. PeiInstallPpi is given one round for each slot of
-- the array.
--
-- ASSERT. A failed ASSERT is an outcome of its own, `assertion`. What follows it depends on DebugLib, which
-- is not in the repository: Arc.dsc.inc links BaseDebugLibNull, with which ASSERT does nothing. Where
-- AcquireSpinLock runs out of time this is a parameter; for the checks of a lock's value it makes no
-- difference, since in the states that the processors reach these checks do not fail; and what a call does
-- behind an ASSERT that does nothing with NULL for a pointer, or with pointers of neither 4 nor 8
-- bytes, is not modelled.
--
-- What is not modelled: the calls of LOG and DBG in the functions, which are empty in a build without
-- VERBOSE and DEBUG (Utils/Log models LOG by itself), and the build files.
pub mod Base
pub mod Edk2
pub mod Utils
pub mod Pei
pub mod DxeIpl
pub mod Boot
pub mod Serial
pub mod Sec
pub mod Sync
pub mod Cpu
mod Tests
