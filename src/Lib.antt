-- ===== src/Lib.antt =====
-- PAFFS, a log-structured file system for NAND flash with a journal in MRAM (src/).
--
-- The flash is divided into areas of blocks of pages. The superblock (src/superblock.cpp) keeps the
-- area map: for each logical area its type, status, erase count and physical position. Area
-- management (src/area.cpp) takes areas into use, closes, retires and deletes them. Every change of
-- the map is written to the journal (src/journal.cpp) first. After a power loss the journal is
-- replayed: the superblock applies its own entries, and each other part finishes or reverts what
-- the entries since its last checkpoint show as begun.
--
-- Files:
--   Prelude           shared names, lists, arrays and their loops, tests, word widths
--   Types             src/commonTypes.hpp, and the constants of the build as `Config`
--   BitList           src/bitlist.hpp, `BitList`; BitList/TwoBit is `TwoBitList`
--   Journal           src/journalEntry.hpp and `Journal::addEvent`; Journal/Log is the view of the
--                     journal as a list of entries
--   Mram              src/journalPersistences.cpp, `MramPersistence`; Mram/Stored is about the
--                     entries in the memory
--   Superblock        the area map of src/superblock.cpp: getters, what the setters store, preScan
--   Device            the state that area management works on, and the setters with their entries
--   AreaMgmt          src/area.cpp; AreaMgmt/Replay is its recovery, AreaMgmt/Crash what recovery
--                     achieves, AreaMgmt/Trace and AreaMgmt/DeleteTrace what the operations log
--   PageState         src/journalPageStatemachine_impl.hpp; PageState/Holds views its lists as one
--                     list of replacements, PageState/Recovery and PageState/Crash are about a
--                     restart, PageState/Status about the page states it leaves, PageState/Live about
--                     the run without one
--   Pool              src/pools.hpp, `ObjectPool`; Pool/Laws and Pool/Clear view it as a set of
--                     indices in use
--   Addr              the address functions of src/area.cpp
--   Btree             src/btree.cpp on the content of a node. Btree/Leaves, Btree/Branches,
--                     Btree/Steps and Btree/BranchSteps are the operations; Btree/Lists is the sorted
--                     list of entries; Btree/Insert, Btree/Split, Btree/Remove and Btree/Merge relate
--                     the leaves to it, Btree/Insertion and Btree/Deletion the whole steps;
--                     Btree/BranchLaws, Btree/BranchMoves, Btree/BranchSplit, Btree/BranchRemove and
--                     Btree/Search are about branches
--   AreaSummary       src/summaryCache.cpp, `AreaSummaryElem`, and the area summary in flash;
--                     AreaSummary/Laws, AreaSummary/Counting and AreaSummary/Stored are about it
--   SummaryCache      src/summaryCache.cpp, `SummaryCache`: the map from areas to elements;
--                     SummaryCache/Steps is loading, eviction, and the states of pages,
--                     SummaryCache/Entries is about the map, SummaryCache/Pages about the state of a
--                     page, SummaryCache/Blocks about those of an area
--   PageAddress       src/pageAddressCache.cpp, getPage; PageAddress/Walk is about the way through
--                     two lists
--   Calls             calls that can end early, with the state they leave
--   DataIo            src/dataIO.cpp, readInodeData; DataIo/Write is writeInodeData, DataIo/Delete is
--                     deleteInodeData and the recovery; DataIo/Content views the pages of a file as
--                     bytes, DataIo/Files, DataIo/ReadPages and DataIo/Reading are about reading,
--                     DataIo/RoundTrip, DataIo/Storing, DataIo/Writing, DataIo/Rewriting and
--                     DataIo/Filling about writing, DataIo/Truncation and DataIo/Deleting about
--                     cutting off, DataIo/Marks about the pages that are given up, DataIo/Positions
--                     and DataIo/Ranges about the pages of a range
--   Garbage           src/garbage_collection.cpp, the search and the move of valid pages;
--                     Garbage/Collect is collectGarbage with findWritableArea, findFirstFreePage and
--                     manageActiveAreaFull of src/area.cpp; Garbage/Search and Garbage/Weighing are
--                     about the search, Garbage/Moving about the move, Garbage/Rounds and
--                     Garbage/Ends about the end of collectGarbage, Garbage/Writable about
--                     findWritableArea
--   Tests             concrete inputs
--
-- State is passed explicitly: a method returns the new record. Numbers are natural numbers, with
-- the wrap of the C++ type written out where a value can reach it. The loops run over a fixed
-- number of rounds; the loop that reads the log has fuel, and one round more than there are
-- entries is enough; collectGarbage, which calls itself where an area cannot be deleted, has fuel,
-- and one round more than there are areas that it could take is enough. A byte read past the end
-- of a bit list is the parameter `beyond`; a store past the end of an array changes nothing. For
-- area management, the driver, the summary cache and the persistence of the journal are interfaces
-- (`DriverOps`, `SummaryOps`, `PersistenceOps`, `MramOps`, and `PageOps` for the page state
-- machine); what the journal relies on is `PersistenceLaws`, and what the MRAM log relies on is
-- `MramLaws`, for the entries whose own size is named. Trace output, failure points and the checks under PAFFS_TRACE_VERIFY_AS are left
-- out.
--
-- Of the B+ tree, a node is seen by itself: a step ends where it goes on to the parent or to the
-- tree cache, and that the children of a moved pointer learn of their new parent is not modelled.
-- The summary cache calls garbage collection, the driver and the journal through `CacheOps`, the
-- page address cache calls its lists in flash through `ListOps`. File data calls the page address
-- cache, area management, the driver and the tree through `IoOps`; what it relies on is `IoLaws`,
-- and `DeleteLaws` for cutting off: a view of the file's pages that each call keeps or changes as
-- it says. In that view a page is written once, after it was marked as used, and a page that became
-- dirty is lost. The addresses in the inode change with the page address cache, whose pointer leads
-- to the same inode, and are taken over from it where the inode is stored. Garbage collection calls the summary cache and the pages through `GarbageOps`, with
-- `SummaryLaws`, `DeletionLaws` and `PageLaws`; the areas that it deletes and takes into use are
-- those of AreaMgmt.
--
-- Not modelled: the recovery of garbage collection, the journal in flash, the inode pool and its
-- reference counts, the tree queue, the recursion of the B+ tree over its nodes and the tree
-- cache, the super index in flash and the summaries it carries, setPage and commit of the page
-- address cache, directories. Nor are the hardware drivers and simulations under src/driver, and
-- the copied code under ext.
pub mod PageState
pub mod Mram
pub mod Pool
pub mod Prelude
pub mod Types
pub mod BitList
pub mod Journal
pub mod Superblock
pub mod Btree
pub mod Calls
pub mod DataIo
pub mod AreaSummary
pub mod PageAddress
pub mod SummaryCache
pub mod Device
pub mod AreaMgmt
pub mod Garbage
pub mod Addr
pub mod Tests
