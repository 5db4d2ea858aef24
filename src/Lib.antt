-- ===== src/Lib.antt =====
-- The BZCC session scanner: the program that fetches the lobby list of a game's master server, reads
-- it, and shows the games and the players in them.
--
-- Its parts. `ScanHTTP` and `ScanFile` (bzccnet.c) open a connection or a file and hand it to
-- `parse_data`, a reader of HTTP headers and JSON that works byte by byte and calls back for each
-- value of a server (at depth 3) and of a player (at depth 5). The callback is `ProcessSessionInfo`
-- (bzccscanner.c), which fills the arrays of games and players and calls the notifications. The
-- nicknames of players stand in a hash table without buckets (bzcchtable.c), whose keys are
-- checksums, and behind it in the registry, with the settings (bzccsettings.c). The main window and
-- its dialogs start and stop the scans, by hand or by a timer, and save what the user sets.
--
-- Which file models what:
--   Base       numbers, lists, bytes, and what the sources use of the C library. A `char` is a number
--              below 256, a TCHAR one below 65536, a DWORD one below 2 ^ 32; `int` is Base/Int.
--   Net        bzccnet.c and bzccnet.h. Parser has the local variables of `parse_data`; Json, Value
--              and Http have one function for each branch of its state machine, Stream the loops
--              around it, Scan `ScanFile` and `ScanHTTP`. A buffer and its length are one list.
--              `Outcome` tells a `return` from a fault: an access outside an array, or a read of an
--              element of `is_array` that was never written.
--   Net/Safe   the invariant of the variables of `parse_data`.
--   Net/Chunks the sizes of the reads; Net/Sending the loop around `send`.
--   Net/Deliver, Net/Document
--              lobby lists as data, their printed form, and the calls that are to be made for them: a
--              specification without the state machine, and the machine run against it.
--   Crc        `CalcCRC32`, `CalcCRC32A` and CRC32_TABLE of bzcchtable.c.
--   HashTable  the rest of bzcchtable.c. Memory has the heap, a function from addresses to entries;
--              Table the operations `HT_*`; Cells the abstract view, a list of entries.
--   Session    bzccscanner.c, lines 27 to 424 and 696 to 698, with the types and tables of
--              bzccscanner.h: Info, Keys, Mods, State, Fields, Last, Closing and Process. The calls
--              of the notifications and of the controls are events of the state.
--   Settings   bzccsettings.c. Registry has the calls of the registry as a record of functions, and
--              what is documented of them; Store has the functions of the file.
--   Control    bzccscanner.c: the window procedures. Window has the fields of WindowControls; Scan
--              BeginScan, EndScan, UpdateContextMenu and the messages around them; Rename and Prefs
--              the dialogs; Main WndProc; Startup the settings of WinMain; Texts and Balloons the
--              texts; Compare CompareFunc; Layout the rectangles of WndResize; Thread ScanThread. A
--              handler returns the changed fields and the calls that it makes. The other modules
--              have what follows: Reach the steps of the system, Steady and Onward what they keep.
--   Nicks      bzccscanner.c: UpdatePlayerList, over the table and the registry.
--   Tests      the theorems at concrete inputs.
--
-- What is outside. The results of the system calls are arguments: a list of reads for `recv` and
-- `ReadFile`, one value for each call of `socket`, `connect` and `send`, an `Alloc` for HeapAlloc, an
-- `Env` for SetTimer and CreateThread, an `Outside` for the files and servers of ScanThread. A list
-- of reads that has come to its end stands for a stream that has ended. CryptStringToBinaryA and
-- mbstowcs are the fields of `Library`. Messages are constructors with their arguments. A value that
-- does not fit an `int` is reduced by `atoi` modulo 2 ^ 32.
--
-- Loops. The loops of the reader go over its input. Those of the table take fuel, one round for each
-- entry and one more, and the theorems show that this is enough on a well-formed table. `HT_Set`
-- followed by `HT_Find` takes one round more, for the entry that may be new.
--
-- Not modelled: the creation of the windows, the widths of the columns that WndResize scales,
-- the time stamps and the text of the time of a scan, and the item data of the rows of players,
-- which nothing reads. Where LoadNick leaves no NUL in `tmp`, UpdatePlayerList faults in the
-- model. A width or height below 0 in WndResize is 0. The searches of `FindGame` and
-- `FindPlayer` stop at the end of a list, and no theorem says that a player count stays within
-- it. A thread that ends before BeginScan has its handle is a definition of its own, not a step
-- of the system. A BOOL is true or false, and the pointers to WindowControls, RenameDlgControls
-- and the table are not NULL in a handler.
pub mod Base
pub mod Net
pub mod Crc
pub mod HashTable
pub mod Session
pub mod Settings
pub mod Control
pub mod Nicks
pub mod Tests
