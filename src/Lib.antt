-- ===== src/Lib.antt =====
-- jsntp_lcdd: a daemon that shows the state of an NTP server and of a GPS receiver on a character
-- display behind an I2C port expander.
--
-- The parts, and the files that model them:
--   I2c      JsEmbeddedUtils/I2CDevice.h and .cpp: the bus device. Its state is the record
--            `Device`; each member function appends its system calls to a log, and the answers of
--            the operating system are the parameter `kernel`, which sees all calls before.
--            `Descriptors` counts what is opened and closed.
--   Lcd      I2CLCD.h and I2CLCD.cpp: `Lcd.Defs` has each member function of the class on the
--            record `Lcd`. `Lcd.Panel` describes the controller (HD44780) at the other end of the
--            bus on its own: what it does with the bytes that the port expander receives. The
--            other files join the two: `Wire` the nibbles, `Typing` and `Screen` the lines of
--            text, `Resync` and `Init` the start from any state, `Faults`, `Light` and `Opened` a
--            bus that refuses calls.
--   Locks    JsCPPUtils/Lockable.h, TSSimpleMap.h, LockableEx.h and AtomicNum.h (the Linux
--            branch): `Defs` as one thread sees them, `none` where it waits; `Threads` a step
--            relation of any number of threads, one step for each access to the map or the mutex;
--            `Exclusion` what holds in every interleaving; `Abstract` the lock that it stands
--            for; `Progress` who can go on, and the functions of one thread as runs; `Balance`
--            the pairing of `lock` and `unlock`; `Atomic` and `Operators` the numbers under a
--            lock, whose arithmetic is a parameter.
--   Ntp      ntpqmod.h and ntpqmod.c: `Interval` the intervals and their text, `Info` the record
--            of a peer and the parameter `NtpLib` for libntpq, `Peer` the functions `doreadpeer`
--            and `ntpqmod_readpeer`, `Fields` and `Poke` what they leave in a peer, `Reference`
--            and `Whole` a peer field by field, `Asked` the variables that the server is asked
--            for and `init_ntpq`.
--   Daemon   JsCPPUtils/Daemon.h and Daemon.cpp: `Args` the command line, `Settings` what it means,
--            `Groups` the loop over
--            /etc/group, `Tokens`, `Members` and `Written` what it collects, `Run` the life of
--            the process as a trace of actions, `Privileges` their order, `Signals` the run
--            status and the handler.
--   Smart    JsCPPUtils/SmartPointer.h: `Runs` code that may fail, `Defs` handles and roots over
--            an explicit heap, `Counting`, `Handles` and `Transfer` the counts and the deletions.
--            `Clients` is any sequence of these operations on a stack of handles; below it,
--            `Counts` the counts, `Objects`, `Steps` and `Ends` where the objects are, `Whole` what
--            becomes of them. `Threads` is a
--            step relation of threads in `addRef` and `delRef`, with the lock of SmartPointer.h
--            and without it as in JsCPPUtils/SmartPointerNTS.h; `Steps` and `Sharing` what holds
--            with the lock, `Races` what fails without. `Nts` is the class SmartPointerNTS over a
--            heap of objects; `View`, `Refinement`, `Assignments`, `Endings` and `Beginnings` say
--            how its assignments, destructor, constructors and `detach` do what `Defs` does,
--            `Effects` and `Kept` what they leave alone. `Objects` is the program of `Clients` over
--            this class, and `Simulation`, `Scopes`, `Programs` and `Replays` set the two side by
--            side.
--   Gps      GPSWork.h and GPSWork.cpp: `Worker` the thread, one record of answers of libgps for
--            each turn of its loop, `Session` the order of its calls, `Data` and `Reading` the
--            counts under a lock. `Shared` is a step relation of threads that store and count, over
--            that of `Locks`; `Inside`, `Entries` and `Snapshots` what they read.
--   Main     main.cpp and JsCPPUtils/Common.cpp: `Lines` the texts, `Peers` what is taken of the
--            peers, `Console` the table for the terminal, `Loop` the timers and the display,
--            `Run` the loop of `daemon_main` as a list of turns; `Lengths` and `Columns` the
--            lengths, `Shown` the display after a refresh, `Turns` one turn, `Expected` what it is
--            to show, `Display` any number of turns, `Attached` and `Outages` a bus
--            that refuses calls, `Ending` how the loop ends,
--            `Process` the daemon with this loop as its main function. It joins
--            `Lcd` (the display), `Gps` (the counts), `Ntp` (the peers) and `Daemon` (the run
--            status).
--   Endian   JsCPPUtils/Endian.h: the test of the byte order.
--   Logger   JsCPPUtils/Logger.h and Logger.cpp: `Defs` the class, `Chain` the text of a line of
--            a logger below others.
--   Prelude  what these share: tests, lists, integers, decimal text and bit operations over the
--            native numbers. Each part has its concrete runs in a module `Tests`.
--
-- Bounds and fuel. `unsigned char` arithmetic is taken modulo 256, `u_int32` and `gid_t` modulo
-- 2^32. The loops are structural recursion; only `tokens` and `digits` have fuel: the length of
-- the text, or the number, and one more, and each of their steps takes a character or a digit.
-- The objects of SmartPointerNTS call each other twice at most. An uninitialised variable, such
-- as `address` in `gotoxy`, is an argument `stale`. A pointer that is null and used, or a read
-- behind an array, ends the model's run with a value of its own (`none`, `crashed`, `overrun`).
-- `long` has 32 bits, as config_ntp.h says (SIZEOF_LONG): `when`, the sum in `prettyinterval`, and
-- the `strtol` behind `atoi`.
-- The destructor of the GPS thread waits for 75 rounds, the fuel of its loop. The handles of a
-- program over SmartPointerNTS stand at the addresses 0, 1 and so on, below all that `new` gives.
--
-- Not modelled: the Windows branches, what ntpqmod.c and Daemon.cpp print, memory that runs out,
-- and the headers and libraries copied from the NTP distribution, whose functions are parameters.
pub mod Prelude
pub mod I2c
pub mod Lcd
pub mod Locks
pub mod Ntp
pub mod Daemon
pub mod Endian
pub mod Gps
pub mod Logger
pub mod Main
pub mod Smart
