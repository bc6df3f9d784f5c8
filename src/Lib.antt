-- ===== src/Lib.antt =====
-- memprof, a memory profiler and leak detector for unmodified programs. A library that is loaded
-- into the program (lib/) reports every allocation over a socket; the profiler (src/) collects the
-- reports of a process, keeps the table of its blocks and the call stacks that allocated them, and
-- searches the memory of the stopped process for blocks that nothing points to.
--
-- The parts, and the files that model them:
--   StackStash: src/stackstash.c, the stash that shares the call stacks of all blocks as a tree of
--     callers. `StackNode *` is an index into the arena of the stash.
--   Block: `Block` of src/memprof.h and its reference count, in a heap of blocks.
--   Process: src/process.c. `process_command` receives the messages of all threads of a process,
--     holds back those that come early, and applies the others to the table of blocks. A stack is a
--     node of StackStash, a block a cell of Block.
--   Leak: src/leakdetect.c. `leaks_find` takes the blocks of a Process, marks those that chains of
--     pointers lead to from stacks and data sections, and reports the others. Leak/Leaks holds the
--     whole function, Leak its search and its mark phase.
--   Symbols: the maps of a process in src/process.c. `locate_map` finds the map of an address and reads
--     its symbols, and `process_locate_symbol` names the address. `read_bfd`, `find_line` and the sections
--     come from the bfd library and are parameters, as are the lines of /proc/PID/maps.
--   Profile: src/profile.c. `profile_create` makes a tree of callers of the stacks of all blocks, and a
--     function for every symbol. `ProfileNode *` is an index into the arena of the profile. What
--     `process_locate_symbol` answers is a parameter here, a function of the address.
--   World: all processes of the profiler. World/Life is the life of a process in src/process.c (new,
--     duplicate, reset, detach, kill), World/Input is `input_func`, which stores the stack of a
--     message in a StackStash and gives the message to the Process of its thread, and World/Server is
--     the table of processes and `control_func` of src/server.c.
--   Intercept: lib/memintercept.c, the calls of the allocator and the messages they send (Calls),
--     lib/intercept.c, the threads, connections and numbers of the messages (Agent),
--     lib/stack-frame.c, the stack of a call (Frames), and lib/memintercept-utils.c, the writing of
--     bytes and numbers (Output) and of formats (Printf, with their meaning in Rendered).
--     Intercept/Numbers joins the numbers of the messages to the queue of a Process.
--   Common: numbers of 32 bits, hash tables, lists and results.
--
-- Numbers are native; `guint` arithmetic is written out modulo 2 ^ 32 and addresses are not bounded.
-- Loops that are not structural run on fuel: the walks of the stash on the size of its arena, since
-- indices fall along `parent` and `siblings`; `process_command` and its `while` loop on a number for
-- which twice the length of the queue and two is enough; `find_block` on the length of its array;
-- the mark phase on the number of blocks and roots, each of which is listed once; the loops along
-- `clone_of` on the number of processes; the walk of `next` in a
-- profile on the size of its arena; the search of symbols on their number, except for the one symbol
-- above the address for which no fuel is enough; the printing of a number on 64 rounds; the reading of a
-- stack on a fuel for which the doublings that it needs are enough. The walk of frame pointers from a
-- signal need not end, and its fuel only cuts it off. An assertion that fails, a NULL that is
-- followed, and an argument whose type a format does not expect, is the result `aborted`.
--
-- /proc, ptrace, sockets, the allocator below the library and the debug sections of files are not
-- code of this repository: what they return is an argument of the definitions that read them. The
-- interface (src/main.c, src/tree.c, src/detailwin.c, src/treeviewutils.c), the file that
-- `profile_write` makes of a profile, the control socket of the server, and of the library of the
-- profiled program timers and `execve` are not modelled.
pub mod Common
pub mod StackStash
pub mod Block
pub mod Process
pub mod Leak
pub mod Symbols
pub mod Profile
pub mod World
pub mod Intercept
