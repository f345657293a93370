-- ===== src/Lib.antt =====
-- A model of static_fire, the server of a rocket engine test stand. Clients send it text commands over
-- WebSockets; it moves valves by frames on a CAN bus, reports the frames that it receives, and runs
-- firing sequences. The files and the code that they model:
--
--   Config      src/app/config.c: the defaults, the file, the command line. The settings of a key and
--               its value are in Config/Values.
--   Logger      src/util/logger.c, include/util/logger.h: making the directory (Logger/Directory),
--               the oldest log that may be deleted (Logger/Oldest), writing in place
--               (Logger/Cyclic), and in Logger/Maintenance the operations.
--   Boot        src/main.c: `init_runtime`, and in Boot/Main `main` as far as its loop;
--               src/can/can_bus.c: configuring the interface and opening the socket (Boot/Interface);
--               `ws_bridge_start` of src/ws/ws_bridge.c.
--   App         include/app/context.h, include/app/config.h, src/app/context.c: the record of the
--               shared state and `app_context_init`. A descriptor is an Option, the list of clients
--               a List, the arrays of blocks a List of FiringBlock.
--   Bridge      src/ws/ws_bridge.c: `on_connect`, `on_disconnect`, sending, broadcasting
--               and `ws_bridge_stop`; in Bridge/Failures what the callbacks for failures print.
--   Message     src/ws/ws_bridge.c: `on_message`, which passes a text to the commands.
--   Bus         src/can/can_bus.c: `can_bus_send_command`, `can_bus_store_rx`, `can_bus_format_dirty`.
--               Bus/Report has a definition of a report that does not loop over the table.
--   Wiggle      src/control/wiggle.c: the table of valves that are moved to and fro. The map from ids
--               that the slots stand for is in Wiggle/Lookup and Wiggle/Refines.
--   State       src/control/state.c: PRECHILLING and HOTFIRE.
--   Firing      src/control/firing_sequence.c: parsing and starting a sequence; the thread that runs
--               it is in Firing/Worker as a whole, and in Firing/Thread in steps, between which
--               other threads may run.
--   Command     src/control/command.c: reading the fields of a command (Command/Fields), the handlers
--               that act (Command/Live), those of the testing mode (Command/Testing), the dispatch.
--   Text        the functions of the C library that these files use on strings: `strcmp`, `strchr`,
--               `strtok_r`, in Text/Scan and Text/Print the formats of `sscanf` and `snprintf`, and in
--               Text/Strto `strtol` and its kin, where `long` has 64 bits.
--   Clock       src/util/heartbeat.c, src/util/logger.c: the clocks, from what `clock_gettime` stores.
--   Safety      what holds of the whole server. Safety/Routine has the steps of the main loop (the tick,
--               the reading of the clock, the heartbeat, the report with its broadcast, a received
--               frame, the signal) and what each leaves, Safety/MainLoop that the loop of
--               Runtime/Loop takes no other steps; Safety/Reach adds the callbacks, Safety/Threads
--               the threads of sequences; Safety/Sections has some commands lock by lock, with the
--               steps of Safety/Beside in between, and Safety/Whole says that a handler as one step
--               is its sections with nothing in between.
--   Runtime     src/main.c, src/util/heartbeat.c: the timer and the shutdown, and in Runtime/Loop the
--               main loop; `can_bus_read_frame` of src/can/can_bus.c.
--   Base        names of the library, and numbers, lists and tests that all files share.
--   Tests       runs at concrete inputs.
--
-- An operation is a function from the state to the state, and to what it returns. What is done outside
-- is an event that the state records: a frame written to the CAN socket and whether it was taken, a
-- text or a pong handed to the WebSocket library, a line for the log, a thread created. What the
-- outside returns (clocks, memory, sockets, the state of a connection) is a function of the number of
-- the call, the record `Env`, of which nothing is assumed but where a hypothesis says so. Numbers of
-- the C types are natural numbers; where the code can pass their width the wrap-around is written
-- out. The functions of the files call each other as in the code: a message reaches
-- `command_handle_text`, which calls the operations of Wiggle, State, Firing and Bus, and these call
-- Bridge to answer and to broadcast.
--
-- The operations hold a mutex while they read and write, so each is one step; a callback that takes
-- several locks one after the other is one step too, but in Safety/Sections, which lets the main loop
-- and the thread of a sequence come between the locked sections of the commands that concern the state
-- and the wiggles. The thread
-- of a sequence runs beside the callbacks and the main loop. In Safety/Threads it has a place in its
-- code, and all take steps in any order; that more than one thread may exist is not excluded
-- beforehand. Firing/Worker runs a thread as a whole and takes what it reads of the abort flag, at
-- each read, as a function; Firing/Alone says how the two agree. The waits of the whole are loops on
-- fuel. Each round sleeps ten milliseconds and a wait has at most 65535, so 6555 rounds are enough.
-- A sleep is between a reading of the flags that lets the wait go on and the next reading of the clock,
-- and only there is the clock assumed to gain ten milliseconds, or the next reading of the flags to
-- find them set, as it does when a signal cut the sleep short.
-- The catch-up loop of the heartbeat has one round of fuel for each period that the clock can show.
--
-- The logger has a state of its own, with the disk: what the log directory holds, and the contents of
-- the open file. What the disk answers (free space, `stat`, `unlink`, how many bytes a write takes)
-- is again a function of the number of the call, the record `Outside`. The loop that deletes old logs
-- has one round of fuel more than the directory has entries, and each round that goes on has deleted
-- one. While the server runs, a call of the logger is an event of the state of the server; the two
-- meet in Logger/Feed, which makes these calls, and in Boot, where `main` opens the log, starts the
-- rest and closes the log again when that fails.
--
-- A signal comes between two rounds of the main loop, or behind the test of the flag while
-- `epoll_wait` waits, in which case one more batch of events is handled. The shutdown sets the flag of
-- the abort but does not wait for the thread of a sequence, which is detached and may still run
-- behind it; nothing is said of the thread or of the log, which `main` closes, after the shutdown.
--
-- Not modelled: the memory that the code frees and the mutexes themselves, what is printed on stderr
-- but by the WebSocket callbacks for failures, what `on_connect` and `on_disconnect` print on stdout,
-- what the WebSocket library does in its calls, and the loop of the testing mode, which sleeps until
-- a signal. A command that is run is given by how it ends, and what `epoll_wait` and `read` return in
-- the main loop by lists.
pub mod Base
pub mod Text
pub mod App
pub mod Config
pub mod Bridge
pub mod Bus
pub mod Wiggle
pub mod State
pub mod Firing
pub mod Command
pub mod Message
pub mod Clock
pub mod Logger
pub mod Safety
pub mod Runtime
pub mod Boot
mod Tests
