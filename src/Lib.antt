-- ===== src/Lib.antt =====
-- The native code of this device tree, modelled part by part:
--
-- gps/utils/linked_list.c -> LinkedList. The doubly linked list of the GPS code, on an explicit
-- heap: a `World` holds the elements by address, the list's head and tail, the variable behind an
-- output parameter and the environment of the callbacks. Every function has its C name; the body of
-- the search loop is `search_loop`, `take_found`, `remove_found`, `detach`, `unlink_prev` and
-- `unlink_next`. A load or store through a pointer to no element is a fault. LinkedList/Monad has
-- the heap, /Seg what a chain in it is, /Unlink, /Ends, /Refines, /Search, /Flush and /Lifetime the
-- theorems. LinkedList/Abstract has the view that the clients use: a sequence, the newest element
-- first, with `add`, `remove`, `is_empty` and `search`.
--
-- gps/utils/msg_q.c -> MsgQ. The queue on such a list, by that view. A critical section is one step;
-- `msg_q_rcv` in `pthread_cond_wait` is counted as asleep or woken, and `rcv_wakes` is its way on.
-- MsgQ/Steps has schedules of such steps, with spurious wake-ups; MsgQ/Init has `msg_q_init`,
-- `msg_q_init2` and `msg_q_destroy` as the resources that they acquire and release.
--
-- gps/utils/LocHeap.cpp -> LocHeap. The tree of `LocHeapNode`s, `push`, `pop`, `remove`, `peek` and
-- `check_nodes`. The ranking is a parameter, as `LocRankable` is abstract; `IsRanking` states what a
-- client must provide.
--
-- gps/loc_api/libloc_api_50001/loc_eng_agps.cpp and .h -> Agps. The state machines of the data
-- connection (NIF): Agps/Subscriber has the subscribers and notifications, Agps/Machine the machine
-- object with `notify_rsrc_status` and `send_rsrc_request`, Agps/Notify the list operations,
-- Agps/States `onRsrcEvent` of the four states, Agps/Api the calls of the engine. The subscriber
-- list is a LinkedList/Abstract sequence. What leaves the machine (callbacks, timers, the adapter)
-- is a log, the latest first; what comes back is the parameter `Env`. Agps/Dispatch has lists of
-- calls, `dropAllSubscribers` included, which the theorems on states and requests leave out;
-- Agps/Told, /Pass, /Lists, /Frame, /Invariant, /Reachable, /Asking, /Requests, /Retries, /Deletion
-- and /Resubscribe have the theorems.
--
-- gps/loc_api/libloc_api_50001/loc_eng.cpp -> Nif, Sv and Engine. Nif has the engine's three AGPS
-- machines with their creation, `get_machine` (`getAgpsStateMachine`) and the messages that reach
-- them, over Agps; what it rests on is configuration, in `Conf`. Nif/Routing says that each machine
-- gets calls of its own operations only, /Sound and /Restart what follows. Sv has the marks of the
-- satellites that the last position used. Engine has the session: Engine/Session the state,
-- `start_handler`, `stop_handler`, the position mode and the aiding data, Engine/Reports the reports
-- of positions, satellites, statuses, measurements and the modem's NMEA sentences with their muting,
-- Engine/Servers the servers' addresses, and Engine/Restart what a modem restart does, which joins
-- all parts, and `proc`, one message of the engine's thread. `setInSession` of LocEngAdapter.cpp is
-- `set_in_session`. What leaves the engine is a log, the latest first; callbacks, configuration and
-- the modem's answers are the parameter `Setup`. Engine/Emitting, /Resending, /Muting, /Navigating
-- and /Recovery have the theorems.
--
-- gps/loc_api/libloc_api_50001/LocEngAdapter.cpp -> UserAgent. `encodeInPlace` for the parts of the
-- XTRA user agent, with percent-decoding in UserAgent/Decoding.
--
-- gps/loc_api/libloc_api_50001/loc_eng_nmea.cpp -> Nmea. The checksum of a sentence, and
-- `generate_sv` with its sentences on the satellites in view; `snprintf`'s numbers are the parameter
-- `printed`. Nmea/Checksum has a receiver, /Filling and /Groups what the sentences take, /Reported
-- the whole report, /Used the list of used satellites that the position report takes from it.
-- Engine's reports of satellites have the list that goes to it as an effect.
--
-- gps/utils/LocTimer.cpp -> Timer. One LocTimerContainer over a LocHeap tree, with its three
-- messages (`push_proc`, `remove_proc`, `expire_proc`), `update_soonest_time` and `pop_due`
-- (`popIfOutRanks`), and LocTimer's `start` and `stop`. A `Service` holds the tree, the state of the
-- kernel timer, the messages that wait, and by address or name the pointers between clients and
-- delegates. `step` is what a thread can do: a client's call, the kernel timer's expiry, one
-- message. Timer/Ranking has the order of times, /Armed and /Watch the invariant that keeps the
-- kernel timer early enough, /Expiry what one expiry takes and the time that `start` computes.
--
-- gps/loc_api/libloc_api_50001/loc_eng_ni.cpp and .h -> Ni. The two sessions of network-initiated
-- requests, `request_handler`, `respond`, `reset_on_engine_restart` and `init`, and their threads
-- (`ni_thread_proc`): `thread_wakes` is the part that holds the lock and `thread_finishes` the last
-- lines, which do not. Any number of threads per session is allowed for. `reset_on_engine_restart`
-- is one step; its parts without the lock, `free_request` and `clear_request`, are steps too,
-- between which a thread can run. Ni/Payloads has the bookkeeping of the payloads for restarts as a
-- whole, Ni/Races what the unlocked accesses lead to.
--
-- gps/utils/LocThread.cpp -> Thread. The LocThreadDelegate that a LocThread and the thread which it
-- spawns share: `construct`, `create`, `stop`, `bye` and `destroy` with the reference count, and
-- `thread_main` cut into steps at each access to the shared object. Thread/Counting and /Lifetime
-- have its life, Thread/Stopping what `stop` leads to.
--
-- gps/utils/MsgTask.cpp -> MsgQ/Task. The task over the queue of MsgQ: `run_task` and `wake_task`
-- are `MsgTask::run` up to its wait and on from there, with `send_msg`, `destroy` and `delete_task`.
-- What `destroy` writes after it has unblocked the queue, `clear_thread`, is a step of its own.
-- MsgQ/Task/Handled says what becomes of the messages.
--
-- gps/utils/loc_misc_utils.cpp -> Text. `trim_space` and `split_string`, on texts as the bytes
-- before their NUL, and from the C library `strtok`, `equal_text` (strcmp) and `is_space`.
-- gps/utils/loc_cfg.cpp -> Config. The tables of parameters, `set_config_entry`, `fill_conf_item`,
-- `read_conf_r`, `update_conf` and `read_conf`; a file is the lines that `fgets` gives. The number
-- parsers of the C library are the parameter `Numbers`.
--
-- gps/core/LocApiBase.cpp and .h -> Api. The array of adapters with `add_adapter` and
-- `remove_adapter`, the loops `to_all` and `to_first_handling` that all report and request functions
-- are, `get_evt_mask`, and the texts of `hexcode` and `decode_address`. Api/Registry, /Removal and
-- /Reachable have the array's theorems, Api/Bytes those of the texts.
--
-- gps/loc_api/libloc_api_50001/loc_eng_dmn_conn*.cpp and .c -> Dmn. Dmn/Pipe has `msgsnd` and
-- `msgrcv` over a pipe of bytes, Dmn/Handler the requests and releases of the daemon as messages of
-- the engine, Dmn/Server `loc_api_server_proc` with `thelper_main` as steps (`thread_step`) and the
-- unblocking. The width of `size_t`, the buffer's size and the layout of a message are the parameter
-- `Abi`; whether `malloc` and the two reads of a reception succeed, and what is in new memory, are
-- the parameters `Answers` and `Reads`. A `read` of more than SSIZE_MAX bytes fails, as on Linux.
-- Dmn/Framing, /Overrun, /Unread, /Agreeing and /Ending have the theorems.
--
-- amplifier/tfa.c and amplifier.c -> Amp. Amp/Tfa has `tfa_power` with the thread that keeps the
-- clock running, Amp/Hal the counts of users and `amp_enable_output_devices`, Amp/Opening the
-- opening and closing with the resources held and lost. What `pthread_create`, the sound library and
-- the vendor's library answer are the parameters `Audio`, `Rc` and `Luck`, the disabling of the
-- interface included; a wait that nobody ends, or one before the join of a thread that was never
-- created, is `none`. Amp/Clock, /Returning, /Switching, /Counting, /Results and /Holding have the
-- theorems.
--
-- gps/utils/loc_target.cpp -> Target. `loc_get_target` with `read_a_line` and `is_qca1530`, whose
-- tries are counted down from 15; properties and files are the parameter `Platform`.
--
-- Numbers are natural numbers; the retries of `DSStateMachine` wrap around as an `unsigned char`,
-- and the count of parameters still to read in loc_cfg.cpp as an `unsigned int`. Loops take fuel:
-- one more than the length of the list is enough for the list's flush and search, which is a
-- hypothesis of their theorems, and `notify_subscribers` takes that much itself, since each of its
-- rounds but the last deletes a subscriber; `expire_proc` takes one more than the size of the tree,
-- since each round pops a node, and `tokens` one more than the length of the text, since each token
-- takes a byte.
--
-- Not modelled: `malloc`, mutexes and condition variables but for the results above (they are the
-- platform's); log messages; the destructor of `AgpsStateMachine`; the addresses in a request
-- (`setIPAddresses`, which writes an address family); the test programs in LocHeap.cpp and
-- LocTimer.cpp; the creation of the timers' containers and threads, and the epoll loop
-- (LocTimerPollTask). Times do not overflow. Of memory that has been deleted it is assumed that it
-- still reads as before, and each such read of the state machines is in the log (`read_freed`). Of
-- the engine the initialization, cleanup and configuration update, the requests for XTRA data, time
-- and Wi-Fi, and the injections are left out: most of them forward values to the modem. Of the
-- daemon's connection the creation of the pipes, the replies of
-- `loc_eng_dmn_conn_loc_api_server_data_conn` and the wait of the launch are left out. The other
-- parts of the tree (logging tables, the NMEA sentences on a position, the GPS contexts, XTRA, and
-- the camera, light, power and sensor code, which forwards to other libraries or to files) are not
-- modelled.
pub mod Base
pub mod LinkedList
pub mod MsgQ
pub mod LocHeap
pub mod Agps
pub mod Timer
pub mod Ni
pub mod Text
pub mod Config
pub mod Api
pub mod Thread
pub mod Nif
pub mod Sv
pub mod UserAgent
pub mod Engine
pub mod Nmea
pub mod Amp
pub mod Dmn
pub mod Target
