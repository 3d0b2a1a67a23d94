-- ===== src/Lib.antt =====
-- Verification of the nng sample programs: eleven small C++ programs, each one process, that talk
-- to one another over nng sockets in six patterns, and the programs that time these patterns.
--
-- Parts and files. A file A.antt models the program of its own, its child modules prove.
--   Platform      the calls to nng, to libc and to the streams, and a program as the tree of its
--                 calls. Documented: what each call may answer and what it leaves behind (the log of
--                 events, the bodies of the messages that the process owns). Host: whatever runs a
--                 program within that. Rules, Loop: the rules by which a program is followed.
--   Checked       checkstat, of which each program has a copy (req.cpp), and what all programs build
--                 from it: a checked call, sending a text, showing a message. Startup: open, argv[1],
--                 listen or dial.
--   Reply, Req    reply.cpp and req.cpp: request and reply. processRequest is process_request, its
--                 text compose; the body of the loop in main is serve.
--   PairServer    onetoones.cpp: service.
--   PairClient    onetoonec.cpp: send, recv_and_print, recv; the length in an int is through_int.
--   Push, Pull    push.cpp and pull.cpp: a pipeline of numbered messages.
--   Publisher     publisher.cpp: publish, send.   Subscriber    subscriber.cpp.
--   Respondent    respondent.cpp: getmsg, reply, and the value of respond, responds.
--   Surveyor      surveyor.cpp: survey, receiveAndPrint as receive_and_print, its loop as collect, what
--                 follows the loop as conclude. Timeout: how a survey ends.
--   Bus           bus.cpp: setupBus as setup_bus, with the positions that it dials as targets.
--                 Mesh and Setup: joining; Talk: the messages.
--   Performance   what the programs in performance/ share: int_loop (a for loop whose int counts a size_t),
--                 new_bytes (new uint8_t[n]), receive_freed, store_first. Each program is a child module:
--                 Pair, Reqrep, Pushpull, Pubsub, Survey and Bus, with the source's function names. Crew:
--                 starting and joining threads. Report: the lines that are printed at the end. Threads: the
--                 code of each kind of thread. Process: a process whose threads take turns in any order.
--                 The other child modules prove: Drain, Subscribed, Pulled, Answers, Answering, Member and
--                 Sound about the threads' functions; Sends, Senders, Exchanges, Surveys, Spray, BusSetup about what
--                 the main threads call; Timed, Requested, Surveyed, Sprayed about main; Process/Kept and
--                 Process/Turns about all orders of turns; Ended, Crewed, Whole, SurveyRun and BusRun about
--                 whole processes; Overflow, Numbers, Leaks about loops, words and buffers; Addresses about
--                 the addresses of a bus and the promises' ints.
--                 Delivery, Filtered, Arrival, Carried, Delivered and BusDelivered: which messages arrive.
--   Bytes         C strings, std::string's == and <<; atoi and atol in Bytes/Strtol.
--   Tests         the programs on one concrete machine, and on machines that hear one another (Network).
--
-- The programs interact by messages alone. A theorem about two programs takes a run of each, on hosts
-- of their own, and says of the logs which message of the one is which of the other.
--
-- Neither nng nor libc is defined: every theorem about a run holds for all hosts that keep to
-- Platform/Documented (a status of zero is success, a received body is any bytes, nng_msg_alloc(n)
-- gives n bytes of any content, nng_msg_insert puts its bytes before the body, nng_sendmsg takes the
-- message over if it succeeds). Tests/Machine has such a host. A null pointer used and a body read
-- without a terminator are the outcome faults.
--
-- Threads. The programs in performance/ start threads, which share nothing with the main thread but what
-- they were started with. Each thread runs on a view of its own (its events, what it owns); a turn is one
-- call of one thread; a run is a list of turns, and any list is allowed. A join waits until its thread has
-- returned. A thread that exits, or meets undefined behaviour, ends the process. The hosts of Process
-- answer each thread within Platform/Documented; nothing is assumed of what one thread receives of what
-- another sends, but in Delivered and BusDelivered: there no other process takes part, and a message that a
-- thread receives was sent by a thread of the process before (Genuine of Delivery). Messages may be lost,
-- doubled and mixed even so. A promise is a call to the platform, and the answers to main's polls are not
-- tied to it. A call that blocks for ever is a thread that gets no further turn; a theorem about a process
-- that ends says nothing of one that hangs. Memory that is not to be had, and a thread that cannot be
-- started, end the process by abort.
--
-- Bounds. main of a program with an endless loop takes the number n of turns that are followed; a
-- theorem holds for every n. The surveyor's inner loop takes fuel, the number of responses that are
-- followed; a survey that goes on for longer is an outcome of its own. The while loops of performance/ take
-- fuel too and give false or none if it runs out. Numbers are natural numbers; the int of onetoonec.cpp
-- wraps, and a loop whose int overflows (int_loop, the turns of the surveyor) has undefined behaviour; what a
-- build makes of that is not followed. A uint32_t that becomes an int is converted by as_int.
-- A uint32_t in a message is four bytes, the lowest first. Doubles, std::chrono and snprintf are
-- parameters (Doubles of Report, formatted of Bus).
--
-- Not modelled: argc, which the programs do not read; the flags, which are constants; how and when the
-- messages of one thread reach another, which is nng's; the deletion of joined std::thread objects, which has no
-- effect; std::cout's flush; the makefiles and the scripts bus.sh and performance/bustiming.sh.
pub mod Prelude
pub mod Bytes
pub mod Platform
pub mod Checked
pub mod Reply
pub mod Req
pub mod PairServer
pub mod PairClient
pub mod Push
pub mod Pull
pub mod Publisher
pub mod Subscriber
pub mod Respondent
pub mod Surveyor
pub mod Bus
pub mod Performance
pub mod Tests
