-- ===== src/Lib.antt =====
-- A verification library for lwsip, a small SIP user agent in C.
--
-- The program. A SIP agent (src/lws_agent.c) registers with a server and makes and takes calls over
-- libsip. Each call has a dialog, and each dialog a media session (src/lws_sess.c), which offers an
-- SDP, chooses between ICE and direct RTP, and moves audio between librtp, a socket and the media
-- devices (src/lws_dev.c). A device works through the operation table of a backend, such as the file
-- backend (src/lws_dev_file.c). The timers that libsip asks for are in src/lws_timer.c. Messages travel
-- through a transport, over UDP or MQTT (src/lws_trans.c); a request that the server challenges is
-- sent again with a digest (src/lws_auth.c). src/cmd/lwsip-cli.c is a program over the library.
--
-- The files.
--   Common and below: the shared types and lemmas. Tests and conditionals, lists measured by native
--     numbers, C strings as lists of bytes, decimal numbers as printf writes them.
--   Agent: src/lws_agent.c without the addresses. Agent.Types holds lws_agent_t and
--     lws_dialog_intl_t; Dialogs the list of dialogs; Media the callback sess_on_sdp_ready; Calls
--     lws_agent_make_call, answer, reject, hangup and cancel; Incoming what libsip calls for a dialog;
--     Register lws_agent_start, lws_agent_stop and uac_onreply_callback; Sequence all of them in any
--     order; Transport the sending and receiving of messages; Lifecycle creation, destruction and the
--     loop over the models of Trans, Timer and Sess. Delivery, Teardown, Answer, Counted, Ledger,
--     Moves and Silence hold the theorems, Belongings, Listed, Opened, References, Balance,
--     Held, Arrivals, Distinct, Released, Registration and States lemmas.
--   Sess: src/lws_sess.c. Types holds lws_sess_t; Create creation and destruction; Control the state
--     machine; Sdp and Remote the local and the remote SDP; Media lws_sess_loop; Calls sequences of
--     calls. The other modules are named for what they prove.
--   Dev: src/lws_dev.c with src/lws_dev_intl.h, over any operation table and any platform data.
--     Create, Control, Transfer and Timestamp hold the operations.
--     Backend says what the layer needs of a backend that owns something, and what it gets for it.
--   FileDev: src/lws_dev_file.c; Config is the union of include/lws_dev.h as words of memory.
--   DevStub: src/lws_dev_stub.c as an operation table of Dev.
--   DevMacos: src/lws_dev_macos.c. Ring is the ring buffer, Audio the callbacks and the waiting, Open
--     and Ops the operations; Fifo is what the backend promises, without the ring.
--   DevLinux: src/lws_dev_linux.c. Account is the ledger of opening and closing.
--   Timer: src/lws_timer.c.
--   Sip: lws_sip_parse_uri and lws_sip_addr_to_string of src/lws_agent.c.
--   Trans: src/lws_trans.c in Api and Address, src/lws_trans_udp.c in Udp, src/lws_trans_mqtt.c in Mqtt
--     and, for what lwIP calls, Callbacks; Calls is any order of calls and callbacks. Assembly says
--     without a buffer what the receiving side does, and Reassembly that the buffer does it.
--   Auth: src/lws_auth.c; the parsing in Auth, Response the answer, Header its text. Digest holds the
--     digest of RFC 2617 for MD5, without a quality of protection or with auth, as the specification.
--   Cli: src/cmd/lwsip-cli.c; Setup is init_lwsip and cleanup_lwsip as the calls that they make, World
--     a ledger of the objects, Server the address of the server.
--   The Examples modules hold tests and instances of the theorems.
--
-- How code is modelled. An operation on an object is a function from its state to the new state, the
-- return value, and the list of calls that it makes to the outside, in their order. What the C library,
-- libsip, librtp, libice, libmov, the sockets and the allocator answer is an argument, mostly a field
-- of a record whose name ends in Env. A NULL or missing value is none of Option. A negative return
-- value is negsuc of the integers in Common.Int. Unsigned members of fixed width wrap around where the
-- code counts or adds in them (% 2 ^ 64, % 2 ^ 32), and a length that is passed on in a narrower type
-- is narrowed (to_int, the 16 bits of an MQTT payload).
--
-- Bounds and fuel. Decimal numbers are written with fuel 10, one step for each digit, enough below
-- 10^10 and so for ports, codecs and time in seconds until the year 2286. The loop of lws_sess.c over
-- candidates is a pass over the text that skips the bytes of a line already seen. The loop over
-- mov_reader_read is a pass over the results still to come; a reader that gives no further result is
-- one on which the C loop would not return.
--
-- What is not modelled. The layer for the operating system (osal). Of the command line program: the
-- configurations of the devices, the session and the transport, and what it prints. Of the agent:
-- calls of the API from within one of its callbacks. Log messages. Signed overflow, which C leaves
-- undefined. Several threads, except in Timer and DevMacos, where a part that holds the mutex is one
-- step.
pub mod Agent
pub mod Auth
pub mod Cli
pub mod Common
pub mod Dev
pub mod DevLinux
pub mod DevMacos
pub mod DevStub
pub mod FileDev
pub mod Sess
pub mod Sip
pub mod Timer
pub mod Trans
