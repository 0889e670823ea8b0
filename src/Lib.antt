-- ===== src/Lib.antt =====
-- The device agent (device-agent/): a process on a device that keeps a session with the server
-- over the Moonlight protocol, and hands the device's requests and the server's answers between
-- that session and local callers.
--
-- Parts, with the file of each:
--   Protocol        `MoonlightPacket` and its enums (device-agent/src/moonlight_codec.rs).
--                   Protocol/Reader is the reader's monad, Protocol/Layout the byte layout that
--                   the deku attributes declare, Protocol/Build the constructors of
--                   `impl MoonlightPacket`.
--   Codec           `Codec`: `encode`, `feed`, `decode` and `process_packets`. The functions that
--                   deku derives are the record `Deku` with the laws that the codec relies on;
--                   `layout` fills it. Codec/Stream and Codec/Chunks hold the theorems.
--   Creds           `Creds`: `validate` and its parts, `new` and `hash`.
--   Response        `ServerResp::handle_packet`, `Mail`, `DisconnectedReason`; Response/Replies
--                   holds the theorems.
--   MailId          `uuidv7_u128` and `uuidv7_str`, with the theorems in its child modules.
--   Client          `ClientLogic`. Client/Txns is the map `pending_txns`, Client/State the fields
--                   and the monad of the methods, Client/Commands `push_txn` and `handle_cmd`,
--                   Client/Responses `handle_server_resp`, `resolve_txn`, `resolve_mail` and
--                   `refresh`, Client/Events `process_client_event`, `start_loop` and
--                   `wait_for_authentication`, Client/Start `ClientLogic::new`. Client/Owed,
--                   Client/Conservation, Client/Pending, Client/Keeps, Client/Keys, Client/Waiting,
--                   Client/Panics and Client/Authentication hold the theorems.
--   Session         `MoonlightClient`: `session_lifecycle` and `start`. Session/State is its fields
--                   with `stop`, `status`, `backoff` and `send_cmd`, Session/Timer is `timer_logic`
--                   and Session/Watchdog `timer_proc`; Session/Backoff and Session/Shutdown hold
--                   theorems.
--   Transport       `push_bytes_to_socket` (device-agent/src/moonlight_socket.rs), over a socket whose
--                   answers are given. Transport/Loop is `socket_read`, `pull_bytes_from_socket` and
--                   the loop of `connect`. Transport/Order, Transport/Returns and the children of
--                   Transport/Loop hold the theorems.
--   NotifyCast      `NotifyCast` (device-agent/src/notifycast.rs): subscribers and broadcasts.
--   Http            the HTTP server (device-agent/src/http_server/). Http itself is the choice of
--                   `route` and its helpers (router.rs), the handler that a request is given to with
--                   its arguments. Http/Lines is `read_line`, Http/Exact the read of a body, and
--                   Http/Request the rest of request.rs over the monad of Http/Parse, Http/Headers a map of headers, Http/Status and
--                   Http/Response response.rs, Http/Commands cmd.rs, Http/Events events.rs, and
--                   Http/Server `handle_request` and `exec_stop_agent` (router.rs), which compose
--                   them, and Http/Listen the loop of `unix_server` (server.rs) with the threads
--                   that it starts (socket.rs). Their children hold the theorems.
--   Cli             the command line (device-agent/src/cli/). Cli itself is parser.rs, Cli/Files
--                   stop.rs, status.rs and the readiness check of daemon.rs, Cli/Start start.rs and
--                   `start_daemon`. Cli/Config, Cli/Files/Stopping, Cli/Start/Again and
--                   Cli/Start/Handshake hold the theorems.
--   Outside         what the agent takes from elsewhere: serde_json, sha2, hex, Unicode's tables of
--                   characters, the version of the build. The record `Web` of Http/Response adds the
--                   date, JSON texts of responses and the order in which a hash map is walked.
--   Prelude         lists, texts as lists of characters with UTF-8, results, Boolean tests.
--   Tests           runs at concrete inputs.
--
-- A session owns a client. The session opens the transport, hands the events of its mailbox
-- (bytes from the transport, commands of callers, ticks of the timer) to the client one by one,
-- and ends with a reason to disconnect, after which it waits and starts again. The client decodes
-- bytes with the codec, gives each packet to `handle_packet`, and answers on the channel of the
-- transaction that the packet names. A local caller's request is parsed, routed to a command, sent
-- to the session with a channel for the answer, and answered by what comes on that channel. The
-- command line starts and stops agents, and talks to a running one by such requests.
--
-- State is passed explicitly. A method of the client gives the new state and a value, an error or
-- a panic. Sends on a channel are kept as lists in the state. A channel of a caller is a number,
-- an instant a number of milliseconds, an interleaving of threads the order of the events in a
-- list. Words of 64 bits wrap where the source wraps them; casts to `u8` and `u32` are written as
-- remainders. A hash map is an association list.
--
-- Loops over lists are structural. `process_packets` runs on as much fuel as its buffer has bytes
-- and one, and each round takes a byte at least. The decimal digits of a mail id run on 39, the
-- number of digits of the largest of 128 bits. `push_bytes_to_socket` runs on the rounds that it
-- is given: 65536 are enough unless a signal interrupts writes. The loop over header lines runs on
-- the bytes that the source still gives and one, and each line takes a byte at least.
--
-- A socket is read as a list of fills, each the bytes or the error of one call; waiting loops
-- (`wait_for_connected`, `wait_for_cleanup`, `run_readiness_check`) take what they see each time that
-- they look, for as long as they wait.
--
-- The reader's buffer holds 8 KiB in the source and has no bound here; it is empty when a connection
-- is opened. Drawing a token and entering its subscriber are one step here and two in the source.
-- Nothing is said of the client behind a panic, where `stop` on a poisoned lock leaves its flag
-- raised. Fields of packets are natural numbers, and their widths conditions of the theorems.
--
-- A thread that serves a connection handles its request in one step, which takes the place that the
-- order of the events gives it. Removing a file is taken to succeed: the source ignores the result.
--
-- Not modelled: the opening and closing of sockets and their TLS configuration, `tcp_server`,
-- threads and locks as such, the spawning of processes and printing, the connection test, and the
-- SDKs under sdk/. Their inputs and outputs meet the parts above as events, commands, fills and
-- files.
pub mod Prelude
pub mod Protocol
pub mod Codec
pub mod Outside
pub mod Creds
pub mod Response
pub mod MailId
pub mod Client
pub mod Session
pub mod Http
pub mod Cli
pub mod Transport
pub mod NotifyCast
pub mod Tests
