-- ===== src/Lib.antt =====
-- A verification library for socket_server, the agent of a network test machine: a TCP command
-- protocol with file upload, an HTTP service for files, packet capture, packet replay, the flows of
-- capture files, and upgrades that are pushed to the machine.
--
-- The parts and their files:
-- - socket_server/protocol.py, `MyTCPHandler`: Protocol. The fields of the connection and the local
--   variables of `handle` are the record `Conn`; a statement is a function of the world that ends in
--   an `Outcome` (it went on, it left the loop, it raised). What the handler calls (the socket, the
--   file system, `json.loads`, gzip, `on_data`) is the record `Env`. Protocol/Frames is about the
--   cutting of the stream into frames, Protocol/Upload about commands 21 to 24, Protocol/Invariant
--   about what is held between two reads.
-- - socket_server/http_file.py: HttpFile. Reader is `_BodyReader`, which reads a body through a buffer
--   (Fill, Find, Split and Stream lead to the theorem on `stream_value`; Keeps is about exceptions, Ends
--   about fuel); Multipart is `parse_multipart_stream`; Handler is `do_GET`, `do_POST` and the files of an upload (Untouched is
--   about each call of the disk, Safety about a whole request);
--   Port is `read_http_port` and `start_http_file_server`.
--   The parser gets `open_file` as the record `Opener`, which Handler fills.
-- - socket_server/capture.py: Capture/Registry is the registry of running captures, its processes an
--   interface `Processes`; Capture/Process is the process of one capture (`AFPacketCapture` and
--   `_capture_process_main`), what the kernel answers its input; Capture/Cpu is `SingleQueueRxThread`;
--   Capture/Sort is `_sort_pcap_by_timestamp` on the bytes of a file; Frame has
--   `_restore_vlan`, with `add_or_modify_vlan` and `checksum` of socket_server/replayer.py.
-- - socket_server/replayer.py: Replayer. Packet has the parsers, Flow `get_direction` and the flow
--   table, Build `build_modified_packet`, Modify `modify_packet`, and Replay `send_packet`,
--   `replay_file` and `replay_files` over an interface `Io`.
-- - socket_server/pcap_flow.py: PcapFlow.
-- - socket_server/upgrader.py, the upgrade of socket_server/handlers.py and
--   socket_server/autoupgrade.py: Upgrade, whose Switched puts the configuration and the count of
--   connections together with the upgrade. socket_server/server.py: Server, its connections as a step
--   relation. socket_server/supervisor.py: Supervisor, `systemctl` a parameter.
-- - socket_server/socket_listen.py and the commands 171 to 175: Listen. The connections, the thread
--   `cachedata` and the cleanings are the steps of Listen/Gathered, one for each statement on what they
--   share; the processes and the port are an interface `Ports`.
-- - socket_server/handlers.py, `do`: Handlers, the `on_data` of the TCP handler, over an interface
--   `Services`; Handlers/Answers puts the two together.
-- - socket_server/netutils.py: NetUtils, its commands over an interface `Shell`, its waits over a
--   `Clock`.
-- - socket_server/boce.py: Boce, the probes of a page and what they count, with what the page and the
--   browser do as inputs; Boce/Chromium is `ensure_chromium`.
-- - socket_server/cli.py, `cmd_serve`, with `setup_environment` of socket_server/__init__.py and
--   `start_tcp_server` of socket_server/server.py: Serve, which puts Supervisor and HttpFile/Port
--   together.
-- Prelude has the shared names, lists, bytes, texts and dicts. Tests has runs at concrete inputs.
--
-- Numbers are natural numbers; the 32-bit words that `struct.unpack("i")` reads are signed by
-- `to_signed`, and `struct.pack` raises on a number that does not fit. Words in the machine's own
-- order are little endian. Texts are lists of code points, bytes lists of numbers.
--
-- Loops run on fuel. The fuel of `fill` is the length of the rest of the body, of the loops over
-- capture files their length, of `send_file` the size announced: each round takes at least one byte.
-- `stream_value` asks for more fuel than there are unread and pending bytes. The parser of a whole body
-- has twice the length of the body and two for each of its loops.
--
-- `wait_until` and `wait_not_until` have two rounds more than there are pauses in their time.
--
-- Not modelled: logging, and what is printed; sleeps, but for the pauses between two looks, and the
-- rate limit; the accept loops; sockets and threads but for their order of calls; a second thread
-- `cachedata`; the browser of the probes itself; the parsing of the command line and the packaging.
-- The calls on the versions directory and the writes of a capture are taken to go well. `replay_files` is modelled with
-- its sockets bound.
pub mod Prelude
pub mod Boce
pub mod Capture
pub mod Frame
pub mod Handlers
pub mod HttpFile
pub mod Listen
pub mod NetUtils
pub mod PcapFlow
pub mod Protocol
pub mod Replayer
pub mod Serve
pub mod Server
pub mod Supervisor
pub mod Upgrade
pub mod Tests
