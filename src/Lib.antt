-- ===== src/Lib.antt =====
-- kcpev: connections over TCP with a faster path over UDP and kcp, on libev. The library is
-- src/kcpev.c, with a ring buffer in src/kcpev_ringbuf.c; a client connects by TCP, gets a key from
-- the server, and the two shake hands over UDP with that key. This development models the library in
-- functions that compute, and proves what the list at the end says.
--
-- The parts and their files:
--
--   Ringbuf        src/kcpev_ringbuf.c: `ringbuf_new` (`new`), `ringbuf_put` (`put`), and so on. The
--                  bytes are a list of the allocated length. Ringbuf/Layout has the invariant and the
--                  pending bytes, Ringbuf/Put and Ringbuf/Read the calls, Ringbuf/Refine the queue.
--   Header         `KcpevHeader`, `header_to_net`, `header_from_net` and `pack_send_buf`, on bytes.
--   Stream         `on_tcp_recv`, `get_tcp_buf_chunk` and the loop in `client_tcp_recv` and
--                  `server_tcp_recv`, for any packet handler. Its child modules go from one chunk
--                  (Stream/Chunk) and one `recv` (Stream/Store, Stream/Grow, Stream/Stall) to a
--                  reference loop over one byte sequence (Stream/Frames, Stream/Refine), a stream of
--                  packets under any handler that accepts them (Stream/Pieces) and a whole stream
--                  in pieces (Stream/Segments).
--   Conn           The structures of src/kcpev.h; the calls to the outside and its answers
--                  (Conn/Outside); the `check` and `error:` of src/dbg.h as a monad (Conn/Monad), with
--                  rules for what a body keeps (Conn/Keeps) and for one step after the other
--                  (Conn/Triples).
--   Send           `sock_send_command`, `kcp_send_command`, `kcpev_send_command`, `kcpev_send`,
--                  `kcpev_send_tcp`, `is_kcp_valid`, `set_kcp_invalid`, `udp_output`.
--   Life           `kcpev_create`, the destroying functions, `kcpev_set_ev`, `kcpev_init_ev`,
--                  `kcpev_create_kcp`, `check_create_kcp_timer`.
--   Poll           `try_kcp_recv` and `kcpev_timer_repeat`.
--   Client         `on_client_recv`, with one function for each case of its switch, the client's
--                  callbacks and its heartbeat timer. Client/Handshake and Client/Status have the
--                  state machine of its UDP status, Client/Steps the runs and a rule for what they
--                  keep, Client/Callbacks, Client/Accounts and Client/Agreed uses of it, Client/Packets
--                  a rule for the switch, Client/Data and Client/Shake the packets of messages and of a
--                  handshake.
--   Setup          Binding, connecting, listening, `connect_client_udp`, `kcpev_create_client`. What
--                  `connect_client_udp` leaves is in Setup/Peer, by a rule for its steps in
--                  Setup/Reach, as Setup/Created has one for a new client, which Setup/Laws and
--                  Setup/Accounts use; Setup/Open has `connect_client_udp` succeed; Setup/Accounts counts what each
--                  takes and gives back.
--   Server         `KcpevServer` with its clients on a heap of addresses, its table as a list of
--                  addresses (Server/State), `on_server_recv` (Server/Recv) and the callbacks
--                  (Server/Callbacks). Server/Steps has the runs and a rule for what they keep;
--                  Server/Table, Server/Packets, Server/Accept, Server/Invariant and Server/Run have
--                  the invariant of the table, Server/Release its end, Server/Beat the heartbeat.
--                  Server/Status and Server/Machine have the UDP side of each client as a state
--                  machine, Server/Wired its kcp object in every run, Server/Shake and Server/Again its
--                  handshakes, Server/Heap look-ups.
--   Accounts       What a connection takes from the system, libev and kcp, and gives back, by the calls
--                  so far and their answers; Accounts/Calls has the functions that all use.
--   Delivery       Messages from end to end: the bytes that `kcpev_send_tcp` puts on the wire
--                  (Delivery/Sending), in pieces through `client_tcp_recv` (Delivery/Receiving,
--                  Delivery/EndToEnd) or `server_tcp_recv` (Delivery/ServerSide,
--                  Delivery/ToServer); what `kcpev_send` gives to kcp (Delivery/Udp), through
--                  `client_udp_recv` (Delivery/Polled).
--   Handshake      A client and a server through a whole handshake: the datagrams that each sends are
--                  those that the other gets (Handshake/Complete).
--   System         One client and the server as one system, whose network may deliver anything.
--   Uuid           `uuid_unparse` of src/myuuid.c, as Windows has it.
--   Base, Memory   Shared lists, integers, outcomes, and `memcpy` with its bounds.
--
-- How code becomes definitions. A function that updates a structure returns the new one. `Run` is the
-- outcome of code that may fault: an assertion that fails, a copy outside its object, the use of NULL,
-- of a freed client or of what was never set. `size_t` wraps at 2 ^ 64 and `uint32_t` at 2 ^ 32; a
-- length that passes through an `int` loses its upper bits. A connection runs in a `World`: the
-- connection, and the calls made so far to the system, to libev, to kcp and to the user, the latest
-- first. What these answer is an `Env` of functions of the calls so far, so that every answer is
-- possible; the theorems take any `Env`, and name what they need of it: that a buffer on the stack has
-- its size (`HasStack`), that `malloc` succeeds (`Allocates`), that kcp hands out a queue (`Queued`),
-- that the calls of a handshake succeed (`Succeeds`, `Opens`, `Serves`).
--
-- Fuel. `move_chunks` and `chunk_loop` get one round more than there are pending bytes, which is
-- enough since each round but the last takes a byte at least; a fault would show otherwise, and the
-- theorems on `tcp_recv` and `on_tcp_recv` say that there is none. The loop of `try_kcp_recv` lasts as
-- long as kcp has messages; its fuel is a parameter, and one round more than there are messages is
-- enough. A theorem on runs of callbacks speaks of callbacks that return.
--
-- Not modelled: kcp itself (src/ikcp.c, another project's); src/portable_endian.h; `kcpev_startup`,
-- which starts Winsock and is 1 elsewhere; the upper-case format of src/myuuid.c; the hooks of
-- `kcpev_malloc` and `kcpev_free`, which nothing sets; log output; the fields `data`, `loop`,
-- `heartbeat` and `hh`; tests and build files. The uthash table is a list in the order of insertion,
-- without buckets; HASH_ADD and HASH_DEL also write through the handles of neighbours in the table,
-- which is harmless as long as no entry is of a freed client, and is left out. Whether more than 30
-- seconds have passed between two doubles is an answer of the environment (`overdue`).
pub mod Base
pub mod Memory
pub mod Ringbuf
pub mod Header
pub mod Stream
pub mod Conn
pub mod Send
pub mod Life
pub mod Poll
pub mod Client
pub mod Setup
pub mod Server
pub mod Accounts
pub mod Delivery
pub mod Handshake
pub mod System
pub mod Uuid
