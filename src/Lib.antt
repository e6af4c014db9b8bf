-- ===== src/Lib.antt =====
-- kcptun-libev carries TCP connections over KCP, a reliable protocol on UDP. Each connection is a
-- session: bytes read from its socket become messages that KCP sends, and the messages that KCP
-- delivers are written to its socket. Packets pass a queue where they are encrypted, and a nonce
-- that was seen before is refused. This library models the logic of src/ that decides what happens
-- to bytes, sessions and nonces, and the configuration that it runs under.
--
-- The parts, and where they are modelled:
--
--   Session            src/session.h, src/session.c: the state of a session
--   Session.Step       the world of one session, its faults, and the answers of the system
--   Session.Kcp        src/event_kcp.c, session_kcp_send and session_kcp_close
--   Session.Tcp        src/event_tcp.c: the socket of a session
--   Session.Process    src/session.c: the message loop; Session.Create creation and release
--   Session.Valid      the invariant of a session
--   Server             src/server.h; Server.Table its sessions; Server.Message the messages of
--                      session 0, src/session.c
--   Server.Receive     src/pktqueue.c, queue_recv; Server.Dispatch queue_dispatch
--   Server.Rounds      timeout_cb and kcp_update_cb over all sessions; Server.Keepalive keepalive_cb
--   Server.Sockets      src/server.c: listeners and the socket for packets; Server.Resolve
--                      server_mss, server_resolve, and resolve_cb of src/event_timer.c
--   Server.Accept      conv_new of src/server.c, accept_one and tcp_accept_cb of src/event_tcp.c
--   HttpService        src/event_http.c: the requests for the page with the statistics
--   Timer              src/event_timer.c: the time-out of a session
--   Packet             src/pktqueue.c, src/event_pkt.c, src/crypto.c: sealing and sending;
--                      Packet.Receive receiving
--   Obfs               src/obfs.c: the state; Obfs.Packet the packets that look like TCP;
--                      Obfs.Filter the program of the packet filter, Obfs.Context the contexts,
--                      Obfs.Http what is said in HTTP, Obfs.Dial a client's connection,
--                      Obfs.Events the steps of a running obfuscator
--   Nonce              src/nonce.c: the nonce generator and the replay filter
--   Conf               src/conf.c: defaults and checks; Conf.Read the walk over the JSON file
--   Address            src/sockutil.c: comparison of socket addresses
--   Library            what contrib/ and the system provide, as parameters
--
-- A definition has the name of the C function that it models. A function that changes a session
-- is `World → Option (result × World)`: `none` is a failed assertion or the use of a freed buffer,
-- and a World holds the session, the counters of the server, the clock, and the answers that
-- `recv`, `send`, `connect` and SO_ERROR are going to give. Session and Nonce work together in
-- the packet queue only; the socket callbacks and the KCP callbacks meet in the session, whose
-- invariant each keeps.
--
-- A loop runs on fuel: as many rounds as there are answers of the system left, plus one; for the
-- message loop as many as there are bytes to read, plus two; for the flush of the packet queue as
-- many as there are packets in it, plus one; for the components of a query as many as there are
-- bytes in it, plus two. The theorems on those loops show that the fuel is never
-- used up, since running out of it is a fault too. The search for a conversation number takes a
-- random number in each round, and those are given as a list.
--
-- A frame that a message of session 0 sends is collected in the `outbox` of Server; Packet says
-- what the queue does with a frame. A loop around a call of the system, and a callback that such
-- a loop calls, take the answers as a list, which is how often they run. Bytes are numbers, times
-- are milliseconds, and the 64-bit counters are taken not to wrap. Memory is taken to be there,
-- but where a definition has a parameter for it; the bit of a new context that malloc leaves as
-- it was is a parameter too. The KCP protocol, the Bloom filter, the JSON, URL and HTTP parsers, the serialiser,
-- the ciphers and the machine that runs packet filters are parameters, with the facts that their
-- headers document. Library.Concrete and Obfs.Filter.Kernel give small instances of them for the
-- examples. Not modelled: logging, what the statistics say, option parsing, privileges, the
-- obfuscator's part in the packet queue, and the event loop itself.
pub mod Base
pub mod Conf
pub mod Library
pub mod Address
pub mod Nonce
pub mod Session
pub mod Server
pub mod Packet
pub mod Obfs
pub mod Timer
pub mod HttpService
mod Tests
