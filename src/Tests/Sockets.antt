-- ===== src/Tests/Sockets.antt =====
-- Sockets that are opened and closed, and addresses that are resolved again.
use kcptun_libev.Base.{
  ◌≡◌, ℕ, refl, true, false, List, [], ◌∷◌, none, some, arith, Ends, if◌then◌else◌,
}
use kcptun_libev.Conf.{conf_default, conf_check, ranges_ok, range_check_int}
use kcptun_libev.Server.Sockets.{
  ListenCalls, new_listener, listener_start, listener_stop, close_field,
}
use kcptun_libev.Server.Sockets.Laws.{http_listens, listener_stop-start}
use kcptun_libev.Server.Sockets.Udp.{Pkt, UdpCalls, LocalCalls, udp_start, udp_stop}
use kcptun_libev.Server.Sockets.Balance.{udp_stop-start}
use kcptun_libev.Server.Resolve.{CryptoSizes, Net, ResolveCalls, server_resolve, resolve_cb}
use kcptun_libev.Server.Resolve.Laws.{Settles, Rearms, server_resolve-Settles, resolve_cb-Rearms}
use kcptun_libev.Tests.Messages.{address}
use kcptun_libev.Tests.Services.{client, exact}

abbrev listen_calls : ListenCalls
listen_calls = record {
  resolve = some (address 1);
  socket = some 5;
  nonblock = true;
  bind = true;
  listen = true;
}

-- Descriptor 0 is closed with a new server that has no HTTP listener.
listener_stop-start_example :
    let r = listener_start client listen_calls listen_calls new_listener (0 ∷ 1 ∷ 2 ∷ []) in
    (listener_stop r.listener r.fds).1 ≡ (
      if http_listens client listen_calls listen_calls
      then 0 ∷ 1 ∷ 2 ∷ []
      else close_field (some 0) (0 ∷ 1 ∷ 2 ∷ []))
listener_stop-start_example =
    listener_stop-start client listen_calls listen_calls new_listener (0 ∷ 1 ∷ 2 ∷ []) refl

stdin_closed :
    let r = listener_start client listen_calls listen_calls new_listener (0 ∷ 1 ∷ 2 ∷ []) in
    (listener_stop r.listener r.fds).1 ≡ 1 ∷ 2 ∷ []
unfolding listener_start listener_stop conf_default
stdin_closed = refl

abbrev no_socket : Pkt
no_socket = record {
  fd = none;
  domain = none;
  connected = false;
  kcp_connect = address 0;
  rendezvous_server = address 0;
  rendezvous_local = address 0;
  reading = false;
  writing = false;
}

abbrev udp_calls : UdpCalls
udp_calls = record { resolve = some (address 2); socket = some 6; nonblock = true; attach = true }

abbrev local_calls : LocalCalls
local_calls = record { socket = some 7; connect = true; getsockname = some (address 3) }

udp_stop-start_example :
    let r = udp_start client udp_calls udp_calls udp_calls local_calls no_socket (0 ∷ 1 ∷ 2 ∷ []) in
    (udp_stop r.pkt r.fds).1 ≡ 0 ∷ 1 ∷ 2 ∷ []
udp_stop-start_example =
    udp_stop-start client udp_calls udp_calls udp_calls local_calls refl no_socket (0 ∷ 1 ∷ 2 ∷ [])
      refl

abbrev net : Net (List ℕ) exact.Filter
net = record {
  connect = address 0;
  pkt = no_socket;
  obfs = none;
  noncegen = none;
  msg_offset = 0;
  mss = 0;
  last_resolve_time = none;
  last_recv_time = some 1000;
}

abbrev resolve_calls : ResolveCalls
resolve_calls = record {
  connect = none;
  bind_calls = udp_calls;
  connect_calls = udp_calls;
  rendezvous_calls = udp_calls;
  local = local_calls;
}

abbrev chacha : CryptoSizes
chacha = record { overhead = 16; nonce_size = 12 }

client_usable : (conf_check client).0 ≡ true
unfolding conf_check conf_default ranges_ok range_check_int
client_usable = refl

server_resolve-Settles_example :
    let c = (conf_check client).1 in
    Settles c (some chacha) net (server_resolve c (some chacha) resolve_calls net [])
server_resolve-Settles_example =
    server_resolve-Settles client (some chacha) resolve_calls net [] client_usable (omega arith)

-- 1400 bytes less 28 for UDP and 28 for the cipher.
resolved_mss :
    Ends
      (λ r. r.1.mss ≡ 1344)
      (server_resolve (conf_check client).1 (some chacha) resolve_calls net [])
unfolding server_resolve conf_check conf_default ranges_ok range_check_int
resolved_mss = refl

resolve_cb-Rearms_example :
    Rearms exact [] 900000 75000
      (resolve_cb exact [] 900000 75000 (conf_check client).1 (some chacha) resolve_calls net [])
resolve_cb-Rearms_example =
    resolve_cb-Rearms exact [] 900000 75000 client (some chacha) resolve_calls net [] client_usable
      (omega arith) (omega arith)
