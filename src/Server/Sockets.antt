-- ===== src/Server/Sockets.antt =====
-- The sockets of a server and the descriptors that are open (src/server.c, tcp_listen, listener_start,
-- udp_bind and udp_start with what stops them; src/event_timer.c, listener_cb). The TCP listener and
-- the HTTP listener are one record, the socket for packets is in the child module Udp.
pub mod Udp
pub mod Laws
pub mod Balance
use Prim.Native.String.{String}
use kcptun_libev.Base.{
  ℕ, Bool, true, false, not, List, [], ◌∷◌, Option, none, some, if◌then◌else◌, ◌==◌,
}
use kcptun_libev.Address.{SockAddr}
use kcptun_libev.Conf.{Config, is_set}

-- CLOSE_FD, among the descriptors that are open.
unfoldable pub close_fd : ℕ → List ℕ → List ℕ
close_fd fd [] = []
close_fd fd (x ∷ xs) = if x == fd then xs else x ∷ close_fd fd xs

-- A field that may be -1, which is `none`.
unfoldable pub close_field : Option ℕ → List ℕ → List ℕ
unfolding close_fd
close_field none fds = fds
close_field (some fd) fds = close_fd fd fds

-- How `resolve_addr` and the calls of the system in `tcp_listen` fare.
pub record ListenCalls : Type 0 where
  pub resolve : Option SockAddr
  pub socket : Option ℕ
  pub nonblock : Bool
  pub bind : Bool
  pub listen : Bool

-- The result is -1 or a descriptor.
unfoldable pub tcp_listen : ListenCalls → List ℕ → Option ℕ × List ℕ
unfolding close_fd
tcp_listen calls fds = elim calls.socket [
  | none ↦ (none, fds)
  | some fd ↦
      if not calls.nonblock
      then (none, close_fd fd (fd ∷ fds))
      else if not calls.bind
      then (none, close_fd fd (fd ∷ fds))
      else if not calls.listen
      then (none, close_fd fd (fd ∷ fds))
      else (some fd, fd ∷ fds)
]

-- `struct listener`: its descriptors, and whether its watchers and its timer run.
pub record Listener : Type 0 where
  pub fd : Option ℕ
  pub fd_http : Option ℕ
  pub accepting : Bool
  pub accepting_http : Bool
  pub retrying : Bool

-- What `server_new` leaves, with a 0 where the initialiser names no value.
abbrev pub new_listener : Listener
new_listener = record {
  fd = none;
  fd_http = some 0;
  accepting = false;
  accepting_http = false;
  retrying = false;
}

-- A listener, the descriptors that are open, and whether it went well.
pub record Listening : Type 0 where
  pub ok : Bool
  pub listener : Listener
  pub fds : List ℕ

unfoldable pub listen_tcp : Option String → ListenCalls → Listener → List ℕ → Listening
unfolding tcp_listen
listen_tcp none calls l fds = record { ok = true; listener = l; fds = fds }
listen_tcp (some name) calls l fds = elim calls.resolve [
  | none ↦ record { ok = false; listener = l; fds = fds }
  | some addr ↦
      let r = tcp_listen calls fds in
      elim r.0 [
        | none ↦ record { ok = false; listener = l; fds = r.1 }
        | some fd ↦ record {
          ok = true;
          listener = record l { fd = some fd; accepting = true };
          fds = r.1;
        }
      ]
]

unfoldable pub listen_http : Option String → ListenCalls → Listener → List ℕ → Listening
unfolding tcp_listen
listen_http none calls l fds = record { ok = true; listener = l; fds = fds }
listen_http (some name) calls l fds = elim calls.resolve [
  | none ↦ record { ok = false; listener = l; fds = fds }
  | some addr ↦
      let r = tcp_listen calls fds in
      elim r.0 [
        | none ↦ record { ok = false; listener = l; fds = r.1 }
        | some fd ↦ record {
          ok = true;
          listener = record l { fd_http = some fd; accepting_http = true };
          fds = r.1;
        }
      ]
]

-- The calls for the one and for the other listener. The timer is set up and does not run.
unfoldable pub listener_start : Config → ListenCalls → ListenCalls → Listener → List ℕ → Listening
unfolding listen_tcp listen_http
listener_start c calls http_calls l fds =
    let r = listen_tcp c.listen calls l fds in
    if r.ok then listen_http c.http_listen http_calls r.listener r.fds else r

-- Where the HTTP listener is closed, the watcher of the other one is stopped again.
unfoldable pub listener_stop : Listener → List ℕ → Listener × List ℕ
unfolding close_field
listener_stop l fds = (
  record l {
    fd = none;
    fd_http = none;
    accepting = if is_set l.fd then false else if is_set l.fd_http then false else l.accepting;
    retrying = false;
  },
  close_field l.fd_http (close_field l.fd fds),
)

-- The timer does not repeat.
unfoldable pub listener_cb : Listener → Listener
listener_cb l = record l {
  accepting = if is_set l.fd then true else l.accepting;
  accepting_http = if is_set l.fd_http then true else l.accepting_http;
  retrying = false;
}
