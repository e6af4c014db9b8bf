-- ===== src/Server/Accept/Loop.antt =====
-- The connections that wait at the TCP listener (src/event_tcp.c, tcp_accept_cb).
pub mod Laws
use kcptun_libev.Base.{
  ℕ, Bool, true, false, not, List, [], ◌∷◌, Option, none, some, length, if◌then◌else◌, ltb,
}
use kcptun_libev.Library.{Errno, is_transient_error, Serialize, Ikcp}
use kcptun_libev.Session.Create.{KcpConf}
use kcptun_libev.Server.{Server}
use kcptun_libev.Server.Accept.{accept_one}
use kcptun_libev.Server.Sockets.{Listener}

abbrev pub max_sessions : ℕ
max_sessions = 65535

-- What one round is given: a descriptor, whether it was set not to block, whether there is memory for
-- a session, and the random numbers for its conversation number.
pub data AcceptOut : Type 0 where
  got_socket : (fd : ℕ) → (nonblock memory : Bool) → (rands : List ℕ) → AcceptOut
  accept_error : Errno → AcceptOut

-- The watcher rests until `listener_cb` starts it again.
abbrev pub rest_a_while : Listener → Listener
rest_a_while l = record l { accepting = false; retrying = true }

abbrev pub accept_failed : Errno → Listener → Listener
accept_failed e l = if is_transient_error e then l else rest_a_while l

module _ (ser : Serialize) (lib : Ikcp) (c : KcpConf) where
  open lib use {Kcp}

  -- The server, and its listener; a list of answers that is used up stands for a call that would block.
  unfoldable pub tcp_accept_cb :
      List AcceptOut → Listener → Server Kcp → Option (Server Kcp × Listener)
  unfolding accept_one
  tcp_accept_cb [] l s = some (s, l)
  tcp_accept_cb (accept_error e ∷ rs) l s = some (s, accept_failed e l)
  tcp_accept_cb (got_socket fd nonblock memory rands ∷ rs) l s =
      if not (ltb (length s.sessions) max_sessions)
      then some (s, l)
      else if not nonblock
      then some (s, l)
      else if not s.connected
      then some (s, l)
      else elim (accept_one ser lib memory c rands fd s) [
        | none ↦ none
        | some s' ↦ tcp_accept_cb rs l s'
      ]
