-- ===== src/Server.antt =====
-- The state of the server (src/server.h) that its messages and packets work on, and its table of
-- sessions. Two keys of the table are the same bytes where the conversation numbers and the
-- addresses are equal.
pub mod Table
pub mod Message
pub mod Accept
pub mod Receive
pub mod Dispatch
pub mod Rounds
pub mod Keepalive
pub mod Sockets
pub mod Resolve
use kcptun_libev.Base.{ℕ, Bool, ◌&&◌, List, [], ◌∷◌, Option, none, some, if◌then◌else◌, ◌==◌, ◌++◌}
use kcptun_libev.Library.{Serialize}
use kcptun_libev.Address.{SockAddr, sa_equals}
use kcptun_libev.Conf.{Mode}
use kcptun_libev.Session.{Session, LinkStats}

-- `struct msgframe`: the peer, and the bytes between `off` and `off + len`.
pub record Frame : Type 0 where
  pub addr : SockAddr
  pub bytes : List ℕ

-- `struct server` with its `struct pktconn`: the mode is that of the configuration, `server_addr0`
-- and `server_addr1` are one array, and `outbox` holds the frames handed to `queue_send`, in order.
pub record Server (K : Type 0) : Type 0 where
  pub mode : Mode
  pub now : ℕ
  pub kcp_connect : SockAddr
  pub inflight_ping : Option ℕ
  pub last_send_time : Option ℕ
  pub last_recv_time : Option ℕ
  pub last_resolve_time : Option ℕ
  pub listened : Bool
  pub connected : Bool
  pub server_addr0 : SockAddr
  pub server_addr1 : SockAddr
  pub rendezvous_server : SockAddr
  pub rendezvous_local : SockAddr
  pub m_conv : ℕ
  pub sessions : List (Session K)
  pub stats : LinkStats
  pub outbox : List Frame

-- SESSION_MAKEKEY gives the session this key.
abbrev pub has_key : {K : Type 0} → ℕ → SockAddr → Session K → Bool
has_key conv sa s = s.conv == conv && sa_equals s.raddr sa

-- `table_find` and a change through the pointer that it gives.
unfoldable pub table_find : {K : Type 0} → ℕ → SockAddr → List (Session K) → Option (Session K)
table_find conv sa [] = none
table_find conv sa (s ∷ ss) = if has_key conv sa s then some s else table_find conv sa ss

unfoldable pub table_update :
    {K : Type 0} → ℕ → SockAddr → Session K → List (Session K) → List (Session K)
table_update conv sa s' [] = []
table_update conv sa s' (s ∷ ss) =
    if has_key conv sa s then s' ∷ ss else s ∷ table_update conv sa s' ss

module _ {K : Type 0} (ser : Serialize) where
  -- `ss0_send` (src/session.c): the header has a zero in the place of a conversation number.
  unfoldable pub ss0_send : SockAddr → ℕ → List ℕ → Server K → Server K
  ss0_send sa what b s = record s {
    outbox =
        s.outbox
        ++ record { addr = sa; bytes = ser.write_uint32 0 ++ ser.write_uint16 what ++ b } ∷ [];
  }
