-- ===== src/Session.antt =====
-- A session: one TCP connection carried over one KCP conversation (src/session.h, src/session.c).
-- The state, the parts of it that other components read, and the operations that need nothing but
-- the session itself. What uses KCP or the socket is in the child modules.
pub mod Step
pub mod Valid
pub mod Kcp
pub mod Tcp
pub mod Process
pub mod Create
use kcptun_libev.Base.{ℕ, Bool, true, false, List, Option, none, some, if◌then◌else◌, leb, ◌-◌}
use kcptun_libev.Address.{SockAddr}

-- `enum session_state`
pub data State : Type 0 where
  init connect connected linger time_wait : State

-- The place of a state in the enumeration.
abbrev pub rank : State → ℕ
rank init = 0
rank connect = 1
rank connected = 2
rank linger = 3
rank time_wait = 4

-- `struct link_stats`. The counters are 64 bits wide and are taken not to wrap.
pub record LinkStats : Type 0 where
  pub tcp_rx : ℕ
  pub tcp_tx : ℕ
  pub kcp_rx : ℕ
  pub kcp_tx : ℕ
  pub pkt_rx : ℕ
  pub pkt_tx : ℕ

-- The buffer sizes of src/session.h.
abbrev pub max_packet_size : ℕ
max_packet_size = 1500

abbrev pub session_buf_size : ℕ
session_buf_size = 16384

abbrev pub tlv_header_size : ℕ
tlv_header_size = 4

abbrev pub tlv_max_length : ℕ
tlv_max_length = session_buf_size - max_packet_size

-- `struct session`. `rbuf` holds the payload that stands behind the space kept for a header, and
-- `wbuf` the bytes received; each is `none` once it is freed, as `kcp` is. The socket watcher is
-- its descriptor, whether it runs, and its events; of the idle watcher only whether it runs is
-- kept. A time is in milliseconds, and `none` for TSTAMP_NIL.
pub record Session (K : Type 0) : Type 0 where
  pub conv : ℕ
  pub raddr : SockAddr
  pub kcp : Option K
  pub tcp_state : State
  pub kcp_state : State
  pub kcp_flush : ℕ
  pub fd : Option ℕ
  pub io_active : Bool
  pub ev_read : Bool
  pub ev_write : Bool
  pub flush_active : Bool
  pub created : ℕ
  pub last_reset : Option ℕ
  pub last_send : Option ℕ
  pub last_recv : Option ℕ
  pub is_accepted : Bool
  pub rbuf : Option (List ℕ)
  pub wbuf : Option (List ℕ)
  pub wbuf_flush : ℕ
  pub wbuf_next : ℕ
  pub stats : LinkStats

abbrev pub is_set {ℓ} : {A : Type ℓ} → Option A → Bool
is_set none = false
is_set (some _) = true

module _ {K : Type 0} where
  -- `session_tcp_stop`: without a socket only the state changes.
  unfoldable pub session_tcp_stop : Session K → Session K
  session_tcp_stop s =
      let s' = record s { tcp_state = time_wait } in
      elim s.fd [
        | none ↦ s'
        | some _ ↦ record s' { io_active = false; fd = none; ev_read = false; ev_write = false }
      ]

  unfoldable pub session_kcp_stop : Session K → Session K
  session_kcp_stop s = record s { kcp_state = time_wait; kcp = none; rbuf = none; wbuf = none }

  -- `ev_io_set` with EV_READ | EV_WRITE, and `ev_io_start`
  unfoldable pub session_tcp_start : Session K → ℕ → Session K
  session_tcp_start s fd = record s {
    fd = some fd;
    ev_read = true;
    ev_write = true;
    io_active = true;
  }

  -- The idle watcher is started unless it runs.
  unfoldable pub session_kcp_flush : Session K → Session K
  session_kcp_flush s = record s { flush_active = true }
