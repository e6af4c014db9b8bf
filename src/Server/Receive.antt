-- ===== src/Server/Receive.antt =====
-- A packet that arrives (src/pktqueue.c, queue_recv): it goes to the session of its peer and its
-- conversation, which is made where the server accepts one.
pub mod Input
pub mod Laws
use kcptun_libev.Base.{
  ℕ, ◌+◌, ◌-◌, Bool, true, false, ◌||◌, not, List, [], ◌∷◌, ◌++◌, Option, none, some, length,
  if◌then◌else◌, ltb, leb, ◌==◌,
}
use kcptun_libev.Library.{Serialize, Ikcp, Errno}
use kcptun_libev.Address.{SockAddr, sa_equals}
use kcptun_libev.Session.{
  Session, LinkStats, connect, connected, time_wait, State, session_kcp_flush,
}
use kcptun_libev.Session.Step.{
  World, M, ◌>>=◌, ◌>>◌, pure, modify, deref, RecvOut, SendOut, DialOut,
}
use kcptun_libev.Session.Process.{session_read_cb}
use kcptun_libev.Session.Create.{KcpConf, session_new}
use kcptun_libev.Server.{Server, Frame, table_find, table_update}
use kcptun_libev.Server.Message.{session0, ss0_reset}

-- What the system answers while a packet is processed.
pub record Answers : Type 0 where
  pub recvs : List RecvOut
  pub sends : List SendOut
  pub dial : DialOut
  pub sockerr : Option Errno

-- `last_reset` is not set, or more than a second ago.
abbrev pub may_reset : ℕ → Option ℕ → Bool
may_reset now none = true
may_reset now (some t) = ltb 1000 (now - t)

-- The first packet connects the session.
unfoldable pub connect_state : State → State
connect_state connect = connected
connect_state s = s

abbrev pub is_time_wait : State → Bool
is_time_wait time_wait = true
is_time_wait _ = false

module _ (ser : Serialize) (lib : Ikcp) where
  open lib use {Kcp, ikcp_input, ikcp_getconv}

  abbrev pub world_with : Answers → Server Kcp → Session Kcp → World Kcp
  world_with a s ss = record {
    ss = ss;
    total = s.stats;
    now = s.now;
    recvs = a.recvs;
    sends = a.sends;
    out = [];
    dial = a.dial;
    sockerr = a.sockerr;
  }

  abbrev pub count_kcp_rx : ℕ → LinkStats → LinkStats
  count_kcp_rx n t = record t { kcp_rx = t.kcp_rx + n }

  -- The packet is counted, and acknowledgements are flushed where that is asked for.
  unfoldable pub counted : ℕ → World Kcp → World Kcp
  unfolding session_kcp_flush
  counted n w =
      let ss = record w.ss { stats = count_kcp_rx n w.ss.stats } in
      record w {
        ss = if leb 2 ss.kcp_flush then session_kcp_flush ss else ss;
        total = count_kcp_rx n w.total;
      }

  -- What is done when KCP has taken the packet.
  unfoldable pub accept_input : ℕ → M Kcp (Unit {0})
  unfolding counted
  accept_input n w = session_read_cb ser lib (counted n w)

  -- From `ikcp_input` on.
  unfoldable pub input : List ℕ → M Kcp (Unit {0})
  input packet w = elim w.ss.kcp [
    | none ↦ none
    | some k ↦
        let (taken, k') = ikcp_input k packet in
        let w' : World Kcp = record w { ss = record w.ss { kcp = some k' } } in
        if taken then accept_input (length packet) w' else some (tt, w')
  ]

  -- The peer is told that the session is gone, once in a second.
  unfoldable pub refuse : ℕ → SockAddr → Session Kcp → Server Kcp → Server Kcp
  unfolding ss0_reset
  refuse conv sa ss s =
      if may_reset s.now ss.last_reset
      then ss0_reset ser sa conv (record s {
        sessions = table_update conv sa (record ss { last_reset = some s.now }) s.sessions;
      })
      else s

  -- From the check of the peer's address on, for the session `ss` of the table. The bytes are those
  -- that its socket has taken.
  unfoldable pub deliver :
      Answers → ℕ → Frame → Session Kcp → Server Kcp → Option (List ℕ × Server Kcp)
  unfolding refuse connect_state
  deliver a conv msg ss s =
      if not (sa_equals msg.addr ss.raddr) || is_time_wait ss.kcp_state
      then some ([], refuse conv msg.addr ss s)
      else elim (input msg.bytes
          (world_with a s (record ss { kcp_state = connect_state ss.kcp_state }))) [
            | none ↦ none
            | some (_, w) ↦ some (
              w.out,
              record s { sessions = table_update conv msg.addr w.ss s.sessions; stats = w.total },
            )
          ]

  -- "accept new kcp session"
  abbrev pub accepted_session : Session Kcp → Session Kcp
  accepted_session ss = record ss { is_accepted = true; kcp_state = connect }

  -- `memory` is that of `session_new`.
  unfoldable pub queue_recv :
      Bool → KcpConf → Answers → Frame → Server Kcp → Option (List ℕ × Server Kcp)
  queue_recv memory c a msg s =
      let conv = ikcp_getconv msg.bytes in
      if conv == 0
      then some ([], session0 ser s msg)
      else elim (table_find conv msg.addr s.sessions) [
        | some ss ↦ deliver a conv msg ss s
        | none ↦
            if not s.mode.server
            then some ([], ss0_reset ser msg.addr conv s)
            else elim (session_new ser lib memory c msg.addr conv s.now) [
              | none ↦ some ([], s)
              | some ss ↦
                  deliver a conv msg (accepted_session ss)
                    (record s { sessions = s.sessions ++ accepted_session ss ∷ [] })
            ]
      ]
