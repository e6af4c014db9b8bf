-- ===== src/Server/Accept.antt =====
-- New sessions: conversation numbers (src/server.c) and accepted connections (src/event_tcp.c).
pub mod Laws
pub mod Loop
use kcptun_libev.Base.{
  ℕ, ◌+◌, ◌*◌, ◌%◌, ◌^◌, Bool, true, false, List, [], ◌∷◌, ◌++◌, Option, none, some, length,
  if◌then◌else◌, ltb, ◌==◌,
}
use kcptun_libev.Library.{Serialize, Ikcp, other}
use kcptun_libev.Address.{SockAddr}
use kcptun_libev.Session.{Session, LinkStats, connect, connected, session_tcp_start, is_set}
use kcptun_libev.Session.Step.{World, no_socket}
use kcptun_libev.Session.Kcp.{kcp_sendmsg, smsg_dial}
use kcptun_libev.Session.Create.{KcpConf, session_new}
use kcptun_libev.Server.{Server, table_find}

-- A number of 32 bits; 0 is reserved.
unfoldable pub conv_next : ℕ → ℕ
conv_next conv = let c = (conv + 1) % 2 ^ 32 in if c == 0 then c + 1 else c

module _ {K : Type 0} where
  abbrev pub is_taken : SockAddr → List (Session K) → ℕ → Bool
  is_taken sa ss conv = is_set (table_find conv sa ss)

  -- `usage < 1e-3`, multiplied out
  abbrev pub is_sparse : List (Session K) → Bool
  is_sparse ss = ltb (length ss * 1000) 4294967295

  -- The loop of `conv_new`, with what `rand64` gives in each round; `none` where the rounds are
  -- used up.
  unfoldable pub conv_rounds : SockAddr → List (Session K) → List ℕ → ℕ → Option ℕ
  conv_rounds sa ss [] conv = none
  conv_rounds sa ss (r ∷ rs) conv =
      let c = conv_next (if is_sparse ss then r % 2 ^ 32 else conv) in
      let rest = conv_rounds sa ss rs c in if is_taken sa ss c then rest else some c

  unfoldable pub conv_new : SockAddr → List ℕ → Server K → Option (ℕ × Server K)
  conv_new sa rands s =
      let c = conv_next s.m_conv in
      elim (if is_taken sa s.sessions c then conv_rounds sa s.sessions rands c else some c) [
        | none ↦ none
        | some conv ↦ some (conv, record s { m_conv = conv })
      ]

module _ (ser : Serialize) (lib : Ikcp) where
  open lib use {Kcp}

  -- The session is not in the table yet, and no answer of its socket is needed.
  abbrev pub world_of : Server Kcp → Session Kcp → World Kcp
  world_of s ss = record {
    ss = ss;
    total = s.stats;
    now = s.now;
    recvs = [];
    sends = [];
    out = [];
    dial = no_socket other;
    sockerr = none;
  }

  -- The session of an accepted connection, once SMSG_DIAL is sent; where that fails it is freed. The
  -- key of the new session must not be in the table: a failed assertion is `none`.
  unfoldable pub accept_session : ℕ → Session Kcp → Server Kcp → Option (Server Kcp)
  unfolding kcp_sendmsg session_tcp_start
  accept_session fd ss s =
      let ss' : Session Kcp = record ss { kcp_state = connect; tcp_state = connected } in
      elim (kcp_sendmsg ser lib smsg_dial (world_of s ss')) [
        | none ↦ none
        | some (dialled, w) ↦
            if dialled
            then (if is_taken w.ss.raddr s.sessions w.ss.conv
                then none
                else some (record s { sessions = s.sessions ++ session_tcp_start w.ss fd ∷ [] }))
            else some s
      ]

  -- `memory` is that of `session_new`. The connection is closed where no session is made.
  unfoldable pub accept_one : Bool → KcpConf → List ℕ → ℕ → Server Kcp → Option (Server Kcp)
  accept_one memory c rands fd s = elim (conv_new s.kcp_connect rands s) [
    | none ↦ none
    | some (conv, s') ↦ elim (session_new ser lib memory c s.kcp_connect conv s.now) [
      | none ↦ some s'
      | some ss ↦ accept_session fd ss s'
    ]
  ]
