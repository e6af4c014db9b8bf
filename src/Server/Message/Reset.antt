-- ===== src/Server/Message/Reset.antt =====
-- The table of sessions under the messages outside any session: a reset stops the session that it
-- names and no other, and every message keeps the sessions valid.
use kcptun_libev.Base.{
  ◌≢◌, ap, ℕ, ◌≤◌, ◌≡◌, Option, none, some, length, arith, Option-cases, refl, ◌∙◌, inl, inr, ◌⊎◌,
}
use kcptun_libev.Library.{Serialize}
use kcptun_libev.Address.{SockAddr}
use kcptun_libev.Session.{State, Session, time_wait, session_tcp_stop, session_kcp_stop}
use kcptun_libev.Session.Valid.{IsValid}
use kcptun_libev.Server.{Server, Frame, table_find, has_key, ss0_send}
use kcptun_libev.Server.Message.{
  session0, body, ss0_on_ping, ss0_on_pong, ss0_on_reset, ss0_on_listen, ss0_on_connect,
  ss0_on_punch, introduce, notify, ping_addr,
}
use kcptun_libev.Server.Table.{
  AllValid, table_find-update_other, table_find-key, table_find-update_same, table_find-IsValid,
  table_update-AllValid,
}

module _ {K : Type 0} where
  has_key-stopped :
      (conv : ℕ) (sa : SockAddr) (ss : Session K)
      → has_key conv sa (session_kcp_stop (session_tcp_stop ss)) ≡ has_key conv sa ss
  unfolding session_kcp_stop session_tcp_stop
  has_key-stopped conv sa ss = ground arith

  stopped-IsValid : (ss : Session K) → IsValid ss → IsValid (session_kcp_stop (session_tcp_stop ss))
  unfolding session_kcp_stop session_tcp_stop
  stopped-IsValid ss v = ground arith

  -- The session that a reset leaves of `ss`: `ss` itself where KCP was already stopped, which then has
  -- nothing left for its socket; otherwise `ss` with both sides stopped, no socket and no buffer.
  abbrev pub WasReset : Session K → Option (Session K) → Type 0
  WasReset ss none = ⊥
  WasReset ss (some ss') =
      (ss'.kcp_state ≡ time_wait)
      × (ss'.conv ≡ ss.conv)
      × (ss'.raddr ≡ ss.raddr)
      × (((ss.kcp_state ≡ time_wait)
            × (ss' ≡ ss)
            × ((ss'.tcp_state ≡ time_wait) ⊎ (ss'.wbuf_flush ≡ ss'.wbuf_next)))
          ⊎ ((ss.kcp_state ≢ time_wait)
              × (ss'.tcp_state ≡ time_wait)
              × (ss'.fd ≡ none)
              × (ss'.kcp ≡ none)
              × (ss'.rbuf ≡ none)
              × (ss'.wbuf ≡ none)))

  stopped-WasReset :
      (ss : Session K)
      → ss.kcp_state ≢ time_wait
      → WasReset ss (some (session_kcp_stop (session_tcp_stop ss)))
  unfolding session_kcp_stop session_tcp_stop
  stopped-WasReset ss h = ground arith

  same-WasReset : (ss : Session K) → IsValid ss → ss.kcp_state ≡ time_wait → WasReset ss (some ss)
  same-WasReset ss v h = (h, refl, refl, inl (h, refl, ground arith))

state-cases : (s : State) → (s ≡ time_wait) ⊎ (s ≢ time_wait)
state-cases s = ground arith

module _ {K : Type 0} (ser : Serialize) where
  -- A reset leaves alone every session but that of its sender with the conversation it names.
  pub ss0_on_reset-other :
      (s : Server K) (msg : Frame) (conv : ℕ) (sa : SockAddr)
      → ¬ ((conv ≡ ser.read_uint32 (body msg)) × (sa ≡ msg.addr))
      → table_find conv sa (ss0_on_reset ser s msg).1.sessions ≡ table_find conv sa s.sessions
  unfolding ss0_on_reset
  ss0_on_reset-other s msg conv sa d =
      elim (Option-cases (table_find (ser.read_uint32 (body msg)) msg.addr s.sessions)) [
        | inl e ↦ ground arith
        | inr (ss, e) ↦
            let stopped = session_kcp_stop (session_tcp_stop ss) in
            ground (
              arith,
              table_find-update_other (ser.read_uint32 (body msg)) conv msg.addr sa stopped
                  s.sessions d
                  (has_key-stopped (ser.read_uint32 (body msg)) msg.addr ss
                    ∙ table_find-key (ser.read_uint32 (body msg)) msg.addr s.sessions ss e),
            )
      ]

  -- In a table of valid sessions, a reset that is not too short stops both sides of the session that
  -- it names, if there is one, closes its socket and frees its buffers; a session whose KCP was stopped
  -- before is left as it is, and has a stopped socket or nothing left to flush.
  pub ss0_on_reset-named :
      (s : Server K) (msg : Frame) (ss : Session K)
      → 10 ≤ length msg.bytes
      → table_find (ser.read_uint32 (body msg)) msg.addr s.sessions ≡ some ss
      → AllValid s.sessions
      → WasReset ss
          (table_find (ser.read_uint32 (body msg)) msg.addr (ss0_on_reset ser s msg).1.sessions)
  unfolding ss0_on_reset
  ss0_on_reset-named s msg ss h e v =
      let conv = ser.read_uint32 (body msg) in
      let stopped = session_kcp_stop (session_tcp_stop ss) in
      let found =
        table_find-update_same conv msg.addr stopped s.sessions ss e
          (has_key-stopped conv msg.addr ss ∙ table_find-key conv msg.addr s.sessions ss e) in
      elim (state-cases ss.kcp_state) [
        | inl t ↦
            ground (arith, same-WasReset ss (table_find-IsValid conv msg.addr s.sessions ss v e) t)
        | inr d ↦ ground (arith, found, stopped-WasReset ss d)
      ]

  ss0_on_reset-AllValid :
      (s : Server K) (msg : Frame)
      → AllValid s.sessions
      → AllValid (ss0_on_reset ser s msg).1.sessions
  unfolding ss0_on_reset
  ss0_on_reset-AllValid s msg v =
      let conv = ser.read_uint32 (body msg) in
      elim (Option-cases (table_find conv msg.addr s.sessions)) [
        | inl e ↦ ground arith
        | inr (ss, e) ↦
            let stopped = session_kcp_stop (session_tcp_stop ss) in
            ground (
              arith,
              table_update-AllValid conv msg.addr stopped s.sessions
                  (stopped-IsValid ss (table_find-IsValid conv msg.addr s.sessions ss v e)) v,
            )
      ]

  introduce-sessions :
      (sa : SockAddr) (s : Server K) (msg : Frame)
      → (introduce ser sa s msg).1.sessions ≡ s.sessions
  unfolding introduce notify ss0_send
  introduce-sessions sa s msg = ground arith

  ss0_on_connect-sessions :
      (s : Server K) (msg : Frame) → (ss0_on_connect ser s msg).1.sessions ≡ s.sessions
  unfolding ss0_on_connect
  ss0_on_connect-sessions s msg = grind (arith, introduce-sessions)

  ss0_on_punch-sessions :
      (s : Server K) (msg : Frame) → (ss0_on_punch ser s msg).1.sessions ≡ s.sessions
  unfolding ss0_on_punch ping_addr ss0_send
  ss0_on_punch-sessions s msg = ground arith

  -- Whatever message comes from outside any session, a table of valid sessions stays one.
  pub session0-AllValid :
      (s : Server K) (msg : Frame) → AllValid s.sessions → AllValid (session0 ser s msg).sessions
  unfolding session0 ss0_on_ping ss0_on_pong ss0_on_listen ss0_send
  session0-AllValid s msg v = ground (
    arith,
    ss0_on_reset-AllValid s msg v,
    ss0_on_connect-sessions s msg,
    ss0_on_punch-sessions s msg,
  )

  -- A message from outside any session leaves the sessions of every other peer as they are.
  pub session0-other :
      (s : Server K) (msg : Frame) (conv : ℕ) (sa : SockAddr)
      → sa ≢ msg.addr
      → table_find conv sa (session0 ser s msg).sessions ≡ table_find conv sa s.sessions
  unfolding session0 ss0_on_ping ss0_on_pong ss0_on_listen ss0_send
  session0-other s msg conv sa d = ground (
    arith,
    ss0_on_reset-other s msg conv sa (λ (e, q). d q),
    ap (table_find conv sa) (ss0_on_connect-sessions s msg),
    ap (table_find conv sa) (ss0_on_punch-sessions s msg),
  )
