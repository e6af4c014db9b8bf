-- ===== src/Server/Receive/Input.antt =====
-- What a packet does to the session that it is delivered to.
use kcptun_libev.Base.{
  ℕ, ◌≡◌, ◌≢◌, inl, inr, Bool, true, false, not, ◌||◌, List, ◌++◌, Option, none, some, length, drop,
  arith, refl, sym, subst, Ends, leb, Option-cases, Bool-cases, if◌then◌else◌,
}
use kcptun_libev.Library.{Serialize, Ikcp}
use kcptun_libev.Address.{SockAddr, sa_equals}
use kcptun_libev.Session.{Session, time_wait}
use kcptun_libev.Session.Step.{World, Returns, Returns-weaken}
use kcptun_libev.Session.Valid.{IsValid, Follows, Follows-trans}
use kcptun_libev.Session.Process.{session_read_cb}
use kcptun_libev.Session.Process.Laws.{Framed, bytes, stream}
use kcptun_libev.Session.Process.Loop.{session_read_cb-Follows}
use kcptun_libev.Server.{Server, Frame, has_key, table_update, ss0_send}
use kcptun_libev.Server.Table.{OneChanged, same, changed}
use kcptun_libev.Server.Message.{ss0_reset}
use kcptun_libev.Server.Receive.{
  Answers, world_with, counted, accept_input, input, refuse, deliver, connect_state, may_reset,
  is_time_wait,
}

module _ (ser : Serialize) (lib : Ikcp) where
  open lib use {Kcp, ikcp_input, ikcp_getconv, content}

  -- When KCP has taken the packet, what the session is still to read is a row of messages.
  abbrev pub FramedWith : List ℕ → Session Kcp → Option Kcp → Type 0
  FramedWith packet ss none = Unit
  FramedWith packet ss (some k) =
      Framed ser (drop ss.wbuf_next (bytes ss.wbuf) ++ content (ikcp_input k packet).1)

  counted-Follows : (n : ℕ) (w : World Kcp) → IsValid w.ss → Follows w (counted ser lib n w)
  unfolding counted
  counted-Follows n w v = ground arith

  stream-counted :
      (n : ℕ) (w : World Kcp) → stream ser lib (counted ser lib n w).ss ≡ stream ser lib w.ss
  unfolding counted
  stream-counted n w = elim (Bool-cases (leb 2 w.ss.kcp_flush)) [
    | inl e ↦ rw e refl
    | inr e ↦ rw e refl
  ]

  accept_input-Follows :
      (n : ℕ) (w : World Kcp)
      → IsValid w.ss
      → Framed ser (stream ser lib w.ss)
      → Returns (λ _ w'. Follows w w') (accept_input ser lib n w)
  unfolding accept_input
  accept_input-Follows n w v f =
      let w1 = counted ser lib n w in
      let step = counted-Follows n w v in
      Returns-weaken (λ _ w'. Follows w1 w') (λ _ w'. Follows w w') (λ _ w' q. Follows-trans step q)
        (session_read_cb ser lib w1)
        (session_read_cb-Follows ser lib w1 step.valid
          (λ _. subst (Framed ser) (sym (stream-counted n w)) f))

  input_with :
      (packet : List ℕ) (w : World Kcp) (k : Kcp)
      → IsValid w.ss
      → w.ss.kcp_state ≢ time_wait
      → Framed ser (drop w.ss.wbuf_next (bytes w.ss.wbuf) ++ content (ikcp_input k packet).1)
      → w.ss.kcp ≡ some k
      → (taken : Bool)
      → let w' : World Kcp = record w { ss = record w.ss { kcp = some (ikcp_input k packet).1 } } in
        Returns
          (λ _ w''. Follows w w'')
          (if taken then accept_input ser lib (length packet) w' else some (tt, w'))
  input_with packet w k v a f e true =
      let w' : World Kcp = record w { ss = record w.ss { kcp = some (ikcp_input k packet).1 } } in
      let step : Follows w w' = ground arith in
      Returns-weaken (λ _ w''. Follows w' w'') (λ _ w''. Follows w w'')
        (λ _ w'' q. Follows-trans step q) (accept_input ser lib (length packet) w')
        (accept_input-Follows (length packet) w' step.valid f)
  input_with packet w k v a f e false = ground arith

  input-Follows :
      (packet : List ℕ) (w : World Kcp)
      → IsValid w.ss
      → w.ss.kcp_state ≢ time_wait
      → FramedWith packet w.ss w.ss.kcp
      → Returns (λ _ w'. Follows w w') (input ser lib packet w)
  unfolding input
  input-Follows packet w v a f = elim (Option-cases w.ss.kcp) [
    | inl e ↦ ground arith
    | inr (k, e) ↦
        rw (e, Returns)
          (input_with packet w k v a (subst (FramedWith packet w.ss) e f) e (ikcp_input k packet).0)
  ]

  deliver_key :
      (conv : ℕ) (sa : SockAddr) (ss ss' : Session Kcp)
      → ss'.conv ≡ ss.conv
      → ss'.raddr ≡ ss.raddr
      → has_key conv sa ss ≡ true
      → has_key conv sa ss' ≡ true
  deliver_key conv sa ss ss' c r h = rw (c, r) h

  refuse-OneChanged :
      (conv : ℕ) (sa : SockAddr) (ss : Session Kcp) (s : Server Kcp)
      → IsValid ss
      → has_key conv sa ss ≡ true
      → OneChanged conv sa s.sessions (refuse ser lib conv sa ss s).sessions
  unfolding refuse ss0_reset ss0_send
  refuse-OneChanged conv sa ss s v h = elim (Bool-cases (may_reset s.now ss.last_reset)) [
    | inl e ↦ rw e (changed (record ss { last_reset = some s.now }) (ground arith) h refl)
    | inr e ↦ rw e (same refl)
  ]

  deliver_end :
      (a : Answers) (conv : ℕ) (sa : SockAddr) (ss : Session Kcp) (s : Server Kcp)
      → has_key conv sa ss ≡ true
      → (o : Option (Unit {0} × World Kcp))
      → Returns
          (λ _ w'.
            Follows
              (world_with ser lib a s (record ss { kcp_state = connect_state ss.kcp_state }))
              w')
          o
      → Ends
          (λ (r : List ℕ × Server Kcp). OneChanged conv sa s.sessions r.1.sessions)
          (elim o [
            | none ↦ none
            | some (_, w) ↦ some (
              w.out,
              record s { sessions = table_update conv sa w.ss s.sessions; stats = w.total },
            )
          ])
  deliver_end a conv sa ss s h none f = f
  deliver_end a conv sa ss s h (some (_, w)) f =
      changed w.ss f.valid (deliver_key conv sa ss w.ss f.same_conv f.same_peer h) refl

  connect_state-IsValid :
      (ss : Session Kcp)
      → IsValid ss
      → is_time_wait ss.kcp_state ≡ false
      → IsValid (record ss { kcp_state = connect_state ss.kcp_state })
        × (connect_state ss.kcp_state ≢ time_wait)
  unfolding connect_state
  connect_state-IsValid ss v h = ground arith

  pub deliver-OneChanged :
      (a : Answers) (conv : ℕ) (msg : Frame) (ss : Session Kcp) (s : Server Kcp)
      → IsValid ss
      → has_key conv msg.addr ss ≡ true
      → FramedWith msg.bytes ss ss.kcp
      → Ends
          (λ (r : List ℕ × Server Kcp). OneChanged conv msg.addr s.sessions r.1.sessions)
          (deliver ser lib a conv msg ss s)
  unfolding deliver
  deliver-OneChanged a conv msg ss s v h f =
      elim (Bool-cases (not (sa_equals msg.addr ss.raddr) || is_time_wait ss.kcp_state)) [
        | inl e ↦ rw (e, Ends) (refuse-OneChanged conv msg.addr ss s v h)
        | inr e ↦
            let (v', n) = connect_state-IsValid ss v (ground arith) in
            let ss' : Session Kcp = record ss { kcp_state = connect_state ss.kcp_state } in
            rw (e, Ends)
              (deliver_end a conv msg.addr ss s h
                (input ser lib msg.bytes (world_with ser lib a s ss'))
                (input-Follows msg.bytes (world_with ser lib a s ss') v' n f))
      ]
