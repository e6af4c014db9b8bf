-- ===== src/Server/Receive/Laws.antt =====
-- A packet that arrives leaves every session valid, and changes no session but its own.
use kcptun_libev.Base.{
  ℕ, ◌≡◌, ◌≢◌, inl, inr, Bool, true, not, List, [], ◌∷◌, ◌++◌, Option, none, some, arith, refl, sym,
  ◌∙◌, Ends, Ends-weaken, Bool-cases, if◌then◌else◌, ◌==◌,
}
use kcptun_libev.Library.{Serialize, Ikcp}
use kcptun_libev.Address.{SockAddr}
use kcptun_libev.Address.Laws.{sa_equals_refl}
use kcptun_libev.Session.{Session}
use kcptun_libev.Session.Valid.{IsValid}
use kcptun_libev.Session.Create.{KcpConf, session_new}
use kcptun_libev.Server.{Server, Frame, has_key, table_find, ss0_send}
use kcptun_libev.Server.Table.{
  AllValid, AllValid-append, table_find-key, table_find-IsValid, OneChanged, OneChanged-AllValid,
  OneChanged-other, table_find-append_other,
}
use kcptun_libev.Server.Message.{session0, ss0_reset}
use kcptun_libev.Server.Message.Reset.{session0-AllValid, session0-other}
use kcptun_libev.Server.Receive.{Answers, deliver, queue_recv, accepted_session}
use kcptun_libev.Server.Receive.Input.{FramedWith, deliver-OneChanged}

module _ (ser : Serialize) (lib : Ikcp) where
  open lib use {Kcp, ikcp_getconv}

  -- The session that the packet goes to, if there is one.
  abbrev pub receiver : Bool → KcpConf → Frame → Server Kcp → Option (Session Kcp)
  receiver memory c msg s =
      let conv = ikcp_getconv msg.bytes in
      elim (table_find conv msg.addr s.sessions) [
        | some ss ↦ some ss
        | none ↦ elim (session_new ser lib memory c msg.addr conv s.now) [
          | none ↦ none
          | some ss ↦ some (accepted_session ser lib ss)
        ]
      ]

  abbrev pub FramedFor : Frame → Option (Session Kcp) → Type 0
  FramedFor msg none = Unit
  FramedFor msg (some ss) = FramedWith ser lib msg.bytes ss ss.kcp

  new-IsValid :
      (memory : Bool) (c : KcpConf) (sa : SockAddr) (conv now : ℕ) (ss : Session Kcp)
      → session_new ser lib memory c sa conv now ≡ some ss
      → IsValid (accepted_session ser lib ss) × (ss.conv ≡ conv) × (ss.raddr ≡ sa)
  unfolding session_new
  new-IsValid memory c sa conv now ss h = ground arith

  new_key :
      (conv : ℕ) (sa : SockAddr) (ss : Session Kcp)
      → ss.conv ≡ conv
      → ss.raddr ≡ sa
      → has_key conv sa (accepted_session ser lib ss) ≡ true
  new_key conv sa ss c r = rw (c, r) (ground (arith, sa_equals_refl sa))

  -- What holds of the sessions after a packet: it is enough that it holds in the four ways in which
  -- one changes them.
  module _ (memory : Bool) (c : KcpConf) (a : Answers) (msg : Frame) (s : Server Kcp)
      (P : List (Session Kcp) → Type 0) (v : AllValid s.sessions)
      (outside : P (session0 ser s msg).sessions) (none_changed : P s.sessions)
      (one_changed : (new : List (Session Kcp))
        → OneChanged (ikcp_getconv msg.bytes) msg.addr s.sessions new
        → P new)
      (one_added : (ss : Session Kcp) (new : List (Session Kcp))
        → IsValid ss
        → has_key (ikcp_getconv msg.bytes) msg.addr ss ≡ true
        → OneChanged (ikcp_getconv msg.bytes) msg.addr (s.sessions ++ ss ∷ []) new
        → P new) where
    added :
        (o : Option (Session Kcp))
        → o ≡ session_new ser lib memory c msg.addr (ikcp_getconv msg.bytes) s.now
        → FramedFor msg (elim o [ none ↦ none | some ss ↦ some (accepted_session ser lib ss) ])
        → Ends
            (λ (r : List ℕ × Server Kcp). P r.1.sessions)
            (elim o [
              | none ↦ some ([], s)
              | some ss ↦
                  deliver ser lib a
                    (ikcp_getconv msg.bytes)
                    msg
                    (accepted_session ser lib ss)
                    (record s { sessions = s.sessions ++ accepted_session ser lib ss ∷ [] })
            ])
    added none e f = none_changed
    added (some ss) e f =
        let conv = ikcp_getconv msg.bytes in
        let ss' = accepted_session ser lib ss in
        let (w, k, r) = new-IsValid memory c msg.addr conv s.now ss (sym e) in
        let key = new_key conv msg.addr ss k r in
        let s' : Server Kcp = record s { sessions = s.sessions ++ ss' ∷ [] } in
        Ends-weaken (λ r h. one_added ss' r.1.sessions w key h) (deliver ser lib a conv msg ss' s')
          (deliver-OneChanged ser lib a conv msg ss' s' w key f)

    found :
        (o : Option (Session Kcp))
        → o ≡ table_find (ikcp_getconv msg.bytes) msg.addr s.sessions
        → FramedFor msg (elim o [
          | some ss ↦ some ss
          | none ↦ elim (session_new ser lib memory c msg.addr (ikcp_getconv msg.bytes) s.now) [
            | none ↦ none
            | some ss ↦ some (accepted_session ser lib ss)
          ]
        ])
        → Ends
            (λ (r : List ℕ × Server Kcp). P r.1.sessions)
            (elim o [
              | some ss ↦ deliver ser lib a (ikcp_getconv msg.bytes) msg ss s
              | none ↦
                  if not s.mode.server
                  then some ([], ss0_reset ser msg.addr (ikcp_getconv msg.bytes) s)
                  else elim (session_new ser lib memory c msg.addr (ikcp_getconv msg.bytes) s.now) [
                    | none ↦ some ([], s)
                    | some ss ↦
                        deliver ser lib a
                          (ikcp_getconv msg.bytes)
                          msg
                          (accepted_session ser lib ss)
                          (record s { sessions = s.sessions ++ accepted_session ser lib ss ∷ [] })
                  ]
            ])
    unfolding ss0_reset ss0_send
    found none e f = elim (Bool-cases (not s.mode.server)) [
      | inl n ↦ rw (n, Ends) none_changed
      | inr n ↦
          rw n (added (session_new ser lib memory c msg.addr (ikcp_getconv msg.bytes) s.now) refl f)
    ]
    found (some ss) e f =
        let conv = ikcp_getconv msg.bytes in
        Ends-weaken (λ r h. one_changed r.1.sessions h) (deliver ser lib a conv msg ss s)
          (deliver-OneChanged ser lib a conv msg ss s
            (table_find-IsValid conv msg.addr s.sessions ss v (sym e))
            (table_find-key conv msg.addr s.sessions ss (sym e)) f)

    pub queue_recv_post :
        FramedFor msg (receiver memory c msg s)
        → Ends (λ (r : List ℕ × Server Kcp). P r.1.sessions) (queue_recv ser lib memory c a msg s)
    unfolding queue_recv
    queue_recv_post f = elim (Bool-cases (ikcp_getconv msg.bytes == 0)) [
      | inl e ↦ rw (e, Ends) outside
      | inr e ↦ rw e (found (table_find (ikcp_getconv msg.bytes) msg.addr s.sessions) refl f)
    ]

  -- Whatever packet arrives, if all sessions are valid and what the receiving session has then to
  -- read is a row of messages each at least as long as its header, processing it ends without a
  -- fault and leaves all sessions valid.
  pub queue_recv-AllValid :
      (memory : Bool) (c : KcpConf) (a : Answers) (msg : Frame) (s : Server Kcp)
      → AllValid s.sessions
      → FramedFor msg (receiver memory c msg s)
      → Ends (λ r. AllValid r.1.sessions) (queue_recv ser lib memory c a msg s)
  queue_recv-AllValid memory c a msg s v f =
      let conv = ikcp_getconv msg.bytes in
      queue_recv_post memory c a msg s AllValid v (session0-AllValid ser s msg v) v
        (λ new h. OneChanged-AllValid conv msg.addr s.sessions new h v)
        (λ ss new w k h.
          OneChanged-AllValid conv msg.addr (s.sessions ++ ss ∷ []) new h
            (AllValid-append s.sessions ss v w))
        f

  -- Whatever packet arrives, under the same conditions, the sessions of every other peer are left
  -- as they are.
  pub queue_recv-other :
      (memory : Bool) (c : KcpConf) (a : Answers) (msg : Frame) (s : Server Kcp) (conv : ℕ)
      (sa : SockAddr)
      → AllValid s.sessions
      → FramedFor msg (receiver memory c msg s)
      → sa ≢ msg.addr
      → Ends
          (λ r. table_find conv sa r.1.sessions ≡ table_find conv sa s.sessions)
          (queue_recv ser lib memory c a msg s)
  queue_recv-other memory c a msg s conv sa v f d =
      let conv' = ikcp_getconv msg.bytes in
      queue_recv_post memory c a msg s
        (λ new. table_find conv sa new ≡ table_find conv sa s.sessions) v
        (session0-other ser s msg conv sa d) refl
        (λ new h. OneChanged-other conv' conv msg.addr sa s.sessions new h (λ (e, q). d q))
        (λ ss new w k h.
          OneChanged-other conv' conv msg.addr sa (s.sessions ++ ss ∷ []) new h (λ (e, q). d q)
          ∙ table_find-append_other conv' conv msg.addr sa s.sessions ss (λ (e, q). d q) k)
        f
