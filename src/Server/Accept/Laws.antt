-- ===== src/Server/Accept/Laws.antt =====
-- A new conversation number is free and not 0, and an accepted connection becomes a valid session.
use kcptun_libev.Base.{
  Ends, ℕ, ◌%◌, ◌^◌, ◌<◌, ◌≡◌, ◌⊎◌, inl, inr, Bool, true, false, List, [], ◌∷◌, ◌++◌, Option, none,
  some, arith, refl, subst, sym, if◌then◌else◌, Bool-cases,
}
use kcptun_libev.Library.{Serialize, Ikcp}
use kcptun_libev.Address.{SockAddr}
use kcptun_libev.Session.{connect, connected, Session, is_set, session_tcp_start}
use kcptun_libev.Session.Step.{World, Returns}
use kcptun_libev.Session.Kcp.{kcp_sendmsg, smsg_dial}
use kcptun_libev.Session.Valid.{IsValid}
use kcptun_libev.Session.Create.{KcpConf, session_new}
use kcptun_libev.Server.{Server}
use kcptun_libev.Server.Accept.{
  conv_next, conv_rounds, conv_new, accept_session, accept_one, world_of, is_taken, is_sparse,
}
use kcptun_libev.Server.Table.{AllValid, AllValid-append}

module _ {K : Type 0} (sa : SockAddr) (ss : List (Session K)) where
  -- A number of 32 bits that is not 0 and with which no session of the peer goes.
  pub record IsFree (conv : ℕ) : Type 0 where
    pub above : 0 < conv
    pub below : conv < 4294967296
    pub unused : is_taken sa ss conv ≡ false

  -- One of the random numbers leads to a free one.
  abbrev pub Lucky : List ℕ → Type 0
  Lucky [] = ⊥
  Lucky (r ∷ rs) = (is_taken sa ss (conv_next (r % 2 ^ 32)) ≡ false) ⊎ Lucky rs

  conv_next-IsFree : (conv : ℕ) → is_taken sa ss (conv_next conv) ≡ false → IsFree (conv_next conv)
  unfolding conv_next
  conv_next-IsFree conv h = ground arith

  conv_rounds-IsFree :
      (rs : List ℕ) (conv : ℕ)
      → is_sparse ss ≡ true
      → Lucky rs
      → Ends IsFree (conv_rounds sa ss rs conv)
  unfolding conv_rounds
  conv_rounds-IsFree [] conv s h = h
  conv_rounds-IsFree (r ∷ rs) conv s h =
      let c = conv_next (r % 2 ^ 32) in
      elim (Bool-cases (is_taken sa ss c)) [
        | inl e ↦
            rw s (rw e (conv_rounds-IsFree rs c s (elim h [ inl f ↦ ground arith | inr l ↦ l ])))
        | inr e ↦ rw s (rw e (conv_next-IsFree (r % 2 ^ 32) e))
      ]

conv_first :
    {K : Type 0} (sa : SockAddr) (ss : List (Session K)) (taken : Bool) (c : ℕ) (rest : Option ℕ)
    → (taken ≡ true → Ends (IsFree sa ss) rest)
    → (taken ≡ false → IsFree sa ss c)
    → Ends (IsFree sa ss) (if taken then rest else some c)
conv_first sa ss true c rest r f = r refl
conv_first sa ss false c rest r f = f refl

conv_end :
    {K : Type 0} (sa : SockAddr) (s : Server K) (o : Option ℕ)
    → Ends (IsFree sa s.sessions) o
    → Ends
        (λ (r : ℕ × Server K). IsFree sa s.sessions r.0 × (r.1 ≡ record s { m_conv = r.0 }))
        (elim o [ none ↦ none | some conv ↦ some (conv, record s { m_conv = conv }) ])
conv_end sa s none h = h
conv_end sa s (some conv) h = (h, refl)

-- In a table that is not too full, where one of the random numbers leads to a free conversation
-- number, a new number is found: it fits 32 bits, is not 0, and no session of the peer has it; the
-- sessions are left as they are, and the next search starts behind it.
pub conv_new-IsFree :
    {K : Type 0} (sa : SockAddr) (rands : List ℕ) (s : Server K)
    → is_sparse s.sessions ≡ true
    → Lucky sa s.sessions rands
    → Ends (λ r. IsFree sa s.sessions r.0 × (r.1 ≡ record s { m_conv = r.0 })) (conv_new sa rands s)
unfolding conv_new
conv_new-IsFree sa rands s d l =
    let c = conv_next s.m_conv in
    conv_end sa s _ (
      conv_first sa s.sessions (is_taken sa s.sessions c) c (conv_rounds sa s.sessions rands c)
        (λ _. conv_rounds-IsFree sa s.sessions rands c d l)
        (λ e. conv_next-IsFree sa s.sessions s.m_conv e))

module _ (ser : Serialize) (lib : Ikcp) where
  open lib use {Kcp}

  -- A session as `session_new` makes it.
  pub record IsNew (ss : Session Kcp) : Type 0 where
    pub kcp_set : is_set ss.kcp ≡ true
    pub no_rbuf : ss.rbuf ≡ some []
    pub no_wbuf : ss.wbuf ≡ some []
    pub no_flush : ss.wbuf_flush ≡ 0
    pub no_next : ss.wbuf_next ≡ 0

  session_new-IsNew :
      (memory : Bool) (c : KcpConf) (addr : SockAddr) (conv now : ℕ) (ss : Session Kcp)
      → session_new ser lib memory c addr conv now ≡ some ss
      → IsNew ss
  unfolding session_new
  session_new-IsNew memory c addr conv now ss h = ground arith

  -- Its key is that of the number and the peer.
  session_new-is_taken :
      (memory : Bool) (c : KcpConf) (addr : SockAddr) (conv now : ℕ) (ss : Session Kcp)
      (sessions : List (Session Kcp))
      → session_new ser lib memory c addr conv now ≡ some ss
      → is_taken addr sessions conv ≡ false
      → is_taken ss.raddr sessions ss.conv ≡ false
  unfolding session_new
  session_new-is_taken memory c addr conv now ss sessions h u = ground arith

  dialled-IsValid :
      (fd : ℕ) (ss : Session Kcp) (s : Server Kcp)
      → IsNew ss
      → is_taken ss.raddr s.sessions ss.conv ≡ false
      → Returns
          (λ _ w.
            IsValid (session_tcp_start w.ss fd)
            × (is_taken w.ss.raddr s.sessions w.ss.conv ≡ false))
          (kcp_sendmsg ser lib smsg_dial
            (world_of ser lib s (record ss { kcp_state = connect; tcp_state = connected })))
  unfolding kcp_sendmsg session_tcp_start
  dialled-IsValid fd ss s n u = ground (arith, n.no_rbuf, n.no_wbuf)

  accept_end :
      (fd : ℕ) (s : Server Kcp) (o : Option (Bool × World Kcp))
      → Returns
          (λ _ w.
            IsValid (session_tcp_start w.ss fd)
            × (is_taken w.ss.raddr s.sessions w.ss.conv ≡ false))
          o
      → AllValid s.sessions
      → Ends
          (λ s'. AllValid s'.sessions)
          (elim o [
            | none ↦ none
            | some (dialled, w) ↦
                if dialled
                then (if is_taken w.ss.raddr s.sessions w.ss.conv
                    then none
                    else some
                        (record s { sessions = s.sessions ++ session_tcp_start w.ss fd ∷ [] }))
                else some s
          ])
  accept_end fd s none h v = h
  accept_end fd s (some (true, w)) (h, u) v =
      rw u (AllValid-append s.sessions (session_tcp_start w.ss fd) v h)
  accept_end fd s (some (false, w)) h v = v

  accept_session-AllValid :
      (fd : ℕ) (ss : Session Kcp) (s : Server Kcp)
      → IsNew ss
      → is_taken ss.raddr s.sessions ss.conv ≡ false
      → AllValid s.sessions
      → Ends (λ s'. AllValid s'.sessions) (accept_session ser lib fd ss s)
  unfolding accept_session
  accept_session-AllValid fd ss s n u v =
      let ss' : Session Kcp = record ss { kcp_state = connect; tcp_state = connected } in
      accept_end fd s (kcp_sendmsg ser lib smsg_dial (world_of ser lib s ss'))
        (dialled-IsValid fd ss s n u) v

  made :
      (fd : ℕ) (s : Server Kcp) (o : Option (Session Kcp))
      → ((ss : Session Kcp)
          → o ≡ some ss
          → IsNew ss × (is_taken ss.raddr s.sessions ss.conv ≡ false))
      → AllValid s.sessions
      → Ends
          (λ s'. AllValid s'.sessions)
          (elim o [ none ↦ some s | some ss ↦ accept_session ser lib fd ss s ])
  made fd s none n v = v
  made fd s (some ss) n v = accept_session-AllValid fd ss s (n ss refl).0 (n ss refl).1 v

  accepted :
      (memory : Bool) (c : KcpConf) (fd : ℕ) (s : Server Kcp) (o : Option (ℕ × Server Kcp))
      → Ends (λ r. IsFree s.kcp_connect s.sessions r.0 × (r.1 ≡ record s { m_conv = r.0 })) o
      → AllValid s.sessions
      → Ends
          (λ s'. AllValid s'.sessions)
          (elim o [
            | none ↦ none
            | some (conv, s') ↦ elim (session_new ser lib memory c s.kcp_connect conv s.now) [
              | none ↦ some s'
              | some ss ↦ accept_session ser lib fd ss s'
            ]
          ])
  accepted memory c fd s none h v = h
  accepted memory c fd s (some (conv, s')) (free, same) v =
      made fd s' (session_new ser lib memory c s.kcp_connect conv s.now)
        (λ ss e. (
          session_new-IsNew memory c s.kcp_connect conv s.now ss e,
          subst (λ t. is_taken ss.raddr t.sessions ss.conv ≡ false) (sym same)
              (session_new-is_taken memory c s.kcp_connect conv s.now ss s.sessions e free.unused),
        ))
        (subst (λ t. AllValid t.sessions) (sym same) v)

  -- In a table of valid sessions that is not too full, where one of the random numbers leads to a
  -- free conversation number, accepting a connection does not fault and leaves all sessions valid.
  pub accept_one-AllValid :
      (memory : Bool) (c : KcpConf) (rands : List ℕ) (fd : ℕ) (s : Server Kcp)
      → is_sparse s.sessions ≡ true
      → Lucky s.kcp_connect s.sessions rands
      → AllValid s.sessions
      → Ends (λ s'. AllValid s'.sessions) (accept_one ser lib memory c rands fd s)
  unfolding accept_one
  accept_one-AllValid memory c rands fd s d l v =
      accepted memory c fd s (conv_new s.kcp_connect rands s)
        (conv_new-IsFree s.kcp_connect rands s d l) v
