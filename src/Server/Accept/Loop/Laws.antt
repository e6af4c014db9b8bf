-- ===== src/Server/Accept/Loop/Laws.antt =====
-- Accepting keeps the table valid and within its bound, and the listener alive (src/event_tcp.c,
-- tcp_accept_cb).
use kcptun_libev.Base.{
  Ends, ℕ, suc, ◌≤◌, ◌<◌, ◌≡◌, ◌⊎◌, inr, Bool, true, false, not, List, [], ◌∷◌, ◌++◌, Option, none,
  some, length, ltb, arith, refl, if_cases, if_both, length-append, if◌then◌else◌,
}
use kcptun_libev.Library.{Errno, is_transient_error, Serialize, Ikcp}
use kcptun_libev.Session.{Session, session_tcp_start}
use kcptun_libev.Session.Step.{World}
use kcptun_libev.Session.Create.{KcpConf, session_new}
use kcptun_libev.Server.{Server}
use kcptun_libev.Server.Accept.{is_taken, conv_new, accept_session, accept_one}
use kcptun_libev.Server.Accept.Laws.{Lucky, accept_one-AllValid}
use kcptun_libev.Server.Accept.Loop.{
  AcceptOut, got_socket, accept_error, max_sessions, rest_a_while, accept_failed, tcp_accept_cb,
}
use kcptun_libev.Server.Sockets.{Listener}
use kcptun_libev.Server.Table.{AllValid}

-- At most one session more.
abbrev Grows : {K : Type 0} → ℕ → Option (Server K) → Type 0
Grows n none = Unit
Grows n (some s) = length s.sessions ≤ suc n

-- It waits for a connection, or for the timer that makes it do so.
abbrev pub IsAwake : Listener → Type 0
IsAwake l = (l.accepting ≡ true) ⊎ (l.retrying ≡ true)

accept_failed-IsAwake : (e : Errno) (l : Listener) → IsAwake l → IsAwake (accept_failed e l)
accept_failed-IsAwake e l h = if_both IsAwake (is_transient_error e) l (rest_a_while l) h (inr refl)

module _ (ser : Serialize) (lib : Ikcp) (c : KcpConf) where
  open lib use {Kcp}

  abbrev pub Accepted : Server Kcp × Listener → Type 0
  Accepted r = AllValid r.0.sessions × (length r.0.sessions ≤ max_sessions) × IsAwake r.1

  -- In each round that makes a session, one of the random numbers leads to a free number.
  abbrev pub LuckyRounds : List AcceptOut → Server Kcp → Type 0
  LuckyRounds [] s = Unit
  LuckyRounds (accept_error e ∷ rs) s = Unit
  LuckyRounds (got_socket fd nonblock memory rands ∷ rs) s =
      Lucky s.kcp_connect s.sessions rands
      × ((s' : Server Kcp) → accept_one ser lib memory c rands fd s ≡ some s' → LuckyRounds rs s')

  dialled-Grows :
      (fd : ℕ) (s : Server Kcp) (o : Option (Bool × World Kcp))
      → Grows (length s.sessions) (elim o [
        | none ↦ none
        | some (dialled, w) ↦
            if dialled
            then (if is_taken w.ss.raddr s.sessions w.ss.conv
                then none
                else some (record s { sessions = s.sessions ++ session_tcp_start w.ss fd ∷ [] }))
            else some s
      ])
  dialled-Grows fd s none = tt
  dialled-Grows fd s (some (true, w)) =
      if_both (Grows (length s.sessions)) (is_taken w.ss.raddr s.sessions w.ss.conv) _ _ tt
        (omega (arith, length-append s.sessions (session_tcp_start w.ss fd ∷ [])))
  dialled-Grows fd s (some (false, w)) = omega arith

  accept_session-Grows :
      (fd : ℕ) (ss : Session Kcp) (s : Server Kcp)
      → Grows (length s.sessions) (accept_session ser lib fd ss s)
  unfolding accept_session
  accept_session-Grows fd ss s = dialled-Grows fd s _

  made-Grows :
      (fd : ℕ) (s : Server Kcp) (o : Option (Session Kcp))
      → Grows
          (length s.sessions)
          (elim o [ none ↦ some s | some ss ↦ accept_session ser lib fd ss s ])
  made-Grows fd s none = omega arith
  made-Grows fd s (some ss) = accept_session-Grows fd ss s

  numbered-Grows :
      (memory : Bool) (fd : ℕ) (s : Server Kcp) (o : Option (ℕ × Server Kcp))
      → ((r : ℕ × Server Kcp) → o ≡ some r → length r.1.sessions ≡ length s.sessions)
      → Grows (length s.sessions) (elim o [
        | none ↦ none
        | some (conv, s') ↦ elim (session_new ser lib memory c s.kcp_connect conv s.now) [
          | none ↦ some s'
          | some ss ↦ accept_session ser lib fd ss s'
        ]
      ])
  numbered-Grows memory fd s none h = tt
  numbered-Grows memory fd s (some (conv, s')) h = rw (← h (conv, s') refl) (made-Grows fd s' _)

  conv_new_sessions :
      (rands : List ℕ) (s : Server Kcp) (r : ℕ × Server Kcp)
      → conv_new s.kcp_connect rands s ≡ some r
      → length r.1.sessions ≡ length s.sessions
  unfolding conv_new
  conv_new_sessions rands s r e = ground arith

  accept_one-Grows :
      (memory : Bool) (rands : List ℕ) (fd : ℕ) (s : Server Kcp)
      → Grows (length s.sessions) (accept_one ser lib memory c rands fd s)
  unfolding accept_one
  accept_one-Grows memory rands fd s = numbered-Grows memory fd s _ (conv_new_sessions rands s)

  next-Accepted :
      (n : ℕ) (rs : List AcceptOut) (l : Listener) (o : Option (Server Kcp))
      → Ends (λ s'. AllValid s'.sessions) o
      → Grows n o
      → n < max_sessions
      → ((s' : Server Kcp) → o ≡ some s' → LuckyRounds rs s')
      → ((s' : Server Kcp)
          → LuckyRounds rs s'
          → AllValid s'.sessions
          → length s'.sessions ≤ max_sessions
          → Ends Accepted (tcp_accept_cb ser lib c rs l s'))
      → Ends Accepted (elim o [ none ↦ none | some s' ↦ tcp_accept_cb ser lib c rs l s' ])
  next-Accepted n rs l none v g b lucky go = v
  next-Accepted n rs l (some s') v g b lucky go = go s' (lucky s' refl) v (omega arith)

  -- However many connections wait, and whatever accept answers, a callback of the TCP listener does not
  -- fault: all sessions are valid afterwards and they are 65535 at most, and the listener accepts, or
  -- rests until its timer, as it did before or as it does after an error. In each round one of the
  -- random numbers has to lead to a free conversation number.
  pub tcp_accept_cb-Accepted :
      (rs : List AcceptOut) (l : Listener) (s : Server Kcp)
      → LuckyRounds rs s
      → AllValid s.sessions
      → length s.sessions ≤ max_sessions
      → IsAwake l
      → Ends Accepted (tcp_accept_cb ser lib c rs l s)
  unfolding tcp_accept_cb
  tcp_accept_cb-Accepted [] l s lucky v b a = (v, b, a)
  tcp_accept_cb-Accepted (accept_error e ∷ rs) l s lucky v b a = (v, b, accept_failed-IsAwake e l a)
  tcp_accept_cb-Accepted (got_socket fd nonblock memory rands ∷ rs) l s (lucky, later) v b a =
      let stay : Ends Accepted (some (s, l)) = (v, b, a) in
      if_cases (Ends Accepted) (not (ltb (length s.sessions) max_sessions)) _ _ (λ _. stay)
        (λ e.
          let few : length s.sessions < max_sessions = ground arith in
          if_both (Ends Accepted) (not nonblock) _ _ stay (
            if_both (Ends Accepted) (not s.connected) _ _ stay (
              next-Accepted (length s.sessions) rs l (accept_one ser lib memory c rands fd s)
                (accept_one-AllValid ser lib memory c rands fd s (ground arith) lucky v)
                (accept_one-Grows memory rands fd s) few later
                (λ s' m v' b'. tcp_accept_cb-Accepted rs l s' m v' b' a))))
