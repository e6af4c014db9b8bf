-- ===== src/Server/Rounds/Laws.antt =====
-- A timer's round over all sessions does not fault and leaves all of them valid.
use kcptun_libev.Base.{
  ◌≡◌, ◌≤◌, ◌⊎◌, inl, inr, Bool, true, false, List, [], ◌∷◌, Option, none, some, ℕ, length, arith,
  refl, Ends, Ends-weaken,
}
use kcptun_libev.Library.{Serialize, Ikcp}
use kcptun_libev.Session.{Session}
use kcptun_libev.Session.Step.{World, Returns}
use kcptun_libev.Session.Valid.{IsValid, Follows}
use kcptun_libev.Session.Tcp.{tcp_notify}
use kcptun_libev.Session.Process.{kcp_update}
use kcptun_libev.Server.{Server}
use kcptun_libev.Server.Table.{AllValid}
use kcptun_libev.Server.Receive.{Answers, world_with}
use kcptun_libev.Server.Rounds.{
  Filtered, kept, filtered, filter_sessions, timeout_cb, Updated, also, updated, update_sessions,
  kcp_update_cb,
}
use kcptun_libev.Timer.{Timeouts, timeout_filt}
use kcptun_libev.Timer.Expiry.{timeout_filt-Follows}

module _ (ser : Serialize) (lib : Ikcp) where
  open lib use {Kcp}

  abbrev Fewer : List (Session Kcp) → Filtered ser lib → Type 0
  Fewer ss o =
      Ends (λ (r : List (Session Kcp) × Server Kcp). AllValid r.0 × (length r.0 ≤ length ss)) o

  kept-Fewer :
      (x ss : Session Kcp) (rest : List (Session Kcp)) (o : Filtered ser lib)
      → IsValid ss
      → Fewer rest o
      → Fewer (x ∷ rest) (kept ser lib ss o)
  unfolding AllValid
  kept-Fewer x ss rest none v h = h
  kept-Fewer x ss rest (some (new, s)) v (h, l) = ((v, h), omega arith)

  filtered-Fewer :
      (next : Server Kcp → Filtered ser lib) (s : Server Kcp) (ss : Session Kcp)
      (rest : List (Session Kcp)) (w : World Kcp) (o : Option (Bool × World Kcp))
      → ((s' : Server Kcp) → Fewer rest (next s'))
      → Returns (λ alive w'. (alive ≡ false) ⊎ Follows w w') o
      → Fewer (ss ∷ rest) (filtered ser lib next s o)
  filtered-Fewer next s ss rest w none f h = h
  filtered-Fewer next s ss rest w (some (true, w')) f (inl e) = ground (arith, e)
  filtered-Fewer next s ss rest w (some (true, w')) f (inr q) =
      kept-Fewer ss w'.ss rest (next (record s { stats = w'.total })) q.valid
        (f (record s { stats = w'.total }))
  filtered-Fewer next s ss rest w (some (false, w')) f h =
      let s' : Server Kcp = record s { stats = w'.total } in
      Ends-weaken (λ r (v, l). (v, omega arith)) (next s') (f s')

  module _ (t : Timeouts) (a : Session Kcp → Answers) where
    filter_sessions-Fewer :
        (sessions : List (Session Kcp)) (s : Server Kcp)
        → AllValid sessions
        → Fewer sessions (filter_sessions ser lib t a sessions s)
    unfolding filter_sessions AllValid
    filter_sessions-Fewer [] s v = (tt, omega arith)
    filter_sessions-Fewer (ss ∷ rest) s (v, vs) =
        let w = world_with ser lib (a ss) s ss in
        filtered-Fewer (filter_sessions ser lib t a rest) s ss rest w (timeout_filt ser lib t w)
          (λ s'. filter_sessions-Fewer rest s' vs) (timeout_filt-Follows ser lib t w v)

    timeout_end :
        (ss : List (Session Kcp)) (o : Filtered ser lib)
        → Fewer ss o
        → Ends
            (λ (s' : Server Kcp). AllValid s'.sessions × (length s'.sessions ≤ length ss))
            (elim o [ none ↦ none | some (rest, s') ↦ some (record s' { sessions = rest }) ])
    timeout_end ss none h = h
    timeout_end ss (some (rest, s')) h = h

    -- A round of the time-out over a table of valid sessions does not fault; those that stay are
    -- valid, and there are no more of them.
    pub timeout_cb-AllValid :
        (s : Server Kcp)
        → AllValid s.sessions
        → Ends
            (λ s'. AllValid s'.sessions × (length s'.sessions ≤ length s.sessions))
            (timeout_cb ser lib t a s)
    unfolding timeout_cb
    timeout_cb-AllValid s v =
        timeout_end s.sessions (filter_sessions ser lib t a s.sessions s)
          (filter_sessions-Fewer s.sessions s v)

  kcp_update-IsValid :
      (w : World Kcp) → IsValid w.ss → Returns (λ _ w'. IsValid w'.ss) (kcp_update ser lib w)
  unfolding kcp_update tcp_notify
  kcp_update-IsValid w v = ground arith

  abbrev All : List (Session Kcp) → Updated ser lib → Type 0
  All ss o =
      Ends
        (λ (r : List (List ℕ) × List (Session Kcp) × Server Kcp).
          AllValid r.1 × (length r.1 ≡ length ss))
        o

  also-All :
      (packets : List (List ℕ)) (x ss : Session Kcp) (rest : List (Session Kcp))
      (o : Updated ser lib)
      → IsValid ss
      → All rest o
      → All (x ∷ rest) (also ser lib packets ss o)
  unfolding AllValid
  also-All packets x ss rest none v h = h
  also-All packets x ss rest (some (more, new, s)) v (h, l) = ((v, h), omega arith)

  updated-All :
      (next : Server Kcp → Updated ser lib) (s : Server Kcp) (ss : Session Kcp)
      (rest : List (Session Kcp)) (o : Option (List (List ℕ) × World Kcp))
      → ((s' : Server Kcp) → All rest (next s'))
      → Returns (λ _ w'. IsValid w'.ss) o
      → All (ss ∷ rest) (updated ser lib next s o)
  updated-All next s ss rest none f h = h
  updated-All next s ss rest (some (packets, w)) f v =
      also-All packets ss w.ss rest (next (record s { stats = w.total })) v
        (f (record s { stats = w.total }))

  update_sessions-All :
      (a : Session Kcp → Answers) (sessions : List (Session Kcp)) (s : Server Kcp)
      → AllValid sessions
      → All sessions (update_sessions ser lib a sessions s)
  unfolding update_sessions AllValid
  update_sessions-All a [] s v = (tt, refl)
  update_sessions-All a (ss ∷ rest) s (v, vs) =
      let w = world_with ser lib (a ss) s ss in
      updated-All (update_sessions ser lib a rest) s ss rest (kcp_update ser lib w)
        (λ s'. update_sessions-All a rest s' vs) (kcp_update-IsValid w v)

  update_end :
      (ss : List (Session Kcp)) (o : Updated ser lib)
      → All ss o
      → Ends
          (λ (r : List (List ℕ) × Server Kcp).
            AllValid r.1.sessions × (length r.1.sessions ≡ length ss))
          (elim o [
            | none ↦ none
            | some (packets, rest, s') ↦ some (packets, record s' { sessions = rest })
          ])
  update_end ss none h = h
  update_end ss (some (packets, rest, s')) h = h

  -- Driving KCP for all sessions of a table does not fault, in particular uses no KCP object that was
  -- released, and leaves as many sessions, all valid, if they were.
  pub kcp_update_cb-AllValid :
      (a : Session Kcp → Answers) (s : Server Kcp)
      → AllValid s.sessions
      → Ends
          (λ (r : List (List ℕ) × Server Kcp).
            AllValid r.1.sessions × (length r.1.sessions ≡ length s.sessions))
          (kcp_update_cb ser lib a s)
  unfolding kcp_update_cb
  kcp_update_cb-AllValid a s v =
      update_end s.sessions (update_sessions ser lib a s.sessions s)
        (update_sessions-All a s.sessions s v)
