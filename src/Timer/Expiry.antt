-- ===== src/Timer/Expiry.antt =====
-- What the time-out does to a session: it keeps it valid, and a session that nothing happens to is
-- gone after a time that the limits bound.
use kcptun_libev.Base.{
  ℕ, zero, suc, ◌+◌, ◌*◌, ◌≤◌, ◌<◌, ◌≡◌, ◌≢◌, ◌⊎◌, inl, inr, Bool, true, false, List, [], ◌∷◌,
  Option, none, some, arith, refl,
}
use kcptun_libev.Library.{Serialize, Ikcp}
use kcptun_libev.Session.{State, Session, init, connect, connected, linger, time_wait, rank}
use kcptun_libev.Session.Step.{World, M, Returns}
use kcptun_libev.Session.Valid.{IsValid, Follows}
use kcptun_libev.Timer.{
  Timeouts, dialling_filt, connected_filt, linger_filt, time_wait_filt, timeout_filt,
}
use kcptun_libev.Session.Kcp.{session_kcp_close}
use kcptun_libev.Session.Tcp.{stop_and_close}
use kcptun_libev.Session.{session_tcp_stop}

-- A bound on every time limit that ends a state.
pub record IsLimit (l : ℕ) (t : Timeouts) : Type 0 where
  pub dial_le : t.dial_timeout ≤ l
  pub session_le : t.session_timeout ≤ l
  pub linger_le : t.linger_timeout ≤ l
  pub time_wait_le : t.time_wait_timeout ≤ l

abbrev pub Before : ℕ → Option ℕ → Type 0
Before n none = Unit
Before n (some t) = t ≤ n

-- No event of the session that its state counts from is later than `n`.
pub record Stamped {K : Type 0} (n : ℕ) (s : Session K) : Type 0 where
  pub created_le : s.created ≤ n
  pub reset_le : Before n s.last_reset
  pub send_le : s.kcp_state ≡ linger → Before n s.last_send
  pub recv_le : Before n s.last_recv

-- What a round of the time-out leaves of a session that nothing has happened to since `n`: the
-- session has been freed, or is nearer to its end, or it is not yet `l` since.
abbrev pub Nearer : {K : Type 0} → ℕ → ℕ → World K → Bool → World K → Type 0
Nearer n l w alive w' =
    (alive ≡ false)
    ⊎ (IsValid w'.ss
        × (w'.now ≡ w.now)
        × (((rank w.ss.kcp_state < rank w'.ss.kcp_state) × Stamped w.now w'.ss)
            ⊎ ((w'.ss.kcp_state ≡ w.ss.kcp_state) × Stamped n w'.ss × (w.now ≤ n + l))))

module _ (ser : Serialize) (lib : Ikcp) (t : Timeouts) where
  open lib use {Kcp}

  -- A round of the time-out on a valid session does not fault; unless it frees the session, it
  -- leaves it valid and no further from its end.
  pub timeout_filt-Follows :
      (w : World Kcp)
      → IsValid w.ss
      → Returns (λ alive w'. (alive ≡ false) ⊎ Follows w w') (timeout_filt ser lib t w)
  unfolding timeout_filt dialling_filt connected_filt linger_filt time_wait_filt stop_and_close
      session_tcp_stop session_kcp_close
  timeout_filt-Follows w v = ground arith

  dialling_filt-Nearer :
      (w : World Kcp) (n l : ℕ)
      → IsLimit l t
      → IsValid w.ss
      → w.ss.kcp_state ≡ connect
      → Stamped n w.ss
      → n ≤ w.now
      → Returns (Nearer n l w) (dialling_filt ser lib t w)
  unfolding dialling_filt stop_and_close session_tcp_stop session_kcp_close
  dialling_filt-Nearer w n l b v i s m = ground arith

  connected_filt-Nearer :
      (w : World Kcp) (n l : ℕ)
      → IsLimit l t
      → IsValid w.ss
      → w.ss.kcp_state ≡ connected
      → Stamped n w.ss
      → n ≤ w.now
      → Returns (Nearer n l w) (connected_filt ser lib t w)
  unfolding connected_filt
  connected_filt-Nearer w n l b v i s m = ground arith

  linger_filt-Nearer :
      (w : World Kcp) (n l : ℕ)
      → IsLimit l t
      → IsValid w.ss
      → w.ss.kcp_state ≡ linger
      → Stamped n w.ss
      → n ≤ w.now
      → Returns (Nearer n l w) (linger_filt ser lib t w)
  unfolding linger_filt
  linger_filt-Nearer w n l b v i s m = ground arith

  time_wait_filt-Nearer :
      (w : World Kcp) (n l : ℕ)
      → IsLimit l t
      → IsValid w.ss
      → w.ss.kcp_state ≡ time_wait
      → Stamped n w.ss
      → n ≤ w.now
      → Returns (Nearer n l w) (time_wait_filt ser lib t w)
  unfolding time_wait_filt
  time_wait_filt-Nearer w n l b v i s m = ground arith

  filt-Nearer :
      (w : World Kcp) (n l : ℕ) (st : State)
      → IsLimit l t
      → IsValid w.ss
      → w.ss.kcp_state ≡ st
      → st ≢ init
      → Stamped n w.ss
      → n ≤ w.now
      → Returns (Nearer n l w) (elim st [
        | init ↦ dialling_filt ser lib t w
        | connect ↦ dialling_filt ser lib t w
        | connected ↦ connected_filt ser lib t w
        | linger ↦ linger_filt ser lib t w
        | time_wait ↦ time_wait_filt ser lib t w
      ])
  filt-Nearer w n l init b v e i s m = absurd (i refl)
  filt-Nearer w n l connect b v e i s m = dialling_filt-Nearer w n l b v e s m
  filt-Nearer w n l connected b v e i s m = connected_filt-Nearer w n l b v e s m
  filt-Nearer w n l linger b v e i s m = linger_filt-Nearer w n l b v e s m
  filt-Nearer w n l time_wait b v e i s m = time_wait_filt-Nearer w n l b v e s m

  timeout_filt-Nearer :
      (w : World Kcp) (n l : ℕ)
      → IsLimit l t
      → IsValid w.ss
      → w.ss.kcp_state ≢ init
      → Stamped n w.ss
      → n ≤ w.now
      → Returns (Nearer n l w) (timeout_filt ser lib t w)
  unfolding timeout_filt
  timeout_filt-Nearer w n l b v i s m = filt-Nearer w n l w.ss.kcp_state b v refl i s m

  -- One round of the time-out after another, at the given times, until the session is freed.
  unfoldable pub run_ticks : List ℕ → M Kcp Bool
  run_ticks [] w = some (true, w)
  run_ticks (n ∷ ns) w = elim (timeout_filt ser lib t (record w { now = n })) [
    | none ↦ none
    | some (alive, w') ↦ elim alive [ true ↦ run_ticks ns w' | false ↦ some (false, w') ]
  ]

  -- The times of the rounds, from one at `m` to the last one: each comes at most `p` after the one
  -- before.
  abbrev pub IsPaced : ℕ → ℕ → ℕ → List ℕ → Type 0
  IsPaced p last m [] = m ≡ last
  IsPaced p last m (m' ∷ ms) = (m ≤ m') × (m' ≤ m + p) × IsPaced p last m' ms

  next_tick :
      (n l : ℕ) (w : World Kcp) (ns : List ℕ) (P : Bool → World Kcp → Type 0)
      → ((w' : World Kcp) → Nearer n l w true w' → Returns P (run_ticks ns w'))
      → ((w' : World Kcp) → P false w')
      → (o : Option (Bool × World Kcp)) → Returns (Nearer n l w) o
      → Returns P (elim o [
        | none ↦ none
        | some (alive, w') ↦ elim alive [ true ↦ run_ticks ns w' | false ↦ some (false, w') ]
      ])
  next_tick n l w ns P more stop none h = h
  next_tick n l w ns P more stop (some (true, w')) h = more w' h
  next_tick n l w ns P more stop (some (false, w')) h = stop w'

  started : {m : ℕ} (w : World Kcp) → m < rank w.ss.kcp_state → w.ss.kcp_state ≢ init
  started w r = ground arith

  rank_le : (w : World Kcp) → rank w.ss.kcp_state ≤ 4
  rank_le w = ground arith

  -- `left` is what `k` states may still take.
  run_ticks_left :
      (ns : List ℕ) (l p last n m k left : ℕ) (w : World Kcp)
      → IsLimit l t
      → IsValid w.ss
      → w.ss.kcp_state ≢ init
      → Stamped n w.ss
      → n ≤ m
      → m ≤ n + l
      → IsPaced p last m ns
      → 5 ≤ rank w.ss.kcp_state + k
      → left ≡ k * (l + p)
      → n + left < last
      → Returns (λ alive _. alive ≡ false) (run_ticks ns w)
  unfolding run_ticks
  run_ticks_left ns l p last n m zero left w b v i s a c q h e d =
      absurd (omega (arith, h, rank_le w))
  run_ticks_left [] l p last n m (suc k) left w b v i s a c q h e d =
      absurd (omega (arith, q, c, d, e))
  run_ticks_left (m' ∷ ms) l p last n m (suc k) left w b v i s a c (x, y, q) h e d =
      next_tick n l (record w { now = m' }) ms (λ alive _. alive ≡ false)
        (λ w' u. elim u [
          | inl f ↦ ground arith
          | inr (v', now', inl (r, s')) ↦
              run_ticks_left ms l p last m' m' k (k * (l + p)) w' b v' (started w' r) s'
                (omega arith) (omega arith) q (omega arith) refl (omega arith)
          | inr (v', now', inr (r, s', z)) ↦
              run_ticks_left ms l p last n m' (suc k) left w' b v' (rw r i) s' (omega arith) z q
                (rw r h) e d
        ])
        (λ _. refl) (timeout_filt ser lib t (record w { now = m' }))
        (timeout_filt-Nearer (record w { now = m' }) n l b v i s (omega arith))

  -- A valid session that is no longer being created and that nothing happens to is freed, when the
  -- rounds come at most `p` after each other and go on for longer than five times `l + p` after its
  -- last event, where no limit of a state is above `l`.
  pub run_ticks-freed :
      (ns : List ℕ) (l p last n : ℕ) (w : World Kcp)
      → IsLimit l t
      → IsValid w.ss
      → w.ss.kcp_state ≢ init
      → Stamped n w.ss
      → IsPaced p last n ns
      → n + 5 * (l + p) < last
      → Returns (λ alive _. alive ≡ false) (run_ticks ns w)
  run_ticks-freed ns l p last n w b v i s q d =
      run_ticks_left ns l p last n n 5 (5 * (l + p)) w b v i s (omega arith) (omega arith) q
        (omega arith) refl d
