-- ===== src/Server/Keepalive/Laws.antt =====
-- The keep-alive timer of a client goes on and sends little.
use kcptun_libev.Base.{
  ◌≡◌, ℕ, ◌+◌, ◌%◌, ◌^◌, ◌≤◌, ◌<◌, Bool, true, false, not, ◌&&◌, [], ◌∷◌, ◌++◌, Option, none, some,
  length, if◌then◌else◌, arith, refl, ◌∙◌, Ends, length-append, Option-cases, inl, inr,
}
use kcptun_libev.Library.{Serialize}
use kcptun_libev.Server.{Server, Frame, ss0_send}
use kcptun_libev.Server.Message.{s0msg_ping, s0msg_listen, s0msg_connect, inet6addr_length}
use kcptun_libev.Server.Message.Inet.{inetaddr_write-wire}
use kcptun_libev.Server.Keepalive.{
  server_ping, udp_rendezvous, Rearm, remaining, keepalive_ping, keepalive_client, keepalive_cb,
}

-- The timer runs again, and not at once: libev stops a timer that is to repeat after 0.
abbrev pub Waits : Option ℕ → Type 0
Waits none = ⊥
Waits (some n) = 0 < n

-- The sessions are as they were, and at most `n` frames were sent.
pub record Sends {K : Type 0} (n : ℕ) (s s' : Server K) : Type 0 where
  pub few : length s'.outbox ≤ length s.outbox + n
  pub same_sessions : s'.sessions ≡ s.sessions
  pub same_client : s'.mode.client ≡ s.mode.client

Sends-trans :
    {K : Type 0} {m n : ℕ} {s s' s'' : Server K}
    → Sends m s s'
    → Sends n s' s''
    → Sends (m + n) s s''
Sends-trans p q = record {
  few = omega (arith, p.few, q.few);
  same_sessions = q.same_sessions ∙ p.same_sessions;
  same_client = q.same_client ∙ p.same_client;
}

branch :
    {A : Type 0} (P : A → Type 0) (b : Bool) (x y : Option A)
    → Ends P x
    → Ends P y
    → Ends P (if b then x else y)
branch P true x y h k = h
branch P false x y h k = k

remaining-positive : (now limit : ℕ) (o : Option ℕ) (n : ℕ) → remaining now limit o ≡ some n → 0 < n
remaining-positive now limit none n e = ground arith
remaining-positive now limit (some t) n e = ground arith

module _ {K : Type 0} (ser : Serialize) where
  send-Sends : (s : Server K) (f : Frame) → Sends 1 s (record s { outbox = s.outbox ++ f ∷ [] })
  send-Sends s f = record {
    few = omega (arith, length-append s.outbox (f ∷ []));
    same_sessions = refl;
    same_client = refl;
  }

  rendezvous-Sends : (what : ℕ) (s : Server K) → Ends (Sends 1 s) (udp_rendezvous ser what s)
  unfolding udp_rendezvous ss0_send
  rendezvous-Sends what s =
      rw (inetaddr_write-wire s.rendezvous_local inet6addr_length (omega arith), Ends)
        (send-Sends s _)

  abbrev ping_frame : ℕ → Server K → Frame
  ping_frame time s = record {
    addr = s.kcp_connect;
    bytes = ser.write_uint32 0 ++ ser.write_uint16 s0msg_ping ++ ser.write_uint32 (time % 2 ^ 32);
  }

  client-Waits :
      (time keepalive ping_timeout : ℕ) (s : Server K)
      → s.mode.client ≡ true
      → 0 < ping_timeout
      → Waits (keepalive_client ser time keepalive ping_timeout s).0
        × Sends 1 s (keepalive_client ser time keepalive ping_timeout s).1
  unfolding keepalive_client keepalive_ping server_ping ss0_send
  client-Waits time keepalive ping_timeout s c p =
      elim (Option-cases (remaining s.now ping_timeout s.inflight_ping)) [
        | inr (n, e) ↦
            rw (keepalive_client, c, e)
              (
                remaining-positive s.now ping_timeout s.inflight_ping n e,
                record { few = omega arith; same_sessions = refl; same_client = c },
              )
        | inl e ↦ elim (Option-cases (remaining s.now keepalive s.last_send_time)) [
          | inr (n, h) ↦
              rw (keepalive_client, c, e, keepalive_ping, h)
                (
                  remaining-positive s.now keepalive s.last_send_time n h,
                  record { few = omega arith; same_sessions = refl; same_client = c },
                )
          | inl h ↦
              rw (keepalive_client, c, e, keepalive_ping, h, server_ping, c)
                (
                  p,
                  record {
                    few = omega (arith, length-append s.outbox ((ping_frame time s) ∷ []));
                    same_sessions = refl;
                    same_client = refl;
                  },
                )
        ]
      ]

  second :
      (n ping_timeout : ℕ) (s s1 : Server K) (o : Option (Server K))
      → 0 < ping_timeout
      → Sends n s s1
      → Ends (Sends 1 s1) o
      → Ends
          (λ (r : Rearm K). Waits r.0 × Sends (n + 1) s r.1)
          (elim o [ none ↦ none | some s2 ↦ some (some ping_timeout, s2) ])
  second n ping_timeout s s1 none p q h = h
  second n ping_timeout s s1 (some s2) p q h = (p, Sends-trans q h)

  first :
      (time keepalive ping_timeout : ℕ) (s : Server K) (o : Option (Server K))
      → s.mode.client ≡ true
      → 0 < ping_timeout
      → Ends (Sends 1 s) o
      → Ends
          (λ (r : Rearm K). Waits r.0 × Sends 2 s r.1)
          (elim o [
            | none ↦ none
            | some s1 ↦
                if s.mode.rendezvous && (s.mode.client && not s.connected)
                then (elim (udp_rendezvous ser s0msg_connect s1) [
                  | none ↦ none
                  | some s2 ↦ some (some ping_timeout, s2)
                ])
                else some (keepalive_client ser time keepalive ping_timeout s1)
          ])
  first time keepalive ping_timeout s none c p h = h
  first time keepalive ping_timeout s (some s1) c p h =
      branch (λ (r : Rearm K). Waits r.0 × Sends 2 s r.1)
        (s.mode.rendezvous && (s.mode.client && not s.connected)) _ _
        (second 1 ping_timeout s s1 (udp_rendezvous ser s0msg_connect s1) p h
          (rendezvous-Sends s0msg_connect s1))
        (let (w, q) = client-Waits time keepalive ping_timeout s1 (h.same_client ∙ c) p in
          (w, Sends-trans h q))

  -- In any state of a client, the keep-alive timer does not fault and runs again after a time that is
  -- not 0, where the limit on a ping is not 0; the sessions are left alone, and at most two frames are
  -- sent.
  pub keepalive_cb-Waits :
      (time keepalive ping_timeout : ℕ) (s : Server K)
      → s.mode.client ≡ true
      → 0 < ping_timeout
      → Ends (λ r. Waits r.0 × Sends 2 s r.1) (keepalive_cb ser time keepalive ping_timeout s)
  unfolding keepalive_cb
  keepalive_cb-Waits time keepalive ping_timeout s c p =
      first time keepalive ping_timeout s
        (if s.mode.rendezvous && s.mode.server then udp_rendezvous ser s0msg_listen s else some s) c
        p
        (branch (Sends 1 s) (s.mode.rendezvous && s.mode.server) (udp_rendezvous ser s0msg_listen s)
          (some s) (rendezvous-Sends s0msg_listen s)
          (record { few = omega arith; same_sessions = refl; same_client = refl }))
