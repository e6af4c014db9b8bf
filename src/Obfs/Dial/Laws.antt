-- ===== src/Obfs/Dial/Laws.antt =====
-- Dialling leaves the obfuscator well-formed (src/obfs.c, obfs_ctx_dial, obfs_ctx_start,
-- obfs_redial_cb and obfs_resolve).
use kcptun_libev.Base.{
  ◌≡◌, ℕ, ◌+◌, ◌≤◌, ◌==◌, Bool, true, false, not, ◌&&◌, List, Option, none, some, length, arith,
  refl, inl, inr, Bool-cases, Option-cases, if_cases, if_both, Ends, length-append, ◌∙◌,
}
use kcptun_libev.Address.{SockAddr}
use kcptun_libev.Conf.{Mode}
use kcptun_libev.Session.Step.{SendOut}
use kcptun_libev.Obfs.{Obfs, ObfsCtx, find_ctx, update_ctx}
use kcptun_libev.Obfs.Context.{
  ObfsWorld, obfs_ctx_new, obfs_sched_redial, unauth, obfs_ctx_del, started, with_contexts,
  replaced, obfs_ctx_start,
}
use kcptun_libev.Obfs.Context.Laws.{
  auth_bit, num_auth, Counted, num_auth-append, num_auth-update_ctx,
}
use kcptun_libev.Obfs.Context.Sane.{
  IsSound, AllSound, MayBe, IsSane, AllSound-append, AllSound-update_ctx, find_ctx-append,
  find_ctx-update_ctx,
}
use kcptun_libev.Obfs.Http.Write.{Host, codes, set_obfs, world_of, host_of, Wrote}
use kcptun_libev.Obfs.Http.Keep.{MayBe-none, HostIsSane, sched_redial-IsSane}
use kcptun_libev.Obfs.Http.Sent.{EndsSane, WritesSane, obfs_ctx_write-WritesSane}
use kcptun_libev.Obfs.Dial.{
  DialCalls, obfs_bind, dial_request, Dialled, undialled, dialled, dial_started, dial_named,
  dial_socket, obfs_ctx_dial, redial_end, redial, obfs_redial_cb, obfs_resolve,
}

-- Where the context has been started, the table holds it.
abbrev pub Placed : ObfsCtx → Bool → Obfs → Type 0
Placed c true o = find_ctx c.raddr o.contexts ≡ some c
Placed c false o = Unit

-- The table is right, and the client has no context; the timer is as it was.
pub record Starts (c : ObfsCtx) (o : Obfs) (b : Bool) (o' : Obfs) : Type 0 where
  pub counted : Counted o'
  pub sound : AllSound o'.contexts
  pub no_client : o'.client ≡ none
  pub same_timer : o'.redial_active ≡ o.redial_active
  pub placed : Placed c b o'

abbrev pub StartsIn : {K : Type 0} → ObfsCtx → Obfs → Option (Bool × ObfsWorld K) → Type 0
StartsIn {K} c o r = Ends (λ (r' : Bool × ObfsWorld K). Starts c o r'.0 r'.1.obfs) r

fresh-IsSound :
    (junk : Bool) (laddr raddr : SockAddr) (now fd : ℕ)
    → IsSound (started now fd (obfs_ctx_new junk laddr raddr))
unfolding obfs_ctx_new
fresh-IsSound junk laddr raddr now fd = (refl, omega arith, omega arith)

module _ {K : Type 0} (m : Mode) where
  -- What was replaced is deleted, while the client has no context.
  replaced_del-StartsIn :
      (c old : ObfsCtx) (o : Obfs) (w : ObfsWorld K)
      → old.in_table ≡ false
      → w.obfs.num_authenticated ≡ num_auth w.obfs.contexts + auth_bit old
      → AllSound w.obfs.contexts
      → w.obfs.client ≡ none
      → w.obfs.redial_active ≡ o.redial_active
      → find_ctx c.raddr w.obfs.contexts ≡ some c
      → StartsIn c o (elim (obfs_ctx_del m old w) [ none ↦ none | some w' ↦ some (true, w') ])
  unfolding obfs_ctx_del unauth
  replaced_del-StartsIn c old o w t n s k r f = elim (Bool-cases old.authenticated) [
    | inl e ↦
        let z : (w.obfs.num_authenticated == 0) ≡ false = ground arith in
        rw (obfs_ctx_del, unauth, e, z, t, k)
          (record {
            counted = ground (arith, e, n);
            sound = s;
            no_client = refl;
            same_timer = r;
            placed = f;
          })
    | inr e ↦
        rw (obfs_ctx_del, unauth, e, t, k)
          (record {
            counted = ground (arith, e, n);
            sound = s;
            no_client = refl;
            same_timer = r;
            placed = f;
          })
  ]

  pub start-StartsIn :
      (junk : Bool) (laddr raddr : SockAddr) (now fd : ℕ) (w : ObfsWorld K)
      → Counted w.obfs
      → AllSound w.obfs.contexts
      → w.obfs.client ≡ none
      → let ctx = obfs_ctx_new junk laddr raddr in
        StartsIn (started now fd ctx) w.obfs (obfs_ctx_start m now ctx fd w)
  unfolding obfs_ctx_start replaced obfs_ctx_new
  start-StartsIn junk laddr raddr now fd w n s k =
      let ctx = obfs_ctx_new junk laddr raddr in
      let c = started now fd ctx in
      let cs = w.obfs.contexts in
      let fresh = fresh-IsSound junk laddr raddr now fd in
      elim (Option-cases (find_ctx raddr cs)) [
        | inl e ↦
            rw (obfs_ctx_start, e, Ends)
              (record {
                counted = omega (arith, num_auth-append cs c);
                sound = AllSound-append cs c fresh s;
                no_client = k;
                same_timer = refl;
                placed = find_ctx-append c cs e;
              })
        | inr (old, e) ↦ elim (Bool-cases m.server) [
          | inl h ↦
              rw (obfs_ctx_start, e, h, Ends)
                (record { counted = n; sound = s; no_client = k; same_timer = refl; placed = tt })
          | inr h ↦
              let u = num_auth-update_ctx raddr c old cs e in
              rw (obfs_ctx_start, e, h, replaced)
                (replaced_del-StartsIn c (record old { in_table = false }) w.obfs
                  (with_contexts m (update_ctx raddr c cs) w) refl (omega (arith, u))
                  (AllSound-update_ctx raddr c cs fresh s) k refl (find_ctx-update_ctx c cs (rw e)))
        ]
      ]

abbrev DialsSane : {K : Type 0} → Dialled K → Type 0
DialsSane {K} o = Ends (λ (r : Bool × Wrote K). HostIsSane r.1.host) o

dialled-DialsSane : {K : Type 0} (o : Option (Wrote K)) → WritesSane o → DialsSane (dialled o)
dialled-DialsSane none h = h
dialled-DialsSane (some r) h = h

redial_end-EndsSane :
    {K : Type 0} (sa : SockAddr) (o : Dialled K) → DialsSane o → EndsSane (redial_end sa o)
redial_end-EndsSane sa none h = h
redial_end-EndsSane sa (some (false, r)) h = h
redial_end-EndsSane sa (some (true, r)) h = record {
  counted = h.counted;
  sound = h.sound;
  client_lives = h.client_lives;
  idle = h.idle;
}

pub no_client-IsSane :
    (m : Mode) (o : Obfs) → Counted o → AllSound o.contexts → o.client ≡ none → IsSane m o
no_client-IsSane m o n s k = record {
  counted = n;
  sound = s;
  client_lives = rw k tt;
  idle = rw k (MayBe-none (m.client && not o.redial_active));
}

may-be :
    (client active : Bool) (c : Option SockAddr)
    → client ≡ true
    → active ≡ false
    → MayBe (client && not active) c
may-be true false c e f = tt
may-be false active c e f = cc
may-be true true c e f = cc

fired-IsSane :
    (m : Mode) (o : Obfs) (n : ℕ)
    → m.client ≡ true
    → IsSane m o
    → IsSane m (record o { redial_active = false; redial_count = n })
fired-IsSane m o n c s = record {
  counted = s.counted;
  sound = s.sound;
  client_lives = s.client_lives;
  idle = may-be m.client false o.client c refl;
}

module _ {K : Type 0} (now : ℕ) (host : List ℕ) (sends : List SendOut) (memory : List ℕ)
    (fits : length host ≤ 64) where
  dial_started-DialsSane :
      (ctx : ObfsCtx) (h : Host K) (o : Option (Bool × ObfsWorld K))
      → IsSound ctx
      → h.server.mode.client ≡ true
      → h.obfs.redial_active ≡ false
      → StartsIn ctx h.obfs o
      → DialsSane (dial_started now host sends memory ctx h o)
  unfolding dial_started
  dial_started-DialsSane ctx h none f c r s = s
  dial_started-DialsSane ctx h (some (false, w)) f c r s =
      no_client-IsSane h.server.mode w.obfs s.counted s.sound s.no_client
  dial_started-DialsSane ctx h (some (true, w)) f c r s =
      let l = length-append host (codes "\r\nUser-Agent: curl/7.81.0\r\nAccept: */*\r\n\r\n") in
      let h1 = host_of h w in
      let h2 = set_obfs (record h1.obfs { client = some ctx.raddr }) h1 in
      dialled-DialsSane _ (
        obfs_ctx_write-WritesSane memory
          (record ctx { wbuf = dial_request host; http_keepalive = true }) h2 sends
          (record {
            counted = s.counted;
            sound = s.sound;
            client_lives = rw s.placed;
            idle =
                may-be h.server.mode.client w.obfs.redial_active (some ctx.raddr) c
                  (s.same_timer ∙ r);
          })
          (record { old = ctx; found = s.placed; same_auth = refl; sound = f }) (omega (arith, l)))

  dial_named-DialsSane :
      (junk : Bool) (fd : ℕ) (sa : SockAddr) (laddr : Option SockAddr) (h : Host K)
      → HostIsSane h
      → h.obfs.client ≡ none
      → h.server.mode.client ≡ true
      → h.obfs.redial_active ≡ false
      → DialsSane (dial_named now host sends memory junk fd sa laddr h)
  unfolding dial_named
  dial_named-DialsSane junk fd sa none h s k c r = s
  dial_named-DialsSane junk fd sa (some laddr) h s k c r =
      let h1 = set_obfs (obfs_bind laddr h.obfs) h in
      dial_started-DialsSane (started now fd (obfs_ctx_new junk laddr sa)) h1 _
        (fresh-IsSound junk laddr sa now fd) c r
        (start-StartsIn h.server.mode junk laddr sa now fd (world_of h1) s.counted s.sound k)

  dial_socket-DialsSane :
      (calls : DialCalls) (sa : SockAddr) (fd : Option ℕ) (h : Host K)
      → HostIsSane h
      → h.obfs.client ≡ none
      → h.server.mode.client ≡ true
      → h.obfs.redial_active ≡ false
      → DialsSane (dial_socket now host sends memory calls sa fd h)
  unfolding dial_socket
  dial_socket-DialsSane calls sa none h s k c r = s
  dial_socket-DialsSane calls sa (some fd) h s k c r =
      let failed : DialsSane (undialled h) = s in
      let named = dial_named-DialsSane calls.junk fd sa calls.getsockname h s k c r in
      search (if_both DialsSane, failed, named)

  -- However the calls of the system and `send` answer, a client that has no connection and no redial
  -- under way dials without a fault: the obfuscator stays well-formed, so that the client's context is
  -- one that the table holds, also where another one with its address was replaced or where the first
  -- request could not be sent. The name of the host has at most 64 bytes.
  pub obfs_ctx_dial-DialsSane :
      (calls : DialCalls) (sa : SockAddr) (h : Host K)
      → HostIsSane h
      → h.obfs.client ≡ none
      → h.server.mode.client ≡ true
      → h.obfs.redial_active ≡ false
      → DialsSane (obfs_ctx_dial now host sends memory calls sa h)
  unfolding obfs_ctx_dial
  obfs_ctx_dial-DialsSane calls sa h s k c r =
      if_cases DialsSane (not h.server.mode.client) none _ (λ e. ground (arith, c))
        (λ _. dial_socket-DialsSane calls sa calls.socket h s k c r)

  redial-EndsSane :
      (calls : DialCalls) (addr : Option SockAddr) (h : Host K)
      → HostIsSane h
      → h.obfs.client ≡ none
      → h.server.mode.client ≡ true
      → h.obfs.redial_active ≡ false
      → EndsSane (redial now host sends memory calls addr h)
  unfolding redial
  redial-EndsSane calls none h s k c r = s
  redial-EndsSane calls (some sa) h s k c r =
      redial_end-EndsSane sa (obfs_ctx_dial now host sends memory calls sa h)
        (obfs_ctx_dial-DialsSane calls sa h s k c r)

  redial_cb-EndsSane :
      (calls : DialCalls) (addr client : Option SockAddr) (h : Host K)
      → h.obfs.client ≡ client
      → HostIsSane h
      → h.server.mode.client ≡ true
      → let fired = record h.obfs { redial_active = false } in
        let again = set_obfs (record fired { redial_count = h.obfs.redial_count + 1 }) h in
        EndsSane (elim client [
          | some sa ↦ some (set_obfs fired h)
          | none ↦ redial now host sends memory calls addr again
        ])
  redial_cb-EndsSane calls addr (some sa) h e s c =
      fired-IsSane h.server.mode h.obfs h.obfs.redial_count c s
  redial_cb-EndsSane calls addr none h e s c =
      let o = record h.obfs { redial_active = false; redial_count = h.obfs.redial_count + 1 } in
      redial-EndsSane calls addr (set_obfs o h)
        (fired-IsSane h.server.mode h.obfs (h.obfs.redial_count + 1) c s) e c refl

  -- When the redial timer of a client fires, whatever the resolver, the system and `send` answer, a
  -- well-formed obfuscator stays so and nothing faults: in particular the client's context is one that
  -- the table holds. The name of the host has at most 64 bytes.
  pub obfs_redial_cb-IsSane :
      (calls : DialCalls) (addr : Option SockAddr) (h : Host K)
      → HostIsSane h
      → h.server.mode.client ≡ true
      → EndsSane (obfs_redial_cb now host sends memory calls addr h)
  unfolding obfs_redial_cb
  obfs_redial_cb-IsSane calls addr h s c = redial_cb-EndsSane calls addr h.obfs.client h refl s c

pub obfs_resolve-IsSane : {K : Type 0} (h : Host K) → HostIsSane h → HostIsSane (obfs_resolve h)
unfolding obfs_resolve
obfs_resolve-IsSane h s =
    let again : HostIsSane (set_obfs (obfs_sched_redial h.server.mode h.obfs) h) =
      sched_redial-IsSane h.server.mode h.obfs s in
    if_both HostIsSane h.server.mode.server h _ s (
      if_both HostIsSane h.server.mode.client (set_obfs (obfs_sched_redial h.server.mode h.obfs) h)
        h again s)
