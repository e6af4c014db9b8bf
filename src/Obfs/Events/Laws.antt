-- ===== src/Obfs/Events/Laws.antt =====
-- Every event leaves the obfuscator well-formed (src/obfs.c).
use kcptun_libev.Base.{
  ◌≡◌, ℕ, Bool, true, false, not, ◌&&◌, Option, none, some, arith, refl, inl, inr, List, [], ◌∷◌,
  Bool-cases, Option-cases, Ends, Ends-weaken, subst,
}
use kcptun_libev.Address.{SockAddr}
use kcptun_libev.Address.Laws.{sa_equals_sound}
use kcptun_libev.Conf.{Mode}
use kcptun_libev.Library.{Serialize}
use kcptun_libev.Library.Http.{Http}
use kcptun_libev.Obfs.{Obfs, ObfsCtx, find_ctx, update_ctx}
use kcptun_libev.Obfs.Packet.Seal.{obfs_ctx_auth}
use kcptun_libev.Obfs.Context.{
  ObfsWorld, obfs_timeout_cb, obfs_ctx_new, obfs_ctx_del, unauth, started, obfs_ctx_start,
  start_end, obfs_accept_one,
}
use kcptun_libev.Obfs.Context.Laws.{num_auth-update_ctx}
use kcptun_libev.Obfs.Context.Sane.{
  Known, Known-update_ctx, AllSound-update_ctx, MayBe, IsSane, find_ctx-IsSound,
}
use kcptun_libev.Obfs.Context.TimeOut.{obfs_timeout_cb-IsSane}
use kcptun_libev.Obfs.Http.Write.{Host, Wrote, world_of}
use kcptun_libev.Obfs.Http.Keep.{HostIsSane, Holds}
use kcptun_libev.Obfs.Http.Sent.{EndsSane, WritesSane, obfs_ctx_write-WritesSane}
use kcptun_libev.Obfs.Http.Laws.{HasPage, obfs_server_read_cb-IsSane, obfs_client_read_cb-IsSane}
use kcptun_libev.Obfs.Dial.Laws.{
  StartsIn, start-StartsIn, no_client-IsSane, obfs_redial_cb-IsSane, obfs_resolve-IsSane,
}
use kcptun_libev.Obfs.Events.{
  Event, accepted, server_read, client_read, written, redialled, resolved, timed_out, authenticated,
  Run, none_yet, then_also, wrote_host, world_host,
}

-- What a run that does not fault ends in.
of_some : {A : Type 0} (P : A → Type 0) (o : Option A) (a : A) → o ≡ some a → Ends P o → P a
of_some P o a e h = subst (Ends P) e h

server-client : (m : Mode) (o : Obfs) → m.client ≡ false → IsSane m o → o.client ≡ none
server-client m o e s = subst (λ b. MayBe (b && not o.redial_active) o.client) e s.idle

table-Holds :
    (m : Mode) (o : Obfs) (ctx : ObfsCtx)
    → IsSane m o
    → find_ctx ctx.raddr o.contexts ≡ some ctx
    → Holds o ctx
table-Holds m o ctx s e = record {
  old = ctx;
  found = e;
  same_auth = refl;
  sound = find_ctx-IsSound ctx.raddr ctx o.contexts e s.sound;
}

module _ {K : Type 0} where
  -- A new context that was refused is not in the table, and not the client's.
  refused-IsSane :
      (m : Mode) (c : ObfsCtx) (w : ObfsWorld K)
      → c.authenticated ≡ false
      → c.in_table ≡ false
      → w.obfs.client ≡ none
      → IsSane m w.obfs
      → Ends (λ w'. IsSane m w'.obfs) (obfs_ctx_del m c w)
  unfolding obfs_ctx_del unauth
  refused-IsSane m c w a t k s =
      rw (obfs_ctx_del, unauth, a, t, k)
        (no_client-IsSane m (record w.obfs { client = none }) s.counted s.sound refl)

  start_end-IsSane :
      (m : Mode) (c ctx : ObfsCtx) (o : Obfs) (r : Option (Bool × ObfsWorld K))
      → ctx.authenticated ≡ false
      → ctx.in_table ≡ false
      → StartsIn c o r
      → Ends (λ w'. IsSane m w'.obfs) (start_end m ctx r)
  unfolding start_end
  start_end-IsSane m c ctx o none a t s = s
  start_end-IsSane m c ctx o (some (true, w')) a t s =
      no_client-IsSane m w'.obfs s.counted s.sound s.no_client
  start_end-IsSane m c ctx o (some (false, w')) a t s =
      refused-IsSane m ctx w' a t s.no_client
        (no_client-IsSane m w'.obfs s.counted s.sound s.no_client)

  -- A connection that a server accepts, whatever comes of it.
  obfs_accept_one-IsSane :
      (m : Mode) (memory : Bool) (laddr : Option SockAddr) (raddr : SockAddr) (fd now : ℕ)
      (w : ObfsWorld K)
      → m.client ≡ false
      → IsSane m w.obfs
      → Ends (λ w'. IsSane m w'.obfs) (obfs_accept_one m memory false laddr raddr fd now w)
  unfolding obfs_accept_one obfs_ctx_new
  obfs_accept_one-IsSane m memory none raddr fd now w c s = s
  obfs_accept_one-IsSane m true (some laddr) raddr fd now w c s =
      let ctx = obfs_ctx_new false laddr raddr in
      start_end-IsSane m (started now fd ctx) ctx w.obfs (obfs_ctx_start m now ctx fd w) refl refl
        (start-StartsIn m false laddr raddr now fd w s.counted s.sound (server-client m w.obfs c s))
  obfs_accept_one-IsSane m false (some laddr) raddr fd now w c s = s

find_ctx-raddr :
    (sa : SockAddr) (c : ObfsCtx) (cs : List ObfsCtx) → find_ctx sa cs ≡ some c → c.raddr ≡ sa
unfolding find_ctx
find_ctx-raddr sa c [] e = cc
find_ctx-raddr sa c (d ∷ cs) e = ground (arith, sa_equals_sound d.raddr sa, find_ctx-raddr sa c cs)

-- A peer that proves to hold the password, whether it has a context or not.
obfs_ctx_auth-IsSane :
    (m : Mode) (sa : SockAddr) (o : Obfs) → IsSane m o → IsSane m (obfs_ctx_auth true sa o)
unfolding obfs_ctx_auth
obfs_ctx_auth-IsSane m sa o s = elim (Option-cases (find_ctx sa o.contexts)) [
  | inl e ↦ rw (obfs_ctx_auth, e) s
  | inr (c, e) ↦ elim (Bool-cases c.authenticated) [
    | inl f ↦ rw (obfs_ctx_auth, e, f) s
    | inr f ↦
        let c' : ObfsCtx = record c { authenticated = true } in
        let cs = o.contexts in
        let r = find_ctx-raddr sa c cs e in
        let u = num_auth-update_ctx sa c' c cs e in
        rw (obfs_ctx_auth, e, f)
          (record {
            counted = ground (arith, u, s.counted, f);
            sound = AllSound-update_ctx sa c' cs (find_ctx-IsSound sa c cs e s.sound) s.sound;
            client_lives =
                subst (λ k. Known o.client (update_ctx k c' cs)) r
                  (Known-update_ctx o.client c' cs s.client_lives);
            idle = s.idle;
          })
  ]
]

module _ {K : Type 0} (ser : Serialize) (http : Http) (bad : HasPage http 400)
    (missing : HasPage http 404) where
  wrote_host-EndsSane : (o : Option (Wrote K)) → WritesSane o → EndsSane (wrote_host o)
  wrote_host-EndsSane none h = h
  wrote_host-EndsSane (some out) h = h

  world_host-EndsSane :
      (h : Host K) (o : Option (ObfsWorld K))
      → Ends (λ w. IsSane h.server.mode w.obfs) o
      → EndsSane (world_host h o)
  world_host-EndsSane h none s = s
  world_host-EndsSane h (some w) s = s

  Event-IsSane : {h : Host K} {o : Option (Host K)} → Event ser http h o → HostIsSane h → EndsSane o
  Event-IsSane (accepted percent now fd memory laddr raddr h c l) s =
      world_host-EndsSane h _
        (obfs_accept_one-IsSane h.server.mode memory laddr raddr fd now (world_of h) c s)
  Event-IsSane (server_read time date sends memory r ctx h d f) s = wrote_host-EndsSane _ (
      obfs_server_read_cb-IsSane ser http time date sends memory r ctx h s
        (table-Holds h.server.mode h.obfs ctx s f) bad missing d)
  Event-IsSane (client_read time r ctx h f) s =
      obfs_client_read_cb-IsSane ser http time r ctx h s (table-Holds h.server.mode h.obfs ctx s f)
  Event-IsSane (written sends memory ctx h l f) s =
      wrote_host-EndsSane _ (
        obfs_ctx_write-WritesSane memory ctx h sends s (table-Holds h.server.mode h.obfs ctx s f) l)
  Event-IsSane (redialled now host sends memory calls addr h l c) s =
      obfs_redial_cb-IsSane now host sends memory l calls addr h s c
  Event-IsSane (resolved h) s = obfs_resolve-IsSane h s
  Event-IsSane (timed_out timeout dial_timeout now h a) s = world_host-EndsSane h _ (
      Ends-weaken (λ w p. p.0) (obfs_timeout_cb h.server.mode timeout dial_timeout now (world_of h))
        (obfs_timeout_cb-IsSane h.server.mode timeout dial_timeout now (world_of h) s a))
  Event-IsSane (authenticated sa h) s = obfs_ctx_auth-IsSane h.server.mode sa h.obfs s

  -- A run of events that starts well-formed ends without a fault, and in an obfuscator that is
  -- well-formed: the counter of authenticated contexts is right, every request is in its buffer, and the
  -- client's pointer is to a context of the table, and is none while a redial is under way and on a
  -- server. The bit `in_table` of an accepted context, which the code leaves unset, is taken to be 0;
  -- a context that is written to has at most half a buffer to write, and no context was seen in the
  -- future; the pages for the errors 400 and 404 are there and fit half of a buffer.
  pub Run-IsSane : {h : Host K} {o : Option (Host K)} → Run ser http h o → HostIsSane h → EndsSane o
  Run-IsSane (none_yet h) s = s
  Run-IsSane (then_also h h' o o' run e event) s =
      Event-IsSane event (of_some (λ h. HostIsSane h) o h' e (Run-IsSane run s))
