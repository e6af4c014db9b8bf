-- ===== src/Obfs/Http/Keep.antt =====
-- Changing a context of the table, and taking it out, with the rest of the obfuscator
-- (src/obfs.c, obfs_ctx_del and obfs_sched_redial, from the callbacks of a context's socket).
use kcptun_libev.Base.{
  ◌≡◌, ◌-◌, ◌==◌, Bool, true, false, not, ◌&&◌, ◌||◌, List, Option, none, some, if◌then◌else◌,
  arith, refl, inl, inr, Bool-cases, Ends,
}
use kcptun_libev.Address.{SockAddr}
use kcptun_libev.Conf.{Mode}
use kcptun_libev.Obfs.{Obfs, ObfsCtx, find_ctx}
use kcptun_libev.Obfs.Context.{obfs_sched_redial, unauth, obfs_ctx_del, is_client, del_ctx}
use kcptun_libev.Obfs.Context.Laws.{num_auth, num_auth-update_ctx}
use kcptun_libev.Obfs.Context.Sane.{
  IsSound, AllSound, Known, MayBe, IsSane, AllSound-update_ctx, AllSound-del_ctx, num_auth-del_ctx,
  find_ctx-update_ctx, Known-update_ctx, Known-del_ctx,
}
use kcptun_libev.Obfs.Http.Write.{Host, keep_ctx, drop_ctx}

-- The host's obfuscator is well-formed, for the mode of its server.
abbrev pub HostIsSane : {K : Type 0} → Host K → Type 0
HostIsSane h = IsSane h.server.mode h.obfs

-- What a callback holds of its context: the table has it, or had a former state of it.
pub record Holds (o : Obfs) (ctx : ObfsCtx) : Type 0 where
  pub old : ObfsCtx
  pub found : find_ctx ctx.raddr o.contexts ≡ some old
  pub same_auth : ctx.authenticated ≡ old.authenticated
  pub sound : IsSound ctx

if-IsSane :
    (b : Bool) (m : Mode) (o o' : Obfs) → IsSane m o → IsSane m o' → IsSane m (if b then o else o')
if-IsSane true m o o' s t = s
if-IsSane false m o o' s t = t

pub MayBe-none : (b : Bool) → MayBe b none
MayBe-none true = tt
MayBe-none false = refl

-- The redial is scheduled.
pub sched_redial-IsSane : (m : Mode) (o : Obfs) → IsSane m o → IsSane m (obfs_sched_redial m o)
unfolding obfs_sched_redial
sched_redial-IsSane m o s = if-IsSane (not m.client || o.redial_active) m o _ s (record {
  counted = s.counted;
  sound = s.sound;
  client_lives = tt;
  idle = MayBe-none (m.client && false);
})

-- An entry is taken out of the table.
abbrev pub without : SockAddr → Obfs → Obfs
without k o = record o { contexts = del_ctx k o.contexts }

others-Known :
    (c : Option SockAddr) (k : SockAddr) (cs : List ObfsCtx)
    → is_client c k ≡ false
    → Known c cs
    → Known c (del_ctx k cs)
others-Known none k cs e h = tt
others-Known (some sa) k cs e h = Known-del_ctx sa k cs e h

-- Where a context is the client's, its redial is not under way.
pub client-may :
    (b : Bool) (c : Option SockAddr) (k : SockAddr) → is_client c k ≡ true → MayBe b c → b ≡ true
client-may true c k e h = refl
client-may false none k e h = cc
client-may false (some sa) k e h = cc

module _ (m : Mode) (o : Obfs) (k : SockAddr)
    (n : o.num_authenticated ≡ num_auth (del_ctx k o.contexts)) (sound : AllSound o.contexts)
    (lives : Known o.client o.contexts)
    (idle : MayBe (m.client && not o.redial_active) o.client) where
  redialled-IsSane : is_client o.client k ≡ true → IsSane m (without k (obfs_sched_redial m o))
  unfolding obfs_sched_redial
  redialled-IsSane e =
      let b = client-may (m.client && not o.redial_active) o.client k e idle in
      let c : not m.client || o.redial_active ≡ false = ground (arith, b) in
      rw c (record {
        counted = n;
        sound = AllSound-del_ctx k o.contexts sound;
        client_lives = tt;
        idle = MayBe-none (m.client && false);
      })

  pub gone-IsSane : IsSane m (without k (if is_client o.client k then obfs_sched_redial m o else o))
  gone-IsSane = elim (Bool-cases (is_client o.client k)) [
    | inl e ↦ rw e (redialled-IsSane e)
    | inr e ↦ rw e (record {
      counted = n;
      sound = AllSound-del_ctx k o.contexts sound;
      client_lives = others-Known o.client k o.contexts e lives;
      idle = idle;
    })
  ]

module _ {K : Type 0} where
  pub keep_ctx-HostIsSane :
      (ctx : ObfsCtx) (h : Host K) → HostIsSane h → Holds h.obfs ctx → HostIsSane (keep_ctx ctx h)
  unfolding keep_ctx
  keep_ctx-HostIsSane ctx h s p = record {
    counted = ground (
      arith,
      s.counted,
      p.same_auth,
      num_auth-update_ctx ctx.raddr ctx p.old h.obfs.contexts p.found,
    );
    sound = AllSound-update_ctx ctx.raddr ctx h.obfs.contexts p.sound s.sound;
    client_lives = Known-update_ctx h.obfs.client ctx h.obfs.contexts s.client_lives;
    idle = s.idle;
  }

  pub keep_ctx-Holds :
      (ctx : ObfsCtx) (h : Host K) → Holds h.obfs ctx → Holds (keep_ctx ctx h).obfs ctx
  unfolding keep_ctx
  keep_ctx-Holds ctx h p = record {
    old = ctx;
    found = find_ctx-update_ctx ctx h.obfs.contexts (rw p.found);
    same_auth = refl;
    sound = p.sound;
  }

  -- Where it was the client's, the redial is scheduled.
  pub drop_ctx-HostIsSane :
      (ctx : ObfsCtx) (h : Host K)
      → HostIsSane h
      → Holds h.obfs ctx
      → Ends (λ h'. HostIsSane h') (drop_ctx ctx h)
  unfolding drop_ctx obfs_ctx_del unauth
  drop_ctx-HostIsSane ctx h s p =
      let n = num_auth-del_ctx ctx.raddr p.old h.obfs.contexts p.found in
      let t = p.sound.0 in
      elim (Bool-cases ctx.authenticated) [
        | inl e ↦
            let z : (h.obfs.num_authenticated == 0) ≡ false =
              ground (arith, s.counted, p.same_auth) in
            rw (drop_ctx, obfs_ctx_del, unauth, e, z, t)
              (gone-IsSane h.server.mode
                (record h.obfs { num_authenticated = h.obfs.num_authenticated - 1 }) ctx.raddr
                (ground (arith, s.counted, p.same_auth)) s.sound s.client_lives s.idle)
        | inr e ↦
            rw (drop_ctx, obfs_ctx_del, unauth, e, t)
              (gone-IsSane h.server.mode h.obfs ctx.raddr (ground (arith, s.counted, p.same_auth))
                s.sound s.client_lives s.idle)
      ]
