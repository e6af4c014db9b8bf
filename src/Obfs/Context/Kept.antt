-- ===== src/Obfs/Context/Kept.antt =====
-- The round of the time-out, on the pointer to the client's context and the redial (src/obfs.c,
-- obfs_ctx_timeout_filt and obfs_timeout_cb).
use kcptun_libev.Base.{
  ◌≡◌, ◌⊎◌, Bool, true, false, not, ◌&&◌, ◌||◌, List, ◌∷◌, Option, none, some, if◌then◌else◌, arith,
  inl, inr, Bool-cases, Ends, if_both, subst, sym, ◌∙◌,
}
use kcptun_libev.Address.{SockAddr, sa_equals}
use kcptun_libev.Address.Laws.{sa_equals_sym}
use kcptun_libev.Conf.{Mode}
use kcptun_libev.Session.{Session}
use kcptun_libev.Obfs.{Obfs, ObfsCtx, find_ctx}
use kcptun_libev.Obfs.Context.{
  forget, ObfsWorld, obfs_sched_redial, unauth, obfs_ctx_del, is_client,
}
use kcptun_libev.Obfs.Http.Keep.{client-may, MayBe-none}
use kcptun_libev.Obfs.Context.Sane.{AllSound, Known, MayBe}

-- What holds of a result, if there is one.
abbrev pub Maybe : {A : Type 0} → (A → Type 0) → Option A → Type 0
Maybe P none = Unit
Maybe P (some a) = P a

pub Ends-Maybe :
    {A : Type 0} (P Q R : A → Type 0)
    → ((a : A) → P a → Q a → R a)
    → (o : Option A) → Ends P o
    → Maybe Q o
    → Ends R o
Ends-Maybe P Q R f none p q = p
Ends-Maybe P Q R f (some a) p q = f a p q

abbrev pub Idle : Mode → Obfs → Type 0
Idle m o = MayBe (m.client && not o.redial_active) o.client

-- What deleting a context that is not in the table does to the client that there was.
pub record Deletes (m : Mode) (k : SockAddr) (client : Option SockAddr) (o' : Obfs) : Type 0 where
  pub gone : is_client client k ≡ true → o'.client ≡ none
  pub other : is_client client k ≡ false → o'.client ≡ client
  pub idle : Idle m o'

unauth-same :
    (c : ObfsCtx) (o : Obfs)
    → Maybe (λ o'. (o'.client ≡ o.client) × (o'.redial_active ≡ o.redial_active)) (unauth c o)
unfolding unauth
unauth-same c o = ground arith

redial-Idle :
    (m : Mode) (b : Bool) (o : Obfs) → Idle m o → Idle m (if b then obfs_sched_redial m o else o)
unfolding obfs_sched_redial
redial-Idle m b o i =
    if_both (Idle m) b _ o
      (if_both (Idle m) (not m.client || o.redial_active) o _ i (MayBe-none (m.client && false))) i

redial-Deletes :
    (m : Mode) (k : SockAddr) (o : Obfs)
    → Idle m o
    → Deletes m k o.client (if is_client o.client k then obfs_sched_redial m o else o)
unfolding obfs_sched_redial
redial-Deletes m k o i = elim (Bool-cases (is_client o.client k)) [
  | inl e ↦
      let b = client-may (m.client && not o.redial_active) o.client k e i in
      let c : not m.client || o.redial_active ≡ false = ground (arith, b) in
      record {
        gone = ground (arith, e, c);
        other = ground (arith, e);
        idle = redial-Idle m (is_client o.client k) o i;
      }
  | inr e ↦ record {
    gone = ground (arith, e);
    other = ground (arith, e);
    idle = redial-Idle m (is_client o.client k) o i;
  }
]

module _ {K : Type 0} (m : Mode) where
  forget-obfs :
      (c : ObfsCtx) (sessions : List (Session K)) (o : Obfs)
      → c.in_table ≡ false
      → (forget m c sessions o).obfs
        ≡ (if is_client o.client c.raddr then obfs_sched_redial m o else o)
  forget-obfs c sessions o t = ground (arith, t)

  unauth-Deletes :
      (c : ObfsCtx) (sessions : List (Session K)) (o : Obfs) (u : Option Obfs)
      → c.in_table ≡ false
      → Idle m o
      → Maybe (λ o'. (o'.client ≡ o.client) × (o'.redial_active ≡ o.redial_active)) u
      → Maybe
          (λ (w' : ObfsWorld K). Deletes m c.raddr o.client w'.obfs)
          (elim u [ none ↦ none | some o' ↦ some (forget m c sessions o') ])
  unauth-Deletes c sessions o none t i h = tt
  unauth-Deletes c sessions o (some o') t i (e, f) =
      subst (Deletes m c.raddr o.client) (sym (forget-obfs c sessions o' t)) (
        subst
          (λ k.
            Deletes m c.raddr k
              (if is_client o'.client c.raddr then obfs_sched_redial m o' else o'))
          e (redial-Deletes m c.raddr o' (rw (e, f) i)))

  pub ctx_del-Deletes :
      (c : ObfsCtx) (w : ObfsWorld K)
      → c.in_table ≡ false
      → Idle m w.obfs
      → Maybe (λ w'. Deletes m c.raddr w.obfs.client w'.obfs) (obfs_ctx_del m c w)
  unfolding obfs_ctx_del
  ctx_del-Deletes c w t i =
      unauth-Deletes c w.sessions w.obfs (unauth c w.obfs) t i (unauth-same c w.obfs)

-- What a round over `cs` leaves of what there was: the client has the context that it had, or none,
-- and if it is in the table, it stays there.
pub record Leaves (m : Mode) (cs : List ObfsCtx) (client : Option SockAddr) (cs' : List ObfsCtx)
    (o' : Obfs) : Type 0 where
  pub still : (o'.client ≡ none) ⊎ (o'.client ≡ client)
  pub lives : Known client cs → Known o'.client cs'
  pub idle : Idle m o'
  pub sound : AllSound cs → AllSound cs'

Known-cons : (k : Option SockAddr) (c : ObfsCtx) (cs : List ObfsCtx) → Known k cs → Known k (c ∷ cs)
unfolding find_ctx
Known-cons none c cs h = tt
Known-cons (some sa) c cs h = ground (arith, h)

-- The context that is looked for is the first one, or behind it.
Known-uncons :
    (k : Option SockAddr) (c : ObfsCtx) (cs : List ObfsCtx)
    → Known k (c ∷ cs)
    → (is_client k c.raddr ≡ true) ⊎ Known k cs
unfolding find_ctx
Known-uncons none c cs h = inr tt
Known-uncons (some sa) c cs h = elim (Bool-cases (sa_equals c.raddr sa)) [
  | inl e ↦ inl (sa_equals_sym c.raddr sa e)
  | inr e ↦ inr (ground (arith, h, e))
]

Known-head :
    (k : Option SockAddr) (c : ObfsCtx) (cs : List ObfsCtx)
    → is_client k c.raddr ≡ true
    → Known k (c ∷ cs)
unfolding find_ctx
Known-head none c cs e = tt
Known-head (some sa) c cs e = let f = sa_equals_sym sa c.raddr e in ground (arith, f)

pub kept-Leaves :
    (m : Mode) (c : ObfsCtx) (cs : List ObfsCtx) (client : Option SockAddr) (cs' : List ObfsCtx)
    (o' : Obfs)
    → Leaves m cs client cs' o'
    → Leaves m (c ∷ cs) client (c ∷ cs') o'
kept-Leaves m c cs client cs' o' l = record {
  still = l.still;
  lives = λ h. elim (Known-uncons client c cs h) [
    | inl e ↦ elim l.still [ inl f ↦ rw f tt | inr f ↦ rw f (Known-head client c cs' e) ]
    | inr h' ↦ Known-cons o'.client c cs' (l.lives h')
  ];
  idle = l.idle;
  sound = λ s. (s.0, l.sound s.1);
}

pub dropped-Leaves :
    (m : Mode) (c : ObfsCtx) (cs : List ObfsCtx) (client : Option SockAddr) (o1 : Obfs)
    (cs' : List ObfsCtx) (o' : Obfs)
    → Deletes m c.raddr client o1
    → Leaves m cs o1.client cs' o'
    → Leaves m (c ∷ cs) client cs' o'
dropped-Leaves m c cs client o1 cs' o' d l = elim (Bool-cases (is_client client c.raddr)) [
  | inl e ↦
      let g = d.gone e in
      record {
        still = elim l.still [ inl f ↦ inl f | inr f ↦ inl (f ∙ g) ];
        lives = λ h. l.lives (rw g tt);
        idle = l.idle;
        sound = λ s. l.sound s.1;
      }
  | inr e ↦
      let g = d.other e in
      record {
        still = elim l.still [ inl f ↦ inl f | inr f ↦ inr (f ∙ g) ];
        lives = λ h. elim (Known-uncons client c cs h) [ inl e' ↦ cc | inr h' ↦ l.lives (rw g h') ];
        idle = l.idle;
        sound = λ s. l.sound s.1;
      }
]
