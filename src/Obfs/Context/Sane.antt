-- ===== src/Obfs/Context/Sane.antt =====
-- A well-formed obfuscator: what its table of contexts, the counter, the pointer to the client's
-- context and the redial timer have to do with one another.
use kcptun_libev.Base.{
  ◌≡◌, ◌+◌, ◌≤◌, Bool, true, false, not, ◌&&◌, List, [], ◌∷◌, ◌++◌, Option, none, some, length,
  arith, inl, inr, Bool-cases, ap,
}
use kcptun_libev.Address.{SockAddr, sa_equals}
use kcptun_libev.Address.Laws.{sa_equals_sound, sa_equals_refl}
use kcptun_libev.Conf.{Mode}
use kcptun_libev.Session.{is_set}
use kcptun_libev.Obfs.{Obfs, ObfsCtx, find_ctx, update_ctx}
use kcptun_libev.Obfs.Context.{del_ctx}
use kcptun_libev.Obfs.Context.Laws.{auth_bit, num_auth, Counted}

-- The request fits its buffer with a terminator, and the parser is not behind its end.
abbrev pub IsSound : ObfsCtx → Type 0
IsSound c = (c.in_table ≡ true) × (length c.rbuf ≤ 4095) × (c.http_nxt ≤ length c.rbuf)

abbrev pub AllSound : List ObfsCtx → Type 0
AllSound [] = Unit
AllSound (c ∷ cs) = IsSound c × AllSound cs

abbrev pub Known : Option SockAddr → List ObfsCtx → Type 0
Known none cs = Unit
Known (some sa) cs = is_set (find_ctx sa cs) ≡ true

-- A client's context may only be set while no redial is under way, and never on a server.
abbrev pub MayBe : Bool → Option SockAddr → Type 0
MayBe true c = Unit
MayBe false c = c ≡ none

pub record IsSane (m : Mode) (o : Obfs) : Type 0 where
  pub counted : Counted o
  pub sound : AllSound o.contexts
  pub client_lives : Known o.client o.contexts
  pub idle : MayBe (m.client && not o.redial_active) o.client

pub find_ctx-IsSound :
    (sa : SockAddr) (c : ObfsCtx) (cs : List ObfsCtx)
    → find_ctx sa cs ≡ some c
    → AllSound cs
    → IsSound c
unfolding find_ctx
find_ctx-IsSound sa c [] e s = cc
find_ctx-IsSound sa c (d ∷ cs) e s = ground (arith, find_ctx-IsSound sa c cs)

pub AllSound-update_ctx :
    (sa : SockAddr) (c : ObfsCtx) (cs : List ObfsCtx)
    → IsSound c
    → AllSound cs
    → AllSound (update_ctx sa c cs)
unfolding update_ctx
AllSound-update_ctx sa c [] p s = tt
AllSound-update_ctx sa c (d ∷ cs) p s = ground (arith, AllSound-update_ctx sa c cs)

pub AllSound-del_ctx : (sa : SockAddr) (cs : List ObfsCtx) → AllSound cs → AllSound (del_ctx sa cs)
unfolding del_ctx
AllSound-del_ctx sa [] s = tt
AllSound-del_ctx sa (d ∷ cs) s = ground (arith, AllSound-del_ctx sa cs)

pub AllSound-append :
    (cs : List ObfsCtx) (c : ObfsCtx) → IsSound c → AllSound cs → AllSound (cs ++ c ∷ [])
AllSound-append [] c p s = (p, tt)
AllSound-append (d ∷ cs) c p s = ground (arith, AllSound-append cs c)

pub num_auth-del_ctx :
    (sa : SockAddr) (c : ObfsCtx) (cs : List ObfsCtx)
    → find_ctx sa cs ≡ some c
    → num_auth (del_ctx sa cs) + auth_bit c ≡ num_auth cs
unfolding find_ctx del_ctx
num_auth-del_ctx sa c [] e = cc
num_auth-del_ctx sa c (d ∷ cs) e = elim (Bool-cases (sa_equals d.raddr sa)) [
  | inl h ↦ ground (arith, h)
  | inr h ↦ ground (arith, h, num_auth-del_ctx sa c cs)
]

pub find_ctx-update_ctx :
    (c : ObfsCtx) (cs : List ObfsCtx)
    → is_set (find_ctx c.raddr cs) ≡ true
    → find_ctx c.raddr (update_ctx c.raddr c cs) ≡ some c
unfolding find_ctx update_ctx
find_ctx-update_ctx c [] e = cc
find_ctx-update_ctx c (d ∷ cs) e = elim (Bool-cases (sa_equals d.raddr c.raddr)) [
  | inl h ↦ rw (h, sa_equals_refl c.raddr)
  | inr h ↦ ground (arith, h, find_ctx-update_ctx c cs)
]

pub find_ctx-append :
    (c : ObfsCtx) (cs : List ObfsCtx)
    → find_ctx c.raddr cs ≡ none
    → find_ctx c.raddr (cs ++ c ∷ []) ≡ some c
unfolding find_ctx
find_ctx-append c [] e = rw (sa_equals_refl c.raddr)
find_ctx-append c (d ∷ cs) e = ground (arith, find_ctx-append c cs)

pub Known-append :
    (k : Option SockAddr) (cs : List ObfsCtx) (c : ObfsCtx) → Known k cs → Known k (cs ++ c ∷ [])
unfolding find_ctx
Known-append none cs c h = tt
Known-append (some sa) [] c h = cc
Known-append (some sa) (d ∷ cs) c h = ground (arith, Known-append (some sa) cs c)

-- A context is replaced by one with its address.
pub Known-update_ctx :
    (k : Option SockAddr) (c : ObfsCtx) (cs : List ObfsCtx)
    → Known k cs
    → Known k (update_ctx c.raddr c cs)
unfolding find_ctx update_ctx
Known-update_ctx none c cs h = tt
Known-update_ctx (some sa) c [] h = cc
Known-update_ctx (some sa) c (d ∷ cs) h = elim (Bool-cases (sa_equals d.raddr c.raddr)) [
  | inl e ↦
      let same = ap (λ a. sa_equals a sa) (sa_equals_sound d.raddr c.raddr e) in
      ground (arith, e, same)
  | inr e ↦ ground (arith, e, Known-update_ctx (some sa) c cs)
]

pub Known-del_ctx :
    (sa k : SockAddr) (cs : List ObfsCtx)
    → sa_equals sa k ≡ false
    → Known (some sa) cs
    → Known (some sa) (del_ctx k cs)
unfolding find_ctx del_ctx
Known-del_ctx sa k [] n h = cc
Known-del_ctx sa k (d ∷ cs) n h = elim (Bool-cases (sa_equals d.raddr k)) [
  | inl e ↦
      let same = ap (λ a. sa_equals sa a) (sa_equals_sound d.raddr k e) in
      elim (Bool-cases (sa_equals d.raddr sa)) [
        | inl f ↦
            let g = ap (λ a. sa_equals a k) (sa_equals_sound d.raddr sa f) in ground (arith, g)
        | inr f ↦ ground (arith, e, f)
      ]
  | inr e ↦ ground (arith, e, Known-del_ctx sa k cs)
]
