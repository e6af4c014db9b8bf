-- ===== src/Server/Table.antt =====
-- The table of sessions: finding, changing and adding one, and the invariant of all of them.
use kcptun_libev.Base.{
  ap, sym, ◌++◌, ℕ, ◌≡◌, true, false, List, [], ◌∷◌, some, arith, subst, ◌∙◌, inl, inr, Bool-cases,
  refl,
}
use kcptun_libev.Address.{SockAddr}
use kcptun_libev.Session.{Session}
use kcptun_libev.Session.Valid.{IsValid}
use kcptun_libev.Server.{table_find, table_update, has_key}
use kcptun_libev.Address.Laws.{sa_equals_sound}

module _ {K : Type 0} where
  -- Every session of the table satisfies the invariant.
  unfoldable pub AllValid : List (Session K) → Type 0
  AllValid [] = Unit
  AllValid (ss ∷ rest) = IsValid ss × AllValid rest

  pub has_key-cases :
      (conv conv' : ℕ) (sa sa' : SockAddr) (ss : Session K)
      → ¬ ((conv' ≡ conv) × (sa' ≡ sa))
      → has_key conv sa ss ≡ true
      → has_key conv' sa' ss ≡ false
  has_key-cases conv conv' sa sa' ss d h =
      ground (arith, sa_equals_sound ss.raddr sa, sa_equals_sound ss.raddr sa')

  pub table_find-update_other :
      (conv conv' : ℕ) (sa sa' : SockAddr) (ss' : Session K) (ss : List (Session K))
      → ¬ ((conv' ≡ conv) × (sa' ≡ sa))
      → has_key conv sa ss' ≡ true
      → table_find conv' sa' (table_update conv sa ss' ss) ≡ table_find conv' sa' ss
  unfolding table_find table_update
  table_find-update_other conv conv' sa sa' ss' [] d h = refl
  table_find-update_other conv conv' sa sa' ss' (x ∷ xs) d h = ground (
    arith,
    has_key-cases conv conv' sa sa' x d,
    has_key-cases conv conv' sa sa' ss' d h,
    table_find-update_other conv conv' sa sa' ss' xs d h,
  )

  pub table_find-key :
      (conv : ℕ) (sa : SockAddr) (ss : List (Session K)) (s : Session K)
      → table_find conv sa ss ≡ some s
      → has_key conv sa s ≡ true
  unfolding table_find
  table_find-key conv sa [] s h = ground arith
  table_find-key conv sa (x ∷ xs) s h = ground (arith, table_find-key conv sa xs s)

  pub table_find-update_same :
      (conv : ℕ) (sa : SockAddr) (ss' : Session K) (ss : List (Session K)) (old : Session K)
      → table_find conv sa ss ≡ some old
      → has_key conv sa ss' ≡ true
      → table_find conv sa (table_update conv sa ss' ss) ≡ some ss'
  unfolding table_find table_update
  table_find-update_same conv sa ss' [] old e h = ground arith
  table_find-update_same conv sa ss' (x ∷ xs) old e h =
      ground (arith, table_find-update_same conv sa ss' xs old)

  pub table_find-IsValid :
      (conv : ℕ) (sa : SockAddr) (ss : List (Session K)) (s : Session K)
      → AllValid ss
      → table_find conv sa ss ≡ some s
      → IsValid s
  unfolding table_find AllValid
  table_find-IsValid conv sa [] s v e = ground arith
  table_find-IsValid conv sa (x ∷ xs) s (v, vs) e = elim (Bool-cases (has_key conv sa x)) [
    | inl h ↦ (let same : x ≡ s = ground arith in subst (λ y. IsValid y) same v)
    | inr h ↦ table_find-IsValid conv sa xs s vs (ground arith)
  ]

  pub table_update-AllValid :
      (conv : ℕ) (sa : SockAddr) (s' : Session K) (ss : List (Session K))
      → IsValid s'
      → AllValid ss
      → AllValid (table_update conv sa s' ss)
  unfolding table_update AllValid
  table_update-AllValid conv sa s' [] v vs = vs
  table_update-AllValid conv sa s' (x ∷ xs) v (w, ws) = elim (Bool-cases (has_key conv sa x)) [
    | inl h ↦ rw h (v, ws)
    | inr h ↦ rw h (w, table_update-AllValid conv sa s' xs v ws)
  ]

  pub AllValid-append :
      (ss : List (Session K)) (s : Session K) → AllValid ss → IsValid s → AllValid (ss ++ s ∷ [])
  unfolding AllValid
  AllValid-append [] s h v = (v, tt)
  AllValid-append (x ∷ xs) s (w, h) v = (w, AllValid-append xs s h v)

  -- At most the session with this key has changed, and it is valid.
  pub data OneChanged (conv : ℕ) (sa : SockAddr) (old new : List (Session K)) : Type 0 where
    same : new ≡ old → OneChanged conv sa old new
    changed :
        (ss : Session K)
        → IsValid ss
        → has_key conv sa ss ≡ true
        → new ≡ table_update conv sa ss old
        → OneChanged conv sa old new

  pub OneChanged-AllValid :
      (conv : ℕ) (sa : SockAddr) (old new : List (Session K))
      → OneChanged conv sa old new
      → AllValid old
      → AllValid new
  OneChanged-AllValid conv sa old new (same e) v = subst AllValid (sym e) v
  OneChanged-AllValid conv sa old new (changed ss w k e) v =
      subst AllValid (sym e) (table_update-AllValid conv sa ss old w v)

  pub OneChanged-other :
      (conv conv' : ℕ) (sa sa' : SockAddr) (old new : List (Session K))
      → OneChanged conv sa old new
      → ¬ ((conv' ≡ conv) × (sa' ≡ sa))
      → table_find conv' sa' new ≡ table_find conv' sa' old
  OneChanged-other conv conv' sa sa' old new (same e) d = ap (table_find conv' sa') e
  OneChanged-other conv conv' sa sa' old new (changed ss w k e) d =
      ap (table_find conv' sa') e ∙ table_find-update_other conv conv' sa sa' ss old d k

  pub table_find-append_other :
      (conv conv' : ℕ) (sa sa' : SockAddr) (old : List (Session K)) (ss : Session K)
      → ¬ ((conv' ≡ conv) × (sa' ≡ sa))
      → has_key conv sa ss ≡ true
      → table_find conv' sa' (old ++ ss ∷ []) ≡ table_find conv' sa' old
  unfolding table_find
  table_find-append_other conv conv' sa sa' [] ss d k =
      ground (arith, has_key-cases conv conv' sa sa' ss d k)
  table_find-append_other conv conv' sa sa' (x ∷ xs) ss d k =
      ground (arith, table_find-append_other conv conv' sa sa' xs ss d k)
