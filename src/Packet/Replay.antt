-- ===== src/Packet/Replay.antt =====
-- A packet that was opened is not opened again, for as long as the replay filter holds its nonce.
use kcptun_libev.Base.{
  ℕ, ◌-◌, ◌≤◌, ◌<◌, ◌≡◌, ◌⊎◌, inl, inr, false, List, [], ◌∷◌, Option, none, some, length, drop,
  arith, Option-cases, subst, sym,
}
use kcptun_libev.Nonce.{Nonce, Bloom, Noncegen, noncegen_verify}
use kcptun_libev.Nonce.Replay.{IsValid, verify_all, replay_refused}
use kcptun_libev.Packet.{Crypto, crypto_open_inplace}

module _ (c : Crypto) (bl : Bloom) (size : ℕ) where
  open bl use {Filter}

  -- The packets that `queue_dispatch` opens one after the other.
  unfoldable pub open_all : Noncegen Filter → List (List ℕ) → Option (Noncegen Filter)
  open_all g [] = some g
  open_all g (p ∷ ps) = elim (crypto_open_inplace c bl g p size) [
    | none ↦ none
    | some (_, g') ↦ open_all g' ps
  ]

  abbrev nonce_of : List ℕ → Nonce
  nonce_of p = drop (length p - c.nonce_size) p

  opened :
      (g g' : Noncegen Filter) (p : List ℕ) (r : Option (List ℕ))
      → crypto_open_inplace c bl g p size ≡ some (r, g')
      → ((r ≡ none) × (g' ≡ g)) ⊎ (g' ≡ (noncegen_verify bl g (nonce_of p)).1)
  unfolding crypto_open_inplace
  opened g g' p r h = ground arith

  -- The packet is not opened, and no assertion fails.
  abbrev pub Refused : Option (Option (List ℕ) × Noncegen Filter) → Type 0
  Refused none = ⊥
  Refused (some (r, _)) = r ≡ none

  fits :
      (g : Noncegen Filter) (p : List ℕ) (r : Option (List ℕ) × Noncegen Filter)
      → crypto_open_inplace c bl g p size ≡ some r
      → length p ≤ size
  unfolding crypto_open_inplace
  fits g p r h = ground arith

  seen-Refused :
      (g : Noncegen Filter) (p : List ℕ)
      → length p ≤ size
      → (noncegen_verify bl g (nonce_of p)).0 ≡ false
      → Refused (crypto_open_inplace c bl g p size)
  unfolding crypto_open_inplace
  seen-Refused g p l v = ground arith

  open_all-verify_all :
      (g g' : Noncegen Filter) (ps : List (List ℕ))
      → open_all g ps ≡ some g'
      → (xs : List Nonce) × (length xs ≤ length ps) × (verify_all bl g xs ≡ g')
  unfolding open_all verify_all
  open_all-verify_all g g' [] h = ([], omega arith, ground arith)
  open_all-verify_all g g' (p ∷ ps) h = elim (Option-cases (crypto_open_inplace c bl g p size)) [
    | inl e ↦ ground arith
    | inr ((r, g1), e) ↦
        let (xs, l, q) = open_all-verify_all g1 g' ps (ground arith) in
        elim (opened g g1 p r e) [
          | inl (_, same) ↦ (xs, omega arith, subst (λ y. verify_all bl y xs ≡ g') same q)
          | inr same ↦ (nonce_of p ∷ xs, omega arith, subst (λ y. verify_all bl y xs ≡ g') same q)
        ]
  ]

  -- A packet that was opened is refused when it comes again, after fewer than `entries` other
  -- packets of any content that are no larger than a frame, if the filters were valid.
  pub crypto_open_inplace-replay :
      (g g1 g2 : Noncegen Filter) (p plain : List ℕ) (ps : List (List ℕ))
      → IsValid bl g.ppbloom
      → crypto_open_inplace c bl g p size ≡ some (some plain, g1)
      → open_all g1 ps ≡ some g2
      → length ps < g.ppbloom.entries
      → Refused (crypto_open_inplace c bl g2 p size)
  crypto_open_inplace-replay g g1 g2 p plain ps v a b l = elim (opened g g1 p (some plain) a) [
    | inl (e, _) ↦ ground arith
    | inr same ↦
        let (xs, n, q) = open_all-verify_all g1 g2 ps b in
        seen-Refused g2 p (fits g p (some plain, g1) a) (
          subst (λ y. (noncegen_verify bl y (nonce_of p)).0 ≡ false) q
            (subst (λ y. (noncegen_verify bl (verify_all bl y xs) (nonce_of p)).0 ≡ false)
              (sym same) (replay_refused bl g (nonce_of p) xs v (omega arith))))
  ]
