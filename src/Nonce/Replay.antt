-- ===== src/Nonce/Replay.antt =====
-- A nonce is refused when it comes again, for as long as `entries` nonces at the least.
use kcptun_libev.Base.{
  ℕ, suc, ◌+◌, ◌-◌, ◌%◌, ◌<◌, ◌≡◌, ◌⊎◌, true, false, List, [], ◌∷◌, length, arith, ap, not,
}
use kcptun_libev.Nonce.{Nonce, Bloom, PpBloom, Noncegen, pick, ppbloom_check_add, noncegen_verify}

module _ (bl : Bloom) where
  open bl use {Filter, add, check, check-add_self, check-add_keeps, add_reports}

  -- The filters that verifying a row of nonces leaves.
  unfoldable pub verify_all : Noncegen Filter → List Nonce → Noncegen Filter
  verify_all g [] = g
  verify_all g (x ∷ xs) = verify_all (noncegen_verify bl g x).1 xs

  pub record IsValid (b : PpBloom Filter) : Type 0 where
    pub index : b.current < 2
    pub room : 0 < b.entries

  -- `x` is in the current filter, or in the other one, which survives `k` more nonces.
  abbrev pub Held : PpBloom Filter → Nonce → ℕ → Type 0
  Held b x k =
      (check (pick b.current b.bloom0 b.bloom1) x ≡ true)
      ⊎ ((check (pick (1 - b.current) b.bloom0 b.bloom1) x ≡ true)
          × (pick b.current b.count0 b.count1 + k < b.entries))

  check_add-IsValid :
      (b : PpBloom Filter) (x : Nonce)
      → IsValid b
      → let b' = (ppbloom_check_add bl b x).1 in IsValid b' × (b'.entries ≡ b.entries)
  unfolding ppbloom_check_add
  check_add-IsValid b x v = ground arith

  check_add-Held :
      (b : PpBloom Filter) (x : Nonce) (k : ℕ)
      → IsValid b
      → k < b.entries
      → Held (ppbloom_check_add bl b x).1 x k
  unfolding ppbloom_check_add
  check_add-Held b x k v h =
      ground (arith, check-add_self (pick (b.current % 2) b.bloom0 b.bloom1) x)

  check_add-Held_keeps :
      (b : PpBloom Filter) (x y : Nonce) (k : ℕ)
      → IsValid b
      → k < b.entries
      → Held b y (suc k)
      → Held (ppbloom_check_add bl b x).1 y k
  unfolding ppbloom_check_add
  check_add-Held_keeps b x y k v h p =
      ground (arith, check-add_keeps (pick (b.current % 2) b.bloom0 b.bloom1) x y)

  Held-seen :
      (b : PpBloom Filter) (x : Nonce) (k : ℕ)
      → IsValid b
      → Held b x k
      → (ppbloom_check_add bl b x).0 ≡ true
  unfolding ppbloom_check_add
  Held-seen b x k v p = ground (arith, add_reports (pick (b.current % 2) b.bloom0 b.bloom1) x)

  run-Held :
      (g : Noncegen Filter) (x : Nonce) (xs : List Nonce)
      → IsValid g.ppbloom
      → length xs < g.ppbloom.entries
      → Held g.ppbloom x (length xs)
      → IsValid (verify_all g xs).ppbloom × Held (verify_all g xs).ppbloom x 0
  unfolding verify_all noncegen_verify
  run-Held g x [] v h p = (v, p)
  run-Held g x (y ∷ ys) v h p =
      let (v', e) = check_add-IsValid g.ppbloom y v in
      run-Held (noncegen_verify bl g y).1 x ys v' (omega (arith, e))
        (check_add-Held_keeps g.ppbloom y x (length ys) v (omega arith) p)

  -- Replay protection: after a nonce has been verified, fewer than `entries` further
  -- verifications, of any nonces at all, do not make it acceptable again.
  pub replay_refused :
      (g : Noncegen Filter) (x : Nonce) (xs : List Nonce)
      → IsValid g.ppbloom
      → length xs < g.ppbloom.entries
      → (noncegen_verify bl (verify_all (noncegen_verify bl g x).1 xs) x).0 ≡ false
  unfolding noncegen_verify
  replay_refused g x xs v h =
      let g' = (noncegen_verify bl g x).1 in
      let (v', e) = check_add-IsValid g.ppbloom x v in
      let (w, q) =
        run-Held g' x xs v' (omega (arith, e)) (check_add-Held g.ppbloom x (length xs) v h) in
      ap not (Held-seen (verify_all g' xs).ppbloom x 0 w q)
