-- ===== src/Nonce.antt =====
-- Nonces and replay detection (src/nonce.c): two Bloom filters, the current one being filled and
-- the other kept, that change places when the current one has taken `entries` nonces.
-- The Bloom filter library and the random bytes of libsodium are parameters.
pub mod Replay
use kcptun_libev.Base.{
  ℕ, ◌+◌, ◌-◌, ◌%◌, ◌^◌, ◌≡◌, Bool, true, not, ◌||◌, List, Option, none, some, length, leb, ◌==◌,
  if◌then◌else◌,
}

abbrev pub Nonce : Type 0
Nonce = List ℕ

-- `struct bloom`, as its header documents it: an element that was added is found until a reset,
-- and `add` tells whether the element was already there. An exponent `e` stands for the error
-- rate 2^-e; `init` gives `none` where `bloom_init` fails.
pub record Bloom : Type 1 where
  pub Filter : Type 0
  pub init : ℕ → ℕ → Option Filter
  pub add : Filter → Nonce → Bool × Filter
  pub check : Filter → Nonce → Bool
  pub reset : Filter → Filter
  pub check-add_self : (b : Filter) (x : Nonce) → check (add b x).1 x ≡ true
  pub check-add_keeps : (b : Filter) (x y : Nonce) → check b y ≡ true → check (add b x).1 y ≡ true
  pub add_reports : (b : Filter) (x : Nonce) → check b x ≡ true → (add b x).0 ≡ true

pub data Method : Type 0 where
  counter random : Method

-- `struct ppbloom`; each array of two is two fields.
pub record PpBloom (F : Type 0) : Type 0 where
  pub bloom0 : F
  pub bloom1 : F
  pub count0 : ℕ
  pub count1 : ℕ
  pub entries : ℕ
  pub current : ℕ

-- `struct noncegen`; the buffer's length is `buf.len`.
pub record Noncegen (F : Type 0) : Type 0 where
  pub method : Method
  pub ppbloom : PpBloom F
  pub buf : Nonce

-- `bloom[i]` and `bloom_count[i]`, for an index that is 0 or 1
abbrev pub pick {ℓ} : {A : Type ℓ} → ℕ → A → A → A
pick i a b = if i == 0 then a else b

abbrev pub nonce_max_length : ℕ
nonce_max_length = 32

module _ (bl : Bloom) where
  open bl use {Filter, init, add, check, reset}

  abbrev pub set_bloom : ℕ → Filter → ℕ → PpBloom Filter → PpBloom Filter
  set_bloom i f n b =
      if i == 0 then record b { bloom0 = f; count0 = n } else record b { bloom1 = f; count1 = n }

  -- The tail of `ppbloom_check_add`: bloom `i` holds `n` nonces; a full one is retired.
  unfoldable pub retire : ℕ → ℕ → ℕ → PpBloom Filter → PpBloom Filter
  retire i j n b =
      if leb b.entries n
      then record (set_bloom j (reset (pick j b.bloom0 b.bloom1)) 0 b) { current = j }
      else b

  -- `j` is `i ^ 1`.
  unfoldable pub ppbloom_check_add : PpBloom Filter → Nonce → Bool × PpBloom Filter
  unfolding retire
  ppbloom_check_add b x =
      let i = b.current % 2 in
      let j = 1 - i in
      let (seen, f) = add (pick i b.bloom0 b.bloom1) x in
      let n = pick i b.count0 b.count1 + 1 in
      (seen || check (pick j b.bloom0 b.bloom1) x, retire i j n (set_bloom i f n b))

  -- `noncegen_init`; `fresh` are the bytes that `randombytes_buf` gives.
  abbrev pub noncegen_init : Nonce → Noncegen Filter → Noncegen Filter
  noncegen_init fresh g = elim g.method [ counter ↦ record g { buf = fresh } | random ↦ g ]

  -- `none` where the process stops ("nonce too long") or NULL is returned. A random method leaves
  -- the buffer as it was allocated; it is written before it is read, so it starts as `fresh` too.
  unfoldable pub noncegen_create : Method → Bool → Nonce → Option (Noncegen Filter)
  noncegen_create m strict fresh =
      let entries = if strict then 2 ^ 20 else 2 ^ 14 in
      let error = if strict then 20 else 30 in
      if leb (length fresh) nonce_max_length
      then (elim (init entries error) [
        | none ↦ none
        | some f ↦ elim (init entries error) [
          | none ↦ none
          | some f' ↦ some (record {
            method = m;
            ppbloom = record {
              bloom0 = f;
              bloom1 = f';
              count0 = 0;
              count1 = 0;
              entries = entries;
              current = 0;
            };
            buf = fresh;
          })
        ]
      ])
      else none

  -- `noncegen_next`: `increment` is `sodium_increment`, `fresh` what `randombytes_buf` gives.
  unfoldable pub noncegen_next : (Nonce → Nonce) → Nonce → Noncegen Filter → Nonce × Noncegen Filter
  noncegen_next increment fresh g =
      let next : Nonce = elim g.method [ counter ↦ increment g.buf | random ↦ fresh ] in
      (next, record g { buf = next })

  unfoldable pub noncegen_verify : Noncegen Filter → Nonce → Bool × Noncegen Filter
  noncegen_verify g x =
      let (seen, b) = ppbloom_check_add g.ppbloom x in (not seen, record g { ppbloom = b })
