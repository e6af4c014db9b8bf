-- ===== src/Library/Concrete.antt =====
-- Instances of the library parameters: bytes in network order, and a KCP that holds a stream of
-- received bytes and takes all that is sent. They show that the documented facts can hold.
use kcptun_libev.Base.{
  ℕ, ◌+◌, ◌*◌, ◌/◌, ◌%◌, ◌≤◌, ◌<◌, ◌≡◌, true, List, [], ◌∷◌, ◌++◌, some, length, take, drop, arith,
  refl, length-take, take-append-drop,
}
use kcptun_libev.Library.{Serialize, Ikcp}

abbrev read16 : List ℕ → ℕ
read16 [] = 0
read16 (a ∷ []) = a
read16 (a ∷ b ∷ _) = a * 256 + b

abbrev write16 : ℕ → List ℕ
write16 v = (v / 256 % 256) ∷ (v % 256) ∷ []

abbrev read32 : List ℕ → ℕ
read32 (a ∷ b ∷ c ∷ d ∷ _) = a * 16777216 + b * 65536 + c * 256 + d
read32 _ = 0

abbrev write32 : ℕ → List ℕ
write32 v = (v / 16777216 % 256) ∷ (v / 65536 % 256) ∷ (v / 256 % 256) ∷ (v % 256) ∷ []

pub read16-append : (xs ys : List ℕ) → 2 ≤ length xs → read16 (xs ++ ys) ≡ read16 xs
read16-append [] ys h = absurd (omega arith)
read16-append (a ∷ []) ys h = absurd (omega arith)
read16-append (a ∷ b ∷ xs) ys h = refl

pub read-write16 : (v : ℕ) (rest : List ℕ) → v < 65536 → read16 (write16 v ++ rest) ≡ v
read-write16 v rest h = omega arith

pub read-write32 : (v : ℕ) (rest : List ℕ) → v < 4294967296 → read32 (write32 v ++ rest) ≡ v
read-write32 v rest h = omega arith

abbrev pub network_order : Serialize
network_order = record {
  read_uint16 = read16;
  write_uint16 = write16;
  read_uint32 = read32;
  write_uint32 = write32;
  length-write_uint16 = λ v. refl;
  length-write_uint32 = λ v. refl;
  read_uint16-append = read16-append;
  read-write_uint16 = read-write16;
  read-write_uint32 = read-write32;
}

pub take_fits : (k : List ℕ) (n : ℕ) → length (take n k) ≤ n
take_fits k n = omega (arith, length-take n k)

abbrev pub stream_kcp : Ikcp
stream_kcp = record {
  Kcp = List ℕ;
  ikcp_create = λ _. some [];
  ikcp_wndsize = λ k _ _. k;
  ikcp_setmtu = λ k _. k;
  ikcp_nodelay = λ k _ _ _ _. k;
  ikcp_send = λ k _. (true, k);
  ikcp_recv = λ k n. (take n k, drop n k);
  ikcp_input = λ k bs. (true, k ++ bs);
  ikcp_flush = λ k. ([], k);
  ikcp_update = λ k _. ([], k);
  ikcp_waitsnd = λ _. 0;
  ikcp_peeksize = λ k. length k;
  snd_wnd = λ _. 16;
  ikcp_getconv = read32;
  content = λ k. k;
  ikcp_recv_fits = take_fits;
  content-ikcp_recv = λ k n. take-append-drop n k;
  content-ikcp_send = λ _ _. refl;
}
