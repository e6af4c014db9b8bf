-- ===== src/Obfs/Packet/Checksum.antt =====
-- The checksum of the obfuscator (src/obfs.c, in_cksum and in_cksum_fin), and numbers in network
-- order. The sums are of 32 bits and wrap; words are read as the host stores them.
use kcptun_libev.Base.{ℕ, zero, suc, ◌+◌, ◌-◌, ◌*◌, ◌/◌, ◌%◌, ◌^◌, List, [], ◌∷◌}

-- The byte at an index; the frames of the program are longer than any index that is read.
abbrev pub nth : ℕ → List ℕ → ℕ
nth i [] = 0
nth zero (x ∷ xs) = x
nth (suc i) (x ∷ xs) = nth i xs

-- htons and htonl, as bytes
abbrev pub be16 : ℕ → List ℕ
be16 v = (v / 256 % 256) ∷ (v % 256) ∷ []

abbrev pub be32 : ℕ → List ℕ
be32 v = (v / 16777216 % 256) ∷ (v / 65536 % 256) ∷ (v / 256 % 256) ∷ (v % 256) ∷ []

-- The number of bytes is even.
unfoldable pub in_cksum : ℕ → List ℕ → ℕ
in_cksum sum (x ∷ y ∷ rest) = in_cksum ((sum + (x + y * 256)) % 2 ^ 32) rest
in_cksum sum (x ∷ []) = sum
in_cksum sum [] = sum

-- The loop, which adds a last odd byte with a zero behind it.
unfoldable pub cksum_words : ℕ → List ℕ → ℕ
cksum_words sum (x ∷ y ∷ rest) = cksum_words ((sum + (x + y * 256)) % 2 ^ 32) rest
cksum_words sum (x ∷ []) = (sum + x) % 2 ^ 32
cksum_words sum [] = sum

-- The carries are folded in twice, and the complement of 16 bits is taken.
unfoldable pub in_cksum_fin : ℕ → List ℕ → ℕ
unfolding cksum_words
in_cksum_fin sum bytes =
    let s = cksum_words sum bytes in
    let s1 = s / 2 ^ 16 + s % 2 ^ 16 in 2 ^ 16 - 1 - (s1 + s1 / 2 ^ 16) % 2 ^ 16
