-- ===== src/Address.antt =====
-- Socket addresses (src/sockutil.h, src/sockutil.c). Addresses and ports are bytes in network
-- order; the padding of `struct sockaddr_in` is taken to be zero. A family other than the two,
-- at which the functions stop the process, is left out.
pub mod Laws
use kcptun_libev.Base.{ℕ, Bool, true, false, ◌&&◌, ◌||◌, List, [], ◌∷◌, ◌==◌}

pub data SockAddr : Type 0 where
  inet : List ℕ → List ℕ → SockAddr
  inet6 : List ℕ → List ℕ → ℕ → ℕ → SockAddr

-- memcmp(a, b, n) == 0 on objects of one size
abbrev pub bytes_eq : List ℕ → List ℕ → Bool
bytes_eq [] [] = true
bytes_eq [] (_ ∷ _) = false
bytes_eq (_ ∷ _) [] = false
bytes_eq (x ∷ xs) (y ∷ ys) = x == y && bytes_eq xs ys

abbrev pub getsocklen : SockAddr → ℕ
getsocklen (inet _ _) = 16
getsocklen (inet6 _ _ _ _) = 28

unfoldable pub sa_equals : SockAddr → SockAddr → Bool
sa_equals (inet a p) (inet b q) = bytes_eq a b && bytes_eq p q
sa_equals (inet6 a p f s) (inet6 b q g t) = bytes_eq a b && bytes_eq p q && f == g && s == t
sa_equals (inet _ _) (inet6 _ _ _ _) = false
sa_equals (inet6 _ _ _ _) (inet _ _) = false

-- INADDR_ANY, and IN6_IS_ADDR_UNSPECIFIED
abbrev pub all_zero : List ℕ → Bool
all_zero [] = true
all_zero (x ∷ xs) = x == 0 && all_zero xs

unfoldable pub sa_matches : SockAddr → SockAddr → Bool
sa_matches (inet a p) (inet b q) = bytes_eq p q && (all_zero a || bytes_eq a b)
sa_matches (inet6 a p _ _) (inet6 b q _ _) = bytes_eq p q && (all_zero a || bytes_eq a b)
sa_matches (inet _ _) (inet6 _ _ _ _) = false
sa_matches (inet6 _ _ _ _) (inet _ _) = false
