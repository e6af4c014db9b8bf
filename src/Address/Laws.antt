-- ===== src/Address/Laws.antt =====
-- Comparing addresses as the sources do is comparing them.
use kcptun_libev.Base.{ℕ, ◌≡◌, true, List, [], ◌∷◌, ◌↔◌, arith, refl, subst}
use kcptun_libev.Address.{SockAddr, inet, inet6, bytes_eq, sa_equals}

bytes_eq_sound : (xs ys : List ℕ) → bytes_eq xs ys ≡ true → xs ≡ ys
bytes_eq_sound [] [] h = refl
bytes_eq_sound [] (y ∷ ys) h = ground arith
bytes_eq_sound (x ∷ xs) [] h = ground arith
bytes_eq_sound (x ∷ xs) (y ∷ ys) h = ground (arith, bytes_eq_sound xs ys)

pub bytes_eq_refl : (xs : List ℕ) → bytes_eq xs xs ≡ true
bytes_eq_refl [] = refl
bytes_eq_refl (x ∷ xs) = ground (arith, bytes_eq_refl xs)

pub sa_equals_sound : (a b : SockAddr) → sa_equals a b ≡ true → a ≡ b
unfolding sa_equals
sa_equals_sound (inet a p) (inet b q) h = ground (arith, bytes_eq_sound a b, bytes_eq_sound p q)
sa_equals_sound (inet6 a p f s) (inet6 b q g t) h =
    ground (arith, bytes_eq_sound a b, bytes_eq_sound p q)
sa_equals_sound (inet a p) (inet6 b q g t) h = ground arith
sa_equals_sound (inet6 a p f s) (inet b q) h = ground arith

pub sa_equals_refl : (a : SockAddr) → sa_equals a a ≡ true
unfolding sa_equals
sa_equals_refl (inet a p) = ground (arith, bytes_eq_refl a, bytes_eq_refl p)
sa_equals_refl (inet6 a p f s) = ground (arith, bytes_eq_refl a, bytes_eq_refl p)

pub sa_equals_sym : (a b : SockAddr) → sa_equals a b ≡ true → sa_equals b a ≡ true
sa_equals_sym a b h = subst (λ c. sa_equals c a ≡ true) (sa_equals_sound a b h) (sa_equals_refl a)

-- The comparison by family and bytes accepts exactly equal addresses.
pub sa_equals_iff : (a b : SockAddr) → (sa_equals a b ≡ true) ↔ (a ≡ b)
sa_equals_iff a b =
    (sa_equals_sound a b, λ e. subst (λ c. sa_equals a c ≡ true) e (sa_equals_refl a))
