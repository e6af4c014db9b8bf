-- ===== src/Tests/Contexts.antt =====
-- The contexts of the obfuscator, and the filter of the kernel.
use kcptun_libev.Base.{Ends, ◌≡◌, ℕ, refl, true, false, List, [], ◌∷◌, some}
use kcptun_libev.Address.{inet}
use kcptun_libev.Conf.{Mode}
use kcptun_libev.Obfs.{Obfs, ipv4}
use kcptun_libev.Obfs.Filter.{filter_compile}
use kcptun_libev.Obfs.Filter.Kernel.{kernel}
use kcptun_libev.Obfs.Filter.Laws.{verdict}
use kcptun_libev.Obfs.Filter.Refine.{wanted, filter_compile-wanted}
use kcptun_libev.Obfs.Context.{ObfsWorld, obfs_accept_one, is_startup_limited}
use kcptun_libev.Obfs.Context.Accept.{WithinLimits, obfs_accept_one-WithinLimits}
use kcptun_libev.Tests.Segments.{left, right, obfs, context, segment_bytes}
use kcptun_libev.Tests.Sessions.{session}

filter_compile-wanted_example :
    Ends
      (λ p. kernel.exec p segment_bytes 0 0 ≡ verdict (wanted right segment_bytes))
      (filter_compile right 32)
filter_compile-wanted_example = filter_compile-wanted kernel segment_bytes right

segment-wanted : wanted right segment_bytes ≡ true
segment-wanted = refl

left-unwanted : wanted left segment_bytes ≡ false
left-unwanted = refl

abbrev pub server_mode : Mode
server_mode = record { server = true; client = false; rendezvous = false }

-- One context is authenticated and was seen at 1500, another was only created, at 1000.
abbrev pub two_contexts : Obfs
two_contexts = record (obfs ipv4 right left) {
  contexts =
      record (context right left) { authenticated = true }
      ∷ context right (inet (10 ∷ 0 ∷ 0 ∷ 3 ∷ []) (31 ∷ 144 ∷ []))
      ∷ [];
  num_authenticated = 1;
}

abbrev obfs_world : ObfsWorld (List ℕ)
obfs_world = record { obfs = two_contexts; sessions = session [] ∷ [] }

unlimited : is_startup_limited 50 two_contexts ≡ false
unfolding is_startup_limited
unlimited = refl

obfs_accept_one-WithinLimits_example :
    Ends
      (λ w'. WithinLimits w'.obfs)
      (obfs_accept_one server_mode true false
        (some right)
        (inet (10 ∷ 0 ∷ 0 ∷ 4 ∷ []) (0 ∷ 9 ∷ []))
        8
        3000
        obfs_world)
obfs_accept_one-WithinLimits_example =
    obfs_accept_one-WithinLimits server_mode 50 true (some right)
      (inet (10 ∷ 0 ∷ 0 ∷ 4 ∷ []) (0 ∷ 9 ∷ [])) 8 3000 obfs_world refl unlimited
