-- ===== src/Obfs/Filter/Refine.antt =====
-- The filter of an address against a direct description of the packets that it is for (src/obfs.c).
use Prim.Native.Nat.{bit_and}
use kcptun_libev.Base.{
  ◌≡◌, ℕ, suc, ◌+◌, ◌-◌, ◌*◌, ◌%◌, length, Bool, true, false, ◌&&◌, ◌||◌, List, [], ◌∷◌, drop, refl,
  subst, ◌==◌, Ends, inl, inr, Bool-cases,
}
use kcptun_libev.Address.{SockAddr, inet, inet6, all_zero}
use kcptun_libev.Obfs.Filter.{
  SockFilter, bpf_stmt, bpf_jump, ld_b_abs, ld_h_abs, ld_w_abs, alu_and, jmp_jeq, jmp_jset, ret_k,
  word16, word32, filter_compile, filter_compile_inet, filter_compile_inet6, filter_gencode, link,
}
use kcptun_libev.Obfs.Filter.Kernel.{Bpf, load_b, load_h, load_w}
use kcptun_libev.Obfs.Filter.Laws.{
  passes, verdict, Decides, rejecting, ends-Decides, byte-Decides, half-Decides, word-Decides,
  version-Decides, unfragmented-Decides, port-Decides,
}

-- "(ip proto \\tcp) and (dst port 80) and (dst host 1.2.3.4)", and the same for IPv6: an address or a
-- port of zeros stands for any.
abbrev pub wanted : SockAddr → List ℕ → Bool
wanted (inet addr port) b =
    passes (load_b b 0) (λ v. bit_and v 240 == 64)
    && (passes (load_b b 9) (λ v. v == 6)
        && (passes (load_h b 6) (λ v. bit_and v 8191 == 0)
            && ((all_zero port
                  || passes (load_b b 0)
                      (λ h. passes (load_h b (h % 16 * 4 + 2)) (λ v. v == word16 port)))
                && (all_zero addr || passes (load_w b 16) (λ v. v == word32 addr)))))
wanted (inet6 addr port _ _) b =
    passes (load_b b 0) (λ v. bit_and v 240 == 96)
    && (passes (load_b b 6) (λ v. v == 6)
        && ((all_zero port || passes (load_h b 42) (λ v. v == word16 port))
            && (all_zero addr
                || passes (load_w b 24) (λ v. v == word32 addr)
                  && (passes (load_w b 28) (λ v. v == word32 (drop 4 addr))
                      && (passes (load_w b 32) (λ v. v == word32 (drop 8 addr))
                          && passes (load_w b 36) (λ v. v == word32 (drop 12 addr)))))))

and_true : (t : Bool) → (t && true) ≡ t
and_true true = refl
and_true false = refl

module _ (bpf : Bpf) (b : List ℕ) where
  open bpf use {exec}

  last-Decides : (p : List SockFilter) (t : Bool) → Decides bpf b p (t && true) → Decides bpf b p t
  last-Decides p t h = subst (Decides bpf b p) (and_true t) h

  -- The tests that come first, before those of `p`; all reject by a jump to the last instruction.
  head4 :
      (p : List SockFilter) (t : Bool)
      → Decides bpf b p t
      → let n = length p - 1 in
        drop n p ≡ rejecting bpf b
        → exec
            (bpf_stmt ld_b_abs 0
              ∷ bpf_stmt alu_and 240
              ∷ bpf_jump jmp_jeq 64 0 (suc (suc (suc (suc n))))
              ∷ bpf_stmt ld_b_abs 9
              ∷ bpf_jump jmp_jeq 6 0 (suc (suc n))
              ∷ bpf_stmt ld_h_abs 6
              ∷ bpf_jump jmp_jset 8191 n 0
              ∷ p)
            b
            0
            0
          ≡ verdict (
              passes (load_b b 0) (λ v. bit_and v 240 == 64)
              && (passes (load_b b 9) (λ v. v == 6)
                  && (passes (load_h b 6) (λ v. bit_and v 8191 == 0) && t)))
  head4 p t h e =
      let n = length p - 1 in
      version-Decides bpf b 64 (suc (suc (suc (suc n)))) _ _
        (byte-Decides bpf b 9 6 (suc (suc n)) _ _ (unfragmented-Decides bpf b 6 n p t h e) e) e 0 0

  head6 :
      (p : List SockFilter) (t : Bool)
      → Decides bpf b p t
      → let n = length p - 1 in
        drop n p ≡ rejecting bpf b
        → exec
            (bpf_stmt ld_b_abs 0
              ∷ bpf_stmt alu_and 240
              ∷ bpf_jump jmp_jeq 96 0 (suc (suc n))
              ∷ bpf_stmt ld_b_abs 6
              ∷ bpf_jump jmp_jeq 6 0 n
              ∷ p)
            b
            0
            0
          ≡ verdict (
              passes (load_b b 0) (λ v. bit_and v 240 == 96)
              && (passes (load_b b 6) (λ v. v == 6) && t))
  head6 p t h e =
      let n = length p - 1 in
      version-Decides bpf b 96 (suc (suc n)) _ _ (byte-Decides bpf b 6 6 n p t h e) e 0 0

  abbrev ending : List SockFilter
  ending = bpf_stmt ret_k 4294967295 ∷ bpf_stmt ret_k 0 ∷ []

  abbrev word_test : ℕ → ℕ → Bool
  word_test i k = passes (load_w b i) (λ v. v == k)

  addr6 :
      (addr : List ℕ)
      → Decides bpf b
          (bpf_stmt ld_w_abs 24
            ∷ bpf_jump jmp_jeq (word32 addr) 0 7
            ∷ bpf_stmt ld_w_abs 28
            ∷ bpf_jump jmp_jeq (word32 (drop 4 addr)) 0 5
            ∷ bpf_stmt ld_w_abs 32
            ∷ bpf_jump jmp_jeq (word32 (drop 8 addr)) 0 3
            ∷ bpf_stmt ld_w_abs 36
            ∷ bpf_jump jmp_jeq (word32 (drop 12 addr)) 0 1
            ∷ ending)
          (word_test 24 (word32 addr)
            && (word_test 28 (word32 (drop 4 addr))
                && (word_test 32 (word32 (drop 8 addr)) && word_test 36 (word32 (drop 12 addr)))))
  addr6 addr =
      word-Decides bpf b 24 _ 7 _ _
        (word-Decides bpf b 28 _ 5 _ _
          (word-Decides bpf b 32 _ 3 _ _
            (last-Decides _ _ (word-Decides bpf b 36 _ 1 ending true (ends-Decides bpf b) refl))
            refl)
          refl)
        refl

  -- For any address and port, the program is made within the 32 instructions that there is room for,
  -- and when the kernel runs it, it takes the whole of a packet that is wanted and nothing of any
  -- other, one that is too short for what is read included.
  pub filter_compile-wanted :
      (sa : SockAddr) → Ends (λ p. exec p b 0 0 ≡ verdict (wanted sa b)) (filter_compile sa 32)
  unfolding filter_compile filter_compile_inet filter_compile_inet6 filter_gencode link
  filter_compile-wanted (inet addr port) = elim (Bool-cases (all_zero port)) [
    | inl e ↦ elim (Bool-cases (all_zero addr)) [
      | inl d ↦ rw (e, d, Ends, e, d) (head4 _ _ (ends-Decides bpf b) refl)
      | inr d ↦
          rw (e, d, Ends, e, d)
            (head4 _ _
              (last-Decides _ _
                (word-Decides bpf b 16 (word32 addr) 1 _ true (ends-Decides bpf b) refl))
              refl)
    ]
    | inr e ↦ elim (Bool-cases (all_zero addr)) [
      | inl d ↦
          rw (e, d, Ends, e, d)
            (head4 _ _ (port-Decides bpf b (word16 port) 1 _ true (ends-Decides bpf b) refl) refl)
      | inr d ↦
          rw (e, d, Ends, e, d)
            (head4 _ _
              (port-Decides bpf b (word16 port) 3 _ _
                (last-Decides _ _
                  (word-Decides bpf b 16 (word32 addr) 1 _ true (ends-Decides bpf b) refl))
                refl)
              refl)
    ]
  ]
  filter_compile-wanted (inet6 addr port _ _) = elim (Bool-cases (all_zero port)) [
    | inl e ↦ elim (Bool-cases (all_zero addr)) [
      | inl d ↦ rw (e, d, Ends, e, d) (head6 _ _ (ends-Decides bpf b) refl)
      | inr d ↦ rw (e, d, Ends, e, d) (head6 _ _ (addr6 addr) refl)
    ]
    | inr e ↦ elim (Bool-cases (all_zero addr)) [
      | inl d ↦
          rw (e, d, Ends, e, d)
            (head6 _ _ (half-Decides bpf b 42 (word16 port) 1 _ true (ends-Decides bpf b) refl)
              refl)
      | inr d ↦
          rw (e, d, Ends, e, d)
            (head6 _ _ (half-Decides bpf b 42 (word16 port) 9 _ _ (addr6 addr) refl) refl)
    ]
  ]
