-- ===== src/Obfs/Filter/Laws.antt =====
-- The compiled filter lets through what it is meant to (src/obfs.c).
use Prim.Native.Nat.{bit_and}
use kcptun_libev.Base.{
  ◌≡◌, ℕ, ◌+◌, ◌*◌, ◌%◌, Bool, true, false, ◌&&◌, List, [], ◌∷◌, Option, none, some, drop, ◌∙◌,
  refl, if◌then◌else◌, ◌==◌,
}
use kcptun_libev.Obfs.Filter.{
  SockFilter, bpf_stmt, bpf_jump, ld_b_abs, ld_h_abs, ld_w_abs, ld_h_ind, ldx_b_msh, alu_and,
  jmp_jeq, jmp_jset, ret_k,
}
use kcptun_libev.Obfs.Filter.Kernel.{Bpf, load_b, load_h, load_w, loaded}

-- What is read is there and passes the test.
abbrev pub passes : Option ℕ → (ℕ → Bool) → Bool
passes none f = false
passes (some v) f = f v

-- The whole packet, or nothing of it.
abbrev pub verdict : Bool → ℕ
verdict t = if t then 4294967295 else 0

module _ (bpf : Bpf) (b : List ℕ) where
  open bpf use {
    exec, exec-ld_b_abs, exec-ld_h_abs, exec-ld_w_abs, exec-ld_h_ind, exec-ldx_b_msh, exec-alu_and,
    exec-jmp_jeq, exec-jmp_jset, exec-ret_k,
  }

  -- The program lets a packet through by the test, whatever stands in the registers.
  abbrev pub Decides : List SockFilter → Bool → Type 0
  Decides p t = (a x : ℕ) → exec p b a x ≡ verdict t

  abbrev pub rejecting : List SockFilter
  rejecting = bpf_stmt ret_k 0 ∷ []

  pub ends-Decides : Decides (bpf_stmt ret_k 4294967295 ∷ rejecting) true
  ends-Decides a x = exec-ret_k 4294967295 rejecting b a x

  loaded-passes :
      (o : Option ℕ) (go : ℕ → ℕ) (f : ℕ → Bool) (t : Bool)
      → ((v : ℕ) → go v ≡ verdict (f v && t))
      → loaded o go ≡ verdict (passes o f && t)
  loaded-passes none go f t h = refl
  loaded-passes (some v) go f t h = h v

  branch :
      (c : Bool) (n : ℕ) (p : List SockFilter) (t : Bool) (a x : ℕ)
      → Decides p t
      → drop n p ≡ rejecting
      → exec (drop (if c then 0 else n) p) b a x ≡ verdict (c && t)
  branch true n p t a x h e = h a x
  branch false n p t a x h e = rw e (exec-ret_k 0 [] b a x)

  jeq-branch :
      (k n : ℕ) (p : List SockFilter) (t : Bool) (a x : ℕ)
      → Decides p t
      → drop n p ≡ rejecting
      → exec (bpf_jump jmp_jeq k 0 n ∷ p) b a x ≡ verdict (a == k && t)
  jeq-branch k n p t a x h e = exec-jmp_jeq k 0 n p b a x ∙ branch (a == k) n p t a x h e

  -- A load and a comparison.
  pub byte-Decides :
      (i k n : ℕ) (p : List SockFilter) (t : Bool)
      → Decides p t
      → drop n p ≡ rejecting
      → Decides
          (bpf_stmt ld_b_abs i ∷ bpf_jump jmp_jeq k 0 n ∷ p)
          (passes (load_b b i) (λ v. v == k) && t)
  byte-Decides i k n p t h e a x =
      exec-ld_b_abs i _ b a x
      ∙ loaded-passes (load_b b i) _ (λ v. v == k) t (λ v. jeq-branch k n p t v x h e)

  pub half-Decides :
      (i k n : ℕ) (p : List SockFilter) (t : Bool)
      → Decides p t
      → drop n p ≡ rejecting
      → Decides
          (bpf_stmt ld_h_abs i ∷ bpf_jump jmp_jeq k 0 n ∷ p)
          (passes (load_h b i) (λ v. v == k) && t)
  half-Decides i k n p t h e a x =
      exec-ld_h_abs i _ b a x
      ∙ loaded-passes (load_h b i) _ (λ v. v == k) t (λ v. jeq-branch k n p t v x h e)

  pub word-Decides :
      (i k n : ℕ) (p : List SockFilter) (t : Bool)
      → Decides p t
      → drop n p ≡ rejecting
      → Decides
          (bpf_stmt ld_w_abs i ∷ bpf_jump jmp_jeq k 0 n ∷ p)
          (passes (load_w b i) (λ v. v == k) && t)
  word-Decides i k n p t h e a x =
      exec-ld_w_abs i _ b a x
      ∙ loaded-passes (load_w b i) _ (λ v. v == k) t (λ v. jeq-branch k n p t v x h e)

  -- The version of the IP header.
  pub version-Decides :
      (k n : ℕ) (p : List SockFilter) (t : Bool)
      → Decides p t
      → drop n p ≡ rejecting
      → Decides
          (bpf_stmt ld_b_abs 0 ∷ bpf_stmt alu_and 240 ∷ bpf_jump jmp_jeq k 0 n ∷ p)
          (passes (load_b b 0) (λ v. bit_and v 240 == k) && t)
  version-Decides k n p t h e a x =
      exec-ld_b_abs 0 _ b a x
      ∙ loaded-passes (load_b b 0) _ (λ v. bit_and v 240 == k) t
          (λ v. exec-alu_and 240 _ b v x ∙ jeq-branch k n p t (bit_and v 240) x h e)

  -- A packet that is no later fragment of another.
  pub unfragmented-Decides :
      (i n : ℕ) (p : List SockFilter) (t : Bool)
      → Decides p t
      → drop n p ≡ rejecting
      → Decides
          (bpf_stmt ld_h_abs i ∷ bpf_jump jmp_jset 8191 n 0 ∷ p)
          (passes (load_h b i) (λ v. bit_and v 8191 == 0) && t)
  unfragmented-Decides i n p t h e a x =
      exec-ld_h_abs i _ b a x
      ∙ loaded-passes (load_h b i) _ (λ v. bit_and v 8191 == 0) t
          (λ v. exec-jmp_jset 8191 n 0 p b v x ∙ branch (bit_and v 8191 == 0) n p t v x h e)

  -- The port behind an IP header of any length.
  pub port-Decides :
      (k n : ℕ) (p : List SockFilter) (t : Bool)
      → Decides p t
      → drop n p ≡ rejecting
      → Decides
          (bpf_stmt ldx_b_msh 0 ∷ bpf_stmt ld_h_ind 2 ∷ bpf_jump jmp_jeq k 0 n ∷ p)
          (passes (load_b b 0) (λ h. passes (load_h b (h % 16 * 4 + 2)) (λ v. v == k)) && t)
  port-Decides k n p t h e a x =
      exec-ldx_b_msh 0 _ b a x
      ∙ loaded-passes (load_b b 0) _ _ t (λ v.
        exec-ld_h_ind 2 _ b a (v % 16 * 4)
        ∙ loaded-passes (load_h b (v % 16 * 4 + 2)) _ (λ v. v == k) t
            (λ w. jeq-branch k n p t w (v % 16 * 4) h e))
