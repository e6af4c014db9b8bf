-- ===== src/Conf/Read/Writer.antt =====
-- A configuration as JSON, and the walks over the parts of it (src/conf.c, the callbacks of the scopes;
-- src/jsonutil.c).
use Prim.Native.String.{String}
use kcptun_libev.Base.{
  ◌≡◌, refl, subst, sym, ◌∙◌, Bool, true, false, List, [], ◌∷◌, Option, none, some,
}
use kcptun_libev.Base.Int.{ℤ}
use kcptun_libev.Conf.{Config}
use kcptun_libev.Conf.Read.{
  CJson, store, store_str, jutil_get_bool, jutil_get_int, jutil_get_string, Callback, walk_members,
  jutil_walk_object, kcp_scope_cb, tcp_scope_cb, udp_scope_cb,
}

-- Items that are made of values, and read as what they were made of.
pub record Writer (json : CJson) : Type 0 where
  pub text : String → json.Item
  pub number : ℤ → json.Item
  pub bool : Bool → json.Item
  pub object : List (String × json.Item) → json.Item
  pub is_string-text : (s : String) → json.is_string (text s) ≡ true
  pub valuestring-text : (s : String) → json.valuestring (text s) ≡ s
  pub is_number-number : (n : ℤ) → json.is_number (number n) ≡ true
  pub valueint-number : (n : ℤ) → json.valueint (number n) ≡ n
  pub is_bool-bool : (b : Bool) → json.is_bool (bool b) ≡ true
  pub is_true-bool : (b : Bool) → json.is_true (bool b) ≡ b
  pub is_object-object : (m : List (String × json.Item)) → json.is_object (object m) ≡ true
  pub members-object : (m : List (String × json.Item)) → json.members (object m) ≡ m

module _ (json : CJson) (w : Writer json) where
  open json use {Item}
  open w use {text, number, bool, object}

  -- A text that is NULL is left out.
  abbrev pub with_text : String → Option String → List (String × Item) → List (String × Item)
  with_text key none rest = rest
  with_text key (some s) rest = (key, text s) ∷ rest

  abbrev pub kcp_members : Config → List (String × Item)
  kcp_members c =
      ("mtu", number c.kcp_mtu)
      ∷ ("sndwnd", number c.kcp_sndwnd)
      ∷ ("rcvwnd", number c.kcp_rcvwnd)
      ∷ ("nodelay", number c.kcp_nodelay)
      ∷ ("interval", number c.kcp_interval)
      ∷ ("resend", number c.kcp_resend)
      ∷ ("nc", number c.kcp_nc)
      ∷ ("flush", number c.kcp_flush)
      ∷ []

  abbrev pub udp_members : Config → List (String × Item)
  udp_members c =
      ("reuseport", bool c.udp_reuseport)
      ∷ ("sndbuf", number c.udp_sndbuf)
      ∷ ("rcvbuf", number c.udp_rcvbuf)
      ∷ []

  abbrev pub tcp_members : Config → List (String × Item)
  tcp_members c =
      ("reuseport", bool c.tcp_reuseport)
      ∷ ("keepalive", bool c.tcp_keepalive)
      ∷ ("nodelay", bool c.tcp_nodelay)
      ∷ ("sndbuf", number c.tcp_sndbuf)
      ∷ ("rcvbuf", number c.tcp_rcvbuf)
      ∷ []

  abbrev pub conf_texts : Config → List (String × Item)
  conf_texts c = with_text "listen" c.listen (
      with_text "connect" c.connect (
        with_text "kcp_bind" c.kcp_bind (
          with_text "kcp_connect" c.kcp_connect (
            with_text "rendezvous_server" c.rendezvous_server (
              with_text "http_listen" c.http_listen (
                with_text "netdev" c.netdev (
                  with_text "method" c.method (
                    with_text "password" c.password (
                      with_text "psk" c.psk
                        (with_text "obfs" c.obfs (with_text "user" c.user [])))))))))))

  abbrev pub conf_members : Config → List (String × Item)
  conf_members c =
      ("kcp", object (kcp_members c))
      ∷ ("udp", object (udp_members c))
      ∷ ("tcp", object (tcp_members c))
      ∷ ("linger", number c.linger)
      ∷ ("timeout", number c.timeout)
      ∷ ("keepalive", number c.keepalive)
      ∷ ("time_wait", number c.time_wait)
      ∷ ("loglevel", number c.log_level)
      ∷ conf_texts c

  pub store-number :
      (n : ℤ) (write : ℤ → Config) (c : Config)
      → store json (jutil_get_int json (number n)) write c ≡ (true, write n)
  store-number n write c = rw (w.is_number-number n, w.valueint-number n) refl

  pub store-bool :
      (b : Bool) (write : Bool → Config) (c : Config)
      → store json (jutil_get_bool json (bool b)) write c ≡ (true, write b)
  store-bool b write c = rw (w.is_bool-bool b, w.is_true-bool b) refl

  pub store_str-text :
      (s : String) (write : Option String → Config)
      → store_str json (jutil_get_string json (text s)) write ≡ (true, write (some s))
  store_str-text s write = rw (w.is_string-text s, w.valuestring-text s) refl

  pub walk_step :
      (cb : Callback json) (c c' : Config) (key : String) (v : Item) (rest : List (String × Item))
      {out : Bool × Config}
      → cb c key v ≡ (true, c')
      → walk_members json cb c' rest ≡ out
      → walk_members json cb c ((key, v) ∷ rest) ≡ out
  unfolding walk_members
  walk_step cb c c' key v rest {out} e h =
      subst
        (λ (r : Bool × Config).
          (elim r.0 [ true ↦ walk_members json cb r.1 rest | false ↦ (false, r.1) ]) ≡ out)
        (sym e) h

  pub walk_end :
      (cb : Callback json) (c c' : Config) → c ≡ c' → walk_members json cb c [] ≡ (true, c')
  unfolding walk_members
  walk_end cb c c' e = rw e refl

  pub walk-kcp_members :
      (c d : Config)
      → walk_members json (kcp_scope_cb json) d (kcp_members c) ≡ (
        true,
        record d {
          kcp_mtu = c.kcp_mtu;
          kcp_sndwnd = c.kcp_sndwnd;
          kcp_rcvwnd = c.kcp_rcvwnd;
          kcp_nodelay = c.kcp_nodelay;
          kcp_interval = c.kcp_interval;
          kcp_resend = c.kcp_resend;
          kcp_nc = c.kcp_nc;
          kcp_flush = c.kcp_flush;
        },
      )
  unfolding kcp_scope_cb
  walk-kcp_members c d =
      (walk_step (kcp_scope_cb json) _ _ "mtu" (number c.kcp_mtu) _ (store-number c.kcp_mtu _ _) (
        walk_step (kcp_scope_cb json) _ _ "sndwnd" (number c.kcp_sndwnd) _
          (store-number c.kcp_sndwnd _ _)
          (walk_step (kcp_scope_cb json) _ _ "rcvwnd" (number c.kcp_rcvwnd) _
            (store-number c.kcp_rcvwnd _ _)
            (walk_step (kcp_scope_cb json) _ _ "nodelay" (number c.kcp_nodelay) _
              (store-number c.kcp_nodelay _ _)
              (walk_step (kcp_scope_cb json) _ _ "interval" (number c.kcp_interval) _
                (store-number c.kcp_interval _ _)
                (walk_step (kcp_scope_cb json) _ _ "resend" (number c.kcp_resend) _
                  (store-number c.kcp_resend _ _)
                  (walk_step (kcp_scope_cb json) _ _ "nc" (number c.kcp_nc) _
                    (store-number c.kcp_nc _ _)
                    (walk_step (kcp_scope_cb json) _ _ "flush" (number c.kcp_flush) _
                      (store-number c.kcp_flush _ _) (walk_end _ _ _ refl)))))))))

  pub walk-udp_members :
      (c d : Config)
      → walk_members json (udp_scope_cb json) d (udp_members c) ≡ (
        true,
        record d {
          udp_reuseport = c.udp_reuseport;
          udp_sndbuf = c.udp_sndbuf;
          udp_rcvbuf = c.udp_rcvbuf;
        },
      )
  unfolding udp_scope_cb
  walk-udp_members c d =
      (walk_step (udp_scope_cb json) _ _ "reuseport" (bool c.udp_reuseport) _
        (store-bool c.udp_reuseport _ _)
        (walk_step (udp_scope_cb json) _ _ "sndbuf" (number c.udp_sndbuf) _
          (store-number c.udp_sndbuf _ _)
          (walk_step (udp_scope_cb json) _ _ "rcvbuf" (number c.udp_rcvbuf) _
            (store-number c.udp_rcvbuf _ _) (walk_end _ _ _ refl))))

  pub walk-tcp_members :
      (c d : Config)
      → walk_members json (tcp_scope_cb json) d (tcp_members c) ≡ (
        true,
        record d {
          tcp_reuseport = c.tcp_reuseport;
          tcp_keepalive = c.tcp_keepalive;
          tcp_nodelay = c.tcp_nodelay;
          tcp_sndbuf = c.tcp_sndbuf;
          tcp_rcvbuf = c.tcp_rcvbuf;
        },
      )
  unfolding tcp_scope_cb
  walk-tcp_members c d =
      (walk_step (tcp_scope_cb json) _ _ "reuseport" (bool c.tcp_reuseport) _
        (store-bool c.tcp_reuseport _ _)
        (walk_step (tcp_scope_cb json) _ _ "keepalive" (bool c.tcp_keepalive) _
          (store-bool c.tcp_keepalive _ _)
          (walk_step (tcp_scope_cb json) _ _ "nodelay" (bool c.tcp_nodelay) _
            (store-bool c.tcp_nodelay _ _)
            (walk_step (tcp_scope_cb json) _ _ "sndbuf" (number c.tcp_sndbuf) _
              (store-number c.tcp_sndbuf _ _)
              (walk_step (tcp_scope_cb json) _ _ "rcvbuf" (number c.tcp_rcvbuf) _
                (store-number c.tcp_rcvbuf _ _) (walk_end _ _ _ refl))))))

  pub walk_object :
      (cb : Callback json) (m : List (String × Item)) (d : Config) {out : Bool × Config}
      → walk_members json cb d m ≡ out
      → jutil_walk_object json cb d (object m) ≡ out
  unfolding jutil_walk_object
  walk_object cb m d e = rw (w.is_object-object m, w.members-object m) e

  -- A text that is left out leaves NULL.
  pub walk_text :
      (cb : Callback json) (set : Option String → Config → Config) (key : String)
      (v : Option String) (c : Config) (rest : List (String × Item)) {out : Bool × Config}
      → ((s : String)
          → cb c key (text s) ≡ store_str json (jutil_get_string json (text s)) (λ x. set x c))
      → c ≡ set none c
      → walk_members json cb (set v c) rest ≡ out
      → walk_members json cb c (with_text key v rest) ≡ out
  walk_text cb set key none c rest {out} e n h =
      subst (λ d. walk_members json cb d rest ≡ out) (sym n) h
  walk_text cb set key (some s) c rest {out} e n h =
      walk_step cb c (set (some s) c) key (text s) rest {out = out}
        (e s ∙ store_str-text s (λ x. set x c)) h
