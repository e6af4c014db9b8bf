-- ===== src/Tests/Services.antt =====
-- Runs of the configuration check and of the replay filter.
use kcptun_libev.Base.{
  ◌≡◌, ap, refl, Bool, true, false, ◌↔◌, ◌||◌, List, [], ◌∷◌, Option, some, arith,
}
use Prim.Native.String.{String}
use kcptun_libev.Base.Int.{ℤ, pos}
use kcptun_libev.Conf.{Config, conf_default, conf_check, range_check_int, ranges_ok, mode_of}
use kcptun_libev.Conf.Check.{IsUsable, IsUsable-mode, conf_check_iff}
use kcptun_libev.Conf.Read.Writer.{Writer}
use kcptun_libev.Conf.Read.RoundTrip.{conf_write, conf_read-conf_write}
use kcptun_libev.Conf.Read.{
  CJson, conf_read, jutil_walk_object, walk_members, main_scope_cb, kcp_scope_cb, tcp_scope_cb,
  udp_scope_cb,
}
use kcptun_libev.Address.{bytes_eq}
use kcptun_libev.Address.Laws.{bytes_eq_refl}
use kcptun_libev.Nonce.{Nonce, Bloom, Noncegen, counter, noncegen_verify}
use kcptun_libev.Nonce.Replay.{verify_all, replay_refused}

abbrev pub client : Config
client = record conf_default { listen = some "127.0.0.1:1080"; kcp_connect = some "server:4000" }

conf_check_iff_example : ((conf_check client).0 ≡ true) ↔ IsUsable client
conf_check_iff_example = conf_check_iff client

client_accepted : (conf_check client).0 ≡ true
unfolding conf_check conf_default ranges_ok range_check_int
client_accepted = refl

-- A JSON value, and the members of an object.
mutual
  data Json : Type 0 where
    text : String → Json
    number : ℤ → Json
    boolean : Bool → Json
    object : Fields → Json

  data Fields : Type 0 where
    no_field : Fields
    field : String → Json → Fields → Fields

abbrev to_list : Fields → List (String × Json)
to_list no_field = []
to_list (field key j rest) = (key, j) ∷ to_list rest

abbrev of_list : List (String × Json) → Fields
of_list [] = no_field
of_list ((key, j) ∷ rest) = field key j (of_list rest)

to_list-of_list : (m : List (String × Json)) → to_list (of_list m) ≡ m
to_list-of_list [] = refl
to_list-of_list ((key, j) ∷ rest) = ap (λ m. (key, j) ∷ m) (to_list-of_list rest)

abbrev plain_json : CJson
plain_json = record {
  Item = Json;
  is_object = λ j. elim j [ object _ ↦ true | _ ↦ false ];
  members = λ j. elim j [ object m ↦ to_list m | _ ↦ [] ];
  is_bool = λ j. elim j [ boolean _ ↦ true | _ ↦ false ];
  is_true = λ j. elim j [ boolean b ↦ b | _ ↦ false ];
  is_number = λ j. elim j [ number _ ↦ true | _ ↦ false ];
  valueint = λ j. elim j [ number n ↦ n | _ ↦ pos 0 ];
  is_string = λ j. elim j [ text _ ↦ true | _ ↦ false ];
  valuestring = λ j. elim j [ text s ↦ s | _ ↦ "" ];
}

abbrev plain_writer : Writer plain_json
plain_writer = record {
  text = text;
  number = number;
  bool = boolean;
  object = λ m. object (of_list m);
  is_string-text = λ s. refl;
  valuestring-text = λ s. refl;
  is_number-number = λ n. refl;
  valueint-number = λ n. refl;
  is_bool-bool = λ b. refl;
  is_true-bool = λ b. refl;
  is_object-object = λ m. refl;
  members-object = to_list-of_list;
}

abbrev client_file : Option Json
client_file = some (
    object
      (field "listen" (text "127.0.0.1:1080") (field "kcp_connect" (text "server:4000") no_field)))

abbrev client_read : Config
client_read = record client { mode = mode_of client }

client_file_read : conf_read plain_json client_file ≡ some client_read
unfolding conf_read jutil_walk_object walk_members main_scope_cb kcp_scope_cb tcp_scope_cb
    udp_scope_cb conf_check conf_default ranges_ok range_check_int
client_file_read = refl

client_read-IsUsable : IsUsable client_read
client_read-IsUsable = IsUsable-mode (mode_of client) ((conf_check_iff client).0 client_accepted)

conf_read-conf_write_example :
    conf_read plain_json (some (conf_write plain_json plain_writer client_read)) ≡ some client_read
unfolding conf_default mode_of
conf_read-conf_write_example =
    conf_read-conf_write plain_json plain_writer client_read client_read-IsUsable refl

-- A filter that never errs: the list of what was added.
abbrev pub has : List Nonce → Nonce → Bool
has [] x = false
has (y ∷ ys) x = bytes_eq y x || has ys x

pub has-add_self : (x : Nonce) (b : List Nonce) → has (x ∷ b) x ≡ true
has-add_self x b = ground (arith, bytes_eq_refl x)

pub has-add_keeps : (b : List Nonce) (x y : Nonce) → has b y ≡ true → has (x ∷ b) y ≡ true
has-add_keeps b x y h = ground arith

abbrev pub exact : Bloom
exact = record {
  Filter = List Nonce;
  init = λ _ _. some [];
  add = λ b x. (has b x, x ∷ b);
  check = has;
  reset = λ _. [];
  check-add_self = λ b x. has-add_self x b;
  check-add_keeps = has-add_keeps;
  add_reports = λ b x h. h;
}

-- Three nonces are held by each filter.
abbrev pub generator : Noncegen (List Nonce)
generator = record {
  method = counter;
  ppbloom = record { bloom0 = []; bloom1 = []; count0 = 2; count1 = 0; entries = 3; current = 0 };
  buf = 0 ∷ 0 ∷ [];
}

replay_refused_example :
    (noncegen_verify exact
      (verify_all exact (noncegen_verify exact generator (1 ∷ [])).1 ((2 ∷ []) ∷ (3 ∷ []) ∷ []))
      (1 ∷ [])).0
    ≡ false
replay_refused_example =
    replay_refused exact generator (1 ∷ []) ((2 ∷ []) ∷ (3 ∷ []) ∷ []) (ground arith) (omega arith)
