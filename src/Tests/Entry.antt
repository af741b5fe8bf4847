-- ===== src/Tests/Entry.antt =====
-- Address rules and keys, with small stand-ins for the libraries.
use arqs.Admin.States.{authenticate_node-set_node_status}
use arqs.Server.Identity.{register}
use arqs.Http.{node_revoked, err, NodeStatus}
use arqs.Prelude.{
  arith, has_row, ◌+◌, ◌-◌, ◌==◌, ap, ℕ, ◌++◌, ◌≡◌, refl, none, some, [], ◌∷◌, List, true, false,
}
use arqs.Http.{ok}
use arqs.Models.{Db, Node, empty_db}
use arqs.Access.{
  AccessConfig, AccessTables, dynamic, deny, allow, is_ip_allowed_cached, is_ip_allowed,
  load_snapshot,
}
use arqs.Access.Rules.{is_ip_allowed_cached-load_snapshot}
use arqs.Auth.{dollar, Crypto, generate_api_key, hash_api_key, authenticate_node, Text}
use arqs.Auth.Keys.{IsCrypto, IsKey, authenticate_node-register}

abbrev only_seven : AccessTables
only_seven = record {
  rules = record { ip = 7; action = allow; created_at = 1 } ∷ [];
  default_ip_policy = deny;
}

abbrev access_config : AccessConfig ℕ
access_config = record { ip_access_mode = dynamic; client_ips = 9 ∷ [] }

-- An address is its own text.
is_ip_allowed_cached-load_snapshot_example :
    is_ip_allowed_cached some
      (λ a. a)
      access_config
      (some (load_snapshot some (λ a. a) access_config only_seven))
      7
    ≡ is_ip_allowed some (λ a. a) access_config only_seven 7
is_ip_allowed_cached-load_snapshot_example =
    is_ip_allowed_cached-load_snapshot some (λ a. a) (λ a. refl) access_config only_seven 7
      (refl, tt)

-- Characters are shifted by 100 in the place of base64, and a number is written in unary.
shift : List ℕ → Text
shift [] = []
shift (b ∷ bs) = (b + 100) ∷ shift bs

unshift : Text → List ℕ
unshift [] = []
unshift (c ∷ cs) = (c - 100) ∷ unshift cs

unshift-shift : (bs : List ℕ) → unshift (shift bs) ≡ bs
unfolding shift unshift
unshift-shift [] = refl
unshift-shift (b ∷ bs) = ground (arith, unshift-shift bs)

shift-dollar : (bs : List ℕ) → has_row (λ c. c == dollar) (shift bs) ≡ false
unfolding shift
shift-dollar [] = refl
shift-dollar (b ∷ bs) = ground (arith, shift-dollar bs)

abbrev toy : Crypto
toy = record {
  pbkdf2 = λ key salt n. key ++ salt;
  b64encode = shift;
  b64decode = λ t. some (unshift t);
  int_text = λ n. (n + 100) ∷ [];
  parse_int = λ t. elim t [ [] ↦ none | c ∷ cs ↦ some (c - 100) ];
  is_uuid = λ t. true;
}

toy-IsCrypto : IsCrypto toy
toy-IsCrypto = record {
  b64decode-b64encode = λ bs. ap some (unshift-shift bs);
  b64encode-dollar = shift-dollar;
  parse_int-int_text = λ n. ap some (omega arith);
  int_text-dollar = λ n. ground arith;
}

-- The key id "a1" and the secret "xyz".
toy-IsKey : IsKey toy (97 ∷ 49 ∷ []) (120 ∷ 121 ∷ 122 ∷ [])
toy-IsKey = record {
  uuid = refl;
  id_there = refl;
  secret_there = refl;
  one_word = refl;
  no_underscore = refl;
}

abbrev toy_key : Text
toy_key = generate_api_key toy (97 ∷ 49 ∷ []) (120 ∷ 121 ∷ 122 ∷ [])

abbrev toy_hash : Text
toy_hash = hash_api_key toy (1 ∷ []) toy_key

abbrev registered : Db
registered = (register toy 5 1 10 (97 ∷ 49 ∷ []) (120 ∷ 121 ∷ 122 ∷ []) (1 ∷ []) none empty_db).1

authenticate_node-register_example :
    (node : Node) × (authenticate_node toy [] toy_key registered ≡ ok node)
    × (node.node_id ≡ 1)
    × (node.key_id ≡ 97 ∷ 49 ∷ [])
    × (node.node_name ≡ none)
    × (node.status ≡ NodeStatus.active)
unfolding register
authenticate_node-register_example =
    authenticate_node-register toy toy-IsCrypto 5 1 10 (97 ∷ 49 ∷ []) (120 ∷ 121 ∷ 122 ∷ [])
      (1 ∷ []) none [] empty_db
      (record { node_id = 1; api_key = toy_key; default_endpoint_id = 10 }) registered toy-IsKey
      refl refl refl

abbrev toy_node : Node
toy_node = record {
  node_id = 1;
  key_id = 97 ∷ 49 ∷ [];
  api_key_hash = toy_hash;
  node_name = none;
  created_at = 5;
  status = NodeStatus.active;
}

abbrev toy_db : Db
toy_db = record empty_db { nodes = toy_node ∷ [] }

toy_authenticated : authenticate_node toy [] toy_key toy_db ≡ ok toy_node
unfolding authenticate_node generate_api_key hash_api_key shift unshift
toy_authenticated = refl

authenticate_node-set_node_status_example :
    authenticate_node toy [] toy_key
      (record toy_db { nodes = record toy_node { status = NodeStatus.revoked } ∷ [] })
    ≡ err node_revoked
unfolding arqs.Admin.set_node_status
authenticate_node-set_node_status_example =
    authenticate_node-set_node_status toy [] toy_key toy_db
      (record toy_db { nodes = record toy_node { status = NodeStatus.revoked } ∷ [] }) toy_node
      NodeStatus.revoked toy_authenticated refl
