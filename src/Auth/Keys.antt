-- ===== src/Auth/Keys.antt =====
-- A key that the server gives out is a key that it accepts.
use arqs.Prelude.{
  subst, ap, or→left, or→right, ℕ, ◌≡◌, refl, ◌∙◌, true, false, Option, some, List, [], ◌∷◌, ◌++◌,
  ◌==◌, String, has_row, find_row-insert_new, ==_refl, arith,
}
use arqs.Http.{Result, NodeStatus, ok}
use arqs.Models.{Node, Db, mem_id}
use arqs.Auth.{
  with_salt, with_iterations, verify_parts, with_scheme, Text, Crypto, underscore, dollar,
  arqs_text, scheme_text, pbkdf2_iterations, is_space, text_eq, strip, strip_left, strip_right,
  keep, split_once, is_empty_text, check_key_id, check_head, extract_key_id, generate_api_key,
  hash_api_key, split_hash, compare_hash, verify_api_key, check_known, check_key, authenticate_node,
}
use arqs.Server.Identity.{register, RegisterResponse}

-- What the libraries promise: decoding undoes encoding, and neither base64 nor a decimal number has
-- a dollar sign.
pub record IsCrypto (crypto : Crypto) : Type 0 where
  pub b64decode-b64encode : (bs : List ℕ) → crypto.b64decode (crypto.b64encode bs) ≡ some bs
  pub b64encode-dollar : (bs : List ℕ) → has_row (λ c. c == dollar) (crypto.b64encode bs) ≡ false
  pub parse_int-int_text : (n : ℕ) → crypto.parse_int (crypto.int_text n) ≡ some n
  pub int_text-dollar : (n : ℕ) → has_row (λ c. c == dollar) (crypto.int_text n) ≡ false

split_once-append :
    (sep : ℕ) (a b : Text)
    → has_row (λ c. c == sep) a ≡ false
    → split_once sep (a ++ sep ∷ b) ≡ some (a, b)
unfolding split_once
split_once-append sep [] b h = rw (==_refl sep) refl
split_once-append sep (c ∷ a) b h = ground (arith, split_once-append sep a b)

strip_left-id : (cs : Text) → has_row is_space cs ≡ false → strip_left cs ≡ cs
unfolding strip_left
strip_left-id [] h = refl
strip_left-id (c ∷ cs) h = rw (or→left (is_space c) (has_row is_space cs) h) refl

strip_right-id : (cs : Text) → has_row is_space cs ≡ false → strip_right cs ≡ cs
unfolding strip_right keep
strip_right-id [] h = refl
strip_right-id (c ∷ cs) h =
    rw
      (
        strip_right-id cs (or→right (is_space c) (has_row is_space cs) h),
        or→left (is_space c) (has_row is_space cs) h,
      )
      refl

strip-id : (cs : Text) → has_row is_space cs ≡ false → strip cs ≡ cs
unfolding strip
strip-id cs h = rw (strip_left-id cs h) (strip_right-id cs h)

text_eq_refl : (cs : Text) → text_eq cs cs ≡ true
unfolding text_eq
text_eq_refl [] = refl
text_eq_refl (c ∷ cs) = rw (==_refl c, text_eq_refl cs) refl

-- A key id and a secret that make a key: the id is a UUID, neither is empty or has a space, and the
-- id has no underscore.
pub record IsKey (crypto : Crypto) (key_id secret : Text) : Type 0 where
  pub uuid : crypto.is_uuid key_id ≡ true
  pub id_there : is_empty_text key_id ≡ false
  pub secret_there : is_empty_text secret ≡ false
  pub one_word : has_row is_space (key_id ++ underscore ∷ secret) ≡ false
  pub no_underscore : has_row (λ c. c == underscore) key_id ≡ false

module _ (crypto : Crypto) where
  check_key_id-IsKey :
      (key_id secret : Text)
      → IsKey crypto key_id secret
      → check_key_id crypto arqs_text (some (key_id, secret)) ≡ some key_id
  unfolding check_key_id
  check_key_id-IsKey key_id secret k =
      rw (text_eq_refl arqs_text, k.id_there, k.secret_there, k.uuid) refl

  -- The key id is found in the key that was made from it.
  pub extract_key_id-generate_api_key :
      (key_id secret : Text)
      → IsKey crypto key_id secret
      → extract_key_id crypto (generate_api_key crypto key_id secret) ≡ some key_id
  unfolding extract_key_id generate_api_key check_head
  extract_key_id-generate_api_key key_id secret k =
      let rest : Text = key_id ++ underscore ∷ secret in
      ap (λ t. check_head crypto (split_once underscore t))
        (strip-id (arqs_text ++ underscore ∷ rest) k.one_word)
      ∙ ap (check_head crypto) (split_once-append underscore arqs_text rest refl)
      ∙ ap (check_key_id crypto arqs_text)
          (split_once-append underscore key_id secret k.no_underscore)
      ∙ check_key_id-IsKey key_id secret k

  module _ (laws : IsCrypto crypto) where
    split_hash-hash_api_key :
        (salt : List ℕ) (key : Text)
        → split_hash crypto (hash_api_key crypto salt key)
          ≡ some (
            scheme_text,
            crypto.int_text pbkdf2_iterations,
            crypto.b64encode salt,
            crypto.b64encode (crypto.pbkdf2 key salt pbkdf2_iterations),
          )
    unfolding split_hash hash_api_key with_scheme with_iterations with_salt
    split_hash-hash_api_key salt key =
        let digest = crypto.b64encode (crypto.pbkdf2 key salt pbkdf2_iterations) in
        let tail : Text = crypto.b64encode salt ++ dollar ∷ digest in
        let iterations = crypto.int_text pbkdf2_iterations in
        ap (with_scheme crypto)
          (split_once-append dollar scheme_text (iterations ++ dollar ∷ tail) refl)
        ∙ ap (with_iterations crypto scheme_text)
            (split_once-append dollar iterations tail (laws.int_text-dollar pbkdf2_iterations))
        ∙ ap (with_salt crypto scheme_text iterations)
            (split_once-append dollar (crypto.b64encode salt) digest (laws.b64encode-dollar salt))

    -- A stored hash verifies the key that it was made from, whatever the salt.
    pub verify_api_key-hash_api_key :
        (salt : List ℕ) (key : Text)
        → verify_api_key crypto key (hash_api_key crypto salt key) ≡ true
    unfolding verify_api_key verify_parts compare_hash
    verify_api_key-hash_api_key salt key =
        ap (verify_parts crypto key) (split_hash-hash_api_key salt key)
        ∙ rw
            (
              text_eq_refl scheme_text,
              laws.parse_int-int_text pbkdf2_iterations,
              laws.b64decode-b64encode salt,
              laws.b64decode-b64encode (crypto.pbkdf2 key salt pbkdf2_iterations),
            )
            (text_eq_refl (crypto.pbkdf2 key salt pbkdf2_iterations))

    -- The key in the reply of a registration authenticates the new node: the key's id is a UUID and
    -- the id of no other node, the key is well-formed, decoding undoes encoding, and the node is not
    -- blacklisted.
    pub authenticate_node-register :
        (now node_id endpoint_id : ℕ) (key_id secret : Text) (salt : List ℕ) (name : Option String)
        (blacklist : List ℕ) (db : Db) (resp : RegisterResponse) (db' : Db)
        → IsKey crypto key_id secret
        → has_row (λ n. text_eq n.key_id key_id) db.nodes ≡ false
        → mem_id node_id blacklist ≡ false
        → register crypto now node_id endpoint_id key_id secret salt name db ≡ (ok resp, db')
        → (node : Node) × (authenticate_node crypto blacklist resp.api_key db' ≡ ok node)
          × (node.node_id ≡ resp.node_id)
          × (node.key_id ≡ key_id)
          × (node.node_name ≡ name)
          × (node.status ≡ NodeStatus.active)
    unfolding authenticate_node register check_known check_key
    authenticate_node-register now node_id endpoint_id key_id secret salt name blacklist db resp db'
          k fresh listed h =
        let api_key = generate_api_key crypto key_id secret in
        let node : Node = record {
          node_id = node_id;
          key_id = key_id;
          api_key_hash = hash_api_key crypto salt api_key;
          node_name = name;
          created_at = now;
          status = NodeStatus.active;
        } in
        let made : RegisterResponse = record {
          node_id = node_id;
          api_key = api_key;
          default_endpoint_id = endpoint_id;
        } in
        let replied : made ≡ resp = ground arith in
        let known : authenticate_node crypto blacklist api_key
              (register crypto now node_id endpoint_id key_id secret salt name db).1
            ≡ ok node =
          rw
            (
              extract_key_id-generate_api_key key_id secret k,
              find_row-insert_new (λ n. text_eq n.key_id key_id) db.nodes node fresh
                  (text_eq_refl key_id),
              verify_api_key-hash_api_key salt api_key,
              listed,
            )
            refl in
        (
          node,
          subst
              (λ (r : RegisterResponse). authenticate_node crypto blacklist r.api_key db' ≡ ok node)
              replied
              (subst
                (λ (r : Result RegisterResponse × Db).
                  authenticate_node crypto blacklist api_key r.1 ≡ ok node)
                h known),
          ap (λ (r : RegisterResponse). r.node_id) replied,
          refl,
          refl,
          refl,
        )
