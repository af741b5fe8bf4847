-- ===== src/Auth.antt =====
-- API keys, arqs-server/app/auth.py. A text is the list of its characters' codes and bytes are a list
-- of numbers. PBKDF2, base64, `int` and `uuid.UUID` are parameters.
pub mod Keys
use arqs.Prelude.{
  ℕ, Bool, true, false, not, ◌&&◌, ◌||◌, Option, none, some, List, [], ◌∷◌, ◌++◌, ◌==◌, leb,
  if◌then◌else◌, has_row, find_row,
}
use arqs.Http.{
  NodeStatus, active, disabled, revoked, Result, ok, err, ◌>>=◌, ◌>>◌, refuse_if, missing_api_key,
  invalid_api_key, node_disabled, node_revoked, node_blacklisted,
}
use arqs.Models.{Node, Db, mem_id}

abbrev pub Text : Type 0
Text = List ℕ

-- What the code relies on of the libraries. `int` and base64 decoding fail on malformed text.
pub record Crypto : Type 0 where
  pub pbkdf2 : Text → List ℕ → ℕ → List ℕ
  pub b64encode : List ℕ → Text
  pub b64decode : Text → Option (List ℕ)
  pub int_text : ℕ → Text
  pub parse_int : Text → Option ℕ
  pub is_uuid : Text → Bool

abbrev pub underscore : ℕ
underscore = 95

abbrev pub dollar : ℕ
dollar = 36

-- "arqs"
abbrev pub arqs_text : Text
arqs_text = 97 ∷ 114 ∷ 113 ∷ 115 ∷ []

-- "pbkdf2_sha256"
abbrev pub scheme_text : Text
scheme_text = 112 ∷ 98 ∷ 107 ∷ 100 ∷ 102 ∷ 50 ∷ 95 ∷ 115 ∷ 104 ∷ 97 ∷ 50 ∷ 53 ∷ 54 ∷ []

abbrev pub pbkdf2_iterations : ℕ
pbkdf2_iterations = 390000

abbrev between : ℕ → ℕ → ℕ → Bool
between a b c = leb a c && leb c b

-- str.isspace, which `strip` removes
abbrev pub is_space : ℕ → Bool
is_space c =
    between 9 13 c
    || between 28 32 c
    || (c == 133)
    || (c == 160)
    || (c == 5760)
    || between 8192 8202 c
    || (c == 8232)
    || (c == 8233)
    || (c == 8239)
    || (c == 8287)
    || (c == 12288)

unfoldable pub text_eq : Text → Text → Bool
text_eq [] [] = true
text_eq (x ∷ xs) (y ∷ ys) = (x == y) && text_eq xs ys
text_eq _ _ = false

unfoldable pub strip_left : Text → Text
strip_left [] = []
strip_left (c ∷ cs) = let rest = strip_left cs in if is_space c then rest else c ∷ cs

unfoldable pub keep : Bool → ℕ → Text → Text
keep true c [] = []
keep space c rest = c ∷ rest

unfoldable pub strip_right : Text → Text
unfolding keep
strip_right [] = []
strip_right (c ∷ cs) = keep (is_space c) c (strip_right cs)

unfoldable pub strip : Text → Text
unfolding strip_left strip_right
strip cs = strip_right (strip_left cs)

-- The text before the first separator and the text after it.
unfoldable pub split_once : ℕ → Text → Option (Text × Text)
split_once sep [] = none
split_once sep (c ∷ cs) =
    let rest = split_once sep cs in
    if c == sep then some ([], cs) else elim rest [ none ↦ none | some (a, b) ↦ some (c ∷ a, b) ]

abbrev pub is_empty_text : Text → Bool
is_empty_text [] = true
is_empty_text (c ∷ cs) = false

module _ (crypto : Crypto) where
  unfoldable pub check_key_id : Text → Option (Text × Text) → Option Text
  check_key_id head none = none
  check_key_id head (some (key_id, secret)) =
      if not (text_eq head arqs_text)
      then none
      else if is_empty_text key_id || is_empty_text secret
      then none
      else if crypto.is_uuid key_id
      then some key_id
      else none

  unfoldable pub check_head : Option (Text × Text) → Option Text
  unfolding check_key_id split_once
  check_head none = none
  check_head (some (head, rest)) = check_key_id head (split_once underscore rest)

  -- "arqs_" at the start is the text "arqs" before the first underscore; `split("_", 2)` splits at
  -- the first two.
  unfoldable pub extract_key_id : Text → Option Text
  unfolding check_head split_once strip
  extract_key_id api_key = check_head (split_once underscore (strip api_key))

  -- The secret of 32 random bytes is an argument.
  unfoldable pub generate_api_key : Text → Text → Text
  generate_api_key key_id secret =
      let rest : Text = key_id ++ underscore ∷ secret in arqs_text ++ underscore ∷ rest

  unfoldable pub hash_api_key : List ℕ → Text → Text
  hash_api_key salt api_key =
      let digest = crypto.b64encode (crypto.pbkdf2 api_key salt pbkdf2_iterations) in
      let salt_and_digest : Text = crypto.b64encode salt ++ dollar ∷ digest in
      let rest : Text = crypto.int_text pbkdf2_iterations ++ dollar ∷ salt_and_digest in
      scheme_text ++ dollar ∷ rest

  unfoldable pub with_salt : Text → Text → Option (Text × Text) → Option (Text × Text × Text × Text)
  with_salt scheme iterations none = none
  with_salt scheme iterations (some (salt, digest)) = some (scheme, iterations, salt, digest)

  unfoldable pub with_iterations : Text → Option (Text × Text) → Option (Text × Text × Text × Text)
  unfolding with_salt split_once
  with_iterations scheme none = none
  with_iterations scheme (some (iterations, rest)) =
      with_salt scheme iterations (split_once dollar rest)

  unfoldable pub with_scheme : Option (Text × Text) → Option (Text × Text × Text × Text)
  unfolding with_iterations split_once
  with_scheme none = none
  with_scheme (some (scheme, rest)) = with_iterations scheme (split_once dollar rest)

  -- stored.split("$", 3), which must give four parts
  unfoldable pub split_hash : Text → Option (Text × Text × Text × Text)
  unfolding with_scheme split_once
  split_hash stored = with_scheme (split_once dollar stored)

  unfoldable pub compare_hash : Text → Option ℕ → Option (List ℕ) → Option (List ℕ) → Bool
  unfolding text_eq
  compare_hash api_key (some iterations) (some salt) (some expected) =
      text_eq (crypto.pbkdf2 api_key salt iterations) expected
  compare_hash api_key _ _ _ = false

  unfoldable pub verify_parts : Text → Option (Text × Text × Text × Text) → Bool
  unfolding compare_hash text_eq
  verify_parts api_key none = false
  verify_parts api_key (some (scheme, iterations, salt, digest)) =
      if text_eq scheme scheme_text
      then compare_hash api_key (crypto.parse_int iterations) (crypto.b64decode salt)
          (crypto.b64decode digest)
      else false

  unfoldable pub verify_api_key : Text → Text → Bool
  unfolding verify_parts split_hash
  verify_api_key api_key stored = verify_parts api_key (split_hash stored)

  unfoldable pub check_known : Option Node → Result Node
  check_known none = err invalid_api_key
  check_known (some node) = ok node

  unfoldable pub check_key : Option Text → Result Text
  check_key none = err invalid_api_key
  check_key (some key_id) = ok key_id

  abbrev pub is_disabled : NodeStatus → Bool
  is_disabled disabled = true
  is_disabled _ = false

  abbrev pub is_revoked : NodeStatus → Bool
  is_revoked revoked = true
  is_revoked _ = false

  -- `blacklist` is blacklist.node_ids of the configuration.
  unfoldable pub authenticate_node : List ℕ → Text → Db → Result Node
  unfolding extract_key_id verify_api_key check_known check_key text_eq
  authenticate_node blacklist api_key db = do
    key_id ← check_key (extract_key_id api_key)
    node ← check_known (find_row (λ n. text_eq n.key_id key_id) db.nodes)
    refuse_if (not (verify_api_key api_key node.api_key_hash)) invalid_api_key
    refuse_if (is_disabled node.status) node_disabled
    refuse_if (is_revoked node.status) node_revoked
    refuse_if (mem_id node.node_id blacklist) node_blacklisted
    ok node
