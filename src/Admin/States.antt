-- ===== src/Admin/States.antt =====
-- What the state of a node (arqs-server/app/admin_services.py) means for its requests.
use arqs.Admin.{answer, set_node_status}
use arqs.Models.{mem_id, Db, Node}
use arqs.Http.{node_revoked, node_disabled, err, ok, Result, NodeStatus}
use arqs.Auth.{verify_api_key, text_eq, extract_key_id, Text, Crypto, authenticate_node}
use arqs.Prelude.{
  ==_refl, ap, ◌∙◌, Option-cases, ◌==◌, refl, [], inr, false, subst, arith, inl, true, Bool-cases,
  ◌∷◌, if◌then◌else◌, update_rows, some, find_row, ℕ, List, Bool, ◌≡◌,
}

module _ {ℓ} {A : Type ℓ} (p : A → Bool) (f : A → A) where
  -- A search that reads nothing of what is updated finds the same row, updated if it is one of them.
  find_row-update :
      (q : A → Bool) (xs : List A) (x : A)
      → ((y : A) → q (f y) ≡ q y)
      → find_row q xs ≡ some x
      → find_row q (update_rows p f xs) ≡ some (if p x then f x else x)
  find_row-update q [] x same h = cc
  find_row-update q (y ∷ ys) x same h = elim (Bool-cases (q y)) [
    | inl b ↦
        let here : y ≡ x = ground arith in
        subst (λ z. find_row q (update_rows p f (y ∷ ys)) ≡ some (if p z then f z else z)) here
          (elim (Bool-cases (p y)) [ inl c ↦ rw (c, same y, b) refl | inr c ↦ rw (c, b) refl ])
    | inr b ↦ ground (arith, find_row-update q ys x same, same y)
  ]

-- The answer to a request of a node in each state.
abbrev pub state_answer : NodeStatus → Node → Result Node
state_answer NodeStatus.active n = ok n
state_answer NodeStatus.disabled n = err node_disabled
state_answer NodeStatus.revoked n = err node_revoked

-- The row that authenticated, and the checks that it has passed.
record Authenticated (crypto : Crypto) (blacklist : List ℕ) (key : Text) (db : Db) (n : Node)
    : Type 0 where
  key_id : Text
  key_known : extract_key_id crypto key ≡ some key_id
  row : find_row (λ m. text_eq m.key_id key_id) db.nodes ≡ some n
  verified : verify_api_key crypto key n.api_key_hash ≡ true
  allowed : mem_id n.node_id blacklist ≡ false

authenticate_node-Authenticated :
    (crypto : Crypto) (blacklist : List ℕ) (key : Text) (db : Db) (n : Node)
    → authenticate_node crypto blacklist key db ≡ ok n
    → Authenticated crypto blacklist key db n
unfolding authenticate_node
authenticate_node-Authenticated crypto blacklist key db n h =
    elim (Option-cases (extract_key_id crypto key)) [
      | inl e ↦ absurd (ground arith)
      | inr (key_id, e) ↦ elim (Option-cases (find_row (λ m. text_eq m.key_id key_id) db.nodes)) [
        | inl f ↦ absurd (ground arith)
        | inr (m, f) ↦
            let same : m ≡ n = ground arith in
            record {
              key_id = key_id;
              key_known = e;
              row = f ∙ ap some same;
              verified = ground arith;
              allowed = ground arith;
            }
      ]
    ]

-- A key that finds the row is answered by the row's state.
authenticate_node-state :
    (crypto : Crypto) (blacklist : List ℕ) (key key_id : Text) (db : Db) (n : Node)
    (status : NodeStatus)
    → extract_key_id crypto key ≡ some key_id
    → find_row (λ m. text_eq m.key_id key_id) db.nodes ≡ some (record n { status = status })
    → verify_api_key crypto key n.api_key_hash ≡ true
    → mem_id n.node_id blacklist ≡ false
    → authenticate_node crypto blacklist key db ≡ state_answer status (record n { status = status })
unfolding authenticate_node
authenticate_node-state crypto blacklist key key_id db n NodeStatus.active e f v m =
    rw (e, f, v, m) refl
authenticate_node-state crypto blacklist key key_id db n NodeStatus.disabled e f v m =
    rw (e, f, v) refl
authenticate_node-state crypto blacklist key key_id db n NodeStatus.revoked e f v m =
    rw (e, f, v) refl

-- An operator's change of a node's state decides what the keys of the node are answered from then on: a key
-- that authenticated the node is refused as disabled or as revoked, or, in the state active,
-- authenticates the node as before with its new state.
pub authenticate_node-set_node_status :
    (crypto : Crypto) (blacklist : List ℕ) (key : Text) (db db' : Db) (n : Node)
    (status : NodeStatus)
    → authenticate_node crypto blacklist key db ≡ ok n
    → set_node_status n.node_id status db ≡ answer db'
    → authenticate_node crypto blacklist key db'
      ≡ state_answer status (record n { status = status })
unfolding set_node_status
authenticate_node-set_node_status crypto blacklist key db db' n status h k =
    let a = authenticate_node-Authenticated crypto blacklist key db n h in
    let set : Db = record db {
      nodes =
          update_rows (λ m. m.node_id == n.node_id) (λ m. record m { status = status }) db.nodes;
    } in
    let written : set ≡ db' = ground arith in
    let found =
      find_row-update (λ m. m.node_id == n.node_id) (λ m. record m { status = status })
        (λ m. text_eq m.key_id a.key_id) db.nodes n (λ m. refl) a.row in
    subst
      (λ d.
        authenticate_node crypto blacklist key d
        ≡ state_answer status (record n { status = status }))
      written
      (authenticate_node-state crypto blacklist key a.key_id set n status a.key_known
        (found ∙ rw (==_refl n.node_id) refl) a.verified a.allowed)
