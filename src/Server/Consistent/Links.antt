-- ===== src/Server/Consistent/Links.antt =====
-- A redemption of a link code (arqs-server/app/main.py) keeps the constraints.
use arqs.Server.Consistent.Requests.{transaction-IsConsistent}
use arqs.Http.{◌>>◌, err, ok, Result}
use arqs.Server.Consistent.Updates.{update_codes-IsConsistent}
use arqs.Server.Consistent.{IsConsistent}
use arqs.Server.Consistent.Inserts.{add_link-IsConsistent, add_routes-IsConsistent, IsRoute}
use arqs.Models.{
  b_to_a, CodeStatus, a_to_b, bidirectional, Db, Link, LinkMode, Node, Endpoint, LinkCode,
}
use arqs.Services.{
  ensure_node_owns_endpoint, ensure_node_active, get_endpoint, resolve_redeem_routes,
}
use arqs.Server.Links.{
  set_code_status, source_unavailable, redeem_checked, claim, connect, redeem_code,
  redeem_link_code, new_routes,
}
use arqs.Prelude.{
  false, none, inr, has_row-is_some, ==_refl, inl, has_row-insert_new, leb, str_eq, Bool-cases,
  arith, find_row, refl, [], some, subst, Option, ◌∷◌, ◌++◌, true, ◌==◌, All, has_row, String, List,
  ℕ, ◌≡◌,
}

new_routes-IsRoute :
    (now link_id : ℕ) (ids : List ℕ) (pairs : List (ℕ × ℕ)) (endpoints : List Endpoint)
    (links : List Link)
    → All
        (λ p.
          (has_row (λ e. e.endpoint_id == p.0) endpoints ≡ true)
          × (has_row (λ e. e.endpoint_id == p.1) endpoints ≡ true))
        pairs
    → has_row (λ k. k.link_id == link_id) links ≡ true
    → All (IsRoute endpoints links) (new_routes now link_id ids pairs)
unfolding new_routes
new_routes-IsRoute now link_id [] [] es ls ends known = tt
new_routes-IsRoute now link_id [] (p ∷ ps) es ls ends known = tt
new_routes-IsRoute now link_id (id ∷ ids) [] es ls ends known = tt
new_routes-IsRoute now link_id (id ∷ ids) ((a, b) ∷ ps) es ls ends known =
    ((ends.0.0, ends.0.1, known), new_routes-IsRoute now link_id ids ps es ls ends.1 known)

resolve_redeem_routes-stored :
    (endpoints : List Endpoint) (source dest : ℕ) (mode : LinkMode)
    → has_row (λ e. e.endpoint_id == source) endpoints ≡ true
    → has_row (λ e. e.endpoint_id == dest) endpoints ≡ true
    → All
        (λ p.
          (has_row (λ e. e.endpoint_id == p.0) endpoints ≡ true)
          × (has_row (λ e. e.endpoint_id == p.1) endpoints ≡ true))
        (resolve_redeem_routes source dest mode)
unfolding resolve_redeem_routes
resolve_redeem_routes-stored es source dest bidirectional s d = ((s, d), ((d, s), tt))
resolve_redeem_routes-stored es source dest a_to_b s d = ((s, d), tt)
resolve_redeem_routes-stored es source dest b_to_a s d = ((d, s), tt)

module _ (now link_id : ℕ) (route_ids : List ℕ) (code : LinkCode) (dest_id : ℕ) (db : Db)
    (dest : has_row (λ e. e.endpoint_id == dest_id) db.endpoints ≡ true)
    (new_link : has_row (λ l. l.link_id == link_id) db.links ≡ false) (c : IsConsistent db) where
  -- The database after the two inserts.
  abbrev connected : Link → Db
  connected link = record db {
    links = db.links ++ link ∷ [];
    routes =
        db.routes
        ++ new_routes now link.link_id route_ids
            (resolve_redeem_routes code.source_endpoint_id dest_id code.requested_mode);
  }

  connected-IsConsistent :
      (link : Link)
      → link.endpoint_a_id ≡ code.source_endpoint_id
      → link.endpoint_b_id ≡ dest_id
      → link.link_id ≡ link_id
      → has_row (λ e. e.endpoint_id == code.source_endpoint_id) db.endpoints ≡ true
      → IsConsistent (connected link)
  connected-IsConsistent link a b named source =
      let grown : Db = record db { links = db.links ++ link ∷ [] } in
      add_routes-IsConsistent
        (new_routes now link.link_id route_ids
          (resolve_redeem_routes code.source_endpoint_id dest_id code.requested_mode))
        grown
        (new_routes-IsRoute now link.link_id route_ids _ grown.endpoints grown.links
          (resolve_redeem_routes-stored db.endpoints code.source_endpoint_id dest_id
            code.requested_mode source dest)
          (has_row-insert_new (λ (k : Link). k.link_id == link.link_id) db.links link
            (==_refl link.link_id)))
        (add_link-IsConsistent link db (rw a source) (rw b dest) (rw named new_link) c)

  pub connect-IsConsistent :
      (l : Link) (db' : Db)
      → connect now link_id route_ids code dest_id db ≡ ok (l, db')
      → IsConsistent db'
  unfolding connect
  connect-IsConsistent l db' h = subst IsConsistent (ground arith) (
      connected-IsConsistent l (ground arith) (ground arith) (ground arith) (
        unfold source_unavailable get_endpoint in
        (ground
          (arith, has_row-is_some (λ f. f.endpoint_id == code.source_endpoint_id) db.endpoints))))

pub claim-IsConsistent :
    (link_code_id : ℕ) (db : Db) → IsConsistent db → IsConsistent (claim link_code_id db).1
unfolding claim
claim-IsConsistent link_code_id db c =
    update_codes-IsConsistent _ (λ k. record k { status = CodeStatus.used }) db (λ k. refl)
      (λ k. refl) c

redeem_code-IsConsistent :
    (now link_id : ℕ) (route_ids : List ℕ) (dest_id : ℕ) (code : Option LinkCode) (at_write : Db)
    → has_row (λ e. e.endpoint_id == dest_id) at_write.endpoints ≡ true
    → has_row (λ l. l.link_id == link_id) at_write.links ≡ false
    → IsConsistent at_write
    → IsConsistent (redeem_code now link_id route_ids dest_id code at_write).1
unfolding redeem_code
redeem_code-IsConsistent now link_id route_ids dest_id none at_write dest new_link c = c
redeem_code-IsConsistent now link_id route_ids dest_id (some code) at_write dest new_link c =
    elim (Bool-cases (leb code.expires_at now)) [
      | inl e ↦ rw e (
          unfold set_code_status in
          (update_codes-IsConsistent (λ k. k.link_code_id == code.link_code_id)
            (λ k. record k { status = CodeStatus.expired }) at_write (λ k. refl) (λ k. refl) c))
      | inr e ↦
          transaction-IsConsistent (redeem_code now link_id route_ids dest_id (some code) at_write)
            at_write
            (λ l db' h.
              connect-IsConsistent now link_id route_ids code dest_id
                (claim code.link_code_id at_write).1 (unfold claim in dest)
                (unfold claim in new_link) (claim-IsConsistent code.link_code_id at_write c) l db'
                (ground arith))
            (λ x db' h. ground arith) c
    ]

-- The writes go to `at_write`; the destination is stored there, as its foreign key asks.
pub redeem_link_code-IsConsistent :
    (now link_id : ℕ) (route_ids : List ℕ) (code : String) (dest_id : ℕ) (node : Node)
    (db at_write : Db)
    → has_row (λ e. e.endpoint_id == dest_id) at_write.endpoints ≡ true
    → has_row (λ l. l.link_id == link_id) at_write.links ≡ false
    → IsConsistent at_write
    → IsConsistent (redeem_link_code now link_id route_ids code dest_id node db at_write).1
unfolding redeem_link_code redeem_checked
redeem_link_code-IsConsistent now link_id route_ids code dest_id node db at_write dest new_link c =
    checked (do ensure_node_active node; ensure_node_owns_endpoint db node.node_id dest_id)
  where
    checked :
        (r : Result Endpoint)
        → IsConsistent
            (redeem_checked r
              (redeem_code now link_id route_ids dest_id
                (find_row (λ c. str_eq c.code code) db.link_codes))
              at_write).1
    checked (err x) = c
    checked (ok e) =
        redeem_code-IsConsistent now link_id route_ids dest_id _ at_write dest new_link c
