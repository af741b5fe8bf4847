-- ===== src/Server/Links/Routes.antt =====
-- The routes that a link opens and that its revocation closes.
use arqs.Prelude.{
  str_eq, find_row, ℕ, ◌≡◌, refl, ◌∙◌, Bool, false, not, ◌&&◌, ◌||◌, Option, none, some, List, [],
  ◌∷◌, ◌++◌, String, ◌==◌, arith, has_row, has_row-update, has_row-append, update_rows,
}
use arqs.Http.{ok}
use arqs.Models.{
  Node, Link, LinkMode, bidirectional, a_to_b, b_to_a, LinkStatus, DirectedRoute, LinkCode, Db,
}
use arqs.Services.{active_route_exists, is_route, resolve_redeem_routes}
use arqs.Server.Links.{
  redeem_link_code, redeem_code, claim, connect, new_routes, revoke_link, created_by,
}
use arqs.Server.Links.Redeem.{redeem_checked-ok}

-- The pair is one of the directions.
abbrev pub is_direction : ℕ → ℕ → List (ℕ × ℕ) → Bool
is_direction x y [] = false
is_direction x y ((a, b) ∷ routes) = ((a == x) && (b == y)) || is_direction x y routes

-- What a connection adds to the link table and the route table.
record Connected (now link_id : ℕ) (route_ids : List ℕ) (code : LinkCode) (dest_id : ℕ)
    (routes : List DirectedRoute) (link : Link) (db' : Db) : Type 0 where
  from_source : link.endpoint_a_id ≡ code.source_endpoint_id
  to_dest : link.endpoint_b_id ≡ dest_id
  in_mode : link.mode ≡ code.requested_mode
  with_id : link.link_id ≡ link_id
  opened :
      db'.routes
      ≡ routes
        ++ new_routes now link_id route_ids
            (resolve_redeem_routes code.source_endpoint_id dest_id code.requested_mode)

connect-Connected :
    (now link_id : ℕ) (route_ids : List ℕ) (code : LinkCode) (dest_id : ℕ) (db : Db) (link : Link)
    (db' : Db)
    → connect now link_id route_ids code dest_id db ≡ ok (link, db')
    → Connected now link_id route_ids code dest_id db.routes link db'
unfolding connect
connect-Connected now link_id route_ids code dest_id db link db' h = ground arith

redeem_code-Connected :
    (now link_id : ℕ) (route_ids : List ℕ) (dest_id : ℕ) (code : LinkCode) (at_write : Db)
    (link : Link) (db' : Db)
    → redeem_code now link_id route_ids dest_id (some code) at_write ≡ (ok link, db')
    → Connected now link_id route_ids code dest_id at_write.routes link db'
unfolding redeem_code claim
redeem_code-Connected now link_id route_ids dest_id code at_write link db' h = ground (
  arith,
  connect-Connected now link_id route_ids code dest_id (claim code.link_code_id at_write).1 link
      db',
)

redeem_code-cases :
    (now link_id : ℕ) (route_ids : List ℕ) (dest_id : ℕ) (o : Option LinkCode) (at_write : Db)
    (link : Link) (db' : Db)
    → redeem_code now link_id route_ids dest_id o at_write ≡ (ok link, db')
    → (code : LinkCode) × (o ≡ some code)
      × Connected now link_id route_ids code dest_id at_write.routes link db'
unfolding redeem_code
redeem_code-cases now link_id route_ids dest_id none at_write link db' h = cc
redeem_code-cases now link_id route_ids dest_id (some code) at_write link db' h =
    (code, refl, redeem_code-Connected now link_id route_ids dest_id code at_write link db' h)

module _ (now link_id : ℕ) (route_ids : List ℕ) (code : String) (dest_id : ℕ) (node : Node)
    (db at_write : Db) (link : Link) (db' : Db)
    (redeemed : redeem_link_code now link_id route_ids code dest_id node db at_write
      ≡ (ok link, db')) where
  redeem_link_code-cases :
      (row : LinkCode) × (find_row (λ c. str_eq c.code code) db.link_codes ≡ some row)
      × Connected now link_id route_ids row dest_id at_write.routes link db'
  unfolding redeem_link_code
  redeem_link_code-cases =
      redeem_code-cases now link_id route_ids dest_id _ at_write link db'
        (redeem_checked-ok _ _ at_write link db' redeemed)

  link_id-redeemed : link.link_id ≡ link_id
  link_id-redeemed = redeem_link_code-cases.2.with_id

-- What a mode allows between the endpoint `a` that requested the code and the endpoint `b` that
-- redeems it.
abbrev pub opens : LinkMode → ℕ → ℕ → ℕ → ℕ → Bool
opens bidirectional a b x y = ((a == x) && (b == y)) || ((b == x) && (a == y))
opens a_to_b a b x y = (a == x) && (b == y)
opens b_to_a a b x y = (b == x) && (a == y)

routes-revoked :
    (link_id : ℕ) (node : Node) (db : Db) (id : ℕ) (db' : Db)
    → revoke_link link_id node db ≡ (ok id, db')
    → db'.routes
      ≡ update_rows (created_by link_id) (λ r. record r { status = LinkStatus.revoked }) db.routes
unfolding revoke_link
routes-revoked link_id node db id db' h = ground arith

-- A revocation that succeeds closes the routes that the link created, and no others: packets may
-- go from x to y exactly if an active route that the link did not create leads there.
pub revoke_link-routes :
    (link_id : ℕ) (node : Node) (db : Db) (id : ℕ) (db' : Db)
    → revoke_link link_id node db ≡ (ok id, db')
    → (x y : ℕ)
    → active_route_exists db' x y
      ≡ has_row (λ r. is_route x y r && not (created_by link_id r)) db.routes
unfolding active_route_exists
revoke_link-routes link_id node db id db' h x y = rw (routes-revoked link_id node db id db' h) (
    has_row-update (created_by link_id) (λ r. record r { status = LinkStatus.revoked })
      (is_route x y) db.routes (λ r e. ground arith))

other_routes :
    (link_id x y : ℕ) (routes : List DirectedRoute)
    → has_row (created_by link_id) routes ≡ false
    → has_row (λ r. is_route x y r && not (created_by link_id r)) routes
      ≡ has_row (is_route x y) routes
other_routes link_id x y [] h = refl
other_routes link_id x y (r ∷ routes) h = ground (arith, other_routes link_id x y routes)

new_routes-created_by :
    (now link_id : ℕ) (ids : List ℕ) (pairs : List (ℕ × ℕ)) (x y : ℕ)
    → has_row (λ r. is_route x y r && not (created_by link_id r)) (new_routes now link_id ids pairs)
      ≡ false
unfolding new_routes created_by
new_routes-created_by now link_id [] [] x y = refl
new_routes-created_by now link_id [] (p ∷ pairs) x y = refl
new_routes-created_by now link_id (i ∷ ids) [] x y = refl
new_routes-created_by now link_id (i ∷ ids) ((a, b) ∷ pairs) x y =
    ground (arith, new_routes-created_by now link_id ids pairs x y)

-- Revoking a link right after it was made, with a fresh link id, restores what every pair of
-- endpoints was allowed to send.
pub revoke_link-redeem_link_code :
    (now link_id : ℕ) (route_ids : List ℕ) (code : String) (dest_id : ℕ) (node node' : Node)
    (db at_write : Db) (link : Link) (db' : Db) (id : ℕ) (db'' : Db)
    → has_row (created_by link_id) at_write.routes ≡ false
    → redeem_link_code now link_id route_ids code dest_id node db at_write ≡ (ok link, db')
    → revoke_link link.link_id node' db' ≡ (ok id, db'')
    → (x y : ℕ) → active_route_exists db'' x y ≡ active_route_exists at_write x y
unfolding active_route_exists
revoke_link-redeem_link_code now link_id route_ids code dest_id node node' db at_write link db' id
      db'' fresh redeemed revoked x y =
    let made =
      redeem_link_code-cases now link_id route_ids code dest_id node db at_write link db'
        redeemed in
    let pairs = resolve_redeem_routes made.0.source_endpoint_id dest_id made.0.requested_mode in
    revoke_link-routes link.link_id node' db' id db'' revoked x y
    ∙ rw (made.2.with_id, made.2.opened)
        (has_row-append (λ r. is_route x y r && not (created_by link_id r)) at_write.routes
            (new_routes now link_id route_ids pairs)
          ∙ rw
              (
                other_routes link_id x y at_write.routes fresh,
                new_routes-created_by now link_id route_ids pairs x y,
              )
              (ground arith))
