-- ===== src/Server/Links/Once.antt =====
-- A link code is redeemed once, whatever the server does afterwards.
use arqs.Server.Identity.{register}
use arqs.Models.{Link, Node, Db, LinkCode}
use arqs.Server.Links.{redeem_link_code}
use arqs.Prelude.{true, str_eq, find_row, some, ◌==◌, String, false, ◌≡◌, List, ℕ}
use arqs.Server.Links.Redeem.{
  redeem_checked-is_error, redeem_checked-ok, is_error, redeem_code-IsClaimed, redeem_code-claimed,
}
use arqs.Server.Consistent.Steps.{
  cleaning, acknowledging, sending, revoking, redeeming, deleting, creating, leaving, rotating,
  registering, requesting, Step,
}
use arqs.Http.{ok}
use arqs.Server.Links.Closed.{
  Closed, Closed-IsClaimed, IsClaimed-Closed, acknowledging-Closed, cleaning-Closed,
  creating-Closed, deleting-Closed, leaving-Closed, redeeming-Closed, requesting-Closed,
  revoking-Closed, rotating-Closed, sending-Closed,
}

-- The step makes no link code with this id: a new uuid is no old one.
abbrev pub Avoids : ℕ → {db db' : Db} → Step db db' → Type 0
Avoids id (requesting now ttl k candidates source_id mode node unused) = (k == id) ≡ false
Avoids id _ = Unit

Step-Closed :
    (id : ℕ) {db db' : Db} (s : Step db db')
    → Avoids id s
    → Closed id db.link_codes
    → Closed id db'.link_codes
unfolding register
Step-Closed id (registering crypto now n e key secret salt name fn fe) new c = c
Step-Closed id (rotating crypto secret salt node) new c =
    rotating-Closed id _ c crypto secret salt node
Step-Closed id (leaving node) new c = leaving-Closed id _ c node
Step-Closed id (creating now e name kind meta node fresh owner) new c =
    creating-Closed id _ c now e name kind meta node
Step-Closed id (deleting now e node) new c = deleting-Closed id _ c now e node
Step-Closed id (requesting now ttl k candidates source mode node unused) new c =
    requesting-Closed id _ c now ttl k candidates source mode node new
Step-Closed id (redeeming now l ids code dest node view known unused) new c =
    redeeming-Closed id _ c now l ids code dest node view
Step-Closed id (revoking l node) new c = revoking-Closed id _ c l node
Step-Closed id (sending env node req views view unused) new c =
    sending-Closed id _ c env node req views view
Step-Closed id (acknowledging now req node) new c = acknowledging-Closed id _ c now req node
Step-Closed id (cleaning now settings) new c = cleaning-Closed id _ c now settings

-- What the server may have become after some steps, none of which makes a code with this id.
pub data Later (id : ℕ) (db : Db) : Db → Type 0 where
  at_once : Later id db db
  after : {db' db'' : Db} → Later id db db' → (s : Step db' db'') → Avoids id s → Later id db db''

Later-Closed :
    (id : ℕ) (db : Db) {db' : Db}
    → Later id db db'
    → Closed id db.link_codes
    → Closed id db'.link_codes
Later-Closed id db at_once c = c
Later-Closed id db (after l s new) c = Step-Closed id s new (Later-Closed id db l c)

-- Once a request has redeemed a code, every redemption of that code is refused, however many
-- requests and cleanups come in between: by any node, for any endpoint, at any time, and whether
-- the other request has read the code's row before or after the first one claimed it. No request in
-- between makes a new code with the old code's uuid.
pub redeem_link_code-once :
    (now link_id : ℕ) (route_ids : List ℕ) (code : String) (dest_id : ℕ) (node : Node)
    (db at_write : Db) (link : Link) (db' db'' : Db) (row : LinkCode) (now' link_id' : ℕ)
    (route_ids' : List ℕ) (code' : String) (dest_id' : ℕ) (node' : Node) (view : Db)
    (row' : LinkCode)
    → redeem_link_code now link_id route_ids code dest_id node db at_write ≡ (ok link, db')
    → find_row (λ c. str_eq c.code code) db.link_codes ≡ some row
    → Later row.link_code_id db' db''
    → find_row (λ c. str_eq c.code code') view.link_codes ≡ some row'
    → row'.link_code_id ≡ row.link_code_id
    → is_error (redeem_link_code now' link_id' route_ids' code' dest_id' node' view db'').0 ≡ true
unfolding redeem_link_code
redeem_link_code-once now link_id route_ids code dest_id node db at_write link db' db'' row now'
      link_id' route_ids' code' dest_id' node' view row' h found later found' same =
    let claimed =
      redeem_code-IsClaimed now link_id route_ids dest_id row at_write link db'
        (rw found at (redeem_checked-ok _ _ at_write link db' h)) in
    redeem_checked-is_error _ _ db'' (
      rw found' (
        redeem_code-claimed now' link_id' route_ids' dest_id' row' db'' (
          rw same (
            Closed-IsClaimed row.link_code_id db'' (
              Later-Closed row.link_code_id db' later
                (IsClaimed-Closed row.link_code_id db' claimed))))))
