-- ===== src/Server/Links/Redeem.antt =====
-- A link code is redeemed once, also when two requests have read it as active.
use arqs.Prelude.{
  ℕ, ◌≡◌, refl, Bool, true, false, ◌&&◌, some, List, [], ◌∷◌, ◌==◌, arith, has_row, update_rows,
}
use arqs.Http.{Result, ok, err}
use arqs.Models.{Endpoint, Link, LinkCode, CodeStatus, Db, is_active_code}
use arqs.Server.Links.{redeem_code, redeem_checked, claim, connect}

abbrev pub is_error {ℓ} : {A : Type ℓ} → Result A → Bool
is_error (ok a) = false
is_error (err e) = true

-- The code with this id is not active any more.
abbrev pub IsClaimed : ℕ → Db → Type 0
IsClaimed link_code_id db = (claim link_code_id db).0 ≡ false

abbrev pub is_open : ℕ → LinkCode → Bool
is_open link_code_id c = (c.link_code_id == link_code_id) && is_active_code c.status

used_not_open :
    (link_code_id : ℕ) (codes : List LinkCode)
    → has_row
        (is_open link_code_id)
        (update_rows (is_open link_code_id) (λ c. record c { status = CodeStatus.used }) codes)
      ≡ false
used_not_open link_code_id [] = refl
used_not_open link_code_id (c ∷ codes) = ground (arith, used_not_open link_code_id codes)

pub claim-IsClaimed :
    (link_code_id : ℕ) (db : Db) → IsClaimed link_code_id (claim link_code_id db).1
unfolding claim
claim-IsClaimed link_code_id db = used_not_open link_code_id db.link_codes

pub connect-link_codes :
    (now link_id : ℕ) (route_ids : List ℕ) (code : LinkCode) (dest_id : ℕ) (db : Db) (link : Link)
    (db' : Db)
    → connect now link_id route_ids code dest_id db ≡ ok (link, db')
    → db'.link_codes ≡ db.link_codes
unfolding connect
connect-link_codes now link_id route_ids code dest_id db link db' h = ground arith

IsClaimed-connect :
    (now link_id : ℕ) (route_ids : List ℕ) (code : LinkCode) (dest_id : ℕ) (db : Db) (link : Link)
    (db' : Db)
    → connect now link_id route_ids code dest_id (claim code.link_code_id db).1 ≡ ok (link, db')
    → IsClaimed code.link_code_id db'
unfolding claim
IsClaimed-connect now link_id route_ids code dest_id db link db' h =
    rw
      (connect-link_codes now link_id route_ids code dest_id (claim code.link_code_id db).1 link db'
        h)
      (claim-IsClaimed code.link_code_id db)

-- A redemption that succeeds has claimed the code.
pub redeem_code-IsClaimed :
    (now link_id : ℕ) (route_ids : List ℕ) (dest_id : ℕ) (code : LinkCode) (at_write : Db)
    (link : Link) (db' : Db)
    → redeem_code now link_id route_ids dest_id (some code) at_write ≡ (ok link, db')
    → IsClaimed code.link_code_id db'
unfolding redeem_code
redeem_code-IsClaimed now link_id route_ids dest_id code at_write link db' h =
    ground (arith, IsClaimed-connect now link_id route_ids code dest_id at_write link db')

-- A code that is claimed is refused, whatever the reader saw.
pub redeem_code-claimed :
    (now link_id : ℕ) (route_ids : List ℕ) (dest_id : ℕ) (code : LinkCode) (at_write : Db)
    → IsClaimed code.link_code_id at_write
    → is_error (redeem_code now link_id route_ids dest_id (some code) at_write).0 ≡ true
unfolding redeem_code
redeem_code-claimed now link_id route_ids dest_id code at_write h = ground arith

pub redeem_checked-ok :
    (r : Result Endpoint) (rest : Db → Result Link × Db) (at_write : Db) (link : Link) (db' : Db)
    → redeem_checked r rest at_write ≡ (ok link, db')
    → rest at_write ≡ (ok link, db')
unfolding redeem_checked
redeem_checked-ok (err e) rest at_write link db' h = cc
redeem_checked-ok (ok e) rest at_write link db' h = h

pub redeem_checked-is_error :
    (r : Result Endpoint) (rest : Db → Result Link × Db) (at_write : Db)
    → is_error (rest at_write).0 ≡ true
    → is_error (redeem_checked r rest at_write).0 ≡ true
unfolding redeem_checked
redeem_checked-is_error (err e) rest at_write h = refl
redeem_checked-is_error (ok e) rest at_write h = h
