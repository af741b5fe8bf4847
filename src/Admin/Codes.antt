-- ===== src/Admin/Codes.antt =====
-- The listing of the link codes (arqs-server/app/admin_services.py).
use arqs.Services.{effective_link_code_status}
use arqs.Models.{Db, LinkCode, CodeStatus}
use arqs.Admin.{answer, list_link_codes_admin, same_code_status, code_clause}
use arqs.Prelude.{
  [], refl, ◌∷◌, List, Bool, arith, select_rows, order_by_desc, take, map, some, false, ◌==◌, ℕ,
  ◌≡◌,
}

code_clause-effective :
    (now : ℕ) (status : CodeStatus) (c : LinkCode)
    → code_clause now status c ≡ same_code_status (effective_link_code_status now c) status
unfolding code_clause effective_link_code_status
code_clause-effective now CodeStatus.active c = ground arith
code_clause-effective now CodeStatus.used c = ground arith
code_clause-effective now CodeStatus.expired c = ground arith
code_clause-effective now CodeStatus.revoked c = ground arith

select_rows-congr {ℓ} :
    {A : Type ℓ} (p q : A → Bool) (xs : List A)
    → ((x : A) → p x ≡ q x)
    → select_rows p xs ≡ select_rows q xs
select_rows-congr p q [] h = refl
select_rows-congr p q (x ∷ xs) h = rw (h x, select_rows-congr p q xs h) refl

-- The codes that are listed under a status are exactly those that are shown with it, newest first, as many
-- as the limit allows: the clause of the query and the status that is computed for a row agree.
pub list_link_codes_admin-status :
    (now limit : ℕ) (status : CodeStatus) (db : Db)
    → (limit == 0) ≡ false
    → list_link_codes_admin now (some status) limit db
      ≡ answer (
          map
            (λ c. (c, effective_link_code_status now c))
            (take limit (
              order_by_desc
                (λ c. c.created_at)
                (select_rows
                  (λ c. same_code_status (effective_link_code_status now c) status)
                  db.link_codes))))
unfolding list_link_codes_admin
list_link_codes_admin-status now limit status db h =
    rw
      (
        h,
        select_rows-congr (code_clause now status) _ db.link_codes
            (λ c. code_clause-effective now status c),
      )
      refl
