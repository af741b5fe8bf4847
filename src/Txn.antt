-- ===== src/Txn.antt =====
-- A session of arqs-server/app/db.py: what was not committed when an error is raised is rolled back.
use arqs.Http.{Result, ok, err}
use arqs.Models.{Db}

abbrev pub atomically {ℓ} : {A : Type ℓ} → Db → Result (A × Db) → Result A × Db
atomically db (ok (a, db')) = (ok a, db')
atomically db (err e) = (err e, db)
