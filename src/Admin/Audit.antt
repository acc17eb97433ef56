-- ===== src/Admin/Audit.antt =====
-- What an audited handler leaves of the tables.
use masterportal_admin.Base.{
  String, [], ◌∷◌, ◌++◌, Result, ok, ◌>>=◌, >>=-eq-ok, ok-injective, ◌≡◌, sym, ap,
}
use masterportal_admin.Json.{Value, Fields}
use masterportal_admin.Db.{Db}
use masterportal_admin.Admin.{actor, audit}

-- The audit log grows by one row, and no other table changes.
abbrev pub logged : String → Value → String → String → Fields → Db → Db
logged ts who action target detail db = record db {
  audit_log =
      db.audit_log
      ++ record { ts = ts; actor = who; action = action; target = target; detail = detail } ∷ [];
}

abbrev pub finish : Value → Db → Result (Value × Db)
finish answer done = ok (answer, done)

-- A handler that ends with `_audit`, `commit` and a response has logged its tables.
pub audited :
    (ts : String) (claims : Fields) (action target : String) (detail : Fields) (db after : Db)
    (reply answer : Value)
    → (audit ts claims action target detail db >>= finish answer) ≡ ok (reply, after)
    → (who : Value) × (actor claims ≡ ok who) × (after ≡ logged ts who action target detail db)
unfolding audit
audited ts claims action target detail db after reply answer h =
    let (done, h1, h2) = >>=-eq-ok (audit ts claims action target detail db) _ h in
    let (who, h3, h4) = >>=-eq-ok (actor claims) _ h1 in
    let e : done ≡ logged ts who action target detail db = sym (ok-injective h4) in
    let e' : done ≡ after = ap (λ r. r.1) (ok-injective h2) in (who, h3, cc)
