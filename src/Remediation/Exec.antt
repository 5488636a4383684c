-- ===== src/Remediation/Exec.antt =====
-- Actions on the database that may raise.
use tradeops_sentinel.Remediation.Result.{Error, Result, err, ok}
use tradeops_sentinel.Remediation.Tables.{Db}

-- An action on the database. Each store method is one transaction, so what it committed stays when a
-- later step raises.
abbrev pub Exec : Type 0 → Type 0
Exec A = Db → Result A × Db

abbrev pub continue : {A B : Type 0} → Result A → (A → Exec B) → Exec B
continue (ok a) f db = f a db
continue (err e) f db = (err e, db)

abbrev pub pure : {A : Type 0} → A → Exec A
pure a db = (ok a, db)

abbrev pub raise : {A : Type 0} → Error → Exec A
raise e db = (err e, db)

abbrev pub lift : {A : Type 0} → Result A → Exec A
lift r db = (r, db)

abbrev pub gets : {A : Type 0} → (Db → A) → Exec A
gets f db = (ok (f db), db)

infixl 5 ◌>>=◌ ◌>>◌
abbrev pub ◌>>=◌ : {A B : Type 0} → Exec A → (A → Exec B) → Exec B
◌>>=◌ m f db = let (r, db') = m db in continue r f db'

abbrev pub ◌>>◌ : {B : Type 0} → Exec (Unit {0}) → Exec B → Exec B
m >> k = m >>= λ _. k
