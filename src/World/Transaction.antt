-- ===== src/World/Transaction.antt =====
-- go-pg's `RunInTransaction`: what the body did to the tables stays only if the body and the commit
-- succeed.
use kal.Base.{◌≡◌, ap, sym, ◌∙◌, subst}
use kal.Kalerr.{Result, ok, err, Failure}
use kal.Store.{Db}
use kal.World.{World, Action, Stmt, pure, exec, advance, ◌>>=◌, ◌>>◌}
use kal.World.Outcome.{exec-eq-ok, >>=-eq-ok, advance-db}

-- A statement that touches no table: BEGIN, COMMIT, set_config.
abbrev pub idle_stmt : Stmt (Unit {0})
idle_stmt now db = ok (tt, db)

abbrev pub rolled_back : {A : Type 0} → Db → Result A × World → Result A × World
rolled_back db (ok a, w) = (ok a, w)
rolled_back db (err e, w) = (err e, record w { db = db })

unfoldable pub run_in_transaction : {A : Type 0} → Action A → Action A
run_in_transaction body w =
    rolled_back w.db ((exec idle_stmt >> (body >>= λ a. exec idle_stmt >> pure a)) w)

rolled_back-err :
    {A : Type 0} (db : Db) (r : Result A) (v : World) {e : Failure} {w' : World}
    → rolled_back db (r, v) ≡ (err e, w')
    → w'.db ≡ db
rolled_back-err db (ok a) v h = absurd (cc h)
rolled_back-err db (err e) v {w' = w'} h = ap (λ (x : Result _ × World). x.1.db) (sym h)

rolled_back-ok :
    {A : Type 0} (db : Db) (r : Result A) (v : World) {a : A} {w' : World}
    → rolled_back db (r, v) ≡ (ok a, w')
    → ◌≡◌ {A = Result A × World} (r, v) (ok a, w')
rolled_back-ok db (ok b) v h = h
rolled_back-ok db (err e) v h = absurd (cc h)

same_tables : (d d' : Db) → ◌≡◌ {A = Result (Unit {0} × Db)} (ok (tt, d)) (ok (tt, d')) → d ≡ d'
same_tables d d' h = cc h

pub idle-db : (w : World) {a : Unit {0}} {w' : World} → exec idle_stmt w ≡ (ok a, w') → w'.db ≡ w.db
idle-db w {w' = w'} h =
    let (db, e, q) = exec-eq-ok idle_stmt w h in
    ap (λ (v : World). v.db) q ∙ sym (same_tables (advance w).db db e) ∙ advance-db w

pure-pair : {A : Type 0} (b a : A) (w w' : World) → pure b w ≡ (ok a, w') → (b ≡ a) × (w ≡ w')
pure-pair b a w w' h = (cc h, cc h)

-- A transaction that fails has changed no table.
pub run_in_transaction-err :
    {A : Type 0} (body : Action A) (w : World) {e : Failure} {w' : World}
    → run_in_transaction body w ≡ (err e, w')
    → w'.db ≡ w.db
unfolding run_in_transaction
run_in_transaction-err body w h = rolled_back-err w.db _ _ h

-- One that succeeds has run its body on the tables as they were, and kept what it did.
pub run_in_transaction-ok :
    {A : Type 0} (body : Action A) (w : World) {a : A} {w' : World}
    → run_in_transaction body w ≡ (ok a, w')
    → (w₁ : World) × (w₂ : World) × (w₁.db ≡ w.db) × (body w₁ ≡ (ok a, w₂)) × (w'.db ≡ w₂.db)
unfolding run_in_transaction
run_in_transaction-ok {A} body w {a} {w'} h =
    let (u, w₁, e₁, k₁) = >>=-eq-ok (exec idle_stmt) _ w (rolled_back-ok w.db _ _ h) in
    let (b, w₂, e₂, k₂) = >>=-eq-ok body _ w₁ k₁ in
    let (v, w₃, e₃, k₃) = >>=-eq-ok (exec idle_stmt) _ w₂ k₂ in
    let (same, last) = pure-pair b a w₃ w' k₃ in
    (
      w₁,
      w₂,
      idle-db w e₁,
      subst (λ x. body w₁ ≡ (ok x, w₂)) same e₂,
      ap (λ (x : World). x.db) (sym last) ∙ idle-db w₂ e₃,
    )
