-- ===== src/World/Outcome.antt =====
-- What an action has done, by its outcome.
use kal.Base.{
  ◌≤◌, Bool, true, false, List, [], ◌∷◌, ◌≡◌, refl, Text, if◌then◌else◌, arith, Bool-cases, ◌⊎◌,
  inl, inr, ap,
}
use kal.Kalerr.{Failure, driver, Result, ok, err}
use kal.Store.{Db}
use kal.World.{
  World, Action, Stmt, pure, next, ◌>>=◌, ◌>>◌, advance, driver_fails, exec, commit, new_token,
  new_salt, new_uuid, draw, draw_salt, draw_uuid,
}

pub >>=-ok :
    {A B : Type 0} (m : Action A) (f : A → Action B) (w : World) {a : A} {w' : World}
    → m w ≡ (ok a, w')
    → (m >>= f) w ≡ f a w'
>>=-ok m f w h = ap (next f) h

pub >>=-err :
    {A B : Type 0} (m : Action A) (f : A → Action B) (w : World) {e : Failure} {w' : World}
    → m w ≡ (err e, w')
    → (m >>= f) w ≡ (err e, w')
>>=-err m f w h = ap (next f) h

pub pure-eq-ok :
    {A : Type 0} (a : A) (w : World) {b : A} {w' : World} → pure a w ≡ (ok b, w') → a ≡ b
pure-eq-ok a w h = cc

-- Inversion of a chain of actions that succeeds.
pub >>=-eq-ok :
    {A B : Type 0} (m : Action A) (f : A → Action B) (w : World) {b : B} {w'' : World}
    → (m >>= f) w ≡ (ok b, w'')
    → (a : A) × (w' : World) × (m w ≡ (ok a, w')) × (f a w' ≡ (ok b, w''))
>>=-eq-ok {A} {B} m f w {b} {w''} h = by_result (m w).0 (m w).1 refl h
  where
    by_result :
        (r : Result A) (v : World)
        → m w ≡ (r, v)
        → next f (r, v) ≡ (ok b, w'')
        → (a : A) × (w' : World) × (m w ≡ (ok a, w')) × (f a w' ≡ (ok b, w''))
    by_result (ok a) v e k = (a, v, e, k)
    by_result (err e) v p k = cc

pub then-eq-ok :
    {B : Type 0} (m : Action (Unit {0})) (k : Action B) (w : World) {b : B} {w'' : World}
    → (m >> k) w ≡ (ok b, w'')
    → (w' : World) × (m w ≡ (ok tt, w')) × (k w' ≡ (ok b, w''))
then-eq-ok m k w h = let (_, w', e, f) = >>=-eq-ok m (λ _. k) w h in (w', e, f)

commit-eq-ok :
    {A : Type 0} (v : World) (r : Result (A × Db)) {a : A} {w' : World}
    → commit v r ≡ (ok a, w')
    → (db : Db) × (r ≡ ok (a, db)) × (w' ≡ record v { db = db })
unfolding commit
commit-eq-ok v (ok (a, db)) h = (db, cc, cc)
commit-eq-ok v (err e) h = cc

-- A statement that succeeds has met no driver failure and has done what its definition says, at the
-- instant that the clock had reached.
pub exec-eq-ok :
    {A : Type 0} (s : Stmt A) (w : World) {a : A} {w' : World}
    → exec s w ≡ (ok a, w')
    → (db : Db) × (s (advance w).now (advance w).db ≡ ok (a, db))
      × (w' ≡ record (advance w) { db = db })
unfolding exec
exec-eq-ok s w {a} {w'} h = by_driver (driver_fails w) h
  where
    v : World
    v = advance w

    by_driver :
        (fails : Bool)
        → (if fails then (err driver, v) else commit v (s v.now v.db)) ≡ (ok a, w')
        → (db : Db) × (s v.now v.db ≡ ok (a, db)) × (w' ≡ record v { db = db })
    by_driver true k = cc
    by_driver false k = commit-eq-ok v (s v.now v.db) k

-- A statement that fails, by itself or by its driver, leaves the tables alone.
pub exec-outcome :
    {A : Type 0} (s : Stmt A) (w : World)
    → ((e : Failure) × (exec s w ≡ (err e, advance w)))
      ⊎ ((a : A) × (db : Db) × (s (advance w).now (advance w).db ≡ ok (a, db))
          × (exec s w ≡ (ok a, record (advance w) { db = db })))
unfolding exec commit
exec-outcome {A} s w = elim (Bool-cases (driver_fails w)) [
  | inl broken ↦ inl (driver, rw broken refl)
  | inr sound ↦ by_result (s (advance w).now (advance w).db) refl sound
]
  where
    by_result :
        (r : Result (A × Db))
        → s (advance w).now (advance w).db ≡ r
        → driver_fails w ≡ false
        → ((e : Failure) × (exec s w ≡ (err e, advance w)))
          ⊎ ((a : A) × (db : Db) × (r ≡ ok (a, db))
              × (exec s w ≡ (ok a, record (advance w) { db = db })))
    by_result (err e) q sound = inl (e, rw (sound, q) refl)
    by_result (ok (a, db)) q sound = inr (a, db, refl, rw (sound, q) refl)

-- A statement whose driver answers does what it says.
pub exec-runs :
    {A : Type 0} (s : Stmt A) (w : World) {a : A} {db : Db}
    → driver_fails w ≡ false
    → s (advance w).now (advance w).db ≡ ok (a, db)
    → exec s w ≡ (ok a, record (advance w) { db = db })
unfolding exec commit
exec-runs s w sound h = rw (sound, h) refl

-- Two statements that do the same at this instant on these tables.
pub exec-same :
    {A : Type 0} (s t : Stmt A) (w : World)
    → s (advance w).now (advance w).db ≡ t (advance w).now (advance w).db
    → exec s w ≡ exec t w
unfolding exec commit
exec-same s t w h =
    ap (λ r. if driver_fails w then (err driver, advance w) else commit (advance w) r) h

pub advance-db : (w : World) → (advance w).db ≡ w.db
advance-db w = ground arith

draw-eq-ok :
    (w : World) (r : List Text) {t : Text} {w' : World}
    → draw w r ≡ (ok t, w')
    → (rest : List Text) × (r ≡ t ∷ rest) × (w' ≡ record w { random = rest })
unfolding draw
draw-eq-ok w [] h = cc
draw-eq-ok w (u ∷ rest) h = (rest, cc, cc)

pub new_token-eq-ok :
    (w : World) {t : Text} {w' : World}
    → new_token w ≡ (ok t, w')
    → (rest : List Text) × (w.random ≡ t ∷ rest) × (w' ≡ record w { random = rest })
unfolding new_token
new_token-eq-ok w h = draw-eq-ok w w.random h

pub advance-random :
    (w : World) (r : List Text)
    → ((advance (record w { random = r })).now ≡ (advance w).now)
      × ((advance (record w { random = r })).db ≡ w.db)
advance-random w r = ground arith

pub advance-now : (w : World) → w.now ≤ (advance w).now
advance-now w = ground arith

draw-same : (w : World) (r : List Text) → (draw w r).1.db ≡ w.db
unfolding draw
draw-same w [] = refl
draw-same w (t ∷ rest) = refl

pub draw-db : (w : World) → (new_token w).1.db ≡ w.db
unfolding new_token
draw-db w = draw-same w w.random

draw_salt-same : (w : World) (r : List Text) → (draw_salt w r).1.db ≡ w.db
unfolding draw_salt
draw_salt-same w [] = refl
draw_salt-same w (t ∷ rest) = refl

pub draw_salt-db : (w : World) → (new_salt w).1.db ≡ w.db
unfolding new_salt
draw_salt-db w = draw_salt-same w w.salts

draw_uuid-same : (w : World) (r : List Text) → (draw_uuid w r).1.db ≡ w.db
unfolding draw_uuid
draw_uuid-same w [] = refl
draw_uuid-same w (t ∷ rest) = refl

pub draw_uuid-db : (w : World) → (new_uuid w).1.db ≡ w.db
unfolding new_uuid
draw_uuid-db w = draw_uuid-same w w.uuids
