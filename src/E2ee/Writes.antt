-- ===== src/E2ee/Writes.antt =====
-- What the statement of a `Put` that is not refused has done.
use kal.Base.{
  ◌≡◌, ◌⊎◌, inl, inr, ◌||◌, ℕ, none, some, Option, Text, ltb, find, Bool-cases, Option-cases,
}
use kal.Base.Int.{ℤ}
use kal.Kalerr.{ok}
use kal.Store.{Db, User}
use kal.Session.Statements.{is_user}
use kal.E2ee.Params.{Params}
use kal.E2ee.Statements.{put_stmt, upsert, max_int4}

-- Either the caller is no live user and nothing was written, or it was the upsert for that user.
pub put_stmt-eq-ok :
    (sha256 : Text → Text) (user : Text) (p : Params) (mint key recovery : Text) (e : ℤ) (now : ℕ)
    (db : Db) {r : Option ℕ × Db}
    → put_stmt sha256 user p mint key recovery e now db ≡ ok r
    → ((find (is_user user) db.users ≡ none) × (r ≡ (none, db)))
      ⊎ ((u : User) × (find (is_user user) db.users ≡ some u)
          × (upsert sha256 now u p mint key recovery e db ≡ r))
unfolding put_stmt
put_stmt-eq-ok sha256 user p mint key recovery e now db {r} h =
    elim (Option-cases (find (is_user user) db.users)) [
      | inl nobody ↦ inl (nobody, cc (rw (nobody, put_stmt) at h))
      | inr (u, found) ↦ elim (Bool-cases (ltb max_int4 p.memory || ltb max_int4 p.iterations)) [
        | inl big ↦ absurd (cc (rw (found, put_stmt, big) at h))
        | inr fits ↦ inr (u, found, cc (rw (found, put_stmt, fits) at h))
      ]
    ]
