-- ===== src/Authn/Tokens/Statements.antt =====
-- authn/sql.go: the statements on auth_tokens.
use kal.Base.{
  ℕ, ◌+◌, Bool, not, ◌&&◌, Option, none, some, ◌∷◌, Text, text_eq, if◌then◌else◌, ltb, find, any,
  update,
}
use kal.Kalerr.{Result, ok, err, driver}
use kal.Store.{Db, Token}
use kal.World.{Stmt}
use kal.Session.Statements.{is_null, user_exists}

abbrev pub is_token : Text → Token → Bool
is_token hash t = text_eq t.token_sha256 hash

abbrev pub new_token_row : ℕ → Text → Text → Text → ℕ → Token
new_token_row now hash user purpose ttl = record {
  token_sha256 = hash;
  user_id = user;
  purpose = purpose;
  expires_at = now + ttl;
  consumed_at = none;
  created_at = now;
}

-- The `do update` list.
abbrev pub reissue : ℕ → Text → Text → ℕ → Token → Token
reissue now user purpose ttl t = record t {
  user_id = user;
  purpose = purpose;
  expires_at = now + ttl;
  consumed_at = none;
}

-- `insertTokenSQL`. The user must exist.
unfoldable pub insert_token_stmt : Text → Text → Text → ℕ → Stmt (Unit {0})
unfolding any update text_eq user_exists
insert_token_stmt hash user purpose ttl now db =
    if not (user_exists user db.users)
    then err driver
    else if any (is_token hash) db.tokens
    then ok
        (tt, record db { tokens = update (is_token hash) (reissue now user purpose ttl) db.tokens })
    else ok (tt, record db { tokens = new_token_row now hash user purpose ttl ∷ db.tokens })

-- The condition of `consumeTokenSQL`.
unfoldable pub is_usable : ℕ → Text → Text → Token → Bool
unfolding text_eq
is_usable now hash purpose t =
    is_token hash t
    && (text_eq t.purpose purpose && (is_null t.consumed_at && ltb now t.expires_at))

abbrev pub burn : ℕ → Token → Token
burn now t = record t { consumed_at = some now }

abbrev pub consumed : Text → Text → ℕ → Db → Option Token → Result (Option Text × Db)
consumed hash purpose now db none = ok (none, db)
consumed hash purpose now db (some t) = ok (
  some t.user_id,
  record db { tokens = update (is_usable now hash purpose) (burn now) db.tokens },
)

-- `consumeTokenSQL`: the user of the token, if it was usable.
unfoldable pub consume_stmt : Text → Text → Stmt (Option Text)
unfolding find update is_usable
consume_stmt hash purpose now db =
    consumed hash purpose now db (find (is_usable now hash purpose) db.tokens)
