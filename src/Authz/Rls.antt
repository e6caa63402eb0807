-- ===== src/Authz/Rls.antt =====
-- authz/rls.go: a transaction whose Postgres settings carry the caller.
pub mod Settings
mod Tests
use kal.Base.{
  Bool, not, ◌||◌, Option, none, some, List, [], ◌∷◌, Text, codes, text_eq, find, is_ident, join,
  map, if◌then◌else◌, has_prefix, cut_prefix,
}
use kal.Base.Sort.{sort_texts}
use kal.Kalerr.{Result, ok, err, Failure, coded, invalid_input}
use kal.Authz.Principal.{Context}
use kal.World.{Action, exec, ◌>>◌, fail}
use kal.World.Transaction.{run_in_transaction, idle_stmt}

-- A setting and its value, the latest first.
abbrev pub Settings : Type 0
Settings = List (Text × Text)

abbrev pub is_setting : Text → Text × Text → Bool
is_setting name (n, v) = text_eq n name

abbrev pub value_of : Option (Text × Text) → Option Text
value_of none = none
value_of (some (n, v)) = some v

-- `current_setting(name, true)`.
unfoldable pub current_setting : Text → Settings → Option Text
unfolding find text_eq
current_setting name s = value_of (find (is_setting name) s)

abbrev pub user_id_key : Text
user_id_key = codes "app.user_id"

abbrev pub roles_key : Text
roles_key = codes "app.roles"

abbrev pub rest_is_ident : Option Text → Bool
rest_is_ident none = Bool.false
rest_is_ident (some rest) = is_ident rest

-- `settingKeyRe`, `^app\.[a-z_][a-z0-9_]*$`.
unfoldable pub is_setting_key : Text → Bool
unfolding cut_prefix is_ident
is_setting_key k = rest_is_ident (cut_prefix k (codes "app."))

-- `reservedSettings`.
abbrev pub is_reserved : Text → Bool
is_reserved k = text_eq k user_id_key || text_eq k roles_key

abbrev pub bad_key : Failure
bad_key = coded invalid_input "RLS setting names must match ^app\\.[a-z_][a-z0-9_]*$"

abbrev pub reserved_key : Failure
reserved_key =
    coded invalid_input "app.user_id and app.roles carry the caller and cannot be set as extras"

-- The loop over `extra`, in the order of the list: Go's order over a map is any order.
unfoldable pub check_keys : List (Text × Text) → Result (List Text)
unfolding is_setting_key text_eq
check_keys [] = ok []
check_keys ((k, v) ∷ rest) =
    let others = check_keys rest in
    if not (is_setting_key k)
    then err bad_key
    else if is_reserved k
    then err reserved_key
    else elim others [ ok ks ↦ ok (k ∷ ks) | err e ↦ err e ]

-- `extra[k]`.
unfoldable pub extra_value : List (Text × Text) → Text → Text
unfolding find text_eq
extra_value extra k = elim (find (is_setting k) extra) [ none ↦ [] | some (n, v) ↦ v ]

abbrev pub caller_id : Context → Text
caller_id ctx = elim ctx.principal [ none ↦ [] | some p ↦ p.user_id ]

abbrev pub caller_roles : Context → Text
caller_roles ctx = elim ctx.principal [ none ↦ [] | some p ↦ join (codes ",") p.roles ]

-- The names and values of the one statement, in its order.
unfoldable pub rls_args : Context → List (Text × Text) → List Text → List (Text × Text)
unfolding extra_value sort_texts
rls_args ctx extra keys =
    (user_id_key, caller_id ctx)
    ∷ (roles_key, caller_roles ctx)
    ∷ map (λ k. (k, extra_value extra k)) (sort_texts keys)

-- The `set_config` calls of the select list, from left to right.
unfoldable pub set_all : List (Text × Text) → Settings → Settings
set_all [] s = s
set_all (a ∷ rest) s = set_all rest (a ∷ s)

abbrev pub in_settings :
    Context
    → List (Text × Text)
    → Settings
    → (Settings → Action (Unit {0}))
    → Result (List Text)
    → Action (Unit {0})
in_settings ctx extra session fn (err e) = fail e
in_settings ctx extra session fn (ok keys) =
    run_in_transaction (exec idle_stmt >> fn (set_all (rls_args ctx extra keys) session))

-- `WithRLSSettings`: `session` is what the pooled connection has set before; `fn` is given what
-- `current_setting` reads inside the transaction, which nobody reads after it.
unfoldable pub with_rls_settings :
    Settings → Context → List (Text × Text) → (Settings → Action (Unit {0})) → Action (Unit {0})
unfolding check_keys rls_args set_all
with_rls_settings session ctx extra fn = in_settings ctx extra session fn (check_keys extra)

-- `WithRLS`.
unfoldable pub with_rls : Settings → Context → (Settings → Action (Unit {0})) → Action (Unit {0})
unfolding with_rls_settings
with_rls session ctx fn = with_rls_settings session ctx [] fn
