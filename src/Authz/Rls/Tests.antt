-- ===== src/Authz/Rls/Tests.antt =====
-- The settings of a signed-in caller, over a connection that another caller's settings were left on.
use kal.Base.{
  true, false, none, some, [], ◌∷◌, ◌≡◌, refl, Text, codes, find, text_eq, is_ident, List,
  cut_prefix, join,
}
use kal.Base.Sort.{sort_texts, insert_text, text_leb}
use kal.Kalerr.{ok, err, Failure}
use kal.Authz.Principal.{Context, background}
use kal.World.{World, Action, pure}
use kal.Authz.Rls.{Settings, with_rls_settings, is_setting_key, rls_args, user_id_key, extra_value}
use kal.Authz.Rls.Settings.{Carries, with_rls_settings-Carries}

abbrev alice : Context
alice = record background {
  principal = some (record {
    user_id = codes "u1";
    session_id = codes "s";
    roles = codes "a" ∷ codes "b" ∷ [];
    auth_at = 0;
    mfa_at = none;
    email = [];
    verified = true;
  });
}

abbrev region : List (Text × Text)
region = (codes "app.region", codes "eu") ∷ (codes "app.org", codes "o1") ∷ []

abbrev left_over : Settings
left_over = (user_id_key, codes "u2") ∷ (codes "app.org", codes "o2") ∷ []

abbrev empty : World
empty = record {
  db = record {
    users = [];
    sessions = [];
    tokens = [];
    roles = [];
    user_roles = [];
    attempts = [];
    vaults = [];
  };
  now = 20;
  schedule = [];
  random = [];
  salts = [];
  slots = [];
  uuids = [];
  clock = 20;
  mailer = [];
  sent = [];
  events = [];
  cookies = [];
}

is_setting_key-unprefixed : is_setting_key (codes "search_path") ≡ false
unfolding is_setting_key cut_prefix
is_setting_key-unprefixed = refl

rls_args-sorted :
    rls_args alice region (codes "app.region" ∷ codes "app.org" ∷ [])
    ≡ (codes "app.user_id", codes "u1")
      ∷ (codes "app.roles", codes "a,b")
      ∷ (codes "app.org", codes "o1")
      ∷ (codes "app.region", codes "eu")
      ∷ []
unfolding rls_args sort_texts insert_text text_leb join extra_value find text_eq
rls_args-sorted = refl

abbrev nothing : Settings → Action (Unit {0})
nothing s = pure tt

with_rls_settings-Carries_example :
    (s : Settings) × Carries alice region s
    × ((w' : World)
        → with_rls_settings left_over alice region nothing empty ≡ (ok tt, w')
        → (w₁ : World) × (w₂ : World) × (w₁.db ≡ empty.db)
          × (nothing s w₁ ≡ (ok tt, w₂))
          × (w'.db ≡ w₂.db))
    × ((e : Failure) (w' : World)
        → with_rls_settings left_over alice region nothing empty ≡ (err e, w')
        → w'.db ≡ empty.db)
unfolding is_setting_key cut_prefix is_ident text_eq
with_rls_settings-Carries_example =
    with_rls_settings-Carries left_over alice region nothing empty
      ((refl, refl), ((refl, refl), tt))
