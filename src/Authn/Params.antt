-- ===== src/Authn/Params.antt =====
-- authn/password.go: the cost parameters of a hash.
use kal.Base.{ℕ, Bool, ◌||◌, if◌then◌else◌, ltb, ◌==◌}

-- `Params`: memory in KiB and time are uint32, parallelism is a uint8.
pub record Params : Type 0 where
  pub memory : ℕ
  pub time : ℕ
  pub parallelism : ℕ
  pub salt_len : ℕ
  pub key_len : ℕ

abbrev or_else : ℕ → ℕ → ℕ
or_else n d = if n == 0 then d else n

-- `Params.defaults`.
unfoldable pub defaults : Params → Params
defaults p = record {
  memory = or_else p.memory 19456;
  time = or_else p.time 2;
  parallelism = or_else p.parallelism 1;
  salt_len = or_else p.salt_len 16;
  key_len = or_else p.key_len 32;
}

unfoldable pub weaker : Params → Params → Bool
weaker stored configured =
    ltb stored.memory configured.memory
    || (ltb stored.time configured.time || ltb stored.key_len configured.key_len)
