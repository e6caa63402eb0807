-- ===== src/Store.antt =====
-- migrations/0001_core.sql and 0003_e2ee.sql: the tables, as lists of rows. A null is `none`, an
-- instant counts nanoseconds of the database's clock.
use kal.Base.{ℕ, Bool, Option, List, Text}

pub record User : Type 0 where
  pub id : Text
  pub email : Text
  pub password_hash : Option Text
  pub email_verified : Bool
  pub created_at : ℕ
  pub updated_at : ℕ
  pub deleted_at : Option ℕ

pub record Session : Type 0 where
  pub id : Text
  pub token_sha256 : Text
  pub user_id : Text
  pub created_at : ℕ
  pub last_seen_at : ℕ
  pub idle_expires_at : ℕ
  pub expires_at : ℕ
  pub mfa_at : Option ℕ
  pub user_agent : Option Text
  pub ip : Option Text
  pub revoked_at : Option ℕ

pub record Token : Type 0 where
  pub token_sha256 : Text
  pub user_id : Text
  pub purpose : Text
  pub expires_at : ℕ
  pub consumed_at : Option ℕ
  pub created_at : ℕ

pub record RoleRow : Type 0 where
  pub name : Text
  pub description : Text

pub record UserRole : Type 0 where
  pub user_id : Text
  pub role : Text

pub record Attempt : Type 0 where
  pub scope : Text
  pub key : Text
  pub failures : ℕ
  pub last_fail : ℕ

pub record VaultRow : Type 0 where
  pub user_id : Text
  pub kdf : Text
  pub salt : Text
  pub memory : ℕ
  pub iterations : ℕ
  pub parallelism : ℕ
  pub wrapped_key : Text
  pub recovery_wrapped_key : Text
  pub wrapped_for : Option Text
  pub key_version : ℕ
  pub updated_at : ℕ

pub record Db : Type 0 where
  pub users : List User
  pub sessions : List Session
  pub tokens : List Token
  pub roles : List RoleRow
  pub user_roles : List UserRole
  pub attempts : List Attempt
  pub vaults : List VaultRow
