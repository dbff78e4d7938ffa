-- ===== src/Effect/Types.antt =====
-- crates/core/src/effect/mod.rs and the types that actions and observations share: file identities,
-- digests, expectations, and the invoking user of crates/core/src/declared/identity.rs.
-- An owner is a uid and a gid, a digest is the list of its 32 bytes.
use mix.Base.{ℕ, List, Option, Text}

-- `i64`, written as the library writes integers: `negsuc n` is -(n + 1).
pub data ℤ : Type 0 where
  pos : ℕ → ℤ
  negsuc : ℕ → ℤ

abbrev pub Owner : Type 0
Owner = ℕ × ℕ

abbrev pub Digest : Type 0
Digest = List ℕ

pub record FileId : Type 0 where
  pub dev : ℕ
  pub ino : ℕ
  pub born : Option (ℤ × ℕ)

pub data Expect : Type 0 where
  absent : Expect
  present : FileId → Expect

pub record InvokingUser : Type 0 where
  pub uid : ℕ
  pub gid : ℕ
  pub name : Text
  pub home : Text

pub record UserSpec : Type 0 where
  pub name : Text
  pub uid : ℕ
  pub gid : ℕ
  pub home : Text
  pub shell : Text
  pub comment : Text
  pub groups : List Text

pub data FlakeSource : Type 0 where
  path git : FlakeSource
