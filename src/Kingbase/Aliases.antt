-- ===== src/Kingbase/Aliases.antt =====
-- The aliases of Kingbase's MySQL types in tokio-postgres/src/kingbase/mysql_types.rs, against each
-- other and against the wrappers of kingbase/types.rs.
use rust_kingbase.Prelude.{
  ◌==◌, if◌then◌else◌, Bytes, ℕ, ◌≡◌, refl, ◌≢◌, Bool, true, false, not, ◌&&◌, ◌||◌, Option, none,
  some, arith,
}
use rust_kingbase.Wire.Text.{same}
use rust_kingbase.Kingbase.{
  sys_schema, oid, schema, is_simple, name, kind, read_alias_of, param_alias_of,
  read_codec_alias_for_mysql_type, param_codec_alias_for_mysql_type, is_sys_tinyint, is_sys_year,
  SqlType, Builtins, builtin,
}

-- A number and a name with an alias for reading have the same alias for parameters.
read_alias_of-param :
    (n : ℕ) (text : Bytes) (over : ℕ → Bool) (blobs : Bool) {a : SqlType}
    → read_alias_of n text ≡ some a
    → param_alias_of n text true over blobs ≡ some a
unfolding read_alias_of param_alias_of
read_alias_of-param n text over blobs h = ground arith

-- An alias is a built-in type, and no type of a wrapper has one.
param_alias_of-builtin :
    (n : ℕ) (text : Bytes) (plain : Bool) (over : ℕ → Bool) (blobs : Bool) {a : SqlType}
    → param_alias_of n text plain over blobs ≡ some a
    → (m : ℕ) × (a ≡ builtin m)
unfolding param_alias_of
param_alias_of-builtin n text plain over blobs h = ground arith

param_alias_of-apart :
    (n : ℕ) (text : Bytes) (plain : Bool) (over : ℕ → Bool) (blobs : Bool) {a : SqlType}
    → param_alias_of n text plain over blobs ≡ some a
    → (n ≢ 8100) × (n ≢ 7025)
unfolding param_alias_of
param_alias_of-apart n text plain over blobs h = ground arith

simple-guard :
    (sys plain : Bool) (r : Option SqlType) {a : SqlType}
    → (if not sys || not plain then none else r) ≡ some a
    → (sys ≡ true) × (plain ≡ true) × (r ≡ some a)
simple-guard true true r h = (refl, refl, h)
simple-guard true false r h = cc
simple-guard false plain r h = cc

sys-guard :
    (sys : Bool) (r : Option SqlType) {a : SqlType}
    → (if not sys then none else r) ≡ some a
    → (sys ≡ true) × (r ≡ some a)
sys-guard true r h = (refl, h)
sys-guard false r h = cc

==-ne : (n m : ℕ) (b : Bool) → n ≢ m → (n == m && b) ≡ false
==-ne n m b h = ground arith

module _ (builtins : Builtins) where
  -- A type with an alias for parameters is read and written as a built-in type, which has no alias
  -- itself, and it is none of the types that the wrappers `TinyInt` and `Year` accept.
  pub param_alias_apart :
      (t : SqlType) {a : SqlType}
      → param_codec_alias_for_mysql_type builtins t ≡ some a
      → ((m : ℕ) × (a ≡ builtin m))
        × (param_codec_alias_for_mysql_type builtins a ≡ none)
        × (is_sys_tinyint builtins t ≡ false)
        × (is_sys_year builtins t ≡ false)
  unfolding param_codec_alias_for_mysql_type is_sys_tinyint is_sys_year
  param_alias_apart t h =
      let (sys, found) = sys-guard (same (schema t) sys_schema) _ h in
      let (m, e) = param_alias_of-builtin _ _ _ _ _ found in
      let (not_tiny, not_year) = param_alias_of-apart _ _ _ _ _ found in
      ((m, e), rw e refl, ==-ne (oid t) 8100 _ not_tiny, ==-ne (oid t) 7025 _ not_year)

  -- A type with an alias for reading has the same alias for parameters: what is read by a codec is
  -- written by it. It is a built-in type, and the type is none that the wrappers accept.
  pub read_alias_agrees :
      (t : SqlType) {a : SqlType}
      → read_codec_alias_for_mysql_type builtins t ≡ some a
      → (param_codec_alias_for_mysql_type builtins t ≡ some a)
        × ((m : ℕ) × (a ≡ builtin m))
        × (is_sys_tinyint builtins t ≡ false)
        × (is_sys_year builtins t ≡ false)
  unfolding read_codec_alias_for_mysql_type param_codec_alias_for_mysql_type
  read_alias_agrees t {a = a} h =
      let (sys, plain, found) =
        simple-guard (same (schema t) sys_schema) (is_simple (kind builtins t)) _ h in
      let same_alias : param_codec_alias_for_mysql_type builtins t ≡ some a =
        rw (sys, plain) (read_alias_of-param (oid t) (name builtins t) _ _ found) in
      let (target, none_again, not_tiny, not_year) = param_alias_apart t same_alias in
      (same_alias, target, not_tiny, not_year)
