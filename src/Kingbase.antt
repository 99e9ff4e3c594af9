-- ===== src/Kingbase.antt =====
-- tokio-postgres/src/kingbase: the types of Kingbase's MySQL mode, and the names by which Rust knows
-- types. A built-in type is its number, and the generated table of the built-in types' names and kinds
-- is the parameter `Builtins`. An error is its text, less the numbers in it.
pub mod Aliases
pub mod Values
pub mod Params
pub mod Bind
use rust_kingbase.Prelude.{
  leb, ◌==◌, if◌then◌else◌, Bytes, length, Result, message, ok, err, ℕ, ◌^◌, Bool, true, false, not,
  ◌&&◌, ◌||◌, Option, none, some, List, [], ◌∷◌,
}
use rust_kingbase.Prelude.Int.{signed, ℤ, pos, negsuc}
use rust_kingbase.Wire.Crates.{Crates}
use rust_kingbase.Wire.Text.{codes, same}
use rust_kingbase.Wire.Write.{put_i8, put_i32}

mutual
  -- `Type`
  pub data SqlType : Type 0 where
    builtin : ℕ → SqlType
    other : Bytes → ℕ → Kind → Bytes → SqlType

  pub data Kind : Type 0 where
    simple : Kind
    enumeration : List Bytes → Kind
    pseudo : Kind
    array : SqlType → Kind
    range : SqlType → Kind
    multirange : SqlType → Kind
    domain : SqlType → Kind
    composite : FieldList → Kind

  -- The fields of a composite type.
  pub data FieldList : Type 0 where
    no_more : FieldList
    field : Bytes → SqlType → FieldList → FieldList

pub record Builtins : Type 0 where
  pub builtin_name : ℕ → Bytes
  pub builtin_kind : ℕ → Kind

abbrev pub sys_schema : Bytes
sys_schema = codes "sys"

abbrev pub oid : SqlType → ℕ
oid (builtin n) = n
oid (other text n k space) = n

abbrev pub schema : SqlType → Bytes
schema (builtin n) = codes "pg_catalog"
schema (other text n k space) = space

abbrev pub is_simple : Kind → Bool
is_simple simple = true
is_simple _ = false

-- `t == &Type::X` for a built-in type.
abbrev pub is_builtin : ℕ → SqlType → Bool
is_builtin n (builtin m) = m == n
is_builtin n (other text m k space) = false

-- `Type::BYTEA`, `Type::INT4`, `Type::TEXT`, `Type::DATE`, `Type::TIME`, `Type::TIMESTAMP` and
-- `Type::JSONB`, by their numbers.
abbrev pub bytea_oid : ℕ
bytea_oid = 17

abbrev pub int4_oid : ℕ
int4_oid = 23

abbrev pub text_oid : ℕ
text_oid = 25

abbrev pub date_oid : ℕ
date_oid = 1082

abbrev pub time_oid : ℕ
time_oid = 1083

abbrev pub timestamp_oid : ℕ
timestamp_oid = 1114

abbrev pub jsonb_oid : ℕ
jsonb_oid = 3802

-- A number and a name, as the arms of a `match` on both test them.
abbrev pub is_named : SqlType → ℕ → Bytes → ℕ → Bytes → Bool
is_named t n name m text = n == m && same name text

abbrev pub is_domain_of : ℕ → Kind → Bool
is_domain_of n (domain base) = is_builtin n base
is_domain_of n _ = false

module _ (builtins : Builtins) where
  open builtins use {builtin_name, builtin_kind}

  abbrev pub name : SqlType → Bytes
  name (builtin n) = builtin_name n
  name (other text n k space) = text

  abbrev pub kind : SqlType → Kind
  kind (builtin n) = builtin_kind n
  kind (other text n k space) = k

module _ (builtins : Builtins) where
  -- `is_domain_over`
  unfoldable pub is_domain_over : SqlType → ℕ → Bool
  is_domain_over t n = is_domain_of n (kind builtins t)

  abbrev pub is_blob : SqlType → Bool
  is_blob base =
      same (schema base) sys_schema
      && (oid base == 8013
          && (same (name builtins base) (codes "blob")
              && is_domain_of bytea_oid (kind builtins base)))

  abbrev pub is_domain_of_blob : Kind → Bool
  is_domain_of_blob (domain base) = is_blob base
  is_domain_of_blob _ = false

-- The `match` of `read_codec_alias_for_mysql_type`, on a number and a name.
unfoldable pub read_alias_of : ℕ → Bytes → Option SqlType
read_alias_of n text =
    if n == 7944 && same text (codes "date")
    then some (builtin date_oid)
    else if n == 7950 && same text (codes "time")
    then some (builtin time_oid)
    else if n == 7952 && same text (codes "datetime")
    then some (builtin timestamp_oid)
    else if n == 3383 && same text (codes "binary")
    then some (builtin bytea_oid)
    else if n == 3384 && same text (codes "varbinary")
    then some (builtin bytea_oid)
    else none

-- The `match` of `param_codec_alias_for_mysql_type`, with the tests of its guards: whether the type is
-- simple, a domain over INT4, TEXT, BYTEA or JSONB, or a domain over `sys.blob`.
unfoldable pub param_alias_of : ℕ → Bytes → Bool → (ℕ → Bool) → Bool → Option SqlType
param_alias_of n text plain over blobs =
    if (n == 7944 && same text (codes "date")) && plain
    then some (builtin date_oid)
    else if (n == 7950 && same text (codes "time")) && plain
    then some (builtin time_oid)
    else if (n == 7952 && same text (codes "datetime")) && plain
    then some (builtin timestamp_oid)
    else if ((n == 3383 && same text (codes "binary"))
          || (n == 3384 && same text (codes "varbinary")))
        && plain
    then some (builtin bytea_oid)
    else if (n == 7016 && same text (codes "mediumint")) && over int4_oid
    then some (builtin int4_oid)
    else if ((n == 7020 && same text (codes "tinytext"))
          || ((n == 7019 && same text (codes "mediumtext"))
              || (n == 7018 && same text (codes "longtext"))))
        && over text_oid
    then some (builtin text_oid)
    else if (n == 8013 && same text (codes "blob")) && over bytea_oid
    then some (builtin bytea_oid)
    else if ((n == 7023 && same text (codes "tinyblob"))
          || ((n == 7022 && same text (codes "mediumblob"))
              || (n == 7021 && same text (codes "longblob"))))
        && blobs
    then some (builtin bytea_oid)
    else if (n == 7024 && same text (codes "json")) && over jsonb_oid
    then some (builtin jsonb_oid)
    else none

module _ (builtins : Builtins) where
  -- `is_sys_blob_domain`
  unfoldable pub is_sys_blob_domain : SqlType → Bool
  is_sys_blob_domain t = is_domain_of_blob builtins (kind builtins t)

  unfoldable pub read_codec_alias_for_mysql_type : SqlType → Option SqlType
  read_codec_alias_for_mysql_type t =
      if not (same (schema t) sys_schema) || not (is_simple (kind builtins t))
      then none
      else read_alias_of (oid t) (name builtins t)

module _ (builtins : Builtins) where
  unfoldable pub param_codec_alias_for_mysql_type : SqlType → Option SqlType
  param_codec_alias_for_mysql_type t =
      if not (same (schema t) sys_schema)
      then none
      else param_alias_of (oid t) (name builtins t) (is_simple (kind builtins t))
          (is_domain_over builtins t) (is_sys_blob_domain builtins t)

  -- `is_sys_tinyint` and `is_sys_year`, the types that the wrappers accept.
  unfoldable pub is_sys_tinyint : SqlType → Bool
  is_sys_tinyint t =
      oid t == 8100
      && (same (name builtins t) (codes "tinyint")
          && (same (schema t) sys_schema && is_simple (kind builtins t)))

  unfoldable pub is_sys_year : SqlType → Bool
  is_sys_year t =
      oid t == 7025
      && (same (name builtins t) (codes "year")
          && (same (schema t) sys_schema && is_domain_of int4_oid (kind builtins t)))

-- `TinyInt` and `Year`, as their values.
abbrev pub year_min : ℤ
year_min = pos 1901

abbrev pub year_max : ℤ
year_max = pos 2155

-- `(Self::MIN..=Self::MAX).contains(&value)`
abbrev pub is_year : ℤ → Bool
is_year (pos n) = leb 1901 n && leb n 2155
is_year (negsuc n) = false

-- `Year::new`, with the text of `YearOutOfRange`.
unfoldable pub new_year : ℤ → Result ℤ
new_year v = if is_year v then ok v else err (message "year value is outside the supported range")

unfoldable pub tiny_int_from_sql : Bytes → Result ℤ
tiny_int_from_sql (b ∷ []) = ok (signed (2 ^ 7) b)
tiny_int_from_sql _ = err (message "invalid buffer size")

unfoldable pub tiny_int_to_sql : ℤ → Bytes → Bytes
tiny_int_to_sql v out = put_i8 v out

module _ (crates : Crates) where
  -- `i32::from_be_bytes` reads as `byteorder` does.
  unfoldable pub year_from_sql : Bytes → Result ℤ
  year_from_sql raw =
      if length raw == 4
      then new_year (signed (2 ^ 31) (crates.read_be raw))
      else err (message "invalid buffer size")

  unfoldable pub year_to_sql : ℤ → Bytes → Bytes
  year_to_sql v out = put_i32 crates v out

-- `CompatibleMode` of client.rs, and `param_codec_alias_for_mode` of query.rs.
pub data CompatibleMode : Type 0 where
  pg_mode oracle_mode mysql_mode sql_server_mode : CompatibleMode

unfoldable pub param_codec_alias_for_mode : Builtins → CompatibleMode → SqlType → Option SqlType
param_codec_alias_for_mode builtins mysql_mode t = param_codec_alias_for_mysql_type builtins t
param_codec_alias_for_mode builtins pg_mode t = none
param_codec_alias_for_mode builtins oracle_mode t = none
param_codec_alias_for_mode builtins sql_server_mode t = none
