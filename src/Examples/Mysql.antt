-- ===== src/Examples/Mysql.antt =====
-- The theorems of `Kingbase` at a MySQL date, a domain over TEXT and a year.
use rust_kingbase.Prelude.{Bytes, drop, ok, ℕ, ◌≡◌, refl, ◌≢◌, false, some, [], ◌∷◌}
use rust_kingbase.Prelude.Int.{pos, negsuc}
use rust_kingbase.Wire.Text.{codes}
use rust_kingbase.Wire.Standard.{standard}
use rust_kingbase.Kingbase.{
  text_oid, date_oid, is_domain_over, read_alias_of, param_alias_of, is_sys_blob_domain,
  read_codec_alias_for_mysql_type, param_codec_alias_for_mysql_type, is_sys_tinyint, is_sys_year,
  new_year, tiny_int_from_sql, year_from_sql, year_to_sql, SqlType, Builtins, builtin, other,
  simple, domain,
}
use rust_kingbase.Kingbase.Aliases.{read_alias_agrees}
use rust_kingbase.Kingbase.Values.{IsYear, year_from_sql-IsYear}

-- The names of the built-in types that the examples use.
abbrev names : Builtins
names = record { builtin_name = λ n. codes "text"; builtin_kind = λ n. simple }

-- `sys.date` and `sys.longtext`
abbrev mysql_date : SqlType
mysql_date = other (codes "date") 7944 simple (codes "sys")

abbrev long_text : SqlType
long_text = other (codes "longtext") 7018 (domain (builtin text_oid)) (codes "sys")

date_read : read_codec_alias_for_mysql_type names mysql_date ≡ some (builtin date_oid)
unfolding read_codec_alias_for_mysql_type read_alias_of
date_read = refl

read_alias_agrees_example :
    (param_codec_alias_for_mysql_type names mysql_date ≡ some (builtin date_oid))
    × ((m : ℕ) × (builtin date_oid ≡ builtin m))
    × (is_sys_tinyint names mysql_date ≡ false)
    × (is_sys_year names mysql_date ≡ false)
read_alias_agrees_example = read_alias_agrees names mysql_date date_read

long_text_param : param_codec_alias_for_mysql_type names long_text ≡ some (builtin text_oid)
unfolding param_codec_alias_for_mysql_type param_alias_of is_domain_over is_sys_blob_domain
long_text_param = refl

-- The year 2024 in four bytes.
abbrev year_bytes : Bytes
year_bytes = 0 ∷ 0 ∷ 7 ∷ 232 ∷ []

year_read : year_from_sql standard year_bytes ≡ ok (pos 2024)
unfolding year_from_sql new_year
year_read = refl

year_from_sql-IsYear_example :
    IsYear (pos 2024)
    × (new_year (pos 2024) ≡ ok (pos 2024))
    × (year_from_sql standard (drop 1 (year_to_sql standard (pos 2024) (9 ∷ []))) ≡ ok (pos 2024))
year_from_sql-IsYear_example = year_from_sql-IsYear standard year_bytes (9 ∷ []) year_read

-- The value of `TinyInt` is signed.
tiny_int_read : tiny_int_from_sql (255 ∷ []) ≡ ok (negsuc 0)
unfolding tiny_int_from_sql
tiny_int_read = refl

year_refused : year_from_sql standard (0 ∷ 0 ∷ 7 ∷ 108 ∷ []) ≢ ok (pos 1900)
unfolding year_from_sql new_year
year_refused h = cc
