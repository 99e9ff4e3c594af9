-- ===== src/Examples/Binds.antt =====
-- `Kingbase.Bind` at a DATE value for a parameter of MySQL's `sys.date`, and a NULL.
use rust_kingbase.Prelude.{if◌then◌else◌, ◌≡◌, refl, inr, none, some, List, [], ◌∷◌, arith}
use rust_kingbase.Prelude.Int.{pos}
use rust_kingbase.Wire.Text.{codes}
use rust_kingbase.Wire.Standard.{standard}
use rust_kingbase.Wire.Write.{yes_null, no_null}
use rust_kingbase.Message.Frontend.Layout.{framed}
use rust_kingbase.Kingbase.{is_builtin, text_oid, date_oid, SqlType, builtin, other, simple}
use rust_kingbase.Kingbase.Params.{
  value_bytes, encoded_as, encode_param_with_type, or_alias, encode_param_with_alias, encode_params,
  encode_bind_raw, ToSql, EncodedParam, Param, AllEncoded, converts, wrong_type,
}
use rust_kingbase.Kingbase.Bind.{bind_message, encode_bind_raw-framed}

abbrev day : ToSql
day = record {
  to_sql_checked =
      λ t. if is_builtin date_oid t then converts (0 ∷ 0 ∷ 1 ∷ 0 ∷ []) no_null else wrong_type;
  encode_format = λ t. pos 1;
}

abbrev missing : ToSql
missing = record { to_sql_checked = λ t. converts [] yes_null; encode_format = λ t. pos 1 }

abbrev mysql_day : SqlType
mysql_day = other (codes "date") 7944 simple (codes "sys")

abbrev day_params : List Param
day_params =
    record { given = day; original_type = mysql_day; codec_type = some (builtin date_oid) }
    ∷ record { given = missing; original_type = builtin text_oid; codec_type = none }
    ∷ []

abbrev day_encoded : List EncodedParam
day_encoded =
    record { format = pos 1; value = some (0 ∷ 0 ∷ 1 ∷ 0 ∷ []) }
    ∷ record { format = pos 1; value = none }
    ∷ []

days_encode : encode_params 0 day_params ≡ inr day_encoded
unfolding encode_params encode_param_with_alias or_alias encode_param_with_type encoded_as
    value_bytes
days_encode = refl

encode_bind_raw-framed_example :
    AllEncoded day_params day_encoded
    × (encode_bind_raw standard (codes "s1") day_params [] (9 ∷ [])
        ≡ inr (9 ∷ framed standard b'B' (bind_message standard [] (codes "s1") day_encoded)))
encode_bind_raw-framed_example =
    encode_bind_raw-framed standard (codes "s1") [] day_params day_encoded (9 ∷ []) days_encode refl
      refl (omega arith) (omega arith, (omega arith, tt)) (omega arith)
