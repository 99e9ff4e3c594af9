-- ===== src/Kingbase/Params.antt =====
-- The parameters of a statement in tokio-postgres/src/query.rs: encoded for the type of the parameter or
-- for its alias, and put into a `Bind` message. A value is what its `ToSql` does: the conversion for
-- each type that `to_sql_checked` makes on an empty buffer, and the format.
use rust_kingbase.Prelude.{
  Bytes, Error, Result, conversion, serialization, ok, err, panic, ℕ, ◌+◌, ◌≡◌, ◌⊎◌, inl, inr,
  Option, none, some, List, [], ◌∷◌, ◌++◌,
}
use rust_kingbase.Prelude.Int.{ℤ, pos}
use rust_kingbase.Wire.Crates.{Crates}
use rust_kingbase.Wire.Write.{IsNull, yes_null, no_null}
use rust_kingbase.Message.Frontend.{bind}
use rust_kingbase.Kingbase.{SqlType}

-- What `to_sql_checked` gives: bytes and whether they stand for NULL, a `WrongType`, or another error.
pub data Conversion : Type 0 where
  converts : Bytes → IsNull → Conversion
  wrong_type : Conversion
  fails_with : Error → Conversion

pub record ToSql : Type 0 where
  pub to_sql_checked : SqlType → Conversion
  pub encode_format : SqlType → ℤ

pub record EncodedParam : Type 0 where
  pub format : ℤ
  pub value : Option Bytes

-- `Result<EncodedParam, ToSqlError>`
pub data ParamResult : Type 0 where
  encoded : EncodedParam → ParamResult
  of_wrong_type : ParamResult
  not_converted : Error → ParamResult

unfoldable pub value_bytes : IsNull → Bytes → Option Bytes
value_bytes no_null buf = some buf
value_bytes yes_null buf = none

unfoldable pub encoded_as : ℤ → Conversion → ParamResult
encoded_as format (converts buf null) =
    encoded (record { format = format; value = value_bytes null buf })
encoded_as format wrong_type = of_wrong_type
encoded_as format (fails_with e) = not_converted e

unfoldable pub encode_param_with_type : ToSql → SqlType → ParamResult
encode_param_with_type param t = encoded_as (param.encode_format t) (param.to_sql_checked t)

-- The alias, where the value does not take the type itself.
unfoldable pub or_alias : ToSql → Option SqlType → ParamResult → ParamResult
or_alias param alias (encoded p) = encoded p
or_alias param (some codec) of_wrong_type = encode_param_with_type param codec
or_alias param none of_wrong_type = of_wrong_type
or_alias param alias (not_converted e) = not_converted e

unfoldable pub encode_param_with_alias : ToSql → SqlType → Option SqlType → ParamResult
encode_param_with_alias param t alias = or_alias param alias (encode_param_with_type param t)

-- A parameter, with its type and the alias of that type.
pub record Param : Type 0 where
  pub given : ToSql
  pub original_type : SqlType
  pub codec_type : Option SqlType

-- The errors of `encode_bind_raw`: `Error::to_sql` at an index, and `Error::encode`.
pub data BindFailure : Type 0 where
  wrong_type_at : ℕ → BindFailure
  to_sql_failed : ℕ → Error → BindFailure
  encoding_failed : Error → BindFailure
  bind_panicked : BindFailure

-- The loop over the parameters, from an index on.
unfoldable pub encode_params : ℕ → List Param → BindFailure ⊎ List EncodedParam
encode_params idx [] = inr []
encode_params idx (p ∷ ps) =
    let rest = encode_params (idx + 1) ps in
    elim (encode_param_with_alias p.given p.original_type p.codec_type) [
      | encoded e ↦ elim rest [ inl failure ↦ inl failure | inr es ↦ inr (e ∷ es) ]
      | of_wrong_type ↦ inl (wrong_type_at idx)
      | not_converted e ↦ inl (to_sql_failed idx e)
    ]

-- The closure that writes an encoded parameter.
unfoldable pub put_param : Option Bytes → Bytes → Result (Bytes × IsNull)
put_param (some value) buf = ok (buf ++ value, no_null)
put_param none buf = ok (buf, yes_null)

abbrev pub write_param : EncodedParam → Bytes → Result (Bytes × IsNull)
write_param p = put_param p.value

-- The `match r`.
unfoldable pub bind_result : Result Bytes → BindFailure ⊎ Bytes
bind_result (ok buf) = inr buf
bind_result (err (conversion e)) = inl (to_sql_failed 0 e)
bind_result (err (serialization e)) = inl (encoding_failed e)
bind_result (err e) = inl (encoding_failed e)
bind_result panic = inl bind_panicked

abbrev pub param_formats : List EncodedParam → List ℤ
param_formats [] = []
param_formats (p ∷ ps) = p.format ∷ param_formats ps

module _ (crates : Crates) where
  unfoldable pub bind_encoded : Bytes → Bytes → List EncodedParam → Bytes → BindFailure ⊎ Bytes
  bind_encoded statement portal params buf =
      bind_result
        (bind crates portal statement (param_formats params) params write_param (pos 1 ∷ []) buf)

  unfoldable pub encode_bind_raw : Bytes → List Param → Bytes → Bytes → BindFailure ⊎ Bytes
  encode_bind_raw statement params portal buf = elim (encode_params 0 params) [
    | inl failure ↦ inl failure
    | inr es ↦ bind_encoded statement portal es buf
  ]

-- How a value came to be encoded: for its type, or for the alias of a type that it does not take.
pub data EncodedFor (p : Param) (e : EncodedParam) : Type 0 where
  for_type : encode_param_with_type p.given p.original_type ≡ encoded e → EncodedFor p e
  for_alias :
      (codec : SqlType)
      → p.codec_type ≡ some codec
      → encode_param_with_type p.given p.original_type ≡ of_wrong_type
      → encode_param_with_type p.given codec ≡ encoded e
      → EncodedFor p e

-- The parameters and their encodings, one for one.
pub data AllEncoded : List Param → List EncodedParam → Type 0 where
  none_left : AllEncoded [] []
  one_more :
      {p : Param} {e : EncodedParam} {ps : List Param} {es : List EncodedParam}
      → EncodedFor p e
      → AllEncoded ps es
      → AllEncoded (p ∷ ps) (e ∷ es)
