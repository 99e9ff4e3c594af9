-- ===== src/Kingbase/Bind.antt =====
-- The `Bind` message of encode_bind_raw in tokio-postgres/src/query.rs.
use rust_kingbase.Prelude.{
  Bytes, length, All, ℕ, suc, ◌+◌, ◌^◌, ◌<◌, ◌≡◌, refl, sym, ap, subst, ◌∙◌, ◌⊎◌, inl, inr, false,
  Option, none, some, List, [], ◌∷◌, ◌++◌, append-nil, arith,
}
use rust_kingbase.Prelude.Int.{pos}
use rust_kingbase.Wire.Crates.{contains, Crates}
use rust_kingbase.Wire.Write.{IsNull, yes_null, no_null, Appends}
use rust_kingbase.Message.Frontend.Layout.{framed}
use rust_kingbase.Message.Frontend.Bind.{Serializes, bound, bind-framed}
use rust_kingbase.Kingbase.{SqlType}
use rust_kingbase.Kingbase.Params.{
  encode_param_with_type, or_alias, encode_param_with_alias, encode_params, put_param, write_param,
  bind_result, param_formats, bind_encoded, encode_bind_raw, EncodedParam, ParamResult, Param,
  BindFailure, EncodedFor, AllEncoded, encoded, of_wrong_type, not_converted, wrong_type_at,
  to_sql_failed, for_type, for_alias, none_left, one_more,
}

alias-EncodedFor :
    (p : Param) (alias : Option SqlType) (first : ParamResult) {e : EncodedParam}
    → p.codec_type ≡ alias
    → encode_param_with_type p.given p.original_type ≡ first
    → or_alias p.given alias first ≡ encoded e
    → EncodedFor p e
unfolding or_alias
alias-EncodedFor p alias (encoded e') c f h = for_type (f ∙ h)
alias-EncodedFor p (some codec) of_wrong_type c f h = for_alias codec c f h
alias-EncodedFor p none of_wrong_type c f h = cc
alias-EncodedFor p alias (not_converted x) c f h = cc

encode_params_step :
    (idx : ℕ) (p : Param) (first : ParamResult) (rest : BindFailure ⊎ List EncodedParam)
    {es : List EncodedParam}
    → (elim first as (λ _. BindFailure ⊎ List EncodedParam) [
      | encoded e ↦ elim rest as (λ _. BindFailure ⊎ List EncodedParam) [
        | inl failure ↦ inl failure
        | inr es ↦ inr (e ∷ es)
      ]
      | of_wrong_type ↦ inl (wrong_type_at idx)
      | not_converted e ↦ inl (to_sql_failed idx e)
    ])
      ≡ inr es
    → (e : EncodedParam) × (es' : List EncodedParam) × (first ≡ encoded e)
      × (rest ≡ inr es')
      × (es ≡ e ∷ es')
encode_params_step idx p (encoded e) (inl failure) h = cc
encode_params_step idx p (encoded e) (inr es') h = (e, es', refl, refl, cc)
encode_params_step idx p of_wrong_type rest h = cc
encode_params_step idx p (not_converted x) rest h = cc

encode_params-AllEncoded :
    (idx : ℕ) (ps : List Param) {es : List EncodedParam}
    → encode_params idx ps ≡ inr es
    → AllEncoded ps es
unfolding encode_params encode_param_with_alias
encode_params-AllEncoded idx [] {es = es} h =
    let no_items : [] ≡ es = cc in subst (AllEncoded []) no_items none_left
encode_params-AllEncoded idx (p ∷ ps) h =
    let (e, es', first, rest, split) = encode_params_step idx p _ (encode_params (idx + 1) ps) h in
    subst (AllEncoded (p ∷ ps)) (sym split) (
      one_more (alias-EncodedFor p p.codec_type _ refl refl first)
        (encode_params-AllEncoded (idx + 1) ps rest))

-- The bytes of an encoded parameter, and whether it is NULL.
abbrev pub bytes_of : Option Bytes → Bytes
bytes_of none = []
bytes_of (some value) = value

abbrev pub null_of : Option Bytes → IsNull
null_of none = yes_null
null_of (some value) = no_null

abbrev pub param_bytes : EncodedParam → Bytes
param_bytes p = bytes_of p.value

abbrev pub param_null : EncodedParam → IsNull
param_null p = null_of p.value

put_param-Appends : (v : Option Bytes) → Appends (put_param v) (bytes_of v) (null_of v)
unfolding put_param
put_param-Appends none buf = rw (append-nil buf)
put_param-Appends (some value) buf = refl

length-param_formats : (es : List EncodedParam) → length (param_formats es) ≡ length es
length-param_formats [] = refl
length-param_formats (e ∷ es) = ap suc (length-param_formats es)

abbrev pub IsShort : EncodedParam → Type 0
IsShort e = length (param_bytes e) < 2 ^ 31

params-Serializes :
    (crates : Crates) (es : List EncodedParam)
    → All IsShort es
    → Serializes crates write_param param_bytes param_null es
params-Serializes crates [] h = tt
params-Serializes crates (e ∷ es) (short, h) =
    ((put_param-Appends e.value, short), params-Serializes crates es h)

module _ (crates : Crates) where
  -- The body of the message: portal, statement, formats, values, and the binary format for the results.
  abbrev pub bind_message : Bytes → Bytes → List EncodedParam → Bytes
  bind_message portal statement es =
      bound crates write_param param_bytes param_null portal statement (param_formats es) es
        (pos 1 ∷ [])

  -- Where every parameter is encoded and the message fits, `encode_bind_raw` appends one `Bind` message
  -- with the encodings in order, each with its format, and asks for binary results. Each value is
  -- encoded for the type of its parameter, and for the alias of that type only where it does not take
  -- the type.
  pub encode_bind_raw-framed :
      (statement portal : Bytes) (params : List Param) (es : List EncodedParam) (buf : Bytes)
      → encode_params 0 params ≡ inr es
      → contains 0 portal ≡ false
      → contains 0 statement ≡ false
      → length es < 2 ^ 16
      → All IsShort es
      → length (bind_message portal statement es) + 4 < 2 ^ 31
      → AllEncoded params es
        × (encode_bind_raw crates statement params portal buf
            ≡ inr (buf ++ framed crates b'B' (bind_message portal statement es)))
  unfolding encode_bind_raw bind_encoded bind_result
  encode_bind_raw-framed statement portal params es buf done hp hs few short fits =
      let formats_few : length (param_formats es) < 2 ^ 16 = rw (length-param_formats es) few in
      let written =
        bind-framed crates write_param param_bytes param_null portal statement (param_formats es) es
          (pos 1 ∷ []) buf hp hs formats_few few (omega arith) (params-Serializes crates es short)
          fits in
      (encode_params-AllEncoded 0 params done, rw (encode_bind_raw, done, written) refl)
