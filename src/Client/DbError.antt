-- ===== src/Client/DbError.antt =====
-- tokio-postgres/src/error/mod.rs: the errors of the client, and an error of the server read from the
-- fields of its message. `String::from_utf8_lossy` is the parameter `lossy`. A `SqlState` is its code.
pub mod Total
use rust_kingbase.Prelude.{
  ◌==◌, if◌then◌else◌, Bytes, length, ◌>>=◌, ok_or, Error, Result, invalid_input, ok, err, panic, ℕ,
  zero, suc, ◌-◌, ◌^◌, String, Option, none, some,
}
use rust_kingbase.Wire.Crates.{Crates}
use rust_kingbase.Wire.Text.{codes, same, parse_unsigned}
use rust_kingbase.Message.Backend.Iterators.{error_fields_next}

pub data Severity : Type 0 where
  sev_panic sev_fatal sev_error sev_warning sev_notice sev_debug sev_info sev_log : Severity

unfoldable pub severity_from_str : Bytes → Option Severity
severity_from_str s =
    if same s (codes "PANIC")
    then some sev_panic
    else if same s (codes "FATAL")
    then some sev_fatal
    else if same s (codes "ERROR")
    then some sev_error
    else if same s (codes "WARNING")
    then some sev_warning
    else if same s (codes "NOTICE")
    then some sev_notice
    else if same s (codes "DEBUG")
    then some sev_debug
    else if same s (codes "INFO")
    then some sev_info
    else if same s (codes "LOG")
    then some sev_log
    else none

-- `Display for Severity`
unfoldable pub severity_text : Severity → Bytes
severity_text sev_panic = codes "PANIC"
severity_text sev_fatal = codes "FATAL"
severity_text sev_error = codes "ERROR"
severity_text sev_warning = codes "WARNING"
severity_text sev_notice = codes "NOTICE"
severity_text sev_debug = codes "DEBUG"
severity_text sev_info = codes "INFO"
severity_text sev_log = codes "LOG"

pub data ErrorPosition : Type 0 where
  original : ℕ → ErrorPosition
  internal : ℕ → Bytes → ErrorPosition

pub record DbError : Type 0 where
  pub severity : Bytes
  pub parsed_severity : Option Severity
  pub code : Bytes
  pub message : Bytes
  pub detail : Option Bytes
  pub hint : Option Bytes
  pub position : Option ErrorPosition
  pub where_ : Option Bytes
  pub schema : Option Bytes
  pub table : Option Bytes
  pub column : Option Bytes
  pub datatype : Option Bytes
  pub constraint : Option Bytes
  pub file : Option Bytes
  pub line : Option ℕ
  pub routine : Option Bytes

-- The variables of `DbError::parse`.
pub record Fields : Type 0 where
  pub severity : Option Bytes
  pub parsed_severity : Option Severity
  pub code : Option Bytes
  pub message : Option Bytes
  pub detail : Option Bytes
  pub hint : Option Bytes
  pub normal_position : Option ℕ
  pub internal_position : Option ℕ
  pub internal_query : Option Bytes
  pub where_ : Option Bytes
  pub schema : Option Bytes
  pub table : Option Bytes
  pub column : Option Bytes
  pub datatype : Option Bytes
  pub constraint : Option Bytes
  pub file : Option Bytes
  pub line : Option ℕ
  pub routine : Option Bytes

abbrev pub no_fields : Fields
no_fields = record {
  severity = none;
  parsed_severity = none;
  code = none;
  message = none;
  detail = none;
  hint = none;
  normal_position = none;
  internal_position = none;
  internal_query = none;
  where_ = none;
  schema = none;
  table = none;
  column = none;
  datatype = none;
  constraint = none;
  file = none;
  line = none;
  routine = none;
}

abbrev pub u32_of : String → Bytes → Result ℕ
u32_of why v = ok_or (parse_unsigned (2 ^ 32 - 1) v) (invalid_input why)

-- The `match field.type_()`.
unfoldable pub note : Fields → ℕ → Bytes → Result Fields
note p type_ v =
    if type_ == b'S'
    then ok (record p { severity = some v })
    else if type_ == b'C'
    then ok (record p { code = some v })
    else if type_ == b'M'
    then ok (record p { message = some v })
    else if type_ == b'D'
    then ok (record p { detail = some v })
    else if type_ == b'H'
    then ok (record p { hint = some v })
    else if type_ == b'P'
    then (u32_of "`P` field did not contain an integer" v >>= λ n.
        ok (record p { normal_position = some n }))
    else if type_ == b'p'
    then (u32_of "`p` field did not contain an integer" v >>= λ n.
        ok (record p { internal_position = some n }))
    else if type_ == b'q'
    then ok (record p { internal_query = some v })
    else if type_ == b'W'
    then ok (record p { where_ = some v })
    else if type_ == b's'
    then ok (record p { schema = some v })
    else if type_ == b't'
    then ok (record p { table = some v })
    else if type_ == b'c'
    then ok (record p { column = some v })
    else if type_ == b'd'
    then ok (record p { datatype = some v })
    else if type_ == b'n'
    then ok (record p { constraint = some v })
    else if type_ == b'F'
    then ok (record p { file = some v })
    else if type_ == b'L'
    then (u32_of "`L` field did not contain an integer" v >>= λ n. ok (record p { line = some n }))
    else if type_ == b'R'
    then ok (record p { routine = some v })
    else if type_ == b'V'
    then (ok_or (severity_from_str v) (invalid_input "`V` field contained an invalid value")
        >>= λ s. ok (record p { parsed_severity = some s }))
    else ok p

-- `match normal_position { .. }`
unfoldable pub position_of : Option ℕ → Option ℕ → Option Bytes → Result (Option ErrorPosition)
position_of (some n) internal_position query = ok (some (original n))
position_of none (some n) query = do
  q ← ok_or query (invalid_input "`q` field missing but `p` field present")
  ok (some (internal n q))
position_of none none query = ok none

unfoldable pub db_error_of : Fields → Result DbError
db_error_of p = do
  severity ← ok_or p.severity (invalid_input "`S` field missing")
  code ← ok_or p.code (invalid_input "`C` field missing")
  text ← ok_or p.message (invalid_input "`M` field missing")
  position ← position_of p.normal_position p.internal_position p.internal_query
  ok (record {
    severity = severity;
    parsed_severity = p.parsed_severity;
    code = code;
    message = text;
    detail = p.detail;
    hint = p.hint;
    position = position;
    where_ = p.where_;
    schema = p.schema;
    table = p.table;
    column = p.column;
    datatype = p.datatype;
    constraint = p.constraint;
    file = p.file;
    line = p.line;
    routine = p.routine;
  })

module _ (crates : Crates) (lossy : Bytes → Bytes) where
  -- The loop of `DbError::parse`. A field has two bytes at least, so that the length of the buffer and
  -- one more is enough fuel; without fuel the model panics.
  unfoldable pub parse_fields : ℕ → Fields → Bytes → Result Fields
  parse_fields zero p buf = panic
  parse_fields (suc fuel) p buf = error_fields_next crates buf >>= λ (item, rest). elim item [
    | none ↦ ok p
    | some f ↦ note p f.type_ (lossy f.value) >>= λ p'. parse_fields fuel p' rest
  ]

module _ (crates : Crates) (lossy : Bytes → Bytes) where
  -- `DbError::parse`
  unfoldable pub parse_db_error : Bytes → Result DbError
  parse_db_error buf = do
    p ← parse_fields crates lossy (suc (length buf)) no_fields buf
    db_error_of p

-- `Error`, by its kind and cause.
pub data ClientError : Type 0 where
  io_failed : Error → ClientError
  parse_failed : Error → ClientError
  db_failed : DbError → ClientError
  unexpected_message : ClientError
  encode_failed : Error → ClientError
  authentication_failed : Error → ClientError
  config_failed : Error → ClientError
  tls_failed : Error → ClientError
  connection_closed : ClientError

-- `Error::db`
unfoldable pub db_error : Crates → (Bytes → Bytes) → Bytes → Result ClientError
db_error crates lossy buf = elim (parse_db_error crates lossy buf) [
  | ok e ↦ ok (db_failed e)
  | err e ↦ ok (parse_failed e)
  | panic ↦ panic
]
