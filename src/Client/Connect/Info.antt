-- ===== src/Client/Connect/Info.antt =====
-- read_info of tokio-postgres/src/connect_raw.rs against the list of the messages that it reads.
use rust_kingbase.Prelude.{
  Bytes, All, ok, ℕ, zero, suc, ◌<◌, ◌≡◌, refl, ap, ◌∙◌, Option, some, List, [], ◌∷◌, ◌++◌,
  append-nil, append_assoc, arith,
}
use rust_kingbase.Wire.Crates.{Crates}
use rust_kingbase.Wire.Utf8.{from_utf8-eq-ok}
use rust_kingbase.Message.Backend.Body.{
  BackendKeyDataBody, Message, backend_key_data, error_response, notice_response, parameter_status,
  ready_for_query, ParameterStatusBody,
}
use rust_kingbase.Message.Backend.Iterators.{get_str}
use rust_kingbase.Codec.{BackendMessage, async}
use rust_kingbase.Client.DbError.{db_error, parse_failed}
use rust_kingbase.Client.DbError.Total.{db_error-Returns}
use rust_kingbase.Client.Connection.{insert_parameter}
use rust_kingbase.Client.Connection.Read.Router.{IsAnswer}
use rust_kingbase.Client.Connection.Read.Rounds.{get_str-Returns}
use rust_kingbase.Client.Startup.{
  next_input, Talk, raise, followed, try_next, Reply, Input, StartupStream, gives, raises, aborts,
  awaits,
}
use rust_kingbase.Client.Startup.Ends.{Ends, lift-Ends}
use rust_kingbase.Client.Connect.{raise_db}
use rust_kingbase.Client.Connect.Session.{
  no_info, delay, room, info_round, info_rounds, read_info, Info,
}
use rust_kingbase.Client.Connect.Input.{next_input-Pulled, Pulled, pulled, closed, failing, waiting}

-- `ms` are the next messages of a stream, and `last` is what stands behind them.
pub data Yields (crates : Crates) (last : Input) : Input → List Message → Type 0 where
  read_up : {i : Input} → i ≡ last → Yields crates last i []
  one_read :
      {i : Input} {m : Message} {ms : List Message} (middle : Input)
      → next_input crates i ≡ (gives (some m), middle)
      → Yields crates last middle ms
      → Yields crates last i (m ∷ ms)

-- The messages that may stand before the `ReadyForQuery` of a start-up.
pub data IsSetup : Message → Type 0 where
  is_key : (body : BackendKeyDataBody) → IsSetup (backend_key_data body)
  is_setting : (body : ParameterStatusBody) → IsSetup (parameter_status body)
  is_report : (report : Bytes) → IsSetup (notice_response report)

-- The notices, as the connection is to report them.
abbrev pub notices : List Message → List BackendMessage
notices [] = []
notices (notice_response report ∷ ms) = async (notice_response report) ∷ notices ms
notices (_ ∷ ms) = notices ms

-- The last key data, after that of `key`.
abbrev pub last_key : BackendKeyDataBody → List Message → BackendKeyDataBody
last_key key [] = key
last_key key (backend_key_data body ∷ ms) = last_key body ms
last_key key (_ ∷ ms) = last_key key ms

-- The parameters, set in order over those of `ps`.
abbrev pub settings : List (Bytes × Bytes) → List Message → List (Bytes × Bytes)
settings ps [] = ps
settings ps (parameter_status body ∷ ms) = settings (insert_parameter body.name body.value ps) ms
settings ps (_ ∷ ms) = settings ps ms

abbrev pub gathered : Info → List Message → Info
gathered info ms =
    let key = last_key (record { process_id = info.process_id; secret_key = info.secret_key }) ms in
    record {
      process_id = key.process_id;
      secret_key = key.secret_key;
      parameters = settings info.parameters ms;
    }

-- `read_info` has read the messages `ms` of the start-up and the `ReadyForQuery` that ends it.
abbrev pub Informed : Crates → StartupStream → Info → Info → StartupStream → Type 0
Informed crates before start info after =
    (ms : List Message) × (status : ℕ) × Yields crates after.input before.input
      (ms ++ ready_for_query status ∷ [])
    × All IsSetup ms
    × (info ≡ gathered start ms)
    × (after ≡ record before { input = after.input; delayed = before.delayed ++ notices ms })
    × All IsAnswer after.input.incoming

get_str-eq-ok : (s : Bytes) {t : Bytes} → get_str s ≡ ok t → t ≡ s
unfolding get_str
get_str-eq-ok s h = (from_utf8-eq-ok s h).0

module _ (crates : Crates) (lossy : Bytes → Bytes) where
  pub raise_db-Ends {ℓ} :
      {A : Type ℓ} (Q : A → StartupStream → Type 0) (report : Bytes) (s : StartupStream)
      → Ends Q (raise_db crates lossy report s)
  unfolding raise_db
  raise_db-Ends Q report s =
      lift-Ends Q parse_failed raise (db_error crates lossy report) s
        (db_error-Returns crates lossy report) (λ e h. tt)

  -- A message in front of those that the rest of the rounds read.
  before_rest :
      (s s₁ : StartupStream) (start start₁ : Info) (m : Message) (r : Reply Info × StartupStream)
      → next_input crates s.input ≡ (gives (some m), s₁.input)
      → ((ms : List Message) → gathered start₁ ms ≡ gathered start (m ∷ ms))
      → ((ms : List Message) (i : Input)
          → record s₁ { input = i; delayed = s₁.delayed ++ notices ms }
            ≡ record s { input = i; delayed = s.delayed ++ notices (m ∷ ms) })
      → IsSetup m
      → Ends (Informed crates s₁ start₁) r
      → Ends (Informed crates s start) r
  before_rest s s₁ start start₁ m (gives info, s') e g d setup
        (ms, status, read, all_setup, said, same, coming) =
      (
        m ∷ ms,
        status,
        one_read s₁.input e read,
        (setup, all_setup),
        said ∙ g ms,
        same ∙ d ms s'.input,
        coming,
      )
  before_rest s s₁ start start₁ m (raises x, s') e g d setup h = tt
  before_rest s s₁ start start₁ m (awaits, s') e g d setup h = tt
  before_rest s s₁ start start₁ m (aborts, s') e g d setup h = h

  module _ (s : StartupStream) (start : Info) (i : Input) (again : Info → Talk Info)
      (coming : All IsAnswer i.incoming)
      (ih : (info : Info) (t : StartupStream)
        → t.input ≡ i
        → Ends (Informed crates t info) (again info t)) where
    round-Informed :
        (m : Message)
        → next_input crates s.input ≡ (gives (some m), i)
        → Ends
            (Informed crates s start)
            (info_round crates lossy again start (some m) (record s { input = i }))
    unfolding info_round delay
    round-Informed (backend_key_data body) e =
        let start₁ : Info = record start {
          process_id = body.process_id;
          secret_key = body.secret_key;
        } in
        before_rest s (record s { input = i }) start start₁ (backend_key_data body) _ e (λ ms. refl)
          (λ ms j. refl) (is_key body) (ih start₁ _ refl)
    round-Informed (parameter_status body) e =
        lift-Ends _ parse_failed _ (get_str body.name) _ (get_str-Returns body.name) (λ name n.
          lift-Ends _ parse_failed _ (get_str body.value) _ (get_str-Returns body.value) (λ value v.
            let start₁ : Info = record start {
              parameters = insert_parameter name value start.parameters;
            } in
            before_rest s (record s { input = i }) start start₁ (parameter_status body) _ e
              (λ ms. rw (get_str-eq-ok body.name n, get_str-eq-ok body.value v) refl) (λ ms j. refl)
              (is_setting body) (ih start₁ _ refl)))
    round-Informed (notice_response report) e =
        let s₁ : StartupStream = record s {
          input = i;
          delayed = s.delayed ++ async (notice_response report) ∷ [];
        } in
        before_rest s s₁ start start (notice_response report) _ e (λ ms. refl)
          (λ ms j.
            ap (λ d. record s { input = j; delayed = d })
              (append_assoc s.delayed (async (notice_response report) ∷ []) (notices ms)))
          (is_report report) (ih start s₁ refl)
    round-Informed (ready_for_query status) e =
        ([], status, one_read i e (read_up refl), tt, refl, rw (append-nil s.delayed) refl, coming)
    round-Informed (error_response report) e = raise_db-Ends _ report _
    round-Informed _ e = tt

  round_step :
      (fuel : ℕ) (start : Info) (s : StartupStream) {r : Reply (Option Message) × Input}
      → room s.input < suc fuel
      → ((info : Info) (t : StartupStream)
          → All IsAnswer t.input.incoming
          → room t.input < fuel
          → Ends (Informed crates t info) (info_rounds crates lossy fuel info t))
      → next_input crates s.input ≡ r
      → Pulled s.input r
      → Ends (Informed crates s start) (
          followed
            (info_round crates lossy (info_rounds crates lossy fuel) start)
            (r.0, record s { input = r.1 }))
  unfolding info_round
  round_step fuel start s le ih e (pulled m i less coming) =
      round-Informed s start i (info_rounds crates lossy fuel) coming
        (λ info t same. ih info t (rw same coming) (rw same (omega arith))) m e
  round_step fuel start s le ih e (closed i coming) = tt
  round_step fuel start s le ih e (failing x i) = tt
  round_step fuel start s le ih e (waiting i) = tt

  info_rounds-Informed :
      (fuel : ℕ) (start : Info) (s : StartupStream)
      → All IsAnswer s.input.incoming
      → room s.input < fuel
      → Ends (Informed crates s start) (info_rounds crates lossy fuel start s)
  unfolding info_rounds try_next
  info_rounds-Informed zero start s h le = absurd (omega arith)
  info_rounds-Informed (suc fuel) start s h le =
      round_step fuel start s le (info_rounds-Informed fuel) refl
        (next_input-Pulled crates s.input h)

  -- From answers that a decoder gives, `read_info` ends without a panic. Where it comes to a value, the
  -- next messages of the stream were key data, parameters and notices up to the first `ReadyForQuery`,
  -- which it has read and no more: the key is the last one among them, the parameters are theirs, set
  -- in order, and their notices are kept in order behind those delayed.
  pub read_info-Informed :
      (s : StartupStream)
      → All IsAnswer s.input.incoming
      → Ends (Informed crates s no_info) (read_info crates lossy s)
  unfolding read_info
  read_info-Informed s h = info_rounds-Informed _ no_info s h (omega arith)
