-- ===== src/Client/Connect/Ready.antt =====
-- The parts of the dialogue of tokio-postgres/src/connect_raw.rs up to the SASL exchange do not panic.
use rust_kingbase.Prelude.{
  if◌then◌else◌, Bytes, All, Returns, Returned-Returns, Error, Result, ok, err, panic, ℕ, ◌≡◌, Bool,
  true, false, Option, none, some, List, [], ◌∷◌,
}
use rust_kingbase.Wire.Crates.{Crates}
use rust_kingbase.Wire.Text.{same}
use rust_kingbase.Message.Backend.Body.{
  Message, authentication_sasl_continue, authentication_sasl_final, error_response,
}
use rust_kingbase.Message.Frontend.Total.{
  startup_message-Returns, password_message-Returns, sasl_initial_response-Returns,
  sasl_response-Returns,
}
use rust_kingbase.Auth.Crypto.{CryptoCrates}
use rust_kingbase.Auth.Scram.{new, new_inner, update, ScramSha256}
use rust_kingbase.Auth.Scram.Total.{
  update-Returned, finish-Returned, first_message-Returns, second_message-Returned,
}
use rust_kingbase.Config.{ChannelBinding, Config, binding_disable, binding_prefer, binding_require}
use rust_kingbase.Client.DbError.{ClientError, parse_failed, encode_failed, authentication_failed}
use rust_kingbase.Client.Connection.{SocketPoll, socket_ready, socket_busy, socket_failed}
use rust_kingbase.Client.Connection.Read.Router.{IsAnswer}
use rust_kingbase.Client.Startup.{
  Talk, return, raise, ◌>>=◌, lift, required, flush_sent, send_raw, try_next, Reply, Input,
  StartupStream,
}
use rust_kingbase.Client.Startup.Ends.{Ends, followed-Ends, lift-Ends}
use rust_kingbase.Client.Connect.{
  scram_sha_256_plus, can_skip_channel_binding, allow, raise_db, startup, authenticate_password,
  continue_body, final_body, exchange_by, authenticate_sasl, Mechanism,
}
use rust_kingbase.Client.Connect.Input.{next_input-Pulled, Pulled, pulled, closed, failing, waiting}
use rust_kingbase.Client.Connect.Info.{raise_db-Ends}
use rust_kingbase.Client.Connect.Mechanisms.{mechanisms-Returns}

-- The stream before `read_info`: its answers are those of a decoder, and no message is delayed.
pub record IsReady (s : StartupStream) : Type 0 where
  pub coming : All IsAnswer s.input.incoming
  pub none_delayed : s.delayed ≡ []

-- A part of the dialogue that does not panic, and leaves the stream ready.
pub record Talks {ℓ} {A : Type ℓ} (m : Talk A) : Type 0 where
  pub replies : (s : StartupStream) → IsReady s → Ends (λ a s'. IsReady s') (m s)

pub then-Talks {ℓ κ} :
    {A : Type ℓ} {B : Type κ} {m : Talk A} {f : A → Talk B}
    → Talks m
    → ((a : A) → Talks (f a))
    → Talks (m >>= f)
then-Talks {m = m} {f = f} h k = record {
  replies = λ s ready.
      followed-Ends _ _ f (m s) (h.replies s ready) (λ a s' again. (k a).replies s' again);
}

pub return-Talks {ℓ} : {A : Type ℓ} (a : A) → Talks (return a)
return-Talks a = record { replies = λ s ready. ready }

pub raise-Talks {ℓ} : {A : Type ℓ} (e : ClientError) → Talks (raise {A = A} e)
raise-Talks e = record { replies = λ s ready. tt }

-- A result that is lifted, with what follows its value.
pub lift-Talks {ℓ κ} :
    {A : Type ℓ} {B : Type κ} (wrap : Error → ClientError) (r : Result A) (f : A → Talk B)
    → Returns r
    → ((a : A) → r ≡ ok a → Talks (f a))
    → Talks (lift wrap r >>= f)
lift-Talks wrap r f t k = record {
  replies = λ s ready. lift-Ends _ wrap f r s t (λ a e. (k a e).replies s ready);
}

pub lifted-Talks {ℓ} :
    {A : Type ℓ} (wrap : Error → ClientError) (r : Result A) → Returns r → Talks (lift wrap r)
lifted-Talks wrap (ok a) t = return-Talks a
lifted-Talks wrap (err e) t = raise-Talks (wrap e)
lifted-Talks wrap panic t = absurd t

pub required-Talks {ℓ} : {A : Type ℓ} (e : ClientError) (o : Option A) → Talks (required e o)
required-Talks e none = raise-Talks e
required-Talks e (some a) = return-Talks a

pub if-Talks {ℓ} :
    {A : Type ℓ} (b : Bool) (x y : Talk A) → Talks x → Talks y → Talks (if b then x else y)
if-Talks true x y h k = h
if-Talks false x y h k = k

flush_sent-IsReady :
    (polls : List SocketPoll) (s : StartupStream)
    → IsReady s
    → Ends (λ a s'. IsReady s') (flush_sent polls s)
unfolding flush_sent
flush_sent-IsReady [] s h = tt
flush_sent-IsReady (socket_busy ∷ polls) s h = flush_sent-IsReady polls s h
flush_sent-IsReady (socket_ready ∷ polls) s h = record {
  coming = h.coming;
  none_delayed = h.none_delayed;
}
flush_sent-IsReady (socket_failed e ∷ polls) s h = tt

send_raw-Talks : (buf : Bytes) → Talks (send_raw buf)
unfolding send_raw
send_raw-Talks buf = record {
  replies = λ s h.
      flush_sent-IsReady s.sockets _ (record { coming = h.coming; none_delayed = h.none_delayed });
}

Pulled-IsReady :
    (s : StartupStream) {r : Reply (Option Message) × Input}
    → IsReady s
    → Pulled s.input r
    → Ends (λ a s'. IsReady s') (r.0, record s { input = r.1 })
Pulled-IsReady s h (pulled m i less coming) = record {
  coming = coming;
  none_delayed = h.none_delayed;
}
Pulled-IsReady s h (closed i coming) = record { coming = coming; none_delayed = h.none_delayed }
Pulled-IsReady s h (failing e i) = tt
Pulled-IsReady s h (waiting i) = tt

module _ (crates : Crates) where
  pub try_next-Talks : Talks (try_next crates)
  unfolding try_next
  try_next-Talks = record {
    replies = λ s h. Pulled-IsReady s h (next_input-Pulled crates s.input h.coming);
  }

  -- A message that is written and sent, with what follows.
  sent-Talks {ℓ} :
      {A : Type ℓ} (r : Result Bytes) (f : Unit {0} → Talk A)
      → Returns r
      → Talks (f tt)
      → Talks (lift encode_failed r >>= λ buf. send_raw buf >>= f)
  sent-Talks r f t h =
      lift-Talks encode_failed r _ t (λ buf e. then-Talks (send_raw-Talks buf) (λ u. h))

  pub startup-Talks : (config : Config) (user : Bytes) → Talks (startup crates config user)
  unfolding startup
  startup-Talks config user =
      lift-Talks encode_failed _ send_raw (startup_message-Returns crates _ [])
        (λ buf e. send_raw-Talks buf)

  pub authenticate_password-Talks :
      (password : Bytes) → Talks (authenticate_password crates password)
  unfolding authenticate_password
  authenticate_password-Talks password =
      lift-Talks encode_failed _ send_raw (password_message-Returns crates password [])
        (λ buf e. send_raw-Talks buf)

pub can_skip-Talks : (b : ChannelBinding) → Talks (can_skip_channel_binding b)
unfolding can_skip_channel_binding
can_skip-Talks binding_disable = return-Talks tt
can_skip-Talks binding_prefer = return-Talks tt
can_skip-Talks binding_require = raise-Talks _

allow-Talks : (b : ChannelBinding) (chosen : Mechanism) → Talks (allow b chosen)
unfolding allow
allow-Talks b chosen =
    if-Talks (same chosen.name scram_sha_256_plus) _ _ (return-Talks tt) (can_skip-Talks b)

module _ (crates : Crates) (lossy : Bytes → Bytes) where
  pub raise_db-Talks {ℓ} :
      {A : Type ℓ} (report : Bytes) → Talks (raise_db crates lossy {A = A} report)
  raise_db-Talks report = record { replies = λ s ready. raise_db-Ends crates lossy _ report s }

  continue_body-Talks : (m : Option Message) → Talks (continue_body crates lossy m)
  unfolding continue_body
  continue_body-Talks (some (authentication_sasl_continue body)) = return-Talks body
  continue_body-Talks (some (error_response report)) = raise_db-Talks report
  continue_body-Talks (some _) = raise-Talks _
  continue_body-Talks none = raise-Talks _

  final_body-Talks : (m : Option Message) → Talks (final_body crates lossy m)
  unfolding final_body
  final_body-Talks (some (authentication_sasl_final body)) = return-Talks body
  final_body-Talks (some (error_response report)) = raise_db-Talks report
  final_body-Talks (some _) = raise-Talks _
  final_body-Talks none = raise-Talks _

module _ (crates : Crates) (crypto : CryptoCrates) (lossy : Bytes → Bytes) where
  exchange_by-Talks :
      (draws : List ℕ) (password : Bytes) (chosen : Mechanism)
      → Talks (exchange_by crates crypto lossy draws password chosen)
  unfolding exchange_by new new_inner
  exchange_by-Talks draws password chosen =
      let scram : ScramSha256 = new crypto draws password chosen.binding in
      lift-Talks authentication_failed _ _
        (first_message-Returns crypto draws password chosen.binding)
        (λ first e.
          sent-Talks crates _ _ (sasl_initial_response-Returns crates chosen.name first []) (
            then-Talks (try_next-Talks crates) (λ answered.
              then-Talks (continue_body-Talks crates lossy answered) (λ challenge.
                lift-Talks authentication_failed _ _
                  (Returned-Returns (update-Returned crypto scram challenge))
                  (λ u done.
                    lift-Talks authentication_failed _ _
                      (Returned-Returns (
                        second_message-Returned crypto draws password chosen.binding challenge
                          done))
                      (λ second e'. sent-Talks crates _ _ (sasl_response-Returns crates second []) (
                        then-Talks (try_next-Talks crates) (λ answered'.
                          then-Talks (final_body-Talks crates lossy answered') (λ signature.
                            lifted-Talks authentication_failed _ (
                              Returned-Returns (
                                finish-Returned crypto (update crypto scram challenge).left
                                  signature)))))))))))

  pub authenticate_sasl-Talks :
      (draws : List ℕ) (end_point : Option Bytes) (config : Config) (body : Bytes)
      → Talks (authenticate_sasl crates crypto lossy draws end_point config body)
  unfolding authenticate_sasl
  authenticate_sasl-Talks draws end_point config body =
      then-Talks (required-Talks _ config.password) (λ password.
        lift-Talks parse_failed _ _ (mechanisms-Returns crates body) (λ mechanisms e.
          then-Talks (required-Talks _ _) (λ chosen.
            then-Talks (allow-Talks config.channel_binding chosen)
              (λ u. exchange_by-Talks draws password chosen))))
