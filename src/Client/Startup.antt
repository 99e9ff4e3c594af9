-- ===== src/Client/Startup.antt =====
-- StartupStream of tokio-postgres/src/connect_raw.rs. An `await` polls until it is ready; what the
-- stream and the socket will answer are fields of the state, and where no answer is left it waits.
pub mod Ends
use rust_kingbase.Prelude.{
  Bytes, Error, Result, ok, err, panic, ◌≡◌, refl, Option, none, some, List, [], ◌∷◌, ◌++◌,
}
use rust_kingbase.Wire.Crates.{Crates}
use rust_kingbase.Message.Backend.Body.{Message}
use rust_kingbase.Codec.{next, FrontendMessage, BackendMessage, raw, normal, async}
use rust_kingbase.Client.DbError.{ClientError, io_failed}
use rust_kingbase.Client.Connection.{
  Incoming, SocketPoll, no_bytes, end_of_stream, broken, arrived, socket_ready, socket_busy,
  socket_failed,
}

-- What an `await` comes to: a value, an error of the client, a panic, or it waits on.
pub data Reply {ℓ} (A : Type ℓ) : Type ℓ where
  gives : A → Reply A
  raises : ClientError → Reply A
  aborts : Reply A
  awaits : Reply A

-- The messages to come: the batch `buf`, and the answers of the stream.
pub record Input : Type 0 where
  pub buf : Bytes
  pub incoming : List Incoming

pub record StartupStream : Type 0 where
  pub input : Input
  pub sockets : List SocketPoll
  pub written : List FrontendMessage
  pub delayed : List BackendMessage

-- The next message of the batch; behind its last one the loop goes on with `rest`.
unfoldable pub from_batch :
    List Incoming
    → (Bytes → Reply (Option Message) × Input)
    → Bytes
    → Result (Option Message × Bytes)
    → Reply (Option Message) × Input
from_batch answers rest buf (ok (some m, buf')) =
    (gives (some m), record { buf = buf'; incoming = answers })
from_batch answers rest buf (ok (none, buf')) = rest buf'
from_batch answers rest buf (err e) =
    (raises (io_failed e), record { buf = buf; incoming = answers })
from_batch answers rest buf panic = (aborts, record { buf = buf; incoming = answers })

module _ (crates : Crates) where
  -- The loop of `poll_next` behind the batch `buf`, with the answers of the stream.
  unfoldable pub refill : List Incoming → Bytes → Reply (Option Message) × Input
  unfolding from_batch
  refill [] buf = (awaits, record { buf = buf; incoming = [] })
  refill (no_bytes ∷ answers) buf = refill answers buf
  refill (end_of_stream ∷ answers) buf = (gives none, record { buf = buf; incoming = answers })
  refill (broken e ∷ answers) buf = (raises (io_failed e), record { buf = buf; incoming = answers })
  refill (arrived (async m) ∷ answers) buf =
      (gives (some m), record { buf = buf; incoming = answers })
  refill (arrived (normal messages complete) ∷ answers) buf =
      from_batch answers (refill answers) messages (next crates messages)

  -- `try_next().await.map_err(Error::io)`
  unfoldable pub next_input : Input → Reply (Option Message) × Input
  next_input i = from_batch i.incoming (refill i.incoming) i.buf (next crates i.buf)

-- A part of the dialogue: it works on the stream and comes to a reply.
abbrev pub Talk {ℓ} : Type ℓ → Type ℓ
Talk A = StartupStream → Reply A × StartupStream

abbrev pub return {ℓ} : {A : Type ℓ} → A → Talk A
return a s = (gives a, s)

abbrev pub raise {ℓ} : {A : Type ℓ} → ClientError → Talk A
raise e s = (raises e, s)

-- What follows a reply.
abbrev pub followed {ℓ κ} :
    {A : Type ℓ} {B : Type κ} → (A → Talk B) → Reply A × StartupStream → Reply B × StartupStream
followed f (gives a, s) = f a s
followed f (raises e, s) = (raises e, s)
followed f (aborts, s) = (aborts, s)
followed f (awaits, s) = (awaits, s)

infixl 5 ◌>>=◌
abbrev pub ◌>>=◌ {ℓ κ} : {A : Type ℓ} {B : Type κ} → Talk A → (A → Talk B) → Talk B
◌>>=◌ m f s = followed f (m s)

-- `.map_err(..)?` on a result.
abbrev pub lift {ℓ} : {A : Type ℓ} → (Error → ClientError) → Result A → Talk A
lift wrap (ok a) s = (gives a, s)
lift wrap (err e) s = (raises (wrap e), s)
lift wrap panic s = (aborts, s)

-- `.ok_or_else(..)?`
abbrev pub required {ℓ} : {A : Type ℓ} → ClientError → Option A → Talk A
required e none s = (raises e, s)
required e (some a) s = (gives a, s)

-- The flush of a `send`, with the answers of the socket.
unfoldable pub flush_sent : List SocketPoll → StartupStream → Reply (Unit {0}) × StartupStream
flush_sent [] s = (awaits, record s { sockets = [] })
flush_sent (socket_busy ∷ polls) s = flush_sent polls s
flush_sent (socket_ready ∷ polls) s = (gives tt, record s { sockets = polls })
flush_sent (socket_failed e ∷ polls) s = (raises (io_failed e), record s { sockets = polls })

-- `send(FrontendMessage::Raw(..)).await.map_err(Error::io)`; every `send` is flushed, so that the
-- buffer of the next one has room.
unfoldable pub send_raw : Bytes → Talk (Unit {0})
unfolding flush_sent
send_raw buf s = flush_sent s.sockets (record s { written = s.written ++ raw buf ∷ [] })

module _ (crates : Crates) where
  -- `stream.try_next()`
  unfoldable pub try_next : Talk (Option Message)
  try_next s = let (reply, input) = next_input crates s.input in (reply, record s { input = input })

followed_gives {ℓ κ} :
    {A : Type ℓ} {B : Type κ} (f : A → Talk B) (r : Reply A × StartupStream) {s' : StartupStream}
    {b : B}
    → followed f r ≡ (gives b, s')
    → (a : A) × (mid : StartupStream) × (r ≡ (gives a, mid)) × (f a mid ≡ (gives b, s'))
followed_gives f (gives a, s) h = (a, s, refl, h)
followed_gives f (raises e, s) h = cc
followed_gives f (aborts, s) h = cc
followed_gives f (awaits, s) h = cc

-- Inversion of a part that comes to a value.
pub >>=-gives {ℓ κ} :
    {A : Type ℓ} {B : Type κ} (m : Talk A) (f : A → Talk B) {s s' : StartupStream} {b : B}
    → (m >>= f) s ≡ (gives b, s')
    → (a : A) × (mid : StartupStream) × (m s ≡ (gives a, mid)) × (f a mid ≡ (gives b, s'))
>>=-gives m f {s = s} h = followed_gives f (m s) h
