-- ===== src/Client/Connection/Write/Sending.antt =====
-- A request that is taken puts its messages into the stream, in their order.
-- What a request makes of a connection that has taken it, when `out` is still to be sent.
use rust_kingbase.Prelude.{
  Bool-cases, Bytes, Result, ok, ◌≡◌, refl, inl, inr, true, false, none, List, [], ◌∷◌, ◌++◌,
  append_assoc, arith,
}
use rust_kingbase.Prelude.Int.{pos}
use rust_kingbase.Wire.Crates.{Crates}
use rust_kingbase.Message.Frontend.{copy_done, copy_fail, sync, terminate}
use rust_kingbase.Message.Frontend.Layout.{cstr, framed}
use rust_kingbase.Message.Frontend.Messages.{bare_messages, text_messages}
use rust_kingbase.Codec.{FrontendMessage}
use rust_kingbase.Client.Connection.{
  CopyInMessage, Polled, CopyInReceiver, RequestMessages, Connection, message_of_copy,
  copy_finished, not_yet, item, ended, single, copy_in, active,
}
use rust_kingbase.Client.Connection.Write.{
  poll_receiver, poll_copy_in, write_single, write_copy, write_messages, WriteRound, want_flush,
  write_failed, write_panicked, write_done, write_on,
}
use rust_kingbase.Client.Connection.Write.Output.{
  copy_output, output_of, to_come, output, to_answer, read_side,
}

pub record Kept (crates : Crates) (c : Connection) (out : List FrontendMessage) (c' : Connection)
    : Type 0 where
  pub active_still : c'.state ≡ active
  pub out_kept : output crates c' ≡ c.written ++ out
  pub answers_kept : to_answer c' ≡ to_answer c
  pub sockets_kept : c'.sockets ≡ c.sockets
  pub reads_kept : read_side c' ≡ read_side c

abbrev pub KeptRound : Crates → Connection → List FrontendMessage → WriteRound → Type 0
KeptRound crates c out (write_done (want_flush b) c') = Kept crates c out c'
KeptRound crates c out (write_done (write_failed e) c') = Kept crates c out c'
KeptRound crates c out (write_done write_panicked c') = ⊥
KeptRound crates c out (write_on c') = Kept crates c out c'

-- What a poll of a copy makes of the messages that it is to send.
data Copied (crates : Crates) (out : List FrontendMessage)
    : Result (Polled FrontendMessage × CopyInReceiver) → Type 0 where
  copied :
      (m : FrontendMessage) (r : CopyInReceiver)
      → out ≡ m ∷ output_of crates (copy_in r)
      → Copied crates out (ok (item m, r))
  waiting :
      (r : CopyInReceiver)
      → out ≡ output_of crates (copy_in r)
      → Copied crates out (ok (not_yet, r))
  exhausted : (r : CopyInReceiver) → out ≡ [] → Copied crates out (ok (ended, r))

module _ (crates : Crates) where
  copy_done_lem : copy_done crates [] ≡ ok (framed crates b'c' [])
  copy_done_lem = let (e, _, _, _, _, _) = bare_messages crates [] (pos 0) (pos 0) in e

  sync_lem : (buf : Bytes) → sync crates buf ≡ ok (buf ++ framed crates b'S' [])
  sync_lem buf = let (_, _, e, _, _, _) = bare_messages crates buf (pos 0) (pos 0) in e

  pub terminate_lem : terminate crates [] ≡ ok (framed crates b'X' [])
  terminate_lem = let (_, _, _, e, _, _) = bare_messages crates [] (pos 0) (pos 0) in e

  copy_fail_lem : copy_fail crates [] [] ≡ ok (framed crates b'f' (cstr []))
  copy_fail_lem = let (_, _, e, _, _) = text_messages crates [] [] 0 refl (omega arith) in e

  poll_receiver-Copied :
      (polls : List (Polled CopyInMessage)) (r : CopyInReceiver)
      → r.receiver ≡ polls
      → r.done ≡ false
      → Copied crates (copy_output crates polls) (poll_receiver crates polls r)
  unfolding poll_receiver
  poll_receiver-Copied [] r e h = waiting r (rw (h, e) refl)
  poll_receiver-Copied (not_yet ∷ polls) r e h = waiting (record r { receiver = polls }) (rw h refl)
  poll_receiver-Copied (item (message_of_copy m) ∷ polls) r e h =
      copied m (record r { receiver = polls }) (rw h refl)
  poll_receiver-Copied (item copy_finished ∷ polls) r e h =
      rw (copy_done_lem, sync_lem (framed crates b'c' []))
        (copied _ (record { receiver = polls; done = true }) refl)
  poll_receiver-Copied (ended ∷ polls) r e h =
      rw (copy_fail_lem, sync_lem (framed crates b'f' (cstr [])))
        (copied _ (record { receiver = polls; done = true }) refl)

  poll_copy_in-Copied :
      (r : CopyInReceiver) → Copied crates (output_of crates (copy_in r)) (poll_copy_in crates r)
  unfolding poll_copy_in
  poll_copy_in-Copied r = elim (Bool-cases r.done) [
    | inl on ↦ simp on (exhausted r refl)
    | inr off ↦ simp off (poll_receiver-Copied r.receiver r refl off)
  ]

  write_copy-Kept :
      (out : List FrontendMessage) (answer : Result (Polled FrontendMessage × CopyInReceiver))
      (c : Connection)
      → Copied crates out answer
      → c.state ≡ active
      → c.pending_request ≡ none
      → KeptRound crates c (out ++ to_come crates c) (write_copy crates answer c)
  unfolding write_copy
  write_copy-Kept out _ c (copied m r e) h p = record {
    active_still = h;
    out_kept = rw e (append_assoc c.written (m ∷ []) _);
    answers_kept = refl;
    sockets_kept = refl;
    reads_kept = refl;
  }
  write_copy-Kept out _ c (waiting r e) h p = record {
    active_still = h;
    out_kept = rw e refl;
    answers_kept = refl;
    sockets_kept = refl;
    reads_kept = refl;
  }
  write_copy-Kept out _ c (exhausted r e) h p = record {
    active_still = h;
    out_kept = rw (e, p) refl;
    answers_kept = refl;
    sockets_kept = refl;
    reads_kept = refl;
  }

  pub write_messages-Kept :
      (request : RequestMessages) (c : Connection)
      → c.state ≡ active
      → c.pending_request ≡ none
      → KeptRound crates c
          (output_of crates request ++ to_come crates c)
          (write_messages crates request c)
  unfolding write_messages write_single
  write_messages-Kept (single m) c h p = simp h record {
    active_still = refl;
    out_kept = rw p (append_assoc c.written (m ∷ []) _);
    answers_kept = refl;
    sockets_kept = refl;
    reads_kept = refl;
  }
  write_messages-Kept (copy_in r) c h p =
      write_copy-Kept (output_of crates (copy_in r)) (poll_copy_in crates r) c
        (poll_copy_in-Copied r) h p
