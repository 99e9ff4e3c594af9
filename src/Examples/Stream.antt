-- ===== src/Examples/Stream.antt =====
-- Buffers for Header::parse, Message::parse, PostgresCodec::decode and BackendMessages::next.
use rust_kingbase.Prelude.{
  Bytes, Returns, ok, ℕ, ◌≡◌, refl, ◌↔◌, true, none, some, [], ◌∷◌, ◌++◌, arith,
}
use rust_kingbase.Wire.Standard.{standard}
use rust_kingbase.Message.Backend.{parse_header, finish, parse_frame, parse}
use rust_kingbase.Message.Backend.Body.{
  read_status, read_parameter_status, read_cstr, parse_body, Message, parameter_status,
  ready_for_query,
}
use rust_kingbase.Message.Backend.Frame.{IsFrame}
use rust_kingbase.Message.Backend.Stream.{
  IsPartial, behind, parse_waits_iff, parse_takes-IsFrame, parse-append,
}
use rust_kingbase.Message.Backend.Total.{parse-Returns}
use rust_kingbase.Message.Backend.Layouts.{on_wire, parse-on_wire}
use rust_kingbase.Codec.{decode, next, scan, round, deliver, async}
use rust_kingbase.Client.Connection.Read.Router.{IsRoutable}
use rust_kingbase.Client.Connection.Read.Decoded.{decode-IsRoutable}
use rust_kingbase.Codec.Scan.{Batch, ready, another}
use rust_kingbase.Codec.Decode.{Decodes, decode-Decodes, NextOf, next-Batch}
use rust_kingbase.Wire.Read.{split_at, slice_to, slice_from, read_exact, read_uint}

-- ReadyForQuery, status `I`.
abbrev ready_bytes : Bytes
ready_bytes = b'Z' ∷ 0 ∷ 0 ∷ 0 ∷ 5 ∷ b'I' ∷ []

-- ParseComplete.
abbrev parsed_bytes : Bytes
parsed_bytes = b'1' ∷ 0 ∷ 0 ∷ 0 ∷ 4 ∷ []

-- A ParameterStatus `a` = `b`.
abbrev parameter_bytes : Bytes
parameter_bytes = b'S' ∷ 0 ∷ 0 ∷ 0 ∷ 8 ∷ b'a' ∷ 0 ∷ b'b' ∷ 0 ∷ []

ready-IsFrame : IsFrame standard b'Z' (b'I' ∷ []) ready_bytes
ready-IsFrame = record { size = 0 ∷ 0 ∷ 0 ∷ 5 ∷ []; laid_out = refl; four = refl; counts = refl }

parsed-IsFrame : IsFrame standard b'1' [] parsed_bytes
parsed-IsFrame = record { size = 0 ∷ 0 ∷ 0 ∷ 4 ∷ []; laid_out = refl; four = refl; counts = refl }

batch : Batch standard (parsed_bytes ++ ready_bytes) true
batch = another parsed-IsFrame refl refl refl (ready ready-IsFrame refl)

decode-Decodes_example :
    Decodes standard (parsed_bytes ++ ready_bytes) (decode standard (parsed_bytes ++ ready_bytes))
decode-Decodes_example = decode-Decodes standard (parsed_bytes ++ ready_bytes)

next-Batch_example :
    NextOf standard (parsed_bytes ++ ready_bytes) true (next standard (parsed_bytes ++ ready_bytes))
next-Batch_example = next-Batch standard (parsed_bytes ++ ready_bytes) true batch (omega arith)

abbrev status : Message
status = parameter_status (record { name = b'a' ∷ []; value = b'b' ∷ [] })

parse-on_wire_example :
    parse standard (on_wire standard status ++ ready_bytes) ≡ ok (some status, ready_bytes)
parse-on_wire_example = parse-on_wire standard status ready_bytes (refl, refl) (omega arith)

ready_parsed :
    parse standard (ready_bytes ++ parsed_bytes) ≡ ok (some (ready_for_query b'I'), parsed_bytes)
unfolding parse parse_header finish parse_frame parse_body read_uint read_exact read_status split_at
    slice_from
ready_parsed = refl

ready_alone : parse standard ready_bytes ≡ ok (some (ready_for_query b'I'), [])
unfolding parse parse_header finish parse_frame parse_body read_uint read_exact read_status split_at
    slice_from
ready_alone = refl

ready_whole : ¬ IsPartial standard ready_bytes
ready_whole partial =
    let waits : parse standard ready_bytes ≡ ok (none, ready_bytes) =
      (parse_waits_iff standard ready_bytes).1 partial in
    let reads : parse standard ready_bytes ≡ ok (some (ready_for_query b'I'), []) = ready_alone in
    cc

parse-append_example :
    parse standard (ready_bytes ++ parsed_bytes) ≡ behind parsed_bytes (parse standard ready_bytes)
parse-append_example = parse-append standard ready_bytes parsed_bytes ready_whole

parse_takes-IsFrame_example :
    (tag : ℕ) × (body : Bytes) × (frame : Bytes) × IsFrame standard tag body frame
    × (ready_bytes ++ parsed_bytes ≡ frame ++ parsed_bytes)
    × (parse_body standard tag body ≡ ok (ready_for_query b'I', []))
parse_takes-IsFrame_example =
    parse_takes-IsFrame standard (ready_bytes ++ parsed_bytes) ready_parsed

parse_waits_iff_example :
    (parse standard (b'Z' ∷ 0 ∷ []) ≡ ok (none, b'Z' ∷ 0 ∷ [])) ↔ IsPartial standard (b'Z' ∷ 0 ∷ [])
parse_waits_iff_example = parse_waits_iff standard (b'Z' ∷ 0 ∷ [])

parse-Returns_example : Returns (parse standard parameter_bytes)
parse-Returns_example = parse-Returns standard parameter_bytes

parameter_decoded :
    decode standard (parameter_bytes ++ ready_bytes) ≡ ok (some (async status), ready_bytes)
unfolding decode scan slice_from round deliver parse parse_frame parse_header parse_body finish
    read_parameter_status read_cstr read_exact read_uint split_at slice_to
parameter_decoded = refl

decode-IsRoutable_example : IsRoutable (async status)
decode-IsRoutable_example =
    decode-IsRoutable standard (parameter_bytes ++ ready_bytes) ready_bytes parameter_decoded
