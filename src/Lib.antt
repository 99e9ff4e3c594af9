-- ===== src/Lib.antt =====
-- The protocol of rust-kingbase: postgres-protocol, and the codec and the connection of tokio-postgres.
--
-- A client writes messages into a buffer (message/frontend.rs), the server's bytes are cut into
-- batches of messages (tokio-postgres/src/codec.rs), each message is read from its frame
-- (message/backend.rs), the lists inside a message are read by iterators, and the values inside a row
-- are read and written by the functions of types/mod.rs. escape/mod.rs quotes text for SQL.
-- A configuration (tokio-postgres/src/config.rs) is read from a text of options or from a URL.
-- The connection (tokio-postgres/src/connection.rs) takes requests from a channel, puts their messages
-- into the codec's stream, and hands the batches that come back to the requests in their order. When
-- it is set up (tokio-postgres/src/connect_raw.rs), the stream is encrypted (connect_tls.rs), the
-- client proves its password to the server (authentication/sasl.rs), and what the server tells of
-- itself is read. The types of Kingbase's MySQL mode (tokio-postgres/src/kingbase) are read and written
-- by the codecs of built-in types, and the parameters of a statement (query.rs) are encoded by them.
--
-- Files, with the paths of the repository:
--   Prelude       the names that all share: lists of bytes, results, Boolean tests, signed numbers
--   Wire          postgres-protocol/src/lib.rs (write_nullable, FromUsize), and the readers and writers
--                 of std, byteorder and bytes on a buffer
--   Types.Scalar, Types.Array, Types.Range, Types.Hstore, Types.Bits, Types.Geometry, Types.Inet
--                 postgres-protocol/src/types/mod.rs
--   Message.Frontend   postgres-protocol/src/message/frontend.rs
--   Message.Backend    postgres-protocol/src/message/backend.rs, with its bodies in Backend.Body and
--                 its iterators in Backend.Iterators
--   Codec         tokio-postgres/src/codec.rs
--   Escape        postgres-protocol/src/escape/mod.rs
--   Client.DbError     tokio-postgres/src/error/mod.rs: DbError::parse, and the errors of a connection
--   Client.Connection  tokio-postgres/src/connection.rs, with Connection.Read, Connection.Write and
--                 Connection.Poll for its polls, and the CopyInReceiver of copy_in.rs
--   Client.Startup     the StartupStream of tokio-postgres/src/connect_raw.rs
--   Client.Connect     connect_raw.rs, with Connect.Session for connect_tls.rs, read_info and
--                 connect_raw
--   Auth.Parser, Auth.Scram  postgres-protocol/src/authentication/sasl.rs
--   Auth.Password postgres-protocol/src/password/mod.rs, hex.rs and authentication/mod.rs
--   Auth.Server   the server of SCRAM-SHA-256 as RFC 5802 describes it, which is no code of the
--                 repository, and Auth.Exchange a client of Auth.Scram with it
--   Config        tokio-postgres/src/config.rs: the options, with Config.Param for Config::param and
--                 Config.Parser and Config.Url for the parsers of key-value strings and of URLs
--   Kingbase      tokio-postgres/src/kingbase: the aliases of types, TinyInt and Year, with
--                 Kingbase.Params for the parameters of a statement in query.rs
--   Examples      the theorems at concrete inputs
-- A child module holds the lemmas and theorems on its parent.
--
-- How the code is modelled:
--   * A buffer is the list of its bytes. A function that appends to a `BytesMut` takes what the buffer
--     holds and returns what it holds then; one that reads returns what it read and what is left. What
--     is left in a buffer after an error is not returned. Capacities and `reserve` are left out.
--   * A `Result` is `ok`, `err`, or `panic` for a failed index, slice, split or `unwrap`, or an
--     overflow where the overflow checks are on. A slice that a pattern or the readers of a buffer
--     keep in range is `take` or `drop`. Errors of all types are one type `Error`; a message that
--     prints a number is kept without the number, and an `io::Error` around a `Utf8Error` is
--     `utf8_error`.
--   * A signed number is a ℤ in the range of its type, and an unsigned one a ℕ: a cast goes through
--     `wrap` and `signed`. A `usize` has 64 bits. A float is its bit pattern.
--   * `Wire.Crates` is a parameter for the crates byteorder, bytes and memchr: big-endian numbers of w
--     bytes and the search for a byte, with the laws that their documentation gives.
--     `Wire.Standard` has functions that meet them.
--   * An iterator is a function from its state to an item and the next state. `collect` runs it on
--     fuel, one more than the items, which the theorems on it show to be enough: it panics without.
--   * The loop of `decode` runs on fuel, one more than the length of the buffer, since every round that
--     goes on passes five bytes at least; it panics without, and `decode` is shown not to panic.
--   * What the stream, the socket and the channels of a connection will answer to its polls is a list
--     of answers in the state, and where the list is empty a poll is pending: a theorem for all states
--     holds for all environments. A sender of responses is the number of its request. The loops of
--     `poll_read` and of the future run on the number of messages that are pending or to come and one
--     more, and that of `poll_write` on the answers of the socket and one more; they panic without, and
--     are shown not to panic. `lossy` is a parameter for `String::from_utf8_lossy`.
--   * An `await` of the set-up polls the same answers until it is ready, and waits on where none is
--     left. `read_info` runs on the bytes and answers that are left and one more, since every message
--     takes one of them at least; it panics without. The TLS crate and `whoami` are parameters, of
--     which `AllReturn` asks that their calls return. A `send` is flushed before the next one, so that
--     its buffer has room.
--   * A built-in type of postgres-types is its number; the generated table of names and kinds is a
--     parameter. A value to be sent is the function of types that its `to_sql_checked` is.
--   * `Auth.Crypto` is a parameter for the crates hmac, sha2, md5, base64 and stringprep, with the laws
--     that base64 decodes what it encodes and a digest has 32 bytes; `Auth.Plain` has functions that
--     meet them. The random numbers of a nonce are an argument.
--   * The parser of options reads characters, which are numbers too; its loop runs on the length of the
--     text and one more, and panics without. `parse_ip` is a parameter for the parser of addresses of
--     the standard library, and those of Config.Url for the crate percent_encoding.
--   * A serializer that the caller gives is a parameter; theorems on it ask that it appends the
--     encoding of its value.
--
-- Not modelled: the loop over hosts and the cancel requests, the dialogues of queries and
-- transactions, the sinks and streams of copies and their binary format, and the traits of
-- postgres-types, which are clients of these parts; sockets, TLS, the derive macros, the blocking
-- client and the generated tables, which are bindings, glue and data.
pub mod Prelude
pub mod Wire
pub mod Types
pub mod Message
pub mod Codec
pub mod Escape
pub mod Client
pub mod Auth
pub mod Config
pub mod Kingbase
pub mod Examples
