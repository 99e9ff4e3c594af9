-- ===== src/Config/Url/Parts.antt =====
-- The parts of the parser of URLs return for any text.
use rust_kingbase.Prelude.{
  ◌==◌, if◌then◌else◌, Bytes, length, ◌>>=◌, ok_or, Error, Result, ok, ℕ, ◌<◌, Bool, true, false,
  Option, none, some, List, [], ◌∷◌, arith, if-Returned, ok_or-Returned, >>=-Returned, Returned,
  returned, refused,
}
use rust_kingbase.Wire.Text.{codes}
use rust_kingbase.Wire.Crates.{contains}
use rust_kingbase.Types.Inet.{IpAddr}
use rust_kingbase.Config.{split, Config}
use rust_kingbase.Config.Param.Total.{param-Returned}
use rust_kingbase.Config.Url.{
  take_until, eat_byte, until_or_all, split_port, bracket_port, bracketed, host_and_port, decode,
  set_credentials, parse_credentials, host_of, host_param, parse_chunks, parse_hosts, parse_host,
  set_dbname, parse_path,
}

-- What `take_until` makes of a text: nothing, or a tail that is not empty.
pub data Cut (s : Bytes) : Option (Bytes × Bytes) → Type 0 where
  uncut : Cut s none
  cut : (h : Bytes) (x : ℕ) (u : Bytes) → length u < length s → Cut s (some (h, x ∷ u))

longer-Cut :
    (on : Bool) (c : ℕ) (s : Bytes) {r : Option (Bytes × Bytes)}
    → Cut s r
    → Cut (c ∷ s) (
        if on then some ([], c ∷ s) else elim r as (λ _. Option (Bytes × Bytes)) [
          | none ↦ none
          | some (head, tail) ↦ some (c ∷ head, tail)
        ])
longer-Cut true c s h = cut [] c s (omega arith)
longer-Cut false c s uncut = uncut
longer-Cut false c s (cut h x u l) = cut (c ∷ h) x u (omega arith)

pub take_until-Cut : (ends s : Bytes) → Cut s (take_until ends s)
unfolding take_until
take_until-Cut ends [] = uncut
take_until-Cut ends (c ∷ s) = longer-Cut (contains c ends) c s (take_until-Cut ends s)

bracket_port-Returned : (s : Bytes) → Returned (bracket_port s)
unfolding bracket_port
bracket_port-Returned [] = returned none
bracket_port-Returned (c ∷ s) = if-Returned (c == b':') (returned _) (refused _)

bracket_tail-Returned :
    (s : Bytes) (e : Error) {r : Option (Bytes × Bytes)}
    → Cut s r
    → Returned {A = Bytes × Option Bytes} (
        ok_or r e >>= λ p.
        eat_byte p.1 >>= λ remaining. bracket_port remaining >>= λ port. ok (p.0, port))
unfolding eat_byte
bracket_tail-Returned s e uncut = refused e
bracket_tail-Returned s e (cut h x u l) =
    >>=-Returned (bracket_port-Returned u) (λ port. returned _)

bracketed-Returned : (s : Bytes) → Returned (bracketed s)
unfolding bracketed
bracketed-Returned s = bracket_tail-Returned s _ (take_until-Cut (b']' ∷ []) s)

host_and_port-Returned : (s : Bytes) → Returned (host_and_port s)
unfolding host_and_port
host_and_port-Returned [] = returned _
host_and_port-Returned (c ∷ s) = if-Returned (c == b'[') (bracketed-Returned s) (returned _)

module _ (parse_ip : Bytes → Option IpAddr) (percent_bytes : Bytes → Bytes)
    (percent_text : Bytes → Option Bytes) (text_of : Bytes → Option Bytes) where
  abbrev pub dec : Bytes → Result Bytes
  dec = decode parse_ip percent_bytes percent_text text_of

  pub decode-Returned : (s : Bytes) → Returned (dec s)
  unfolding decode
  decode-Returned s = ok_or-Returned (percent_text s) _

  set_credentials-Returned :
      (p : Bytes × Option Bytes) (c : Config)
      → Returned (set_credentials parse_ip percent_bytes percent_text text_of p c)
  unfolding set_credentials
  set_credentials-Returned (u, none) c = >>=-Returned (decode-Returned u) (λ v. returned _)
  set_credentials-Returned (u, some p) c = >>=-Returned (decode-Returned u) (λ v. returned _)

  credentials_tail-Returned :
      (s : Bytes) (c : Config) {r : Option (Bytes × Bytes)}
      → Cut s r
      → Returned {A = Config × Bytes} (elim r as (λ _. Result (Config × Bytes)) [
        | none ↦ ok (c, s)
        | some (creds, tail) ↦ eat_byte tail >>= λ rest.
            set_credentials parse_ip percent_bytes percent_text text_of (split_port creds) c
            >>= λ d. ok (d, rest)
      ])
  unfolding eat_byte
  credentials_tail-Returned s c uncut = returned _
  credentials_tail-Returned s c (cut h x u l) =
      >>=-Returned (set_credentials-Returned (split_port h) c) (λ d. returned _)

  pub parse_credentials-Returned :
      (s : Bytes) (c : Config)
      → Returned (parse_credentials parse_ip percent_bytes percent_text text_of s c)
  unfolding parse_credentials
  parse_credentials-Returned s c = credentials_tail-Returned s c (take_until-Cut (b'@' ∷ []) s)

  host_of-Returned :
      (s : Bytes) (c : Config) → Returned (host_of parse_ip percent_bytes percent_text text_of s c)
  unfolding host_of
  host_of-Returned [] c = >>=-Returned (ok_or-Returned (text_of []) _) (λ h. returned _)
  host_of-Returned (x ∷ s) c =
      if-Returned (x == b'/') (returned _)
        (>>=-Returned (ok_or-Returned (text_of (x ∷ s)) _) (λ h. returned _))

  pub host_param-Returned :
      (s : Bytes) (c : Config)
      → Returned (host_param parse_ip percent_bytes percent_text text_of s c)
  unfolding host_param
  host_param-Returned s c = host_of-Returned (percent_bytes s) c

  parse_chunks-Returned :
      (chunks : List Bytes) (c : Config)
      → Returned (parse_chunks parse_ip percent_bytes percent_text text_of chunks c)
  unfolding parse_chunks
  parse_chunks-Returned [] c = returned c
  parse_chunks-Returned (chunk ∷ chunks) c = >>=-Returned (host_and_port-Returned chunk) (λ p.
      >>=-Returned (host_param-Returned p.0 c) (λ d. >>=-Returned (decode-Returned _) (λ port.
        >>=-Returned (param-Returned parse_ip (codes "port") port d)
          (λ e. parse_chunks-Returned chunks e))))

  parse_hosts-Returned :
      (host : Bytes) (c : Config)
      → Returned (parse_hosts parse_ip percent_bytes percent_text text_of host c)
  unfolding parse_hosts
  parse_hosts-Returned [] c = returned c
  parse_hosts-Returned (x ∷ host) c = parse_chunks-Returned (split b',' (x ∷ host)) c

  pub parse_host-Returned :
      (s : Bytes) (c : Config)
      → Returned (parse_host parse_ip percent_bytes percent_text text_of s c)
  unfolding parse_host
  parse_host-Returned s c =
      >>=-Returned (parse_hosts-Returned (until_or_all (codes "/?") s).0 c) (λ d. returned _)

  set_dbname-Returned :
      (s : Bytes) (c : Config)
      → Returned (set_dbname parse_ip percent_bytes percent_text text_of s c)
  unfolding set_dbname
  set_dbname-Returned [] c = returned c
  set_dbname-Returned (x ∷ s) c = >>=-Returned (decode-Returned (x ∷ s)) (λ n. returned _)

  pub parse_path-Returned :
      (s : Bytes) (c : Config)
      → Returned (parse_path parse_ip percent_bytes percent_text text_of s c)
  unfolding parse_path
  parse_path-Returned [] c = returned _
  parse_path-Returned (x ∷ s) c =
      if-Returned (x == b'/')
        (>>=-Returned (set_dbname-Returned (until_or_all (codes "?") s).0 c) (λ d. returned _))
        (returned _)
