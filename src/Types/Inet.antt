-- ===== src/Types/Inet.antt =====
-- INET of postgres-protocol/src/types/mod.rs. An address is the list of its octets.
pub mod RoundTrip
use rust_kingbase.Prelude.{
  ltb, ◌==◌, if◌then◌else◌, Bytes, length, ◌>>=◌, Result, message, ok, err, ℕ, String, not,
}
use rust_kingbase.Wire.Read.{read_exact, read_u8}
use rust_kingbase.Wire.Write.{put_slice, put_u8}
use rust_kingbase.Types.Scalar.{drained}

pub data IpAddr : Type 0 where
  v4 v6 : Bytes → IpAddr

pub record Inet : Type 0 where
  pub addr : IpAddr
  pub netmask : ℕ

abbrev pub family_of : IpAddr → ℕ
family_of (v4 octets) = 2
family_of (v6 octets) = 3

abbrev pub put_addr : IpAddr → Bytes → Bytes
put_addr (v4 octets) buf = put_slice octets (put_u8 4 buf)
put_addr (v6 octets) buf = put_slice octets (put_u8 16 buf)

unfoldable pub inet_to_sql : IpAddr → ℕ → Bytes → Bytes
inet_to_sql addr netmask buf =
    put_addr addr (put_u8 0 (put_u8 netmask (put_u8 (family_of addr) buf)))

-- The arm of `match family` for addresses of `size` octets.
unfoldable pub read_addr :
    (Bytes → IpAddr) → ℕ → ℕ → String → String → ℕ → ℕ → Bytes → Result (IpAddr × Bytes)
read_addr make size bits bad_mask bad_length netmask len buf =
    if ltb bits netmask
    then err (message bad_mask)
    else if not (len == size)
    then err (message bad_length)
    else (read_exact size buf >>= λ (octets, rest). ok (make octets, rest))

unfoldable pub read_family : ℕ → ℕ → ℕ → Bytes → Result (IpAddr × Bytes)
read_family family netmask len buf =
    if family == 2
    then read_addr v4 4 32 "invalid IPv4 netmask" "invalid IPv4 address length" netmask len buf
    else if family == 3
    then read_addr v6 16 128 "invalid IPv6 netmask" "invalid IPv6 address length" netmask len buf
    else err (message "invalid IP family")

unfoldable pub inet_from_sql : Bytes → Result Inet
inet_from_sql buf = do
  (family, buf₁) ← read_u8 buf
  (netmask, buf₂) ← read_u8 buf₁
  (_, buf₃) ← read_u8 buf₂
  (len, buf₄) ← read_u8 buf₃
  (addr, buf₅) ← read_family family netmask len buf₄
  drained "invalid buffer size" (record { addr = addr; netmask = netmask }) buf₅
