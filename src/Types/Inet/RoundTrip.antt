-- ===== src/Types/Inet/RoundTrip.antt =====
-- Addresses read back, and the netmasks that are refused.
use rust_kingbase.Prelude.{
  ltb, if◌then◌else◌, Bool-cases, Bytes, length, drop, drop-append, Error, message, ok, err, ℕ, ◌≡◌,
  refl, ap, ◌∙◌, inl, inr, ◌∷◌, ◌++◌, append_assoc,
}
use rust_kingbase.Wire.Read.{read_exact-length}
use rust_kingbase.Types.Inet.{inet_to_sql, read_addr, read_family, inet_from_sql, IpAddr, v4, v6}

-- The address has the octets of its family.
abbrev pub HasOctets : IpAddr → Type 0
HasOctets (v4 octets) = length octets ≡ 4
HasOctets (v6 octets) = length octets ≡ 16

abbrev pub mask_limit : IpAddr → ℕ
mask_limit (v4 octets) = 32
mask_limit (v6 octets) = 128

abbrev pub mask_error : IpAddr → Error
mask_error (v4 octets) = message "invalid IPv4 netmask"
mask_error (v6 octets) = message "invalid IPv6 netmask"

-- What `inet_to_sql` appends.
abbrev inet_bytes : IpAddr → ℕ → Bytes
inet_bytes (v4 octets) netmask = 2 ∷ netmask ∷ 0 ∷ 4 ∷ octets
inet_bytes (v6 octets) netmask = 3 ∷ netmask ∷ 0 ∷ 16 ∷ octets

inet_to_sql-bytes :
    (addr : IpAddr) (netmask : ℕ) (buf : Bytes)
    → inet_to_sql addr netmask buf ≡ buf ++ inet_bytes addr netmask
unfolding inet_to_sql
inet_to_sql-bytes (v4 octets) netmask buf = simp append_assoc
inet_to_sql-bytes (v6 octets) netmask buf = simp append_assoc

read_back :
    (a : IpAddr) (netmask : ℕ)
    → HasOctets a
    → inet_from_sql (inet_bytes a netmask) ≡ (
        if ltb (mask_limit a) netmask
        then err (mask_error a)
        else ok (record { addr = a; netmask = netmask }))
unfolding inet_from_sql read_family read_addr
read_back (v4 octets) netmask h = elim (Bool-cases (ltb 32 netmask)) [
  | inl large ↦ rw large refl
  | inr fits ↦ rw fits (rw (← h) (rw (read_exact-length octets) refl))
]
read_back (v6 octets) netmask h = elim (Bool-cases (ltb 128 netmask)) [
  | inl large ↦ rw large refl
  | inr fits ↦ rw fits (rw (← h) (rw (read_exact-length octets) refl))
]

-- An address with a netmask of its family is read back from what was appended to any buffer; the
-- bytes of a larger netmask, which `inet_to_sql` writes as well, are refused.
pub inet_round_trip :
    (addr : IpAddr) (netmask : ℕ) (buf : Bytes)
    → HasOctets addr
    → inet_from_sql (drop (length buf) (inet_to_sql addr netmask buf)) ≡ (
        if ltb (mask_limit addr) netmask
        then err (mask_error addr)
        else ok (record { addr = addr; netmask = netmask }))
inet_round_trip addr netmask buf h =
    ap (λ b. inet_from_sql (drop (length buf) b)) (inet_to_sql-bytes addr netmask buf)
    ∙ ap inet_from_sql (drop-append buf (inet_bytes addr netmask))
    ∙ read_back addr netmask h
