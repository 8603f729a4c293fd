-- ===== src/Util/Net.antt =====
-- util/net.go: addresses, which are byte slices, and their families.
use gorb.Prelude.{
  Text_eq, ℕ, ◌≡◌, refl, Bool, true, false, ◌&&◌, List, [], ◌∷◌, ◌++◌, arith, length, nat_eq,
  if◌then◌else◌, ◌==◌, nat_eq_iff,
}
use gorb.Prelude.Text.{Text}
use gorb.Prelude.Exec.{Outcome, ok, err, panic}

-- `net.IP`
abbrev pub Ip : Type 0
Ip = List ℕ

pub data Family : Type 0 where
  ipv4 ipv6 : Family

abbrev pub v4_length : ℕ
v4_length = 4

abbrev pub v6_length : ℕ
v6_length = 16

abbrev pub v4_prefix : Ip
v4_prefix = 0 ∷ 0 ∷ 0 ∷ 0 ∷ 0 ∷ 0 ∷ 0 ∷ 0 ∷ 0 ∷ 0 ∷ 0xff ∷ 0xff ∷ []

-- `bytes.HasPrefix`
unfoldable pub has_prefix : List ℕ → List ℕ → Bool
has_prefix s [] = true
has_prefix [] (p ∷ ps) = false
has_prefix (c ∷ s) (p ∷ ps) = nat_eq c p && has_prefix s ps

-- `AddrFamily`
unfoldable pub addr_family : Ip → Family
unfolding has_prefix
addr_family ip =
    if nat_eq (length ip) v4_length
    then ipv4
    else if nat_eq (length ip) v6_length && has_prefix ip v4_prefix
    then ipv4
    else ipv6

abbrev pub family_eq : Family → Family → Bool
family_eq ipv4 ipv4 = true
family_eq ipv6 ipv6 = true
family_eq _ _ = false

-- `net.ParseIP(ip.String())`: a 4-byte address comes back in its 16-byte form.
unfoldable pub to_16 : Ip → Ip
to_16 ip = if nat_eq (length ip) v4_length then v4_prefix ++ ip else ip

-- `ip.String() != other.String()`
unfoldable pub same_text : Ip → Ip → Bool
unfolding to_16
same_text a b = to_16 a == to_16 b

has_prefix-append : (ps s : List ℕ) → has_prefix (ps ++ s) ps ≡ true
unfolding has_prefix
has_prefix-append [] s = refl
has_prefix-append (p ∷ ps) s = ground (arith, has_prefix-append ps s, nat_eq_iff p p)

-- An address has the same family in its 4-byte and in its 16-byte form.
addr_family-to_16 : (ip : Ip) → addr_family (to_16 ip) ≡ addr_family ip
unfolding addr_family to_16
addr_family-to_16 ip = ground (arith, has_prefix-append v4_prefix ip)

-- What `iface.Addrs()` returns: networks, and addresses of other kinds.
pub data NetAddr : Type 0 where
  ip_net : Ip → NetAddr
  other_addr : NetAddr

unfoldable pub collect_ips : List NetAddr → List Ip
collect_ips [] = []
collect_ips (ip_net ip ∷ rest) = ip ∷ collect_ips rest
collect_ips (other_addr ∷ rest) = collect_ips rest

-- `InterfaceIPs`; the operating system says what the interface and its addresses are.
unfoldable pub interface_ips : (Text → Outcome (List NetAddr)) → Text → Outcome (List Ip)
unfolding collect_ips
interface_ips lookup_addrs device = elim (lookup_addrs device) [
  | ok networks ↦ ok (collect_ips networks)
  | err e ↦ err e
  | panic ↦ panic
]
