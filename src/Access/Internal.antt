-- ===== src/Access/Internal.antt =====
-- RequireInternalNetwork of common/auth/middleware.go.
use identity_mservice.Base.{
  Bytes, ℕ, ◌+◌, ◌*◌, ◌/◌, ◌^◌, ◌≤◌, ◌<◌, nat_eq, codes, ◌==◌, ◌&&◌, ◌||◌, if◌then◌else◌, Bool,
  true, false, Option, none, some, List, [], ◌∷◌, ◌≡◌, ◌⊎◌, ◌↔◌, inl, inr, refl, subst, arith,
  eq_iff,
}
use identity_mservice.Base.Text.{trim_space}
use identity_mservice.Backend.{Backend}
use identity_mservice.Access.Http.{Request, Response, Verdict, abort, next, respond, empty}
use identity_mservice.Kyc.Email.{equal_fold}

-- A net.IP: the four bytes where To4 gives them, and all sixteen where it gives nil.
pub data Ip : Type 0 where
  v4 : ℕ → ℕ → ℕ → ℕ → Ip
  v6 : List ℕ → Ip

-- net.SplitHostPort, of which the code takes the host, and net.ParseIP.
pub record NetParser : Type 0 where
  pub split_host_port : Bytes → Option Bytes
  pub parse_ip : Bytes → Option Ip

abbrev v6_loopback : List ℕ
v6_loopback = 0 ∷ 0 ∷ 0 ∷ 0 ∷ 0 ∷ 0 ∷ 0 ∷ 0 ∷ 0 ∷ 0 ∷ 0 ∷ 0 ∷ 0 ∷ 0 ∷ 0 ∷ 1 ∷ []

unfoldable pub is_loopback : Ip → Bool
is_loopback (v4 a x y z) = nat_eq a 127
is_loopback (v6 bytes) = bytes == v6_loopback

-- ip[0]&0xfe == 0xfc for the sixteen bytes
unique_local : List ℕ → Bool
unique_local [] = false
unique_local (a ∷ rest) = nat_eq (a / 2) 126

-- ip4[1]&0xf0 == 16 for a byte
unfoldable pub is_private : Ip → Bool
unfolding unique_local
is_private (v4 a x y z) =
    nat_eq a 10 || nat_eq a 172 && nat_eq (x / 16) 1 || nat_eq a 192 && nat_eq x 168
is_private (v6 bytes) = unique_local bytes

-- ip[0] == 0xfe && ip[1]&0xc0 == 0x80
link_local : List ℕ → Bool
link_local (a ∷ x ∷ rest) = nat_eq a 0xfe && nat_eq (x / 64) 2
link_local (a ∷ []) = false
link_local [] = false

unfoldable pub is_link_local_unicast : Ip → Bool
unfolding link_local
is_link_local_unicast (v4 a x y z) = nat_eq a 169 && nat_eq x 254
is_link_local_unicast (v6 bytes) = link_local bytes

unfoldable pub internal_network_open : Backend → Bool
internal_network_open b = equal_fold b (trim_space (b.getenv (codes "APP_ENV"))) (codes "local")

module _ (net : NetParser) where
  abbrev pub host_of : Bytes → Bytes
  host_of remote_addr = elim (net.split_host_port (trim_space remote_addr)) [
    | none ↦ remote_addr
    | some host ↦ host
  ]

  abbrev pub is_internal_ip : Option Ip → Bool
  is_internal_ip none = false
  is_internal_ip (some ip) = is_loopback ip || is_private ip || is_link_local_unicast ip

  unfoldable pub is_internal_remote_addr : Bytes → Bool
  unfolding is_loopback is_private is_link_local_unicast
  is_internal_remote_addr remote_addr =
      is_internal_ip (net.parse_ip (trim_space (host_of remote_addr)))

  unfoldable pub require_internal_network : Backend → Request → Verdict
  unfolding internal_network_open is_internal_remote_addr
  require_internal_network b req =
      if internal_network_open b || is_internal_remote_addr req.remote_addr
      then next req
      else abort (respond 403 empty)

-- An IPv4 address as a number.
abbrev pub number : ℕ → ℕ → ℕ → ℕ → ℕ
number a x y z = ((a * 256 + x) * 256 + y) * 256 + z

-- The blocks 127.0.0.0/8, 10.0.0.0/8, 172.16.0.0/12, 192.168.0.0/16 and 169.254.0.0/16; ::1, and
-- the blocks fc00::/7 and fe80::/10, by the first two bytes.
abbrev pub InBlock : ℕ → ℕ → ℕ → Type 0
InBlock first size n = (first ≤ n) × (n < first + size)

abbrev pub IsInternalV6 : List ℕ → Type 0
IsInternalV6 (a ∷ x ∷ rest) =
    ((a ∷ x ∷ rest) ≡ v6_loopback)
    ⊎ InBlock 0xfc00 0x200 (a * 256 + x)
    ⊎ InBlock 0xfe80 0x40 (a * 256 + x)
IsInternalV6 bytes = ⊥

abbrev pub IsInternal : Ip → Type 0
IsInternal (v4 a x y z) =
    InBlock (number 127 0 0 0) (2 ^ 24) (number a x y z)
    ⊎ InBlock (number 10 0 0 0) (2 ^ 24) (number a x y z)
    ⊎ InBlock (number 172 16 0 0) (2 ^ 20) (number a x y z)
    ⊎ InBlock (number 192 168 0 0) (2 ^ 16) (number a x y z)
    ⊎ InBlock (number 169 254 0 0) (2 ^ 16) (number a x y z)
IsInternal (v6 bytes) = IsInternalV6 bytes

-- The bytes of an address.
abbrev pub IsIp : Ip → Type 0
IsIp (v4 a x y z) = (a < 256) × (x < 256) × (y < 256) × (z < 256)
IsIp (v6 (a ∷ x ∷ rest)) = (a < 256) × (x < 256)
IsIp (v6 bytes) = ⊥

is_internal_ip_iff :
    (net : NetParser) (ip : Ip) → IsIp ip → (is_internal_ip net (some ip) ≡ true) ↔ IsInternal ip
unfolding is_loopback is_private is_link_local_unicast unique_local link_local
is_internal_ip_iff net (v4 a x y z) (h, i, j, k) = ground arith
is_internal_ip_iff net (v6 []) h = absurd h
is_internal_ip_iff net (v6 (a ∷ [])) h = absurd h
is_internal_ip_iff net (v6 (a ∷ x ∷ rest)) (h, i) =
    ground (arith, eq_iff (a ∷ x ∷ rest) v6_loopback)

is_internal_ip-some :
    (net : NetParser) (o : Option Ip)
    → ((ip : Ip) → o ≡ some ip → IsIp ip)
    → (is_internal_ip net o ≡ true) ↔ ((ip : Ip) × (o ≡ some ip) × IsInternal ip)
is_internal_ip-some net none documented = (λ h. cc h, λ (ip, given, inside). cc given)
is_internal_ip-some net (some ip) documented =
    let iff = is_internal_ip_iff net ip (documented ip refl) in
    (
      λ h. (ip, refl, iff.0 h),
      λ (other, given, inside).
          let same : other ≡ ip = cc given in iff.1 (subst IsInternal same inside),
    )

passes_iff :
    (x y : Bool) (req : Request) (r : Response)
    → ((if x || y then next req else abort r) ≡ next req) ↔ ((x ≡ true) ⊎ (y ≡ true))
passes_iff x y req r = ground arith

-- Where net.ParseIP gives addresses of bytes: RequireInternalNetwork passes a request on exactly
-- when the trimmed APP_ENV is local up to case, or the trimmed host of the remote address is an IP
-- address in 127.0.0.0/8, 10.0.0.0/8, 172.16.0.0/12, 192.168.0.0/16 or 169.254.0.0/16, is ::1, or
-- lies in fc00::/7 or fe80::/10.
pub require_internal_network_iff :
    (net : NetParser) (b : Backend) (req : Request)
    → ((ip : Ip) → net.parse_ip (trim_space (host_of net req.remote_addr)) ≡ some ip → IsIp ip)
    → (require_internal_network net b req ≡ next req) ↔ (
        (b.fold_case (trim_space (b.getenv (codes "APP_ENV"))) ≡ b.fold_case (codes "local"))
        ⊎ ((ip : Ip) × (net.parse_ip (trim_space (host_of net req.remote_addr)) ≡ some ip)
            × IsInternal ip))
unfolding require_internal_network internal_network_open is_internal_remote_addr equal_fold
require_internal_network_iff net b req documented =
    let local =
      eq_iff (b.fold_case (trim_space (b.getenv (codes "APP_ENV"))))
        (b.fold_case (codes "local")) in
    let internal =
      is_internal_ip-some net (net.parse_ip (trim_space (host_of net req.remote_addr)))
        documented in
    let passes =
      passes_iff (internal_network_open b) (is_internal_remote_addr net req.remote_addr) req
        (respond 403 empty) in
    (
      λ h. elim (passes.0 h) [ inl x ↦ inl (local.0 x) | inr y ↦ inr (internal.0 y) ],
      λ h. passes.1 (elim h [ inl x ↦ inl (local.1 x) | inr y ↦ inr (internal.1 y) ]),
    )
