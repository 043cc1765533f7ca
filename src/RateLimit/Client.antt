-- ===== src/RateLimit/Client.antt =====
-- pkg/onboard/infrastructure/server/ratelimit/limiter.go: the address that a request counts for.
-- The packages net and net/http are parameters: parsing and printing an address, splitting off a
-- port, and the test of an address against a network.
use orbit_cli.Prelude.{
  Bool, true, false, List, [], ◌∷◌, ◌++◌, Option, none, some, any, if◌then◌else◌, ◌≡◌, arith, All,
  refl,
}
use orbit_cli.Prelude.Words.{Text, text, trim_space, is_empty, has_byte, split}
use orbit_cli.Prelude.Words.{split-append}

-- what net gives: ParseIP, IP.String, SplitHostPort (the host), IP.To4 (whether there is one),
-- ParseCIDR (the network) and IPNet.Contains
pub record Network (Ip Net : Type 0) : Type 0 where
  pub parse_ip : Text → Option Ip
  pub print_ip : Ip → Text
  pub split_host_port : Text → Option Text
  pub is_v4 : Ip → Bool
  pub parse_cidr : Text → Option Net
  pub contains : Net → Ip → Bool

-- the parts of a request that are read; a header that is not sent is empty
pub record Request : Type 0 where
  pub remote_addr : Text
  pub cf_connecting_ip : Text
  pub forwarded_for : Text
  pub real_ip : Text

abbrev pub default_trusted_cidrs : List Text
default_trusted_cidrs =
    text "127.0.0.1/32"
    ∷ text "::1/128"
    ∷ text "10.0.0.0/8"
    ∷ text "172.16.0.0/12"
    ∷ text "192.168.0.0/16"
    ∷ text "fc00::/7"
    ∷ []

module _ {Ip Net : Type 0} (net : Network Ip Net) where
  open net use {parse_ip, print_ip, split_host_port, is_v4, parse_cidr, contains}

  -- the mask that a single address gets
  unfoldable pub with_mask : Text → Text
  with_mask raw = if has_byte b'/' raw then raw else elim (parse_ip raw) [
    | none ↦ raw
    | some ip ↦ if is_v4 ip then raw ++ text "/32" else raw ++ text "/128"
  ]

  parsed_cidrs : List Text → List Net
  unfolding with_mask
  parsed_cidrs [] = []
  parsed_cidrs (raw ∷ cidrs) =
      let rest = parsed_cidrs cidrs in
      if is_empty (trim_space raw)
      then rest
      else elim (parse_cidr (with_mask (trim_space raw))) [ none ↦ rest | some n ↦ n ∷ rest ]

  unfoldable pub parse_cidrs : List Text → List Net
  unfolding parsed_cidrs
  parse_cidrs [] = parsed_cidrs default_trusted_cidrs
  parse_cidrs (raw ∷ cidrs) = parsed_cidrs (raw ∷ cidrs)

  abbrev pub is_trusted : List Net → Ip → Bool
  is_trusted nets ip = any (λ n. contains n ip) nets

  -- `h, _, err := net.SplitHostPort(s); if err != nil { h = s }`
  unfoldable pub host_of : Text → Text → Text
  host_of s fallback = elim (split_host_port s) [ none ↦ fallback | some host ↦ host ]

  -- the addresses of X-Forwarded-For
  unfoldable pub forwarded_ips : List Text → List Ip
  unfolding host_of
  forwarded_ips [] = []
  forwarded_ips (part ∷ parts) =
      let rest = forwarded_ips parts in
      if is_empty (trim_space part)
      then rest
      else elim (parse_ip (host_of (trim_space part) (trim_space part))) [
        | none ↦ rest
        | some ip ↦ ip ∷ rest
      ]

  -- the loop from the right: the last untrusted address
  unfoldable pub last_untrusted : List Net → List Ip → Option Ip
  last_untrusted nets [] = none
  last_untrusted nets (ip ∷ ips) = elim (last_untrusted nets ips) [
    | some last ↦ some last
    | none ↦ if is_trusted nets ip then none else some ip
  ]

  -- the client of X-Forwarded-For: the last untrusted address, else the first
  unfoldable pub forwarded_client : List Net → List Ip → Option Ip
  unfolding last_untrusted
  forwarded_client nets ips = elim (last_untrusted nets ips) [
    | some ip ↦ some ip
    | none ↦ elim ips [ [] ↦ none | first ∷ others ↦ some first ]
  ]

  -- the fallback: X-Real-IP, else the remote address
  unfoldable pub real_client : Text → Ip → Text
  unfolding host_of
  real_client header remote =
      if is_empty (trim_space header)
      then print_ip remote
      else elim (parse_ip (host_of (trim_space header) (trim_space header))) [
        | none ↦ print_ip remote
        | some ip ↦ print_ip ip
      ]

  forwarded_or_real : List Net → Request → Ip → Text
  unfolding forwarded_ips forwarded_client real_client
  forwarded_or_real nets r remote =
      if is_empty r.forwarded_for
      then real_client r.real_ip remote
      else elim (forwarded_client nets (forwarded_ips (split b',' r.forwarded_for))) [
        | none ↦ real_client r.real_ip remote
        | some ip ↦ print_ip ip
      ]

  -- what a trusted proxy says of the client
  unfoldable pub proxied : List Net → Request → Ip → Text
  unfolding forwarded_or_real
  proxied nets r remote =
      if is_empty (trim_space r.cf_connecting_ip)
      then forwarded_or_real nets r remote
      else elim (parse_ip (trim_space r.cf_connecting_ip)) [
        | none ↦ forwarded_or_real nets r remote
        | some ip ↦ print_ip ip
      ]

  -- (*Limiter).ExtractClientIP; none for a nil request
  unfoldable pub extract_client_ip : List Net → Option Request → Text
  unfolding proxied host_of
  extract_client_ip nets none = text "127.0.0.1"
  extract_client_ip nets (some r) =
      let host = host_of r.remote_addr (trim_space r.remote_addr) in
      elim (parse_ip host) [
        | none ↦ host
        | some remote ↦ if is_trusted nets remote then proxied nets r remote else print_ip remote
      ]

  -- A peer that no trusted network contains counts for the same address whatever its headers say.
  pub extract_client_ip-untrusted :
      (nets : List Net) (r r' : Request) (remote : Ip)
      → r.remote_addr ≡ r'.remote_addr
      → parse_ip (host_of r.remote_addr (trim_space r.remote_addr)) ≡ some remote
      → is_trusted nets remote ≡ false
      → extract_client_ip nets (some r) ≡ extract_client_ip nets (some r')
  unfolding extract_client_ip
  extract_client_ip-untrusted nets r r' remote same_peer parsed untrusted = ground arith

  last_untrusted-trusted :
      (nets : List Net) (chain : List Ip)
      → All (λ ip. is_trusted nets ip ≡ true) chain
      → last_untrusted nets chain ≡ none
  unfolding last_untrusted
  last_untrusted-trusted nets [] trusted = refl
  last_untrusted-trusted nets (ip ∷ chain) trusted =
      ground (arith, last_untrusted-trusted nets chain trusted.1, trusted.0)

  last_untrusted-append :
      (nets : List Net) (forged : List Ip) (client : Ip) (chain : List Ip)
      → is_trusted nets client ≡ false
      → All (λ ip. is_trusted nets ip ≡ true) chain
      → last_untrusted nets (forged ++ client ∷ chain) ≡ some client
  unfolding last_untrusted
  last_untrusted-append nets [] client chain untrusted trusted =
      ground (arith, last_untrusted-trusted nets chain trusted)
  last_untrusted-append nets (ip ∷ forged) client chain untrusted trusted =
      ground (arith, last_untrusted-append nets forged client chain untrusted trusted)

  forwarded_ips-append :
      (parts more : List Text)
      → forwarded_ips (parts ++ more) ≡ forwarded_ips parts ++ forwarded_ips more
  unfolding forwarded_ips
  forwarded_ips-append [] more = refl
  forwarded_ips-append (part ∷ parts) more = ground (arith, forwarded_ips-append parts more)

  forwarded_client-append :
      (nets : List Net) (forged : List Ip) (client : Ip) (chain : List Ip)
      → is_trusted nets client ≡ false
      → All (λ ip. is_trusted nets ip ≡ true) chain
      → forwarded_client nets (forged ++ client ∷ chain) ≡ some client
  unfolding forwarded_client
  forwarded_client-append nets forged client chain untrusted trusted =
      ground (arith, last_untrusted-append nets forged client chain untrusted trusted)

  proxied_forwarded :
      (nets : List Net) (r : Request) (remote : Ip) (forged appended : Text)
      → is_empty (trim_space r.cf_connecting_ip) ≡ true
      → r.forwarded_for ≡ forged ++ b',' ∷ appended
      → proxied nets r remote
        ≡ elim (forwarded_client nets (forwarded_ips (split b',' (forged ++ b',' ∷ appended)))) [
          | none ↦ real_client r.real_ip remote
          | some ip ↦ print_ip ip
        ]
  unfolding proxied forwarded_or_real
  proxied_forwarded nets r remote [] appended cf e = ground (arith, e)
  proxied_forwarded nets r remote (c ∷ forged) appended cf e = ground (arith, e)

  -- Behind a trusted peer that sends no CF-Connecting-IP, what a client writes before the addresses
  -- that the proxies append to X-Forwarded-For changes nothing: the request counts for the address
  -- that the outermost proxy saw, when it is untrusted and those after it are trusted.
  pub extract_client_ip-forged :
      (nets : List Net) (r : Request) (forged appended : Text) (remote client : Ip)
      (chain : List Ip)
      → r.forwarded_for ≡ forged ++ b',' ∷ appended
      → is_empty (trim_space r.cf_connecting_ip) ≡ true
      → parse_ip (host_of r.remote_addr (trim_space r.remote_addr)) ≡ some remote
      → is_trusted nets remote ≡ true
      → forwarded_ips (split b',' appended) ≡ client ∷ chain
      → is_trusted nets client ≡ false
      → All (λ ip. is_trusted nets ip ≡ true) chain
      → extract_client_ip nets (some r) ≡ print_ip client
  unfolding extract_client_ip
  extract_client_ip-forged nets r forged appended remote client chain e cf parsed peer ips u t =
      ground (
        arith,
        proxied_forwarded nets r remote forged appended cf e,
        split-append b',' forged appended,
        forwarded_ips-append (split b',' forged) (split b',' appended),
        forwarded_client-append nets (forwarded_ips (split b',' forged)) client chain u t,
      )
