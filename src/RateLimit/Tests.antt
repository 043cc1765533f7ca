-- ===== src/RateLimit/Tests.antt =====
-- Runs of a limiter in memory, with a network of addresses that are texts.
use orbit_cli.RateLimit.Window.{count}
use orbit_cli.Prelude.Dict.{lookup}
use orbit_cli.Prelude.{
  ◌+◌, if◌then◌else◌, ℕ, ◌≡◌, ◌≤◌, true, false, List, [], ◌∷◌, none, some, refl, arith,
}
use orbit_cli.Prelude.Int.{pos}
use orbit_cli.Prelude.Words.{Text, text, same, trim_space, is_empty, split}
use orbit_cli.RateLimit.{RateLimitStore, Limiter, slide, prune, allow_key}
use orbit_cli.RateLimit.Requests.{Call, IsOrdered, passed, window_at, window_limit}
use orbit_cli.RateLimit.Pruning.{slide-retry_after, allow_key-prune}
use orbit_cli.RateLimit.Client.{Network, extract_client_ip, extract_client_ip-forged}
use orbit_cli.RateLimit.Middleware.{RouteLimitOptions, middleware, middleware-untrusted}
use orbit_cli.RateLimit.Client.{Request}
use orbit_cli.RateLimit.{lookup}
use orbit_cli.Prelude.Words.{trim_left}
use orbit_cli.Prelude.Words.{trim_right}
use orbit_cli.Prelude.Words.{is_space}
use orbit_cli.RateLimit.Client.{host_of}
use orbit_cli.RateLimit.Client.{forwarded_ips}
use orbit_cli.RateLimit.{new_limiter}
use orbit_cli.Prelude.Dict.{IsUnique}

-- a store for the limiters that never call one
abbrev offline : RateLimitStore (Unit {0})
offline = record {
  record_event = λ key route now s. none;
  count_events_since = λ key route since s. none;
  prune_events_older_than = λ cutoff s. none;
}

abbrev by_now : ℕ → Call
by_now now = record { now = now; key = text "10.1.1.1"; route = text "verify" }

abbrev three : List Call
three = by_now 100 ∷ by_now 120 ∷ by_now 180 ∷ []

three-IsOrdered : IsOrdered 0 three
three-IsOrdered = (omega arith, (omega arith, (omega arith, tt)))

window_limit_example :
    count (window_at 50 130) (
      passed offline
        (pos 1)
        (pos 50)
        (text "verify:10.1.1.1")
        (new_limiter none (pos 0) (pos 0))
        three)
    ≤ 1
window_limit_example =
    window_limit offline (pos 1) (pos 50) (pos 0) (pos 0) (text "verify:10.1.1.1") three
      three-IsOrdered 130

refused_at_120 : (slide 120 1 50 (100 ∷ [])).0.allowed ≡ false
unfolding slide
refused_at_120 = refl

slide-retry_after_example :
    (slide
      (120 + (slide 120 1 50 (100 ∷ [])).0.retry_after)
      1
      50
      (slide 120 1 50 (100 ∷ [])).1).0.allowed
    ≡ true
slide-retry_after_example =
    slide-retry_after 120 1 50 (100 ∷ []) (omega arith) (omega arith) refused_at_120

-- a limiter with an old event and a recent one
abbrev busy : Limiter (Unit {0})
busy = record {
  store = none;
  default_limit = 1;
  default_window = 50;
  mem_events = (text "verify:10.1.1.1", 10 ∷ 100 ∷ []) ∷ [];
}

busy-IsUnique : IsUnique busy.mem_events
unfolding lookup
busy-IsUnique = (refl, tt)

allow_key-prune_example :
    (allow_key offline 120
      (text "10.1.1.1")
      (text "verify")
      (pos 0)
      (pos 0)
      (prune offline 60 busy).1).0
    ≡ (allow_key offline 120 (text "10.1.1.1") (text "verify") (pos 0) (pos 0) busy).0
allow_key-prune_example =
    allow_key-prune offline 60 120 (text "10.1.1.1") (text "verify") (pos 0) (pos 0) busy refl
      busy-IsUnique (omega arith)

-- addresses are texts, and a network is one address
abbrev plain : Network Text Text
plain = record {
  parse_ip = λ s. if is_empty s then none else some s;
  print_ip = λ ip. ip;
  split_host_port = λ s. none;
  is_v4 = λ ip. true;
  parse_cidr = λ s. some s;
  contains = λ n ip. same n ip;
}

abbrev proxy : Text
proxy = text "10.0.0.1"

abbrev forged_request : Request
forged_request = record {
  remote_addr = proxy;
  cf_connecting_ip = [];
  forwarded_for = text "1.1.1.1,9.9.9.9,10.0.0.1";
  real_ip = [];
}

extract_client_ip-forged_example :
    extract_client_ip plain (proxy ∷ []) (some forged_request) ≡ text "9.9.9.9"
unfolding trim_space trim_left trim_right is_space host_of same forwarded_ips split
extract_client_ip-forged_example =
    extract_client_ip-forged plain (proxy ∷ []) forged_request (text "1.1.1.1")
      (text "9.9.9.9,10.0.0.1") proxy (text "9.9.9.9") (proxy ∷ []) refl refl refl refl refl refl
      (refl, tt)

abbrev direct : Text → Request
direct header = record {
  remote_addr = text "9.9.9.9";
  cf_connecting_ip = header;
  forwarded_for = header;
  real_ip = header;
}

abbrev by_ip : RouteLimitOptions
by_ip = record { route = text "verify"; limit = pos 1; window = pos 50; key = λ r. none }

middleware-untrusted_example :
    middleware offline plain (proxy ∷ []) by_ip (text "/") 120 (direct (text "1.1.1.1")) busy
    ≡ middleware offline plain (proxy ∷ []) by_ip (text "/") 120 (direct []) busy
unfolding trim_space trim_left trim_right is_space host_of same
middleware-untrusted_example =
    middleware-untrusted offline plain (proxy ∷ []) by_ip (text "/") 120 busy
      (direct (text "1.1.1.1")) (direct []) (text "9.9.9.9") refl refl refl refl refl
