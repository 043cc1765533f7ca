-- ===== src/RateLimit/Middleware.antt =====
-- pkg/onboard/infrastructure/server/ratelimit/limiter.go: AllowIP, and the handler that Middleware
-- wraps around another.
use orbit_cli.Prelude.{◌≡◌, false, Option, none, some, if◌then◌else◌, List, ℕ}
use orbit_cli.Prelude.Int.{ℤ, pos}
use orbit_cli.Prelude.Words.{Text, is_empty, trim_space}
use orbit_cli.Prelude.Result.{Result, ok, err}
use orbit_cli.RateLimit.{Error, Limiter, RateLimitStore, Response, Verdict, allow_key, respond}
use orbit_cli.RateLimit.Client.{Network, Request, extract_client_ip, host_of, is_trusted}
use orbit_cli.RateLimit.Client.{extract_client_ip-untrusted}
use orbit_cli.Prelude.{arith}
use orbit_cli.Prelude.{ap}
use orbit_cli.Prelude.Words.{text}

-- RouteLimitOptions, without the handler that writes the 429; `key` is what KeyFunc makes of the
-- request, none where there is no KeyFunc
pub record RouteLimitOptions : Type 0 where
  pub route : Text
  pub limit : ℤ
  pub window : ℤ
  pub key : Request → Option Text

abbrev pub verdict_or_refused : Result Error Verdict → Verdict
verdict_or_refused (ok verdict) = verdict
verdict_or_refused (err e) = record { allowed = false; retry_after = 0 }

-- (*Limiter).Allow, which drops the error
unfoldable pub allow : {S : Type 0} → RateLimitStore S → ℕ → Text → Limiter S → Verdict × Limiter S
allow methods now ip l =
    let (result, l') =
      allow_key methods now ip (text "default") (pos l.default_limit) (pos l.default_window) l in
    (verdict_or_refused result, l')

module _ {S Ip Net : Type 0} (methods : RateLimitStore S) (net : Network Ip Net)
    (nets : List Net) where
  -- (*Limiter).AllowIP
  unfoldable pub allow_ip :
      ℕ → Request → Text → ℤ → ℤ → Limiter S → Result Error Verdict × Limiter S
  allow_ip now r route limit window l =
      allow_key methods now (extract_client_ip net nets (some r)) route limit window l

  -- the call of AllowKey or AllowIP
  unfoldable pub checked :
      RouteLimitOptions → Text → ℕ → Request → Limiter S → Result Error Verdict × Limiter S
  unfolding allow_ip
  checked opts route now r l = elim (opts.key r) [
    | none ↦ allow_ip now r route opts.limit opts.window l
    | some k ↦
        if is_empty k
        then allow_ip now r route opts.limit opts.window l
        else allow_key methods now k route opts.limit opts.window l
  ]

  -- the handler of (*Limiter).Middleware for a request to `path`
  unfoldable pub middleware :
      RouteLimitOptions → Text → ℕ → Request → Limiter S → Response × Limiter S
  unfolding checked
  middleware opts path now r l =
      let (result, l') = checked opts (if is_empty opts.route then path else opts.route) now r l in
      (respond result, l')

  checked-untrusted :
      (opts : RouteLimitOptions) (route : Text) (now : ℕ) (l : Limiter S) (r r' : Request)
      → opts.key r ≡ none
      → opts.key r' ≡ none
      → extract_client_ip net nets (some r) ≡ extract_client_ip net nets (some r')
      → checked opts route now r l ≡ checked opts route now r' l
  unfolding checked allow_ip
  checked-untrusted opts route now l r r' k k' same_client = ground (arith, k, k', same_client)

  -- Without a KeyFunc, a peer that no trusted network contains gets the same answer, and leaves the
  -- same state, whatever headers it sends.
  pub middleware-untrusted :
      (opts : RouteLimitOptions) (path : Text) (now : ℕ) (l : Limiter S) (r r' : Request)
      (remote : Ip)
      → opts.key r ≡ none
      → opts.key r' ≡ none
      → r.remote_addr ≡ r'.remote_addr
      → net.parse_ip (host_of net r.remote_addr (trim_space r.remote_addr)) ≡ some remote
      → is_trusted net nets remote ≡ false
      → middleware opts path now r l ≡ middleware opts path now r' l
  unfolding middleware
  middleware-untrusted opts path now l r r' remote k k' same_peer parsed untrusted =
      ap (λ answer. (respond answer.0, answer.1))
        (checked-untrusted opts (if is_empty opts.route then path else opts.route) now l r r' k k'
          (extract_client_ip-untrusted net nets r r' remote same_peer parsed untrusted))
