-- ===== src/Edge/Guards.antt =====
-- pkg/onboard/infrastructure/server/server.go: what the rate limit of a handler leaves of the server.
use orbit_cli.Prelude.{
  ℕ, ◌≡◌, Bool, true, false, List, Option, none, some, inl, inr, Bool-cases, arith, refl,
}
use orbit_cli.Prelude.Words.{Text}
use orbit_cli.RateLimit.{RateLimitStore}
use orbit_cli.RateLimit.Client.{Network, Request}
use orbit_cli.Edge.{Config, Edge, Reply, guard_ip, guard_key, unless_limited, too_many}

unfoldable pub is_limited : {A : Type 0} → Reply A → Bool
is_limited (too_many wait) = true
is_limited _ = false

module _ {L G C P A : Type 0} where
  -- what a guard does not touch
  pub record Keeps (e e' : Edge L G C P A) : Type 0 where
    pub grants : e'.grants ≡ e.grants
    pub challenges : e'.challenges ≡ e.challenges
    pub idem_cache : e'.idem_cache ≡ e.idem_cache
    pub outside : e'.outside ≡ e.outside

  -- a request that is not answered with 429 is passed on
  pub guarded :
      (g : Option ℕ × Edge L G C P A) (next : Edge L G C P A → Reply A × Edge L G C P A)
      {reply : Reply A}
      → (unless_limited g next).0 ≡ reply
      → is_limited reply ≡ false
      → unless_limited g next ≡ next g.1
  unfolding is_limited
  guarded (some wait, e) next v passed = absurd (ground arith)
  guarded (none, e) next v passed = refl

module _ {L G C P A Ip Net : Type 0} (rates : RateLimitStore L) (net : Network Ip Net)
    (nets : List Net) (config : Config) where
  pub guard_ip-Keeps :
      (now : ℕ) (r : Request) (route : Text) (limit window : ℕ) (e : Edge L G C P A)
      → Keeps e (guard_ip rates net nets config now r route limit window e).1
  unfolding guard_ip
  guard_ip-Keeps now r route limit window e = elim (Bool-cases config.disable_rate_limit) [
    | inl off ↦ record {
      grants = ground arith;
      challenges = ground arith;
      idem_cache = ground arith;
      outside = ground arith;
    }
    | inr on ↦ record {
      grants = ground arith;
      challenges = ground arith;
      idem_cache = ground arith;
      outside = ground arith;
    }
  ]

  pub guard_key-Keeps :
      (now : ℕ) (key route : Text) (limit window : ℕ) (e : Edge L G C P A)
      → Keeps e (guard_key rates net nets config now key route limit window e).1
  unfolding guard_key
  guard_key-Keeps now key route limit window e = elim (Bool-cases config.disable_rate_limit) [
    | inl off ↦ record {
      grants = ground arith;
      challenges = ground arith;
      idem_cache = ground arith;
      outside = ground arith;
    }
    | inr on ↦ record {
      grants = ground arith;
      challenges = ground arith;
      idem_cache = ground arith;
      outside = ground arith;
    }
  ]
