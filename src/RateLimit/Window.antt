-- ===== src/RateLimit/Window.antt =====
-- The sliding window on the timestamps of one key.
use orbit_cli.Prelude.{
  ℕ, ◌+◌, ◌≤◌, ◌<◌, ◌≡◌, Bool, true, false, List, [], ◌∷◌, ◌++◌, keep, length, arith, refl,
  length-append, ap,
}
use orbit_cli.RateLimit.{in_window, slide}
use orbit_cli.Prelude.{◌⊎◌}
use orbit_cli.Prelude.{◌∙◌}

abbrev pub count : (ℕ → Bool) → List ℕ → ℕ
count p ts = length (keep p ts)

keep-append : (p : ℕ → Bool) (xs ys : List ℕ) → keep p (xs ++ ys) ≡ keep p xs ++ keep p ys
keep-append p [] ys = refl
keep-append p (x ∷ xs) ys = ground (arith, keep-append p xs ys)

pub count-append : (p : ℕ → Bool) (xs ys : List ℕ) → count p (xs ++ ys) ≡ count p xs + count p ys
count-append p xs ys = ap length (keep-append p xs ys) ∙ length-append (keep p xs) (keep p ys)

pub count_mono :
    (p q : ℕ → Bool) (xs : List ℕ) → ((t : ℕ) → p t ≡ true → q t ≡ true) → count p xs ≤ count q xs
count_mono p q [] h = omega arith
count_mono p q (x ∷ xs) h = ground (arith, count_mono p q xs h, h x)

pub keep-keep :
    (p q : ℕ → Bool) (xs : List ℕ)
    → ((t : ℕ) → p t ≡ true → q t ≡ true)
    → keep p (keep q xs) ≡ keep p xs
keep-keep p q [] h = refl
keep-keep p q (x ∷ xs) h = ground (arith, keep-keep p q xs h, h x)

-- A request that is let pass finds room in its window and is recorded; one that is refused finds
-- none; either way the timestamps that have left the window are dropped.
pub slide_lem :
    (now limit window : ℕ) (ts : List ℕ)
    → let valid : List ℕ = keep (in_window now window) ts in
      (((slide now limit window ts).0.allowed ≡ true)
        × (length valid < limit)
        × ((slide now limit window ts).1 ≡ valid ++ now ∷ []))
      ⊎ (((slide now limit window ts).0.allowed ≡ false)
          × (limit ≤ length valid)
          × ((slide now limit window ts).1 ≡ valid))
unfolding slide
slide_lem now limit window ts = ground arith
