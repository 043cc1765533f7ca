-- ===== src/Owner/Challenge/Tests.antt =====
-- Runs of the challenge manager in memory, with the identity in place of SHA-256.
use orbit_cli.Owner.ChallengeRecord.{
  Challenge, ChallengeManager, ChallengeStore, is_expired, matches,
}
use orbit_cli.Prelude.{ℕ, ◌+◌, ◌≡◌, ◌↔◌, false, [], ◌∷◌, none, some, refl, arith}
use orbit_cli.Prelude.Words.{Text, text, same, is_empty, trim_space, to_lower}
use orbit_cli.Prelude.Dict.{lookup}
use orbit_cli.Prelude.Result.{ok, err}
use orbit_cli.Owner.Code.{normalize, hash_code}
use orbit_cli.Owner.Errors.{store_failed}
use orbit_cli.Owner.Challenge.{verify_code, check_memory}
use orbit_cli.Owner.Challenge.Memory.{held, IsWrong, guess_all, verify_code_iff, challenge_purges}

abbrev sha : Text → Text
sha t = t

-- a store that fails, for the managers that never call one
abbrev offline : ChallengeStore (Unit {0})
offline = record {
  save_challenge = λ clock c s. (err store_failed, s);
  get_active_challenge = λ now email s. (err store_failed, s);
  increment_attempts = λ id s. (err store_failed, s);
  mark_verified = λ now id s. (err store_failed, s);
  prune_expired = λ now s. (err store_failed, s);
}

abbrev root : Text
root = text "root@manova.dev"

abbrev challenge : Challenge
challenge = record {
  id = text "c1";
  email = root;
  code_hash = text "s1:123456";
  salt = text "s1";
  attempts = 0;
  max_attempts = 3;
  verified = false;
  verified_at = none;
  created_at = 1000;
  expires_at = 2000;
}

abbrev one_challenge : ChallengeManager (Unit {0})
one_challenge = record { challenges = (root, challenge) ∷ []; store = none }

abbrev at : ℕ → ℕ → ℕ
at now i = now + i

named : is_empty (normalize root) ≡ false
unfolding normalize trim_space to_lower
named = refl

typed : is_empty (trim_space (text " 123456")) ≡ false
unfolding trim_space
typed = refl

found : held root one_challenge ≡ some challenge
unfolding normalize trim_space to_lower lookup same
found = refl

verify_run : (verify_code offline sha (at 1500) root (text " 123456") one_challenge).0 ≡ ok tt
unfolding verify_code check_memory matches is_expired hash_code normalize trim_space to_lower lookup
    same
verify_run = refl

is_wrong : IsWrong offline sha challenge (text "000000")
unfolding matches hash_code trim_space same
is_wrong = (refl, refl)

verify_code_iff_example :
    ((verify_code offline sha (at 1500) root (text " 123456") one_challenge).0 ≡ ok tt) ↔ (
      (c : Challenge) × (held root one_challenge ≡ some c)
      × (is_expired 1500 c ≡ false)
      × (c.code_hash ≡ hash_code sha (trim_space (text " 123456")) c.salt))
verify_code_iff_example =
    verify_code_iff offline sha (at 1500) root (text " 123456") one_challenge refl named typed

abbrev guess : (ℕ → ℕ) × Text
guess = (at 1500, text "000000")

challenge_purges_example :
    held root (guess_all offline sha root (guess ∷ guess ∷ guess ∷ []) one_challenge) ≡ none
challenge_purges_example =
    challenge_purges offline sha root (guess ∷ guess ∷ guess ∷ []) one_challenge challenge refl
      named found (is_wrong, (is_wrong, (is_wrong, tt))) (omega arith) (omega arith)
