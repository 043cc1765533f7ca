-- ===== src/Owner/Grant/Tests.antt =====
-- Runs of the grant manager in memory, with the identity in place of SHA-256.
use orbit_cli.Owner.GrantRecord.{
  Draws, GrantManager, GrantRecord, GrantStore, burned, is_expired, matches, new_grant,
  new_grant_manager, tried,
}
use orbit_cli.Prelude.{ℕ, ◌+◌, ◌≡◌, ◌≢◌, ◌↔◌, Bool, true, false, [], ◌∷◌, none, some, arith, refl}
use orbit_cli.Prelude.Int.{pos}
use orbit_cli.Prelude.Words.{
  Text, text, is_empty, same, trim_space, to_lower, remove_byte, has_byte,
}
use orbit_cli.Prelude.Dict.{lookup, delete}
use orbit_cli.Prelude.Result.{ok, err}
use orbit_cli.Owner.Code.{
  normalize, clean_code, format_8_digit_code, generate_8_digit_code, padded, hash_grant_code,
}
use orbit_cli.Owner.Errors.{store_failed, grant_not_found}
use orbit_cli.Owner.Grant.{create_grant, verify_grant, check_memory, store_grant, revoke_grant}
use orbit_cli.Owner.Grant.Memory.{
  held, verify_grant_iff, verify_grant-create_grant, revoke_grant_lem,
}
use orbit_cli.Owner.Grant.Lockout.{IsWrong, guess_all, guess_all-purges}
use orbit_cli.Owner.Grant.Frame.{verify_grant_frame}

abbrev sha : Text → Text
sha t = t

-- a store that fails, for the managers that never call one
abbrev offline : GrantStore (Unit {0})
offline = record {
  save_grant = λ clock g s. (err store_failed, s);
  get_grant = λ now email hash s. (err store_failed, s);
  mark_used = λ now id s. (err store_failed, s);
  list_active_grants = λ now s. (err store_failed, s);
}

abbrev root : Text
root = text "root@manova.dev"

abbrev grant : GrantRecord
grant = record {
  id = text "a1";
  email = root;
  code_hash = text "s1:12345678";
  salt = text "s1";
  role = text "admin";
  issued_at = 1000;
  expires_at = 2000;
  created_by = text "owner";
  attempts = 0;
  max_attempts = 3;
  used = false;
  used_at = none;
}

abbrev one_grant : GrantManager (Unit {0})
one_grant = record { grants = (root, grant) ∷ []; store = none }

abbrev at : ℕ → ℕ → ℕ
at now i = now + i

verify_run :
    (verify_grant offline sha (at 1500) (text " Root@Manova.dev ") (text "1234-5678") one_grant).0
    ≡ ok (burned 1501 (tried grant))
unfolding verify_grant check_memory matches is_expired hash_grant_code normalize clean_code
    trim_space to_lower remove_byte lookup same
verify_run = refl

verify_late :
    (verify_grant offline sha (at 2001) (text "root@manova.dev") (text "1234-5678") one_grant).1
    ≡ record { grants = []; store = none }
unfolding verify_grant check_memory matches is_expired hash_grant_code normalize clean_code
    trim_space to_lower remove_byte lookup same delete
verify_late = refl

named : is_empty (normalize root) ≡ false
unfolding normalize trim_space to_lower
named = refl

typed : is_empty (clean_code (text "1234-5678")) ≡ false
unfolding clean_code remove_byte trim_space
typed = refl

found : held root one_grant ≡ some grant
unfolding normalize trim_space to_lower lookup same
found = refl

fresh : is_expired 1500 grant ≡ false
unfolding is_expired
fresh = refl

hashed : text "s1:12345678" ≡ hash_grant_code sha (clean_code (text "1234-5678")) (text "s1")
unfolding hash_grant_code clean_code remove_byte trim_space
hashed = refl

verify_grant_iff_example :
    ((verify_grant offline sha (at 1500) root (text "1234-5678") one_grant).0
      ≡ ok (burned 1501 (tried grant)))
    ↔ ((g : GrantRecord) × (held root one_grant ≡ some g)
        × (g.used ≡ false)
        × (is_expired 1500 g ≡ false)
        × (g.code_hash ≡ hash_grant_code sha (clean_code (text "1234-5678")) g.salt)
        × (burned 1501 (tried grant) ≡ burned 1501 (tried g)))
verify_grant_iff_example =
    verify_grant_iff offline sha (at 1500) root (text "1234-5678") one_grant
      (burned 1501 (tried grant)) refl named typed

abbrev draws : Draws
draws = record { code_number = some 2345678; grant_id = some (text "a1"); salt = some (text "s1") }

create_run :
    (create_grant offline sha (at 1000) draws root [] (text "owner") (pos 1000) new_grant_manager).0
    ≡ ok (grant, text "1234-5678")
unfolding create_grant new_grant store_grant new_grant_manager generate_8_digit_code
    format_8_digit_code padded hash_grant_code normalize clean_code trim_space to_lower remove_byte
    has_byte
create_run = refl

verify_grant-create_grant_example :
    (verify_grant offline sha
      (at 1500)
      root
      (text "1234-5678")
      (create_grant offline sha
        (at 1000)
        draws
        root
        []
        (text "owner")
        (pos 1000)
        new_grant_manager).1).0
    ≡ ok (burned 1501 (tried grant))
unfolding new_grant_manager
verify_grant-create_grant_example =
    verify_grant-create_grant offline sha (at 1000) (at 1500) draws root [] (text "owner")
      (pos 1000) new_grant_manager refl create_run (omega arith)

abbrev wrong_guess : (ℕ → ℕ) × Text
wrong_guess = (at 1500, text "0000-0000")

is_wrong : IsWrong offline sha grant (text "0000-0000")
unfolding matches hash_grant_code clean_code remove_byte trim_space same
is_wrong = (refl, refl)

guess_all-purges_example :
    held root (guess_all offline sha root (wrong_guess ∷ wrong_guess ∷ wrong_guess ∷ []) one_grant)
    ≡ none
guess_all-purges_example =
    guess_all-purges offline sha root (wrong_guess ∷ wrong_guess ∷ wrong_guess ∷ []) one_grant grant
      refl named found refl (is_wrong, (is_wrong, (is_wrong, tt))) (omega arith) (omega arith)

apart : normalize root ≢ text "dev@manova.dev"
unfolding normalize trim_space to_lower
apart e = cc

verify_grant_frame_example :
    lookup
      (text "dev@manova.dev")
      (verify_grant offline sha (at 1500) root (text "1234-5678") one_grant).1.grants
    ≡ lookup (text "dev@manova.dev") one_grant.grants
verify_grant_frame_example =
    verify_grant_frame offline sha (at 1500) root (text "1234-5678") (text "dev@manova.dev")
      one_grant apart

revoke_grant_lem_example :
    let after : Bool × GrantManager (Unit {0}) =
      revoke_grant offline sha (at 1500) root one_grant in
    ((after.0 ≡ true) ↔ ((g : GrantRecord) × (held root one_grant ≡ some g)))
    × ((verify_grant offline sha (at 1600) root (text "1234-5678") after.1).0 ≡ err grant_not_found)
revoke_grant_lem_example =
    revoke_grant_lem offline sha (at 1500) (at 1600) root (text "1234-5678") one_grant refl named
      typed
