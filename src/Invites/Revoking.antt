-- ===== src/Invites/Revoking.antt =====
-- Revoking one invitation.
use orbit_cli.Prelude.{
  ◌⊎◌, ℕ, ◌≡◌, Bool, true, List, [], ◌∷◌, none, some, find, keep, leb, length, arith, refl, ◌∙◌,
  Bool-cases, Option-cases, inl, inr,
}
use orbit_cli.Prelude.Words.{Text}
use orbit_cli.Prelude.Result.{ok, Result-cases}
use orbit_cli.Invites.{
  InviteRecord, Files, is_exact, is_prefixed, get_record, load_records, save_records, get_invite,
  revoke_invite, revoke_record, revoke_first, revoked_record, revoke_only,
}
use orbit_cli.Invites.Lookup.{get_record_found, Keeps, load_records-save_records, get_invite_loaded}

-- the outcomes of `revoke_first`, for a test that reads neither field that it sets
module _ (p : InviteRecord → Bool) (now : ℕ)
    (same_test : (r : InviteRecord) → p (revoked_record now r) ≡ p r) where
  revoke_first_found :
      (records : List InviteRecord) (found : InviteRecord × List InviteRecord)
      → revoke_first p now records ≡ some found
      → (find p found.1 ≡ some found.0) × (found.0.revoked ≡ true)
  unfolding revoke_first
  revoke_first_found [] found e = cc
  revoke_first_found (r ∷ records) found e = elim (Bool-cases (p r)) [
    | inl here ↦ ground (arith, same_test r)
    | inr other ↦ elim (Option-cases (revoke_first p now records)) [
      | inl nothing ↦ absurd (ground arith)
      | inr (rest, later) ↦ ground (arith, revoke_first_found records rest later)
    ]
  ]

  keep-revoke_first :
      (records : List InviteRecord) (found : InviteRecord × List InviteRecord) (r : InviteRecord)
      → revoke_first p now records ≡ some found
      → keep p records ≡ r ∷ []
      → keep p found.1 ≡ found.0 ∷ []
  unfolding revoke_first
  keep-revoke_first [] found r e only_one = cc
  keep-revoke_first (s ∷ records) found r e only_one = elim (Bool-cases (p s)) [
    | inl here ↦ ground (arith, same_test s)
    | inr other ↦ elim (Option-cases (revoke_first p now records)) [
      | inl nothing ↦ absurd (ground arith)
      | inr (rest, later) ↦ ground (arith, keep-revoke_first records rest r later)
    ]
  ]

find-revoke_first :
    (p q : InviteRecord → Bool) (now : ℕ) (records : List InviteRecord)
    (found : InviteRecord × List InviteRecord)
    → ((r : InviteRecord) → q (revoked_record now r) ≡ q r)
    → revoke_first p now records ≡ some found
    → find q records ≡ none
    → find q found.1 ≡ none
unfolding revoke_first
find-revoke_first p q now [] found same_test e absent = cc
find-revoke_first p q now (r ∷ records) found same_test e absent = elim (Bool-cases (p r)) [
  | inl here ↦ ground (arith, same_test r)
  | inr other ↦ elim (Option-cases (revoke_first p now records)) [
    | inl nothing ↦ absurd (ground arith)
    | inr (rest, later) ↦ ground (arith, find-revoke_first p q now records rest same_test later)
  ]
]

revoke_first-none :
    (p : InviteRecord → Bool) (now : ℕ) (records : List InviteRecord)
    → revoke_first p now records ≡ none
    → find p records ≡ none
unfolding revoke_first
revoke_first-none p now [] e = refl
revoke_first-none p now (r ∷ records) e = ground (arith, revoke_first-none p now records)

revoke_only_lem :
    (x : Text) (now : ℕ) (records matches : List InviteRecord)
    (found : InviteRecord × List InviteRecord)
    → revoke_only x now records matches ≡ ok found
    → (r : InviteRecord) × (matches ≡ r ∷ [])
      × (revoke_first (is_prefixed x) now records ≡ some found)
revoke_only_lem x now records [] found e = absurd cc
revoke_only_lem x now records (r ∷ []) found e =
    elim (Option-cases (revoke_first (is_prefixed x) now records)) [
      | inl nothing ↦ absurd (ground arith)
      | inr (g, h) ↦ (r, refl, ground arith)
    ]
revoke_only_lem x now records (r ∷ s ∷ matches) found e = absurd cc

-- how RevokeInvite finds its record
revoke_record_found :
    (x : Text) (now : ℕ) (records : List InviteRecord) (found : InviteRecord × List InviteRecord)
    → revoke_record x now records ≡ ok found
    → (revoke_first (is_exact x) now records ≡ some found)
      ⊎ ((find (is_exact x) records ≡ none)
          × (leb 6 (length x) ≡ true)
          × (revoke_only x now records (keep (is_prefixed x) records) ≡ ok found))
unfolding revoke_record
revoke_record_found x now records found e =
    elim (Option-cases (revoke_first (is_exact x) now records)) [
      | inr (g, h) ↦ inl (ground arith)
      | inl nothing ↦ elim (Bool-cases (leb 6 (length x))) [
        | inl long ↦ inr (revoke_first-none (is_exact x) now records nothing, long, ground arith)
        | inr short ↦ absurd (ground arith)
      ]
    ]

get_record_prefixed :
    (x : Text) (records : List InviteRecord) (r : InviteRecord)
    → find (is_exact x) records ≡ none
    → leb 6 (length x) ≡ true
    → keep (is_prefixed x) records ≡ r ∷ []
    → get_record x records ≡ ok r
unfolding get_record
get_record_prefixed x records r absent long matched = ground arith

get_record-revoke_record :
    (x : Text) (now : ℕ) (records : List InviteRecord) (found : InviteRecord × List InviteRecord)
    → revoke_record x now records ≡ ok found
    → (get_record x found.1 ≡ ok found.0) × (found.0.revoked ≡ true)
get_record-revoke_record x now records found e = elim (revoke_record_found x now records found e) [
  | inl exact ↦
      let (at, marked) = revoke_first_found (is_exact x) now (λ r. refl) records found exact in
      (get_record_found x found.1 found.0 at, marked)
  | inr (absent, long, prefixed) ↦
      let (r, matched, first) =
        revoke_only_lem x now records (keep (is_prefixed x) records) found prefixed in
      (
        get_record_prefixed x found.1 found.0
            (find-revoke_first (is_prefixed x) (is_exact x) now records found (λ r. refl) first
              absent)
            long (keep-revoke_first (is_prefixed x) now (λ r. refl) records found r first matched),
        (revoke_first_found (is_prefixed x) now (λ r. refl) records found first).1,
      )
]

revoke_invite_ok :
    {F B : Type 0} (files : Files F B) (x : Text) (now : ℕ) (f f' : F) (r : InviteRecord)
    → revoke_invite files x now f ≡ ok (r, f')
    → (records : List InviteRecord) × (after : List InviteRecord) × (revoke_record x now records
        ≡ ok (r, after))
      × (save_records files after f ≡ ok f')
unfolding revoke_invite
revoke_invite_ok files x now f f' r e = elim (Result-cases (load_records files f)) [
  | inl (x', failed) ↦ absurd (ground arith)
  | inr (records, loaded) ↦ elim (Result-cases (revoke_record x now records)) [
    | inl (x', failed) ↦ absurd (ground arith)
    | inr ((target, after), found) ↦ elim (Result-cases (save_records files after f)) [
      | inl (x', failed) ↦ absurd (ground arith)
      | inr (g, saved) ↦ (records, after, ground arith, ground arith)
    ]
  ]
]

-- On files that keep what is written, an invitation that RevokeInvite has revoked, by its ID, a prefix
-- of it or its token, is the one that GetInvite answers to the same argument, and it is revoked.
pub get_invite-revoke_invite :
    {F B : Type 0} (files : Files F B) (keeps : Keeps files) (x : Text) (now : ℕ) (f f' : F)
    (r : InviteRecord)
    → revoke_invite files x now f ≡ ok (r, f')
    → (get_invite files x f' ≡ ok r) × (r.revoked ≡ true)
get_invite-revoke_invite files keeps x now f f' r e =
    let (records, after, revoked, saved) = revoke_invite_ok files x now f f' r e in
    let (answer, marked) = get_record-revoke_record x now records (r, after) revoked in
    (
      get_invite_loaded files x after f' (load_records-save_records files keeps after f f' saved)
          ∙ answer,
      marked,
    )
