-- ===== src/Invites/RevokingAll.antt =====
-- Revoking all invitations.
use mathlib.Core.Path.{subst}
use orbit_cli.Prelude.{
  map, ◌⊎◌, ℕ, ◌≡◌, true, false, List, [], ◌∷◌, arith, refl, All, ◌∙◌, sym, ap, Bool-cases, inl,
  inr,
}
use orbit_cli.Prelude.Result.{ok, Result-cases}
use orbit_cli.Invites.{
  InviteRecord, Files, load_records, save_records, revoke_each, revoke_all_invites, revoked_record,
}
use orbit_cli.Invites.Lookup.{Keeps, load_records-save_records}

list_cases :
    (rs : List InviteRecord)
    → (rs ≡ []) ⊎ ((r : InviteRecord) × (more : List InviteRecord) × (rs ≡ r ∷ more))
list_cases [] = inl refl
list_cases (r ∷ more) = inr (r, more, refl)

not_nil : {r : InviteRecord} {rs : List InviteRecord} → r ∷ rs ≡ [] → ⊥
not_nil e = cc

-- what the loop makes of `records`: all revoked, the IDs kept, and no change where none is answered
AllRevoked : List InviteRecord → List InviteRecord × List InviteRecord → Type 0
AllRevoked records p =
    All (λ r. r.revoked ≡ true) p.0
    × (map (λ r. r.id) p.0 ≡ map (λ r. r.id) records)
    × (p.1 ≡ [] → p.0 ≡ records)

revoke_each_old :
    (now : ℕ) (r : InviteRecord) (records : List InviteRecord)
    → r.revoked ≡ true
    → revoke_each now (r ∷ records) ≡ (r ∷ (revoke_each now records).0, (revoke_each now records).1)
unfolding revoke_each
revoke_each_old now r records before = ground arith

revoke_each_new :
    (now : ℕ) (r : InviteRecord) (records : List InviteRecord)
    → r.revoked ≡ false
    → revoke_each now (r ∷ records) ≡ (
      revoked_record now r ∷ (revoke_each now records).0,
      revoked_record now r ∷ (revoke_each now records).1,
    )
unfolding revoke_each
revoke_each_new now r records before = ground arith

revoke_each-AllRevoked :
    (now : ℕ) (records : List InviteRecord) → AllRevoked records (revoke_each now records)
unfolding revoke_each AllRevoked
revoke_each-AllRevoked now [] = (tt, refl, λ h. refl)
revoke_each-AllRevoked now (r ∷ records) =
    let (marked, same_ids, unchanged) = revoke_each-AllRevoked now records in
    elim (Bool-cases r.revoked) [
      | inl before ↦
          subst (λ p. AllRevoked (r ∷ records) p) (sym (revoke_each_old now r records before))
            (
              (before, marked),
              ap (λ ids. r.id ∷ ids) same_ids,
              λ h. ap (λ rs. r ∷ rs) (unchanged h),
            )
      | inr before ↦
          subst (λ p. AllRevoked (r ∷ records) p) (sym (revoke_each_new now r records before))
            ((refl, marked), ap (λ ids. r.id ∷ ids) same_ids, λ h. absurd (not_nil h))
    ]

revoke_all_invites_ok :
    {F B : Type 0} (files : Files F B) (now : ℕ) (f f' : F) (revoked : List InviteRecord)
    → revoke_all_invites files now f ≡ ok (revoked, f')
    → (records : List InviteRecord) × (load_records files f ≡ ok records)
      × ((((revoke_each now records).1 ≡ []) × (f ≡ f'))
          ⊎ (save_records files (revoke_each now records).0 f ≡ ok f'))
unfolding revoke_all_invites
revoke_all_invites_ok files now f f' revoked e = elim (Result-cases (load_records files f)) [
  | inl (x, failed) ↦ absurd (ground arith)
  | inr (records, loaded) ↦ elim (list_cases (revoke_each now records).1) [
    | inl nothing ↦ (records, loaded, inl (nothing, ground arith))
    | inr (r, rs, some_revoked) ↦
        elim (Result-cases (save_records files (revoke_each now records).0 f)) [
          | inl (x, failed) ↦ absurd (ground arith)
          | inr (g, saved) ↦ (records, loaded, inr (ground arith))
        ]
  ]
]

-- On files that keep what is written, every invitation is revoked after a RevokeAllInvites that returns
-- no error, and they are those that were there, in the same order, by their IDs.
pub revoke_all_invites_lem :
    {F B : Type 0} (files : Files F B) (keeps : Keeps files) (now : ℕ) (f f' : F)
    (revoked : List InviteRecord)
    → revoke_all_invites files now f ≡ ok (revoked, f')
    → (records : List InviteRecord) × (after : List InviteRecord) × (load_records files f
        ≡ ok records)
      × (load_records files f' ≡ ok after)
      × All (λ r. r.revoked ≡ true) after
      × (map (λ r. r.id) after ≡ map (λ r. r.id) records)
unfolding AllRevoked
revoke_all_invites_lem files keeps now f f' revoked e =
    let (records, loaded, outcome) = revoke_all_invites_ok files now f f' revoked e in
    let (marked, same_ids, unchanged) = revoke_each-AllRevoked now records in
    (
      records,
      (revoke_each now records).0,
      loaded,
      elim outcome [
        | inl (nothing, same_file) ↦
            subst (λ g. load_records files g ≡ ok (revoke_each now records).0) same_file
              (loaded ∙ ap ok (sym (unchanged nothing)))
        | inr saved ↦ load_records-save_records files keeps (revoke_each now records).0 f f' saved
      ],
      marked,
      same_ids,
    )
