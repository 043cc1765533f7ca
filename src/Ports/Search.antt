-- ===== src/Ports/Search.antt =====
-- The search for a dynamic port.
use mathlib.Core.Path.{subst}
use orbit_cli.Prelude.{
  inl, inr, ◌⊎◌, refl, sym, ◌∙◌, Option-cases, ℕ, zero, suc, ◌+◌, ◌*◌, ◌%◌, ◌≡◌, ◌≤◌, ◌<◌, true,
  false, List, ◌==◌, none, some, arith, Bool, Bool-cases,
}
use orbit_cli.Prelude.Result.{ok, err}
use orbit_cli.Ports.{base_port, modulus, allocate_dynamic, search_slots, is_blocked, exhausted}
use orbit_cli.Ports.Blocks.{IsSmall-is_negative, IsSmall, base_port_small}

-- `port` is the lowest from `first` on, and below `end`, that is not blocked
abbrev pub IsLowestFree : List ℕ → (ℕ → Bool) → ℕ → ℕ → ℕ → Type 0
IsLowestFree in_use available first end port =
    (first ≤ port)
    × (port < end)
    × (is_blocked in_use available port ≡ false)
    × ((lower : ℕ) → first ≤ lower → lower < port → is_blocked in_use available lower ≡ true)

module _ (base : ℕ) (in_use : List ℕ) (available : ℕ → Bool) where
  small_port : (slot : ℕ) → base + slot < modulus → (base + slot) % modulus ≡ base + slot
  small_port slot small = omega (arith, small)

  search_blocked :
      (slot left : ℕ)
      → base + slot < modulus
      → is_blocked in_use available (base + slot) ≡ true
      → search_slots base in_use available slot (suc left)
        ≡ search_slots base in_use available (suc slot) left
  unfolding search_slots
  search_blocked slot left small blocked = rw (small_port slot small, blocked) refl

  search_free :
      (slot left : ℕ)
      → base + slot < modulus
      → is_blocked in_use available (base + slot) ≡ false
      → search_slots base in_use available slot (suc left) ≡ some (base + slot)
  unfolding search_slots
  search_free slot left small free = rw (small_port slot small, free) refl

  blocked_first :
      (n port lower : ℕ)
      → is_blocked in_use available n ≡ true
      → (suc n ≤ lower → lower < port → is_blocked in_use available lower ≡ true)
      → n ≤ lower
      → lower < port
      → is_blocked in_use available lower ≡ true
  blocked_first n port lower blocked h l u = elim (Bool-cases (n == lower)) [
    | inl here ↦ subst (λ p. is_blocked in_use available p ≡ true) (ground arith) blocked
    | inr other ↦ h (ground arith) u
  ]

  search_found :
      (slot left port : ℕ)
      → base + slot + left < modulus
      → search_slots base in_use available slot left ≡ some port
      → IsLowestFree in_use available (base + slot) (base + slot + left) port
  unfolding search_slots
  search_found slot zero port small found = cc
  search_found slot (suc left) port small found =
      elim (Bool-cases (is_blocked in_use available (base + slot))) [
        | inl blocked ↦
            let (l, u, free, below) =
              search_found (suc slot) left port (omega (arith, small))
                (sym (search_blocked slot left (omega (arith, small)) blocked) ∙ found) in
            (
              omega (arith, l),
              omega (arith, u),
              free,
              λ lower.
                  blocked_first (base + slot) port lower blocked
                    (λ l'. below lower (omega (arith, l'))),
            )
        | inr free ↦
            let e : base + slot ≡ port =
              ground (arith, search_free slot left (omega (arith, small)) free, found) in
            (
              omega (arith, e),
              omega (arith, e),
              subst (λ p. is_blocked in_use available p ≡ false) e free,
              λ lower l u. absurd (omega (arith, e, l, u)),
            )
      ]

  search_none :
      (slot left : ℕ)
      → base + slot + left < modulus
      → search_slots base in_use available slot left ≡ none
      → (port : ℕ) → base + slot ≤ port
      → port < base + slot + left
      → is_blocked in_use available port ≡ true
  search_none slot zero small found port l h = absurd (omega (arith, l, h))
  search_none slot (suc left) small found port l h =
      elim (Bool-cases (is_blocked in_use available (base + slot))) [
        | inl blocked ↦
            blocked_first (base + slot) (base + slot + suc left) port blocked
              (λ l' h'.
                search_none (suc slot) left (omega (arith, small))
                  (sym (search_blocked slot left (omega (arith, small)) blocked) ∙ found) port
                  (omega (arith, l')) (omega (arith, h')))
              l h
        | inr free ↦ absurd (ground (arith, search_free slot left (omega (arith, small)) free))
      ]

allocated_none :
    (id : ℕ) (in_use : List ℕ) (available : ℕ → Bool)
    → IsSmall id
    → search_slots (base_port id) in_use available 10 40 ≡ none
    → allocate_dynamic id in_use available ≡ err exhausted
unfolding allocate_dynamic
allocated_none id in_use available small missing = rw (IsSmall-is_negative id small, missing) refl

allocated_some :
    (id : ℕ) (in_use : List ℕ) (available : ℕ → Bool) (port : ℕ)
    → IsSmall id
    → search_slots (base_port id) in_use available 10 40 ≡ some port
    → allocate_dynamic id in_use available ≡ ok port
unfolding allocate_dynamic
allocated_some id in_use available port small found = rw (IsSmall-is_negative id small, found) refl

-- AllocateDynamic of a project that is small enough for no overflow answers the lowest of the ports
-- of the slots 10 to 49 that is neither in use nor unavailable, or, where each of them is one, the
-- error that they are exhausted.
pub allocate_dynamic_lem :
    (id : ℕ) (in_use : List ℕ) (available : ℕ → Bool)
    → IsSmall id
    → ((port : ℕ) × (allocate_dynamic id in_use available ≡ ok port)
        × IsLowestFree in_use available (10000 + id * 50 + 10) (10000 + id * 50 + 50) port)
      ⊎ ((allocate_dynamic id in_use available ≡ err exhausted)
          × ((port : ℕ)
              → 10000 + id * 50 + 10 ≤ port
              → port < 10000 + id * 50 + 50
              → is_blocked in_use available port ≡ true))
allocate_dynamic_lem id in_use available small =
    elim (Option-cases (search_slots (base_port id) in_use available 10 40)) [
      | inl missing ↦ inr (
        allocated_none id in_use available small missing,
        λ port l h.
            search_none (base_port id) in_use available 10 40
              (omega (arith, base_port_small id small, small)) missing port
              (omega (arith, base_port_small id small, l))
              (omega (arith, base_port_small id small, h)),
      )
      | inr (port, found) ↦
          let (l, u, free, below) =
            search_found (base_port id) in_use available 10 40 port
              (omega (arith, base_port_small id small, small)) found in
          inl (
            port,
            allocated_some id in_use available port small found,
            (
              omega (arith, base_port_small id small, l),
              omega (arith, base_port_small id small, u),
              free,
              λ lower l' u'. below lower (omega (arith, base_port_small id small, l')) u',
            ),
          )
    ]
