-- ===== src/Ports/Blocks.antt =====
-- The blocks of the projects.
use orbit_cli.Prelude.{refl, ℕ, ◌+◌, ◌*◌, ◌%◌, ◌≡◌, ◌≤◌, ◌<◌, ltb, ◌||◌, false, arith}
use orbit_cli.Prelude.Result.{ok}
use orbit_cli.Ports.{base_port, modulus, get_project_range, deterministic_port, is_negative}

-- the projects whose block has no overflow
abbrev pub IsSmall : ℕ → Type 0
IsSmall id = id < 184467440737095000

pub base_port_small : (id : ℕ) → IsSmall id → base_port id ≡ 10000 + id * 50
unfolding base_port
base_port_small id small = omega (arith, small)

pub IsSmall-is_negative : (id : ℕ) → IsSmall id → is_negative id ≡ false
IsSmall-is_negative id small = ground arith

deterministic_port_small :
    (id slot : ℕ)
    → IsSmall id
    → slot ≤ 9
    → (is_negative slot || ltb 9 slot ≡ false)
      × ((base_port id + slot) % modulus ≡ base_port id + slot)
deterministic_port_small id slot small low =
    (ground arith, omega (arith, base_port_small id small, small, low))

-- The block of a project ends below that of each later one that is small enough for no overflow; its
-- deterministic ports of the slots 0 to 9 are those from the start of the block on, and lie in it.
pub get_project_range-order :
    (id id' slot : ℕ)
    → id < id'
    → IsSmall id'
    → slot ≤ 9
    → ((get_project_range id).1 < (get_project_range id').0)
      × (deterministic_port id slot ≡ ok ((get_project_range id).0 + slot))
      × ((get_project_range id).0 + slot ≤ (get_project_range id).1)
unfolding get_project_range deterministic_port
get_project_range-order id id' slot before small low =
    let e = base_port_small id (omega (arith, before, small)) in
    let e' = base_port_small id' small in
    let valid = deterministic_port_small id slot (omega (arith, before, small)) low in
    (
      omega (arith, e, e', before, small),
      rw (IsSmall-is_negative id (omega (arith, before, small)), valid.0, valid.1) refl,
      omega (arith, e, small, before, low),
    )
