-- ===== src/Ports.antt =====
-- pkg/ports/domain/domain.go and Allocate of pkg/ports/application/application.go: the blocks of 50
-- ports. A Go int is kept as its residue modulo 2^64; the residues from 2^63 on are the negative
-- numbers.
pub mod Blocks
pub mod Search
mod Tests
use orbit_cli.Prelude.{
  ℕ, zero, suc, ◌+◌, ◌-◌, ◌*◌, ◌%◌, ◌≡◌, Bool, true, false, ◌&&◌, ◌||◌, List, [], ◌∷◌, ◌++◌, Option,
  none, some, any, ltb, leb, ◌==◌, if◌then◌else◌,
}
use orbit_cli.Prelude.Words.{Text, text, same}
use orbit_cli.Prelude.Dict.{Dict, lookup}
use orbit_cli.Prelude.Result.{Result, ok, err}

-- 2^63 and 2^64
abbrev pub half : ℕ
half = 9223372036854775808

abbrev pub modulus : ℕ
modulus = 18446744073709551616

abbrev pub is_negative : ℕ → Bool
is_negative n = leb half n

abbrev pub base_port_offset : ℕ
base_port_offset = 10000

abbrev pub block_size : ℕ
block_size = 50

abbrev pub deterministic_slot_end : ℕ
deterministic_slot_end = 9

abbrev pub dynamic_slot_start : ℕ
dynamic_slot_start = 10

abbrev pub num_dynamic_slots : ℕ
num_dynamic_slots = 40

pub data Error : Type 0 where
  invalid_project invalid_slot exhausted unknown_project : Error

-- BasePort, of which CalculateBasePort is another name
unfoldable pub base_port : ℕ → ℕ
base_port project_id = (base_port_offset + project_id * block_size) % modulus

-- DeterministicPort; the first slot is 0
unfoldable pub deterministic_port : ℕ → ℕ → Result Error ℕ
unfolding base_port
deterministic_port project_id slot =
    if is_negative project_id
    then err invalid_project
    else if is_negative slot || ltb deterministic_slot_end slot
    then err invalid_slot
    else ok ((base_port project_id + slot) % modulus)

-- whether the loop passes a port over
unfoldable pub is_blocked : List ℕ → (ℕ → Bool) → ℕ → Bool
is_blocked in_use available port =
    if any (λ p. p == port) in_use then true else if available port then false else true

-- the loop of AllocateDynamic from `slot`, with so many slots left
unfoldable pub search_slots : ℕ → List ℕ → (ℕ → Bool) → ℕ → ℕ → Option ℕ
unfolding is_blocked
search_slots base in_use available slot zero = none
search_slots base in_use available slot (suc left) =
    let rest = search_slots base in_use available (suc slot) left in
    if is_blocked in_use available ((base + slot) % modulus)
    then rest
    else some ((base + slot) % modulus)

-- AllocateDynamic, with a function `available` that is not nil
unfoldable pub allocate_dynamic : ℕ → List ℕ → (ℕ → Bool) → Result Error ℕ
unfolding base_port search_slots
allocate_dynamic project_id in_use available =
    if is_negative project_id
    then err invalid_project
    else elim (search_slots (base_port project_id) in_use available dynamic_slot_start
        num_dynamic_slots) [ none ↦ err exhausted | some port ↦ ok port ]

-- GetProjectRange
unfoldable pub get_project_range : ℕ → ℕ × ℕ
unfolding base_port
get_project_range project_id =
    (base_port project_id, (base_port project_id + block_size - 1) % modulus)

abbrev pub default_project_mapping : Dict ℕ
default_project_mapping =
    (text "orbit-platform", 0)
    ∷ (text "manova", 1)
    ∷ (text "fryto", 2)
    ∷ (text "jouybari", 3)
    ∷ (text "jtash", 4)
    ∷ (text "kohan_kherad", 5)
    ∷ []

-- ResolveProjectID; `custom` is none where no mapping is given, or a nil one
unfoldable pub resolve_project_id : Text → Option (Dict ℕ) → Option ℕ
resolve_project_id name custom =
    let mapping : Dict ℕ = elim custom [ none ↦ default_project_mapping | some given ↦ given ] in
    elim (lookup name mapping) [
      | some id ↦ some id
      | none ↦ if same name (text "orbit-services") then some 1 else none
    ]

-- the ports of a scan that are in use
unfoldable pub used_ports : List (ℕ × Bool) → List ℕ
used_ports [] = []
used_ports ((p, used) ∷ results) = let rest = used_ports results in if used then p ∷ rest else rest

-- AllocateResult, less the texts that it prints
pub record AllocateResult : Type 0 where
  pub project_id : ℕ
  pub port : ℕ
  pub slot : ℕ

-- strconv.Atoi, and the ports of the service: Scan and Available
module _ (atoi : Text → Option ℕ) (scan : ℕ → ℕ → List (ℕ × Bool)) (available : ℕ → Bool) where
  -- the project of Allocate
  unfoldable pub chosen_project : Text → Option ℕ
  unfolding resolve_project_id
  chosen_project project = elim (resolve_project_id project none) [
    | some id ↦ some id
    | none ↦ elim (atoi project) [
      | none ↦ none
      | some id ↦ if is_negative id then none else some id
    ]
  ]

  allocate_in : ℕ → Result Error AllocateResult
  unfolding allocate_dynamic get_project_range used_ports
  allocate_in id =
      elim (allocate_dynamic id
        (used_ports (scan (get_project_range id).0 (get_project_range id).1)) available) [
          | err e ↦ err e
          | ok port ↦ ok (record {
            project_id = id;
            port = port;
            slot = (port + modulus - base_port id) % modulus;
          })
        ]

  -- (*Service).Allocate
  unfoldable pub allocate : Text → Result Error AllocateResult
  unfolding chosen_project allocate_in
  allocate project = elim (chosen_project project) [
    | none ↦ err unknown_project
    | some id ↦ allocate_in id
  ]
