-- ===== src/Ports/Tests.antt =====
-- Allocations in the block of the project 1.
use orbit_cli.Prelude.{◌+◌, ℕ, ◌≡◌, ◌≤◌, ◌<◌, ◌⊎◌, true, List, [], ◌∷◌, ltb, arith}
use orbit_cli.Prelude.Result.{ok, err}
use orbit_cli.Ports.{deterministic_port, allocate_dynamic, exhausted, is_blocked, get_project_range}
use orbit_cli.Ports.Blocks.{get_project_range-order}
use orbit_cli.Ports.Search.{IsLowestFree, allocate_dynamic_lem}

abbrev busy : List ℕ
busy = 10060 ∷ []

allocate_dynamic_lem_example :
    ((port : ℕ) × (allocate_dynamic 1 busy (λ p. ltb 10061 p) ≡ ok port)
      × IsLowestFree busy (λ p. ltb 10061 p) 10060 10100 port)
    ⊎ ((allocate_dynamic 1 busy (λ p. ltb 10061 p) ≡ err exhausted)
        × ((port : ℕ)
            → 10060 ≤ port
            → port < 10100
            → is_blocked busy (λ p. ltb 10061 p) port ≡ true))
allocate_dynamic_lem_example = allocate_dynamic_lem 1 busy (λ p. ltb 10061 p) (omega arith)

get_project_range-order_example :
    ((get_project_range 1).1 < (get_project_range 2).0)
    × (deterministic_port 1 3 ≡ ok ((get_project_range 1).0 + 3))
    × ((get_project_range 1).0 + 3 ≤ (get_project_range 1).1)
get_project_range-order_example =
    get_project_range-order 1 2 3 (omega arith) (omega arith) (omega arith)
