-- ===== src/ConsistentHash/Tests.antt =====
-- A ring of two nodes at concrete inputs, under hash functions that read the first and the last character.
use galay_utils.Prelude.{◌≡◌, ◌≢◌, ℕ, refl, arith, List, [], ◌∷◌, some, ◌<◌, take, ◌+◌, ◌*◌, ◌⊎◌}
use galay_utils.ConsistentHash.{
  NodeConfig, ConsistentHash, init_status, record_request, record_failure, recover, init_hash,
  digits, virtual_key, ring_set, ring_erase, lower_bound, find_place, assign_place, erase_place,
  change_status, add_points, add_node, erase_points, remove_node, use_entry, get_node, try_healthy,
  get_healthy_node, collect, get_nodes, mark_unhealthy, mark_healthy,
}
use galay_utils.ConsistentHash.Ring.{first, first_from, successor}
use galay_utils.ConsistentHash.Clockwise.{
  IsSorted, clockwise, below, add_node-IsSorted, remove_node-IsSorted,
}
use galay_utils.ConsistentHash.Healthy.{first_healthy, healthy_lem}
use galay_utils.ConsistentHash.Moves.{IsValid, add_node_moves, remove_node_keeps, points_of}

program : Unit {0}
unfolding init_status record_request record_failure recover init_hash digits virtual_key ring_set
    ring_erase lower_bound find_place assign_place erase_place change_status add_points add_node
    erase_points remove_node use_entry get_node try_healthy get_healthy_node collect get_nodes
    mark_unhealthy mark_healthy first first_from successor
program = tt

-- The last character
abbrev last : List ℕ → ℕ
last [] = 0
last (x ∷ []) = x
last (_ ∷ y ∷ xs) = last (y ∷ xs)

abbrev toy : List ℕ → ℕ
toy [] = 0
toy (x ∷ xs) = x * 100 + last (x ∷ xs)

abbrev a : NodeConfig
a = record { id = 1 ∷ []; endpoint = []; weight = 1 }

abbrev b : NodeConfig
b = record { id = 2 ∷ []; endpoint = []; weight = 1 }

abbrev two : ConsistentHash
two = add_node toy b (add_node toy a (init_hash 2))

points : two.ring ≡ (148, 0) ∷ (149, 0) ∷ (248, 1) ∷ (249, 1) ∷ []
unfolding program
points = refl

served : (get_node toy (1 ∷ 60 ∷ []) two).1 ≡ some b
unfolding program
served = refl

around : (get_node toy (3 ∷ []) two).1 ≡ some a
unfolding program
around = refl

both : get_nodes toy (2 ∷ []) 5 two ≡ b ∷ a ∷ []
unfolding program
both = refl

-- A node that is added again with a smaller weight keeps the points of the larger one, and they stay
-- when it is removed: with no node left, a key still leads to it.
abbrev heavy : NodeConfig
heavy = record { id = 1 ∷ []; endpoint = []; weight = 2 }

abbrev stale : ConsistentHash
stale = remove_node toy (1 ∷ []) (add_node toy a (add_node toy heavy (init_hash 1)))

stale_nodes : stale.nodes ≡ []
unfolding program
stale_nodes = refl

stale_point : (get_node toy (1 ∷ []) stale).1 ≡ some heavy
unfolding program
stale_point = refl

two-IsValid : IsValid two
unfolding program
two-IsValid = (omega arith, (omega arith, (omega arith, (omega arith, tt))))

abbrev third : NodeConfig
third = record { id = 3 ∷ []; endpoint = []; weight = 1 }

add_node_moves_example :
    ((get_node toy (2 ∷ 60 ∷ []) (add_node toy third two)).1 ≡ (get_node toy (2 ∷ 60 ∷ []) two).1)
    ⊎ ((get_node toy (2 ∷ 60 ∷ []) (add_node toy third two)).1 ≡ some third)
add_node_moves_example = add_node_moves toy third (2 ∷ 60 ∷ []) two two-IsValid

abbrev by_first : List ℕ → ℕ
by_first [] = 0
by_first (x ∷ xs) = x

abbrev pair : ConsistentHash
pair = add_node by_first b (add_node by_first a (init_hash 2))

pair_entry : successor 2 pair.ring ≡ some (2, 1)
unfolding program
pair_entry = refl

other_points : (i : ℕ) → i < points_of (1 ∷ []) pair → 2 ≢ by_first (virtual_key (1 ∷ []) i)
unfolding program
other_points i below e = omega (arith, e)

remove_node_keeps_example :
    (get_node by_first (2 ∷ 5 ∷ []) (remove_node by_first (1 ∷ []) pair)).1
    ≡ (get_node by_first (2 ∷ 5 ∷ []) pair).1
remove_node_keeps_example =
    remove_node_keeps by_first (1 ∷ []) (2 ∷ 5 ∷ []) pair 2 1 pair_entry other_points

abbrev failed : ConsistentHash
failed = mark_unhealthy (1 ∷ []) two

passed_over : (get_healthy_node toy (1 ∷ []) 3 failed).1 ≡ some b
unfolding program
passed_over = refl

two-IsSorted : IsSorted two.ring
two-IsSorted =
    add_node-IsSorted toy b (add_node toy a (init_hash 2))
      (add_node-IsSorted toy a (init_hash 2) (unfold init_hash IsSorted in tt))

failed-IsSorted : IsSorted failed.ring
unfolding program
failed-IsSorted = two-IsSorted

-- A third node comes and goes.
abbrev thinned : ConsistentHash
thinned = remove_node toy (3 ∷ []) (add_node toy third failed)

thinned-IsSorted : IsSorted thinned.ring
thinned-IsSorted =
    remove_node-IsSorted toy (3 ∷ []) (add_node toy third failed)
      (add_node-IsSorted toy third failed failed-IsSorted)

healthy_lem_example :
    (get_healthy_node toy (1 ∷ []) 3 thinned).1
    ≡ first_healthy thinned.store (take 3 (clockwise 101 thinned.ring))
healthy_lem_example = healthy_lem toy thinned (1 ∷ []) 3 thinned-IsSorted
