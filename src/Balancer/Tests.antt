-- ===== src/Balancer/Tests.antt =====
-- The load balancers at concrete inputs.
use galay_utils.Prelude.{
  ℕ, ◌≡◌, ◌<◌, refl, arith, List, [], ◌∷◌, none, some, length, replicate, get_elem?,
}
use galay_utils.Balancer.{
  RoundRobinLoadBalancer, init_round_robin, select_round_robin, append_round_robin, new_nodes,
  init_weight_round_robin, scan, total_from, lower, select_node, select_weight_round_robin,
  append_weight_round_robin, select_random, WeightedRandomLoadBalancer, append_weighted_random,
  append_all, init_weighted_random, pick, select_weighted_random,
}
use galay_utils.Balancer.Fair.{tally, fair_shares}
use galay_utils.Balancer.Weighted.{spread, weighted_shares}

program : Unit {0}
unfolding init_round_robin select_round_robin append_round_robin new_nodes init_weight_round_robin
    scan total_from lower select_node select_weight_round_robin append_weight_round_robin
    select_random append_weighted_random append_all init_weighted_random pick select_weighted_random
program = tt

abbrev pair : List ℕ
pair = 7 ∷ 8 ∷ []

abbrev triple : List ℕ
triple = 7 ∷ 8 ∷ 9 ∷ []

abbrev due_second : RoundRobinLoadBalancer ℕ
due_second = record { index = 4; nodes = triple }

first_selected : (select_round_robin (init_round_robin pair)).1 ≡ some 7
unfolding program
first_selected = refl

appended : (select_round_robin {A = ℕ} (append_round_robin 5 (init_round_robin []))).1 ≡ some 5
unfolding program
appended = refl

-- The counter wraps between these two calls, and the same node is due again.
wrapped_twice :
    (select_round_robin (record { index = 4_294_967_295; nodes = triple })).0
    ≡ record { index = 0; nodes = triple }
unfolding program
wrapped_twice = refl

one_step : (select_node (new_nodes pair (1 ∷ 3 ∷ []))).1 ≡ some 1
unfolding program
one_step = refl

heavier_first :
    (select_weight_round_robin (record { nodes = new_nodes pair (1 ∷ 3 ∷ []) })).1 ≡ some 8
unfolding program
heavier_first = refl

sizes_differ : init_weight_round_robin pair [] ≡ none
unfolding program
sizes_differ = refl

added :
    (select_weight_round_robin {A = ℕ} (append_weight_round_robin 9 4 (record { nodes = [] }))).1
    ≡ some 9
unfolding program
added = refl

drawn_node : select_random 1 pair ≡ some 8
unfolding program
drawn_node = refl

fair_shares_example : tally 6 (new_nodes triple (1 ∷ 2 ∷ 3 ∷ [])) (replicate 3 0) ≡ 1 ∷ 2 ∷ 3 ∷ []
fair_shares_example = fair_shares triple (1 ∷ 2 ∷ 3 ∷ []) refl (omega arith) (omega arith)

weighted_shares_example :
    (b : WeightedRandomLoadBalancer ℕ) × (init_weighted_random pair (1 ∷ 3 ∷ []) ≡ some b)
    × (select_weighted_random 2 b ≡ get_elem? (spread pair (1 ∷ 3 ∷ [])) 2)
    × (2 < length (spread pair (1 ∷ 3 ∷ [])))
weighted_shares_example = weighted_shares pair (1 ∷ 3 ∷ []) 2 refl (omega arith) (omega arith)
