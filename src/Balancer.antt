-- ===== src/Balancer.antt =====
-- galay-utils/tool/balancer.hpp and galay-utils/tool/balancer.inl: the four load balancers.
-- A method that changes the balancer returns it beside its result. An `int32_t` is kept as its value
-- plus 2 ^ 31, so that its order and its wrap-around are those of the numbers below 2 ^ 32. What a
-- random distribution draws is an argument.
mod RoundRobin
mod Scan
mod Counts
mod Fair
mod Weighted
mod Tests
use galay_utils.Prelude.{
  ℕ, zero, suc, ◌+◌, ◌-◌, ◌%◌, ◌^◌, Bool, ◌||◌, List, [], ◌∷◌, ◌++◌, Option, none, some, map,
  length, get_elem?, ltb, ◌==◌, if◌then◌else◌,
}

pub record RoundRobinLoadBalancer (A : Type 0) : Type 0 where
  pub index : ℕ
  pub nodes : List A

-- The node and its weights in the smooth weighted round robin.
pub record Node (A : Type 0) : Type 0 where
  pub node : A
  pub current_weight : ℕ
  pub fixed_weight : ℕ

pub record WeightRoundRobinLoadBalancer (A : Type 0) : Type 0 where
  pub nodes : List (Node A)

pub record WeightedNode (A : Type 0) : Type 0 where
  pub node : A
  pub weight : ℕ

pub record WeightedRandomLoadBalancer (A : Type 0) : Type 0 where
  pub nodes : List (WeightedNode A)
  pub total_weight : ℕ

abbrev u32 : ℕ → ℕ
u32 n = n % 2 ^ 32

-- 0 as an `int32_t`.
abbrev pub bias : ℕ
bias = 2 ^ 31

-- An `int32_t` plus a `uint32_t`, stored in an `int32_t`.
abbrev pub add_weight : ℕ → ℕ → ℕ
add_weight c w = u32 (c + w)

-- The difference of two numbers of type `int32_t`.
abbrev pub sub_weight : ℕ → ℕ → ℕ
sub_weight c t = u32 (c + bias + (2 ^ 32 - t))

module _ {A : Type 0} where
  pub init_round_robin : List A → RoundRobinLoadBalancer A
  init_round_robin nodes = record { index = 0; nodes = nodes }

  pub select_round_robin : RoundRobinLoadBalancer A → RoundRobinLoadBalancer A × Option A
  select_round_robin b =
      if length b.nodes == 0
      then (b, none)
      else (record b { index = u32 (b.index + 1) }, get_elem? b.nodes (b.index % length b.nodes))

  pub append_round_robin : A → RoundRobinLoadBalancer A → RoundRobinLoadBalancer A
  append_round_robin node b = record b { nodes = b.nodes ++ (node ∷ []) }

  pub new_nodes : List A → List ℕ → List (Node A)
  new_nodes (x ∷ nodes) (w ∷ weights) =
      record { node = x; current_weight = bias; fixed_weight = w } ∷ new_nodes nodes weights
  new_nodes _ _ = []

  -- `none` is the exception for sizes that differ.
  pub init_weight_round_robin : List A → List ℕ → Option (WeightRoundRobinLoadBalancer A)
  unfolding new_nodes
  init_weight_round_robin nodes weights =
      if length nodes == length weights
      then some (record { nodes = new_nodes nodes weights })
      else none

  abbrev pub raise : Node A → Node A
  raise n = record n { current_weight = add_weight n.current_weight n.fixed_weight }

  -- The first loop of `select`, from the node at position `pos` on: the nodes with their weights
  -- raised, and the position of the greatest.
  pub scan : ℕ → Option ℕ → ℕ → List (Node A) → List (Node A) × Option ℕ
  scan max_weight selected pos [] = ([], selected)
  scan max_weight selected pos (n ∷ nodes) =
      let node = raise n in
      let better = scan node.current_weight (some pos) (pos + 1) nodes in
      let worse = scan max_weight selected (pos + 1) nodes in
      if ltb max_weight node.current_weight
      then (node ∷ better.0, better.1)
      else (node ∷ worse.0, worse.1)

  pub total_from : ℕ → List (Node A) → ℕ
  total_from total_weight [] = total_weight
  total_from total_weight (n ∷ nodes) = total_from (add_weight total_weight n.fixed_weight) nodes

  -- `selected->current_weight -= total_weight`
  pub lower : ℕ → ℕ → List (Node A) → List (Node A)
  lower i total_weight [] = []
  lower zero total_weight (n ∷ nodes) =
      record n { current_weight = sub_weight n.current_weight total_weight } ∷ nodes
  lower (suc i) total_weight (n ∷ nodes) = n ∷ lower i total_weight nodes

  -- The nodes after a `select`, and the position of the node that it returns.
  pub select_node : List (Node A) → List (Node A) × Option ℕ
  unfolding scan
  select_node nodes =
      let (raised, selected) = scan 0 none 0 nodes in
      elim selected [
        | none ↦ (raised, none)
        | some i ↦ (lower i (total_from bias raised) raised, some i)
      ]

  pub select_weight_round_robin :
      WeightRoundRobinLoadBalancer A → WeightRoundRobinLoadBalancer A × Option A
  select_weight_round_robin b =
      let (nodes, selected) = select_node b.nodes in
      let chosen : Option (Node A) = elim selected [ none ↦ none | some i ↦ get_elem? nodes i ] in
      if length b.nodes == 0
      then (b, none)
      else (record { nodes = nodes }, elim chosen [ none ↦ none | some n ↦ some n.node ])

  pub append_weight_round_robin :
      A → ℕ → WeightRoundRobinLoadBalancer A → WeightRoundRobinLoadBalancer A
  append_weight_round_robin node weight b = record {
    nodes = b.nodes ++ (record { node = node; current_weight = bias; fixed_weight = weight } ∷ []);
  }

  -- `RandomLoadBalancer::select`, for the number that the distribution draws below the size.
  pub select_random : ℕ → List A → Option A
  select_random drawn nodes = if length nodes == 0 then none else get_elem? nodes drawn

  pub append_weighted_random : A → ℕ → WeightedRandomLoadBalancer A → WeightedRandomLoadBalancer A
  append_weighted_random node weight b = record {
    nodes = b.nodes ++ (record { node = node; weight = weight } ∷ []);
    total_weight = u32 (b.total_weight + weight);
  }

  pub append_all : List A → List ℕ → WeightedRandomLoadBalancer A → WeightedRandomLoadBalancer A
  unfolding append_weighted_random
  append_all (x ∷ nodes) (w ∷ weights) b = append_all nodes weights (append_weighted_random x w b)
  append_all _ _ b = b

  -- `none` is the exception for sizes that differ.
  pub init_weighted_random : List A → List ℕ → Option (WeightedRandomLoadBalancer A)
  init_weighted_random nodes weights =
      if length nodes == length weights
      then some (append_all nodes weights (record { nodes = []; total_weight = 0 }))
      else none

  pub pick : ℕ → ℕ → List (WeightedNode A) → Option A
  pick random_weight current_weight [] = none
  pick random_weight current_weight (n ∷ nodes) =
      let current = u32 (current_weight + n.weight) in
      let later = pick random_weight current nodes in
      if ltb random_weight current then some n.node else later

  -- `drawn` is what the distribution draws below the total weight.
  pub select_weighted_random : ℕ → WeightedRandomLoadBalancer A → Option A
  select_weighted_random drawn b =
      if length b.nodes == 0 || b.total_weight == 0 then none else pick drawn 0 b.nodes
