-- ===== src/ConsistentHash.antt =====
-- galay-utils/algorithm/consistent_hash.hpp: `NodeStatus`, `NodeConfig`, `PhysicalNode` and
-- `ConsistentHash`. Strings are lists of characters as numbers. A shared pointer to a physical node
-- is the node's place in the list `store`, to which the ring and the map of nodes both lead. The ring
-- is the list of its entries by ascending hash. The hash function, which a caller may give, is a
-- parameter. A weight is not negative.
mod Ring
mod Moves
mod Clockwise
mod Healthy
mod Tests
use galay_utils.Prelude.{
  ℕ, zero, suc, ◌+◌, ◌-◌, ◌*◌, ◌/◌, ◌%◌, ◌^◌, Bool, true, false, ◌&&◌, ◌||◌, List, [], ◌∷◌, ◌++◌,
  Option, none, some, map, length, ltb, leb, ◌==◌, if◌then◌else◌, add_size, get_elem?, set,
}

pub record NodeStatus : Type 0 where
  pub healthy : Bool
  pub request_count : ℕ
  pub failure_count : ℕ

pub record NodeConfig : Type 0 where
  pub id : List ℕ
  pub endpoint : List ℕ
  pub weight : ℕ

pub record PhysicalNode : Type 0 where
  pub config : NodeConfig
  pub status : NodeStatus

pub record ConsistentHash : Type 0 where
  pub virtual_nodes : ℕ
  pub ring : List (ℕ × ℕ)
  pub nodes : List (List ℕ × ℕ)
  pub store : List PhysicalNode

pub init_status : NodeStatus
init_status = record { healthy = true; request_count = 0; failure_count = 0 }

pub record_request : NodeStatus → NodeStatus
record_request s = record s { request_count = add_size s.request_count 1 }

pub record_failure : NodeStatus → NodeStatus
record_failure s = record s { failure_count = add_size s.failure_count 1; healthy = false }

pub recover : NodeStatus → NodeStatus
recover s = record s { healthy = true }

reset_status : NodeStatus → NodeStatus
reset_status s = record { healthy = true; request_count = 0; failure_count = 0 }

pub init_hash : ℕ → ConsistentHash
init_hash virtual_nodes = record {
  virtual_nodes = virtual_nodes;
  ring = [];
  nodes = [];
  store = [];
}

abbrev same_string : List ℕ → List ℕ → Bool
same_string [] [] = true
same_string [] (_ ∷ _) = false
same_string (_ ∷ _) [] = false
same_string (a ∷ xs) (b ∷ ys) = a == b && same_string xs ys

-- The decimal digits of a number below 10 to the fuel
digits : ℕ → ℕ → List ℕ
digits zero n = []
digits (suc fuel) n =
    let rest = digits fuel (n / 10) in
    if ltb n 10 then (48 + n) ∷ [] else rest ++ ((48 + n % 10) ∷ [])

-- `id + "#" + std::to_string(i)`, for `i` below 2 ^ 64
pub virtual_key : List ℕ → ℕ → List ℕ
virtual_key id i = id ++ (35 ∷ digits 20 i)

-- `m_ring[hash] = node`
pub ring_set : ℕ → ℕ → List (ℕ × ℕ) → List (ℕ × ℕ)
ring_set hash place [] = (hash, place) ∷ []
ring_set hash place ((h, p) ∷ ring) =
    let rest = ring_set hash place ring in
    if ltb hash h
    then (hash, place) ∷ (h, p) ∷ ring
    else if h == hash
    then (hash, place) ∷ ring
    else (h, p) ∷ rest

-- `m_ring.erase(hash)`
pub ring_erase : ℕ → List (ℕ × ℕ) → List (ℕ × ℕ)
ring_erase hash [] = []
ring_erase hash ((h, p) ∷ ring) =
    let rest = ring_erase hash ring in if h == hash then ring else (h, p) ∷ rest

-- `m_ring.lower_bound(hash)`: the entries from there on
pub lower_bound : ℕ → List (ℕ × ℕ) → List (ℕ × ℕ)
lower_bound hash [] = []
lower_bound hash ((h, p) ∷ ring) =
    let rest = lower_bound hash ring in if leb hash h then (h, p) ∷ ring else rest

-- `if (it == m_ring.end()) it = m_ring.begin()`
abbrev pub wrap : List (ℕ × ℕ) → List (ℕ × ℕ) → List (ℕ × ℕ)
wrap [] ring = ring
wrap (e ∷ rest) ring = e ∷ rest

-- `m_nodes.find(id)`
pub find_place : List ℕ → List (List ℕ × ℕ) → Option ℕ
find_place id [] = none
find_place id ((i, place) ∷ nodes) =
    let rest = find_place id nodes in if same_string i id then some place else rest

-- `m_nodes[id] = node`
assign_place : List ℕ → ℕ → List (List ℕ × ℕ) → List (List ℕ × ℕ)
assign_place id place [] = (id, place) ∷ []
assign_place id place ((i, p) ∷ nodes) =
    let rest = assign_place id place nodes in
    if same_string i id then (i, place) ∷ nodes else (i, p) ∷ rest

pub erase_place : List ℕ → List (List ℕ × ℕ) → List (List ℕ × ℕ)
erase_place id [] = []
erase_place id ((i, p) ∷ nodes) =
    let rest = erase_place id nodes in if same_string i id then nodes else (i, p) ∷ rest

-- A change of the status of the node that a pointer leads to
change_status : ℕ → (NodeStatus → NodeStatus) → List PhysicalNode → List PhysicalNode
change_status place f store = elim (get_elem? store place) [
  | none ↦ store
  | some n ↦ set store place (record n { status = f n.status })
]

-- The request of the node that an iterator stands on
pub use_entry : List (ℕ × ℕ) → ConsistentHash → ConsistentHash × Option NodeConfig
use_entry [] c = (c, none)
use_entry ((_, place) ∷ _) c = elim (get_elem? c.store place) [
  | none ↦ (c, none)
  | some n ↦ (record c { store = change_status place record_request c.store }, some n.config)
]

module _ (hash_func : List ℕ → ℕ) where
  -- The loop of `addNode`, with the rounds that are left
  pub add_points : List ℕ → ℕ → ℕ → ℕ → List (ℕ × ℕ) → List (ℕ × ℕ)
  add_points id place zero i ring = ring
  add_points id place (suc left) i ring =
      add_points id place left (i + 1) (ring_set (hash_func (virtual_key id i)) place ring)

  pub add_node : NodeConfig → ConsistentHash → ConsistentHash
  add_node config c =
      let place = length c.store in
      let vnodes = c.virtual_nodes * config.weight % 2 ^ 64 in
      record c {
        store = c.store ++ (record { config = config; status = init_status } ∷ []);
        nodes = assign_place config.id place c.nodes;
        ring = add_points config.id place vnodes 0 c.ring;
      }

  -- The loop of `removeNode`
  pub erase_points : List ℕ → ℕ → ℕ → List (ℕ × ℕ) → List (ℕ × ℕ)
  erase_points id zero i ring = ring
  erase_points id (suc left) i ring =
      erase_points id left (i + 1) (ring_erase (hash_func (virtual_key id i)) ring)

  pub remove_node : List ℕ → ConsistentHash → ConsistentHash
  remove_node id c = elim (find_place id c.nodes) [
    | none ↦ c
    | some place ↦ elim (get_elem? c.store place) [
      | none ↦ c
      | some n ↦
          let vnodes = c.virtual_nodes * n.config.weight % 2 ^ 64 in
          record c { ring = erase_points id vnodes 0 c.ring; nodes = erase_place id c.nodes }
    ]
  ]

  pub get_node : List ℕ → ConsistentHash → ConsistentHash × Option NodeConfig
  get_node key c = use_entry (wrap (lower_bound (hash_func key) c.ring) c.ring) c

  -- The loop of `getHealthyNode`, with the tries that are left
  pub try_healthy : ℕ → List (ℕ × ℕ) → ConsistentHash → ConsistentHash × Option NodeConfig
  try_healthy zero it c = (c, none)
  try_healthy (suc left) it c = elim (wrap it c.ring) [
    | [] ↦ (c, none)
    | (_, place) ∷ it ↦
        let later = try_healthy left it c in
        elim (get_elem? c.store place) [
          | none ↦ later
          | some n ↦
              if n.status.healthy
              then (record c { store = change_status place record_request c.store }, some n.config)
              else later
        ]
  ]

  pub get_healthy_node : List ℕ → ℕ → ConsistentHash → ConsistentHash × Option NodeConfig
  get_healthy_node key max_retries c =
      try_healthy max_retries (lower_bound (hash_func key) c.ring) c

  abbrev pub is_seen : List ℕ → List (List ℕ) → Bool
  is_seen id [] = false
  is_seen id (s ∷ seen) = same_string s id || is_seen id seen

  -- The loop of `getNodes`, with the rounds that are left
  pub collect :
      ℕ → ℕ → List (ℕ × ℕ) → List (List ℕ) → List NodeConfig → ConsistentHash → List NodeConfig
  collect zero count it seen result c = result
  collect (suc left) count it seen result c = elim (wrap it c.ring) [
    | [] ↦ result
    | (_, place) ∷ it ↦ elim (get_elem? c.store place) [
      | none ↦ result
      | some n ↦
          let repeated = collect left count it seen result c in
          let more = collect left count it (n.config.id ∷ seen) (result ++ (n.config ∷ [])) c in
          if leb count (length result)
          then result
          else if is_seen n.config.id seen
          then repeated
          else more
    ]
  ]

  pub get_nodes : List ℕ → ℕ → ConsistentHash → List NodeConfig
  get_nodes key count c = collect (length c.ring) count (lower_bound (hash_func key) c.ring) [] [] c

pub mark_unhealthy : List ℕ → ConsistentHash → ConsistentHash
mark_unhealthy id c = elim (find_place id c.nodes) [
  | none ↦ c
  | some place ↦ record c { store = change_status place record_failure c.store }
]

pub mark_healthy : List ℕ → ConsistentHash → ConsistentHash
mark_healthy id c = elim (find_place id c.nodes) [
  | none ↦ c
  | some place ↦ record c { store = change_status place recover c.store }
]

configs_at : List (List ℕ × ℕ) → List PhysicalNode → List NodeConfig
configs_at [] store = []
configs_at ((_, place) ∷ nodes) store =
    let rest = configs_at nodes store in
    elim (get_elem? store place) [ none ↦ rest | some n ↦ n.config ∷ rest ]

get_all_nodes : ConsistentHash → List NodeConfig
get_all_nodes c = configs_at c.nodes c.store

node_count : ConsistentHash → ℕ
node_count c = length c.nodes

virtual_node_count : ConsistentHash → ℕ
virtual_node_count c = length c.ring

has_no_nodes : ConsistentHash → Bool
has_no_nodes c = length c.nodes == 0

pub clear : ConsistentHash → ConsistentHash
clear c = record c { ring = []; nodes = [] }
