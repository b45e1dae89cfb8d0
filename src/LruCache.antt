-- ===== src/LruCache.antt =====
-- galay-utils/cache/lru_cache.hpp: `LruCache` with `EnableStats`. Keys are numbers, of which only
-- equality is used. A node of the list `m_items` carries its address, and the index maps a key to the
-- address that its iterator stands for. The priority queue is the list of its nodes by ascending
-- time. A time, signed in the source, is its number of ticks greater by 2 ^ 63, which keeps the order;
-- a duration is its ticks in two's complement, so that the negative ones are the numbers from 2 ^ 63
-- on. Their sum wraps at 64 bits, as it does on usual hardware; C++ leaves a sum outside the signed
-- range undefined. Each reading of the clock is an argument, in the order in which a method reads it. The calls of `m_onEvict` are kept as a list.
mod Nodes
mod Queue
mod Valid
mod Purge
mod Writes
mod Capacity
mod Spec
mod Lines
mod Methods
mod Refine
mod Run
mod Tests
use galay_utils.Prelude.{
  ℕ, zero, suc, ◌+◌, Bool, true, false, not, ◌&&◌, ◌||◌, List, [], ◌∷◌, ◌++◌, Option, none, some,
  length, ltb, leb, ◌==◌, if◌then◌else◌, add_size,
}

pub data EvictReason : Type 0 where
  capacity expired removed cleared : EvictReason

pub data ExpirationPolicy : Type 0 where
  expire_after_write expire_after_access : ExpirationPolicy

pub record Stats : Type 0 where
  pub hits : ℕ
  pub misses : ℕ
  pub inserts : ℕ
  pub updates : ℕ
  pub capacity_evictions : ℕ
  pub expired_evictions : ℕ
  pub removes : ℕ
  pub clears : ℕ

pub record Entry (V : Type 0) : Type 0 where
  pub address : ℕ
  pub key : ℕ
  pub value : V
  pub expires_at : Option ℕ
  pub ttl : Option ℕ
  pub version : ℕ

pub record Expiration : Type 0 where
  pub expires_at : Option ℕ
  pub ttl : Option ℕ

pub record ExpireNode : Type 0 where
  pub expires_at : ℕ
  pub key : ℕ
  pub version : ℕ

pub record LruCache (V : Type 0) : Type 0 where
  pub items : List (Entry V)
  pub index : List (ℕ × ℕ)
  pub expirations : List ExpireNode
  pub next_version : ℕ
  pub next_address : ℕ
  pub stats : Stats
  pub limit : ℕ
  pub default_ttl : Option ℕ
  pub policy : ExpirationPolicy
  pub on_evict : Bool
  pub evictions : List (ℕ × V × EvictReason)

abbrev pub zero_stats : Stats
zero_stats = record {
  hits = 0;
  misses = 0;
  inserts = 0;
  updates = 0;
  capacity_evictions = 0;
  expired_evictions = 0;
  removes = 0;
  clears = 0;
}

-- `Clock::now() + ttl`
pub expiration_from_ttl : ℕ → Option ℕ → Expiration
expiration_from_ttl now none = record { expires_at = none; ttl = none }
expiration_from_ttl now (some ttl) = record { expires_at = some (add_size now ttl); ttl = some ttl }

abbrev pub is_expired : ℕ → Option ℕ → Bool
is_expired now none = false
is_expired now (some t) = leb t now

-- `m_index.find(key)`
pub find_index : ℕ → List (ℕ × ℕ) → Option ℕ
find_index key [] = none
find_index key ((k, address) ∷ index) =
    let rest = find_index key index in if k == key then some address else rest

-- `m_index.erase(it)`; a key stands once in the map.
pub erase_index : ℕ → List (ℕ × ℕ) → List (ℕ × ℕ)
erase_index key [] = []
erase_index key ((k, address) ∷ index) =
    let rest = erase_index key index in if k == key then rest else (k, address) ∷ rest

-- `m_expirations.push(node)`
pub push : ExpireNode → List ExpireNode → List ExpireNode
push node [] = node ∷ []
push node (n ∷ nodes) =
    let rest = push node nodes in
    if ltb node.expires_at n.expires_at then node ∷ n ∷ nodes else n ∷ rest

-- `it->version == node.version && *it->expiresAt == node.expiresAt`
pub is_current : ExpireNode → Option ℕ → ℕ → Bool
is_current node none version = false
is_current node (some t) version = version == node.version && t == node.expires_at

count_eviction : EvictReason → Stats → Stats
count_eviction capacity s = record s { capacity_evictions = add_size s.capacity_evictions 1 }
count_eviction expired s = record s { expired_evictions = add_size s.expired_evictions 1 }
count_eviction removed s = record s { removes = add_size s.removes 1 }
count_eviction cleared s = record s { clears = add_size s.clears 1 }

module _ {V : Type 0} where
  pub init_cache : ℕ → Option ℕ → Bool → ExpirationPolicy → LruCache V
  init_cache limit default_ttl on_evict policy = record {
    items = [];
    index = [];
    expirations = [];
    next_version = 0;
    next_address = 0;
    stats = zero_stats;
    limit = limit;
    default_ttl = default_ttl;
    policy = policy;
    on_evict = on_evict;
    evictions = [];
  }

  -- What an iterator points to.
  pub entry_at : ℕ → List (Entry V) → Option (Entry V)
  entry_at address [] = none
  entry_at address (e ∷ items) =
      let rest = entry_at address items in if e.address == address then some e else rest

  -- `m_items.erase(it)`
  pub erase_at : ℕ → List (Entry V) → List (Entry V)
  erase_at address [] = []
  erase_at address (e ∷ items) =
      let rest = erase_at address items in if e.address == address then items else e ∷ rest

  -- A write through an iterator.
  pub update_at : ℕ → (Entry V → Entry V) → List (Entry V) → List (Entry V)
  update_at address f [] = []
  update_at address f (e ∷ items) =
      let rest = update_at address f items in if e.address == address then f e ∷ items else e ∷ rest

  pub last_entry : List (Entry V) → Option (Entry V)
  last_entry [] = none
  last_entry (e ∷ []) = some e
  last_entry (_ ∷ e ∷ items) = last_entry (e ∷ items)

  pub record_hit : LruCache V → LruCache V
  record_hit c = record c { stats = record c.stats { hits = add_size c.stats.hits 1 } }

  pub record_miss : LruCache V → LruCache V
  record_miss c = record c { stats = record c.stats { misses = add_size c.stats.misses 1 } }

  pub record_insert : LruCache V → LruCache V
  record_insert c = record c { stats = record c.stats { inserts = add_size c.stats.inserts 1 } }

  pub record_update : LruCache V → LruCache V
  record_update c = record c { stats = record c.stats { updates = add_size c.stats.updates 1 } }

  -- `notifyEvict`: the calls of the callback so far
  notify_evict : Entry V → EvictReason → LruCache V → List (ℕ × V × EvictReason)
  notify_evict e reason c =
      if c.on_evict then c.evictions ++ ((e.key, e.value, reason) ∷ []) else c.evictions

  pub erase_entry : ℕ → ℕ → EvictReason → LruCache V → LruCache V
  unfolding notify_evict count_eviction
  erase_entry key address reason c = record c {
    evictions = elim (entry_at address c.items) [
      | none ↦ c.evictions
      | some e ↦ notify_evict e reason c
    ];
    stats = count_eviction reason c.stats;
    index = erase_index key c.index;
    items = erase_at address c.items;
  }

  -- The address of the entry that a node of the queue still stands for.
  due_entry : ExpireNode → LruCache V → Option ℕ
  due_entry node c = elim (find_index node.key c.index) [
    | none ↦ none
    | some address ↦ elim (entry_at address c.items) [
      | none ↦ none
      | some e ↦ if is_current node e.expires_at e.version then some address else none
    ]
  ]

  -- The loop of `purgeExpiredImpl`, for the nodes that are left in the queue.
  pub purge_loop : ℕ → List ExpireNode → ℕ → LruCache V → LruCache V × ℕ
  purge_loop now [] count c = (record c { expirations = [] }, count)
  purge_loop now (node ∷ nodes) count c =
      let skipped = purge_loop now nodes count c in
      if ltb now node.expires_at
      then (record c { expirations = node ∷ nodes }, count)
      else elim (due_entry node c) [
        | none ↦ skipped
        | some address ↦ purge_loop now nodes (count + 1) (erase_entry node.key address expired c)
      ]

  pub purge_expired : ℕ → LruCache V → LruCache V × ℕ
  purge_expired now c = purge_loop now c.expirations 0 c

  -- The loop of `enforceCapacity`; the fuel bounds its rounds.
  enforce_loop : ℕ → LruCache V → LruCache V
  unfolding last_entry
  enforce_loop zero c = c
  enforce_loop (suc fuel) c = elim (last_entry c.items) [
    | none ↦ c
    | some e ↦
        let unindexed : LruCache V = record c { items = erase_at e.address c.items } in
        let smaller : LruCache V = elim (find_index e.key c.index) [
          | none ↦ unindexed
          | some address ↦ erase_entry e.key address capacity c
        ] in
        let rest = enforce_loop fuel smaller in if ltb c.limit (length c.items) then rest else c
  ]

  pub enforce_capacity : LruCache V → LruCache V
  enforce_capacity c = enforce_loop (length c.items) c

  -- `removeExpiredKey` and `removeCapacityKey`
  pub remove_key : ℕ → EvictReason → LruCache V → LruCache V
  remove_key key reason c = elim (find_index key c.index) [
    | none ↦ c
    | some address ↦ erase_entry key address reason c
  ]

  pub next_version_of : LruCache V → ℕ
  next_version_of c = add_size c.next_version 1

  pub update_expiration : ℕ → Expiration → LruCache V → LruCache V
  update_expiration address x c =
      let version = next_version_of c in
      let write : Entry V → Entry V =
        λ e. record e { expires_at = x.expires_at; ttl = x.ttl; version = version } in
      let queued : List ExpireNode = elim x.expires_at [
        | none ↦ c.expirations
        | some t ↦ elim (entry_at address c.items) [
          | none ↦ c.expirations
          | some e ↦ push (record { expires_at = t; key = e.key; version = version }) c.expirations
        ]
      ] in
      record c {
        items = update_at address write c.items;
        next_version = version;
        expirations = queued;
      }

  pub refresh_after_access : ℕ → ℕ → LruCache V → LruCache V
  refresh_after_access now address c = elim c.policy [
    | expire_after_write ↦ c
    | expire_after_access ↦ elim (entry_at address c.items) [
      | none ↦ c
      | some e ↦ elim e.ttl [
        | none ↦ c
        | some ttl ↦ update_expiration address (expiration_from_ttl now (some ttl)) c
      ]
    ]
  ]

  -- `m_items.splice(m_items.begin(), m_items, it)`, unless `it` is the first
  pub splice : ℕ → List (Entry V) → List (Entry V)
  splice address [] = []
  splice address (e ∷ items) =
      if e.address == address then e ∷ items else elim (entry_at address items) [
        | none ↦ e ∷ items
        | some f ↦ f ∷ e ∷ erase_at address items
      ]

  pub touch : ℕ → LruCache V → LruCache V
  touch address c = record c { items = splice address c.items }

  pub set_value : ℕ → V → LruCache V → LruCache V
  set_value address value c = record c {
    items = update_at address (λ e. record e { value = value }) c.items;
  }

  -- `push_front` of a new node, and its place in the index
  pub add_front : ℕ → V → LruCache V → LruCache V
  add_front key value c =
      let version = next_version_of c in
      let e : Entry V = record {
        address = c.next_address;
        key = key;
        value = value;
        expires_at = none;
        ttl = none;
        version = version;
      } in
      record c {
        items = e ∷ c.items;
        index = (key, c.next_address) ∷ c.index;
        next_version = version;
        next_address = c.next_address + 1;
      }

  pub update_entry : ℕ → V → Expiration → LruCache V → LruCache V
  update_entry address value x c =
      record_update (touch address (update_expiration address x (set_value address value c)))

  pub insert_entry : ℕ → V → Expiration → LruCache V → LruCache V
  insert_entry key value x c =
      enforce_capacity (record_insert (update_expiration c.next_address x (add_front key value c)))

  -- `putWithExpiration` and `emplaceWithExpiration`; the clock is read by the purge and by
  -- `isExpired`.
  pub put_with_expiration : ℕ → ℕ → ℕ → V → Expiration → LruCache V → LruCache V × Bool
  put_with_expiration purged checked key value x c =
      let p = (purge_expired purged c).0 in
      if is_expired checked x.expires_at
      then (remove_key key expired p, false)
      else if p.limit == 0
      then (remove_key key capacity p, false)
      else elim (find_index key p.index) [
        | some address ↦ (update_entry address value x p, true)
        | none ↦ (insert_entry key value x p, true)
      ]

  pub put : ℕ → ℕ → ℕ → ℕ → V → LruCache V → LruCache V × Bool
  put now purged checked key value c =
      put_with_expiration purged checked key value (expiration_from_ttl now c.default_ttl) c

  pub put_for : ℕ → ℕ → ℕ → ℕ → V → ℕ → LruCache V → LruCache V × Bool
  put_for now purged checked key value ttl c =
      put_with_expiration purged checked key value (expiration_from_ttl now (some ttl)) c

  pub put_until : ℕ → ℕ → ℕ → V → ℕ → LruCache V → LruCache V × Bool
  put_until purged checked key value expires_at c =
      put_with_expiration purged checked key value
        (record { expires_at = some expires_at; ttl = none }) c

  pub get : ℕ → ℕ → ℕ → LruCache V → LruCache V × Option V
  get purged now key c =
      let p = (purge_expired purged c).0 in
      elim (find_index key p.index) [
        | none ↦ (record_miss p, none)
        | some address ↦
            let q = refresh_after_access now address (touch address (record_hit p)) in
            (q, elim (entry_at address q.items) [ none ↦ none | some e ↦ some e.value ])
      ]

  pub peek : ℕ → ℕ → LruCache V → LruCache V × Option V
  peek purged key c =
      let p = (purge_expired purged c).0 in
      elim (find_index key p.index) [
        | none ↦ (record_miss p, none)
        | some address ↦
            (record_hit p, elim (entry_at address p.items) [ none ↦ none | some e ↦ some e.value ])
      ]

  pub contains : ℕ → ℕ → LruCache V → LruCache V × Bool
  contains purged key c =
      let p = (purge_expired purged c).0 in
      elim (find_index key p.index) [
        | none ↦ (record_miss p, false)
        | some _ ↦ (record_hit p, true)
      ]

  pub remove : ℕ → ℕ → LruCache V → LruCache V × Bool
  remove purged key c =
      let p = (purge_expired purged c).0 in
      elim (find_index key p.index) [
        | none ↦ (p, false)
        | some address ↦ (erase_entry key address removed p, true)
      ]

  clear_loop : ℕ → LruCache V → LruCache V
  unfolding last_entry
  clear_loop zero c = c
  clear_loop (suc fuel) c = elim (last_entry c.items) [
    | none ↦ c
    | some e ↦ elim (find_index e.key c.index) [
      | none ↦ clear_loop fuel (record c { items = erase_at e.address c.items })
      | some address ↦ clear_loop fuel (erase_entry e.key address cleared c)
    ]
  ]

  pub clear : LruCache V → LruCache V
  clear c = record (clear_loop (length c.items) c) { expirations = [] }

  pub size : ℕ → LruCache V → LruCache V × ℕ
  size purged c = let p = (purge_expired purged c).0 in (p, length p.items)

  pub set_capacity : ℕ → ℕ → LruCache V → LruCache V
  set_capacity purged limit c =
      enforce_capacity (purge_expired purged (record c { limit = limit })).0

  pub set_default_ttl : Option ℕ → LruCache V → LruCache V
  set_default_ttl ttl c = record c { default_ttl = ttl }

  pub reset_stats : LruCache V → LruCache V
  reset_stats c = record c { stats = zero_stats }
