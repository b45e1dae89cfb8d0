-- ===== src/LruCache/Valid.antt =====
-- What a cache keeps true of its list, its index and its queue.
use galay_utils.Prelude.{
  ℕ, ◌≤◌, ◌<◌, ◌≡◌, refl, ◌∙◌, arith, true, List, [], ◌∷◌, none, some, length, All, ◌==◌,
  Bool-cases, inl, inr,
}
use galay_utils.LruCache.{EvictReason, Entry, LruCache, find_index, erase_entry}
use galay_utils.LruCache.Nodes.{
  lookup, locate, erase_key, Distinct, erase_at-lookup, lookup-erase_key, erase_key-Distinct,
  find_index-erase_index,
}
use galay_utils.LruCache.Queue.{covered, Ascending}

module _ {V : Type 0} where
  -- The index leads from every key to the address of its entry, and no address or key stands twice.
  pub record Indexed (c : LruCache V) : Type 0 where
    pub distinct : Distinct c.items
    pub fresh : All (λ e. e.address < c.next_address) c.items
    pub agree : (key : ℕ) → find_index key c.index ≡ locate key c.items

  -- The index is right, and every entry that expires waits in the queue, which is in order.
  pub record Live (c : LruCache V) : Type 0 where
    pub indexed : Indexed c
    pub queued : All (λ e. covered c.expirations e ≡ true) c.items
    pub sorted : Ascending 0 c.expirations

  pub record IsValid (c : LruCache V) : Type 0 where
    pub live : Live c
    pub bounded : length c.items ≤ c.limit

  -- What no method on entries changes.
  pub record Settings (c c' : LruCache V) : Type 0 where
    pub limit : c'.limit ≡ c.limit
    pub default_ttl : c'.default_ttl ≡ c.default_ttl
    pub policy : c'.policy ≡ c.policy

  pub Settings-trans : {a b c : LruCache V} → Settings a b → Settings b c → Settings a c
  Settings-trans s t = record {
    limit = t.limit ∙ s.limit;
    default_ttl = t.default_ttl ∙ s.default_ttl;
    policy = t.policy ∙ s.policy;
  }

  -- `find` finds the address of the entry, and the entry at that address.
  pub found :
      (key : ℕ) {c : LruCache V} {e : Entry V}
      → Indexed c
      → lookup key c.items ≡ some e
      → find_index key c.index ≡ some e.address
  unfolding locate
  found key v h = v.agree key ∙ rw (h, locate) refl

  pub missing :
      (key : ℕ) {c : LruCache V}
      → Indexed c
      → lookup key c.items ≡ none
      → find_index key c.index ≡ none
  unfolding locate
  missing key v h = v.agree key ∙ rw (h, locate) refl

  pub All-erase_key :
      (P : Entry V → Type 0) (key : ℕ) (items : List (Entry V))
      → All P items
      → All P (erase_key key items)
  unfolding erase_key
  All-erase_key P key [] h = tt
  All-erase_key P key (e ∷ items) (p, h) = elim (Bool-cases (e.key == key)) [
    | inl q ↦ rw q h
    | inr q ↦ rw q (p, All-erase_key P key items h)
  ]

  -- An entry erased through its key.
  pub record Erased (key : ℕ) (c c' : LruCache V) : Type 0 where
    pub indexed : Indexed c'
    pub items : c'.items ≡ erase_key key c.items
    pub settings : Settings c c'
    pub expirations : c'.expirations ≡ c.expirations

  pub erase_entry-Erased :
      (key : ℕ) (reason : EvictReason) {c : LruCache V} (e : Entry V)
      → Indexed c
      → lookup key c.items ≡ some e
      → Erased key c (erase_entry key e.address reason c)
  unfolding erase_entry locate
  erase_entry-Erased key reason {c} e v h =
      let same = erase_at-lookup key c.items e v.distinct h in
      record {
        indexed = record {
          distinct = rw same (erase_key-Distinct key c.items v.distinct);
          fresh = rw same (All-erase_key _ key c.items v.fresh);
          agree = λ j.
              find_index-erase_index j key c.index
              ∙ rw (v.agree j, same, locate, lookup-erase_key j key c.items v.distinct)
                  (ground arith);
        };
        items = same;
        settings = record { limit = refl; default_ttl = refl; policy = refl };
        expirations = refl;
      }

  -- A cache in order, with these items and the old settings.
  pub record Becomes (items : List (Entry V)) (c c' : LruCache V) : Type 0 where
    pub live : Live c'
    pub same : c'.items ≡ items
    pub settings : Settings c c'

  pub erase_entry-Becomes :
      (key : ℕ) (reason : EvictReason) {c : LruCache V} (e : Entry V)
      → Live c
      → lookup key c.items ≡ some e
      → Becomes (erase_key key c.items) c (erase_entry key e.address reason c)
  erase_entry-Becomes key reason {c} e v h =
      let x = erase_entry-Erased key reason e v.indexed h in
      record {
        live = record {
          indexed = x.indexed;
          queued = rw (x.items, x.expirations) (All-erase_key _ key c.items v.queued);
          sorted = rw x.expirations v.sorted;
        };
        same = x.items;
        settings = x.settings;
      }
