-- ===== src/LruCache/Lines.antt =====
-- The entries of a cache as lines of the model, and what the composed methods make of them.
use galay_utils.Prelude.{
  ℕ, zero, suc, ◌≡◌, refl, ap, arith, List, [], ◌∷◌, none, some, take, map, Option-cases, inl, inr,
}
use galay_utils.LruCache.{EvictReason, Entry, LruCache, Stats, remove_key}
use galay_utils.LruCache.Nodes.{lookup, erase_key, update_key}
use galay_utils.LruCache.Valid.{Live, Settings-trans, Becomes, found, missing, erase_entry-Becomes}
use galay_utils.LruCache.Purge.{keep}
use galay_utils.LruCache.Spec.{line, find_line, drop_line, keep_lines}

module _ {V : Type 0} where
  pub lines-keep :
      (now : ℕ) (items : List (Entry V))
      → map line (keep now items) ≡ keep_lines now (map line items)
  unfolding keep keep_lines
  lines-keep now [] = refl
  lines-keep now (e ∷ items) = ground (arith, lines-keep now items)

  pub lines-erase_key :
      (key : ℕ) (items : List (Entry V))
      → map line (erase_key key items) ≡ drop_line key (map line items)
  unfolding erase_key drop_line
  lines-erase_key key [] = refl
  lines-erase_key key (e ∷ items) = ground (arith, lines-erase_key key items)

  pub lines-take :
      (n : ℕ) (items : List (Entry V)) → map line (take n items) ≡ take n (map line items)
  lines-take zero items = refl
  lines-take (suc n) [] = refl
  lines-take (suc n) (e ∷ items) = ap (◌∷◌ (line e)) (lines-take n items)

  pub find_line-lookup :
      (key : ℕ) (items : List (Entry V))
      → find_line key (map line items)
        ≡ elim (lookup key items) [ none ↦ none | some e ↦ some (line e) ]
  unfolding find_line lookup
  find_line-lookup key [] = refl
  find_line-lookup key (e ∷ items) = ground (arith, find_line-lookup key items)

  pub erase_key-none :
      (key : ℕ) (items : List (Entry V)) → lookup key items ≡ none → erase_key key items ≡ items
  unfolding erase_key lookup
  erase_key-none key [] h = refl
  erase_key-none key (e ∷ items) h = ground (arith, erase_key-none key items)

  pub erase_key-update_key :
      (key : ℕ) (f : Entry V → Entry V) (items : List (Entry V))
      → ((e : Entry V) → (f e).key ≡ e.key)
      → erase_key key (update_key key f items) ≡ erase_key key items
  unfolding erase_key update_key
  erase_key-update_key key f [] w = refl
  erase_key-update_key key f (e ∷ items) w = ground (arith, w e, erase_key-update_key key f items w)

  -- Statistics are no part of what is kept in order.
  pub stats-Becomes :
      {items : List (Entry V)} {c c' : LruCache V} (s : Stats)
      → Becomes items c c'
      → Becomes items c (record c' { stats = s })
  stats-Becomes s b = record {
    live = record {
      indexed = record {
        distinct = b.live.indexed.distinct;
        fresh = b.live.indexed.fresh;
        agree = b.live.indexed.agree;
      };
      queued = b.live.queued;
      sorted = b.live.sorted;
    };
    same = b.same;
    settings = record {
      limit = b.settings.limit;
      default_ttl = b.settings.default_ttl;
      policy = b.settings.policy;
    };
  }

  pub Becomes-trans :
      {items items' : List (Entry V)} {a b c : LruCache V}
      → Becomes items a b
      → Becomes items' b c
      → Becomes items' a c
  Becomes-trans p q = record {
    live = q.live;
    same = q.same;
    settings = Settings-trans p.settings q.settings;
  }

  pub Becomes-self : {c : LruCache V} → Live c → Becomes c.items c c
  Becomes-self v = record {
    live = v;
    same = refl;
    settings = record { limit = refl; default_ttl = refl; policy = refl };
  }

  pub remove_key-Becomes :
      (key : ℕ) (reason : EvictReason) {c : LruCache V}
      → Live c
      → Becomes (erase_key key c.items) c (remove_key key reason c)
  unfolding remove_key
  remove_key-Becomes key reason {c} v = elim (Option-cases (lookup key c.items)) [
    | inl p ↦
        rw (missing key v.indexed p, remove_key, erase_key-none key c.items p) (Becomes-self v)
    | inr (e, p) ↦ rw (found key v.indexed p, remove_key) (erase_entry-Becomes key reason e v p)
  ]
