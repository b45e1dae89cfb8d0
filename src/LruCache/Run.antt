-- ===== src/LruCache/Run.antt =====
-- A sequence of calls of the cache answers as the model does.
use galay_utils.Prelude.{
  ℕ, ◌≡◌, refl, ap, ap₂, sym, ◌∙◌, arith, Bool, List, [], ◌∷◌, Option, length, length-take, take,
  map,
}
use galay_utils.LruCache.{
  ExpirationPolicy, LruCache, set_capacity, set_default_ttl, init_cache, purge_expired, find_index,
}
use galay_utils.LruCache.Nodes.{locate}
use galay_utils.LruCache.Valid.{Live, IsValid}
use galay_utils.LruCache.Purge.{purge_expired-Becomes}
use galay_utils.LruCache.Capacity.{enforce_capacity-Becomes, clear-Becomes}
use galay_utils.LruCache.Spec.{
  Call, line, abstract, keep_lines, model_step, step, answers, model_answers,
}
use galay_utils.LruCache.Lines.{lines-keep, lines-take, Becomes-trans}
use galay_utils.LruCache.Refine.{
  Answers, get-Answers, peek-Answers, contains-Answers, remove-Answers, size-Answers, put-Answers,
  put_for-Answers, put_until-Answers,
}

module _ {V : Type 0} where
  clear-Answers : {c : LruCache V} (v : IsValid c) → Answers 0 {c = c} v Call.call_clear
  unfolding Answers step model_step
  clear-Answers {c} v =
      let b = clear-Becomes v.live in
      (
        record { live = b.live; bounded = omega (arith, ap length b.same) },
        rw (b.same, b.settings.limit, b.settings.default_ttl, b.settings.policy) refl,
        refl,
      )

  set_default_ttl-Answers :
      {c : LruCache V} (v : IsValid c) (ttl : Option ℕ)
      → Answers 0 {c = c} v (Call.call_set_default_ttl ttl)
  unfolding Answers step model_step set_default_ttl
  set_default_ttl-Answers {c} v ttl = (
    record {
      live = record {
        indexed = record {
          distinct = v.live.indexed.distinct;
          fresh = v.live.indexed.fresh;
          agree = v.live.indexed.agree;
        };
        queued = v.live.queued;
        sorted = v.live.sorted;
      };
      bounded = v.bounded;
    },
    refl,
    refl,
  )

  resized : {c : LruCache V} (limit : ℕ) → Live c → Live (record c { limit = limit })
  resized {c} limit v = record {
    indexed = record {
      distinct = v.indexed.distinct;
      fresh = v.indexed.fresh;
      agree = v.indexed.agree;
    };
    queued = v.queued;
    sorted = v.sorted;
  }

  set_capacity-Answers :
      {c : LruCache V} (v : IsValid c) (purged limit : ℕ)
      → Answers 0 {c = c} v (Call.call_set_capacity purged limit)
  unfolding Answers step model_step set_capacity
  set_capacity-Answers {c} v purged limit =
      let c₁ : LruCache V = record c { limit = limit } in
      let b = purge_expired-Becomes purged (resized limit v.live) in
      let p = (purge_expired purged c₁).0 in
      let e = Becomes-trans b (enforce_capacity-Becomes b.live) in
      let lines : map line (take p.limit p.items)
          ≡ take limit (keep_lines purged (map line c.items)) =
        lines-take p.limit p.items
        ∙ ap₂ take b.settings.limit (ap (map line) b.same ∙ lines-keep purged c.items) in
      (
        record {
          live = e.live;
          bounded = omega (
            arith,
            ap length e.same,
            e.settings.limit,
            b.settings.limit,
            length-take p.limit p.items,
          );
        },
        rw (e.same, lines, e.settings.limit, e.settings.default_ttl, e.settings.policy) refl,
        refl,
      )

  step-Answers :
      (x : Call V) {c : LruCache V} (v : IsValid c)
      → let (c', a) = step x c in
        let (m, a') = model_step x (abstract c) in IsValid c' × (abstract c' ≡ m) × (a ≡ a')
  unfolding Answers
  step-Answers (Call.call_put now purged checked key value) v =
      put-Answers purged v now checked key value
  step-Answers (Call.call_put_for now purged checked key value ttl) v =
      put_for-Answers purged v now checked key value ttl
  step-Answers (Call.call_put_until purged checked key value t) v =
      put_until-Answers purged v checked key value t
  step-Answers (Call.call_get purged now key) v = get-Answers purged v now key
  step-Answers (Call.call_peek purged key) v = peek-Answers purged v key
  step-Answers (Call.call_contains purged key) v = contains-Answers purged v key
  step-Answers (Call.call_remove purged key) v = remove-Answers purged v key
  step-Answers Call.call_clear v = clear-Answers v
  step-Answers (Call.call_size purged) v = size-Answers purged v
  step-Answers (Call.call_set_capacity purged limit) v = set_capacity-Answers v purged limit
  step-Answers (Call.call_set_default_ttl ttl) v = set_default_ttl-Answers v ttl

  -- Every call keeps a valid cache valid: keys and addresses of the entries are distinct, the index
  -- finds exactly them, each entry that expires stands in the queue, the queue is sorted, and the
  -- entries are no more than the capacity.
  pub step-IsValid : (x : Call V) {c : LruCache V} → IsValid c → IsValid (step x c).0
  step-IsValid x v = (step-Answers x v).0

  -- From a valid cache, every sequence of calls answers as on the plain list of its entries by
  -- recency, whatever the readings of the clock and for all times to live, the negative ones and
  -- those whose sum with the time wraps included.
  pub cache_refines :
      (calls : List (Call V)) {c : LruCache V}
      → IsValid c
      → answers calls c ≡ model_answers calls (abstract c)
  unfolding answers model_answers
  cache_refines [] v = refl
  cache_refines (x ∷ calls) {c} v =
      let (valid, same, a) = step-Answers x v in
      rw (a, sym same, sym (cache_refines calls valid)) refl

  pub init_cache-IsValid :
      (limit : ℕ) (ttl : Option ℕ) (on_evict : Bool) (policy : ExpirationPolicy)
      → IsValid (init_cache {V = V} limit ttl on_evict policy)
  unfolding init_cache find_index locate
  init_cache-IsValid limit ttl on_evict policy = record {
    live = record {
      indexed = record { distinct = tt; fresh = tt; agree = λ key. refl };
      queued = tt;
      sorted = tt;
    };
    bounded = omega arith;
  }
