-- ===== src/LruCache/Purge.antt =====
-- Purging removes exactly the expired entries.
use galay_utils.Prelude.{
  ℕ, ◌+◌, ◌≤◌, ◌<◌, ◌≡◌, refl, ap, sym, ◌∙◌, arith, true, false, ◌&&◌, List, [], ◌∷◌, none, some,
  length, All, ◌==◌, ltb, if◌then◌else◌, Bool-cases, Option-cases, inl, inr, ◌⊎◌,
}
use galay_utils.LruCache.{
  Entry, ExpireNode, LruCache, expired, is_expired, is_current, erase_entry, due_entry, purge_loop,
  purge_expired,
}
use galay_utils.LruCache.Nodes.{
  lookup, erase_key, Distinct, entry_at-lookup, lookup-erase_key, erase_key-Distinct,
  length-erase_key,
}
use galay_utils.LruCache.Queue.{holds, covered, node_of, Ascending, Ascending-later}
use galay_utils.LruCache.Valid.{
  Indexed, Live, IsValid, Becomes, Settings, Settings-trans, erase_entry-Erased, found, missing,
  All-erase_key,
}

module _ {V : Type 0} where
  -- The entries that are not expired.
  unfoldable pub keep : ℕ → List (Entry V) → List (Entry V)
  keep now [] = []
  keep now (e ∷ items) =
      let rest = keep now items in if is_expired now e.expires_at then rest else e ∷ rest

  keep-erase_key :
      (now key : ℕ) (items : List (Entry V)) (e : Entry V)
      → lookup key items ≡ some e
      → is_expired now e.expires_at ≡ true
      → keep now (erase_key key items) ≡ keep now items
  unfolding keep lookup erase_key
  keep-erase_key now key [] e h p = ground arith
  keep-erase_key now key (f ∷ items) e h p = elim (Bool-cases (f.key == key)) [
    | inl q ↦ let same : f ≡ e = ground arith in rw (q, same, p) refl
    | inr q ↦ let ih = keep-erase_key now key items e (ground arith) p in rw (q, ih) refl
  ]

  keep-all :
      (now : ℕ) (items : List (Entry V))
      → All (λ e. is_expired now e.expires_at ≡ false) items
      → keep now items ≡ items
  unfolding keep
  keep-all now [] h = refl
  keep-all now (e ∷ items) (p, h) = rw (p, keep-all now items h) refl

  pub All-map :
      (P Q : Entry V → Type 0) (items : List (Entry V))
      → ((e : Entry V) → lookup e.key items ≡ some e → P e → Q e)
      → Distinct items
      → All P items
      → All Q items
  unfolding lookup
  All-map P Q [] f d h = tt
  All-map P Q (e ∷ items) f (a, k, d) (p, h) =
      (f e (ground arith) p, All-map P Q items (λ g r q. f g (ground (arith, k)) q) d h)

  -- What an entry has in the queue after its first node was skipped.
  covered-skip :
      (node : ExpireNode) (nodes : List ExpireNode) (e : Entry V)
      → covered (node ∷ nodes) e ≡ true
      → (e.key == node.key && is_current node e.expires_at e.version) ≡ false
      → covered nodes e ≡ true
  unfolding holds is_current
  covered-skip node nodes e h p = elim (Option-cases e.expires_at) [
    | inl q ↦ rw q refl
    | inr (t, q) ↦ ground (arith, q)
  ]

  not_due :
      (now : ℕ) (nodes : List ExpireNode) (from : ℕ) (e : Entry V)
      → Ascending from nodes
      → now < from
      → covered nodes e ≡ true
      → is_expired now e.expires_at ≡ false
  not_due now nodes from e a p h = elim (Option-cases e.expires_at) [
    | inl q ↦ rw q refl
    | inr (t, q) ↦ ground (arith, q, Ascending-later from (node_of e t) nodes a)
  ]

  due_entry-cases :
      (node : ExpireNode) {c : LruCache V}
      → Indexed c
      → ((e : Entry V) × (lookup node.key c.items ≡ some e)
          × (is_current node e.expires_at e.version ≡ true)
          × (due_entry node c ≡ some e.address))
        ⊎ ((due_entry node c ≡ none)
            × ((e : Entry V)
                → lookup e.key c.items ≡ some e
                → (e.key == node.key && is_current node e.expires_at e.version) ≡ false))
  unfolding due_entry
  due_entry-cases node {c} v = elim (Option-cases (lookup node.key c.items)) [
    | inl h ↦ inr (rw (missing node.key v h, due_entry) refl, λ e g. ground (arith, h, g))
    | inr (e, h) ↦
        let at = entry_at-lookup node.key c.items e v.distinct h in
        elim (Bool-cases (is_current node e.expires_at e.version)) [
          | inl p ↦ inl (e, h, p, rw (found node.key v h, due_entry, at, p) refl)
          | inr p ↦ inr (
            rw (found node.key v h, due_entry, at, p) refl,
            λ f g. elim (Bool-cases (f.key == node.key)) [
              | inr q ↦ rw q refl
              | inl q ↦
                  let k : f.key ≡ node.key = ground arith in
                  let both : some f ≡ some e = sym g ∙ ap (λ j. lookup j c.items) k ∙ h in
                  ground (arith, both, p)
            ],
          )
        ]
  ]

  pub record Purged (now : ℕ) (c c' : LruCache V) : Type 0 where
    pub indexed : Indexed c'
    pub items : c'.items ≡ keep now c.items
    pub queued : All (λ e. covered c'.expirations e ≡ true) c'.items
    pub sorted : Ascending 0 c'.expirations
    pub settings : Settings c c'

  Settings-refl : {c : LruCache V} → Settings c c
  Settings-refl = record { limit = refl; default_ttl = refl; policy = refl }

  current-expired :
      (now : ℕ) (node : ExpireNode) (e : Entry V)
      → is_current node e.expires_at e.version ≡ true
      → ltb now node.expires_at ≡ false
      → is_expired now e.expires_at ≡ true
  unfolding is_current
  current-expired now node e h p = elim (Option-cases e.expires_at) [
    | inl q ↦ ground (arith, q)
    | inr (t, q) ↦ ground (arith, q)
  ]

  -- The entries but one, with its node skipped.
  covered-erase :
      (node : ExpireNode) (nodes : List ExpireNode) (items : List (Entry V))
      → Distinct items
      → All (λ e. covered (node ∷ nodes) e ≡ true) items
      → All (λ e. covered nodes e ≡ true) (erase_key node.key items)
  covered-erase node nodes items d q =
      All-map _ _ (erase_key node.key items)
        (λ e r h.
          covered-skip node nodes e h (ground (arith, r, lookup-erase_key e.key node.key items d)))
        (erase_key-Distinct node.key items d) (All-erase_key _ node.key items q)

  module _ (now : ℕ) where
    stop-Purged :
        {c : LruCache V} (node : ExpireNode) (nodes : List ExpireNode) (from : ℕ)
        → Indexed c
        → All (λ e. covered (node ∷ nodes) e ≡ true) c.items
        → Ascending from (node ∷ nodes)
        → now < node.expires_at
        → Purged now c (record c { expirations = node ∷ nodes })
    stop-Purged {c} node nodes from v q (a, b) p = record {
      indexed = record { distinct = v.distinct; fresh = v.fresh; agree = v.agree };
      items = sym (
          keep-all now c.items (
            All-map _ _ c.items
              (λ e g h. not_due now (node ∷ nodes) node.expires_at e (omega arith, b) p h)
              v.distinct q));
      queued = q;
      sorted = (omega arith, b);
      settings = record { limit = refl; default_ttl = refl; policy = refl };
    }

    end-Purged :
        {c : LruCache V}
        → Indexed c
        → All (λ e. covered [] e ≡ true) c.items
        → Purged now c (record c { expirations = [] })
    unfolding holds
    end-Purged {c} v q = record {
      indexed = record { distinct = v.distinct; fresh = v.fresh; agree = v.agree };
      items = sym (
          keep-all now c.items (
            All-map _ _ c.items
              (λ e g h. elim (Option-cases e.expires_at) [
                | inl p ↦ rw p refl
                | inr (t, p) ↦ ground (arith, p)
              ])
              v.distinct q));
      queued = q;
      sorted = tt;
      settings = record { limit = refl; default_ttl = refl; policy = refl };
    }

    pub purge_loop-Purged :
        (nodes : List ExpireNode) (count from : ℕ) (c : LruCache V)
        → Indexed c
        → All (λ e. covered nodes e ≡ true) c.items
        → Ascending from nodes
        → let (c', n) = purge_loop now nodes count c in
          Purged now c c' × (n + length c'.items ≡ count + length c.items)
    unfolding purge_loop
    purge_loop-Purged [] count from c v q a = (end-Purged v q, refl)
    purge_loop-Purged (node ∷ nodes) count from c v q (a, b) =
        elim (Bool-cases (ltb now node.expires_at)) [
          | inl p ↦ rw p (stop-Purged node nodes from v q (a, b) (ground arith), refl)
          | inr p ↦ elim (due_entry-cases node v) [
            | inr (d, others) ↦
                let q' =
                  All-map _ _ c.items (λ e g h. covered-skip node nodes e h (others e g)) v.distinct
                    q in
                rw (p, d) (purge_loop-Purged nodes count node.expires_at c v q' b)
            | inl (e, h, current, d) ↦
                let x = erase_entry-Erased node.key expired e v h in
                let q' = covered-erase node nodes c.items v.distinct q in
                let (r, n) =
                  purge_loop-Purged nodes (count + 1) node.expires_at
                    (erase_entry node.key e.address expired c) x.indexed (rw x.items q') b in
                let dead = current-expired now node e current p in
                rw (p, d)
                  (
                    record {
                      indexed = r.indexed;
                      items =
                          r.items
                          ∙ ap (keep now) x.items
                          ∙ keep-erase_key now node.key c.items e h dead;
                      queued = r.queued;
                      sorted = r.sorted;
                      settings = Settings-trans x.settings r.settings;
                    },
                    omega (arith, n, ap length x.items, length-erase_key node.key c.items e h),
                  )
          ]
        ]

    pub length-keep-le : (items : List (Entry V)) → length (keep now items) ≤ length items
    unfolding keep
    length-keep-le [] = omega arith
    length-keep-le (e ∷ items) = ground (arith, length-keep-le items)

    pub purge_expired-Becomes :
        {c : LruCache V} → Live c → Becomes (keep now c.items) c (purge_expired now c).0
    unfolding purge_expired
    purge_expired-Becomes {c} v =
        let r = (purge_loop-Purged c.expirations 0 0 c v.indexed v.queued v.sorted).0 in
        record {
          live = record { indexed = r.indexed; queued = r.queued; sorted = r.sorted };
          same = r.items;
          settings = r.settings;
        }

    -- Purging a valid cache leaves exactly the entries that are not expired, in their order, returns
    -- the number of the others, and keeps the cache valid.
    pub purge_lem :
        {c : LruCache V}
        → IsValid c
        → let (c', n) = purge_expired now c in
          (c'.items ≡ keep now c.items) × (n + length c'.items ≡ length c.items) × IsValid c'
    unfolding purge_expired
    purge_lem {c} v =
        let (r, n) =
          purge_loop-Purged c.expirations 0 0 c v.live.indexed v.live.queued v.live.sorted in
        (
          r.items,
          n ∙ omega arith,
          record {
            live = record { indexed = r.indexed; queued = r.queued; sorted = r.sorted };
            bounded =
                omega
                  (arith, v.bounded, ap length r.items, length-keep-le c.items, r.settings.limit);
          },
        )
