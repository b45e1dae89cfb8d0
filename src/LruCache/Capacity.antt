-- ===== src/LruCache/Capacity.antt =====
-- Enforcing the capacity keeps the most recent entries; clearing keeps none.
use galay_utils.Prelude.{
  ℕ, zero, suc, ◌≤◌, ◌≡◌, refl, ap, sym, ◌∙◌, arith, false, List, [], ◌∷◌, none, some, length, take,
  take_whole, ◌==◌, ltb, Bool-cases, Option-cases, inl, inr,
}
use galay_utils.LruCache.{
  Entry, LruCache, capacity, cleared, last_entry, erase_entry, enforce_loop, enforce_capacity,
  clear_loop, clear,
}
use galay_utils.LruCache.Nodes.{lookup, erase_key, Distinct, length-erase_key}
use galay_utils.LruCache.Valid.{Live, Settings-trans, Becomes, found, erase_entry-Becomes}

module _ {V : Type 0} where
  last-none : (items : List (Entry V)) → last_entry items ≡ none → items ≡ []
  unfolding last_entry
  last-none [] h = refl
  last-none (e ∷ []) h = ground arith
  last-none (e ∷ f ∷ items) h = ground (arith, last-none (f ∷ items) h)

  lookup-last :
      (items : List (Entry V)) (e : Entry V)
      → Distinct items
      → last_entry items ≡ some e
      → lookup e.key items ≡ some e
  unfolding last_entry lookup
  lookup-last [] e d h = ground arith
  lookup-last (f ∷ []) e d h = ground arith
  lookup-last (f ∷ g ∷ items) e (a, k, d) h = ground (arith, k, lookup-last (g ∷ items) e d h)

  other_key :
      (a b : ℕ) (items : List (Entry V)) (e : Entry V)
      → lookup a items ≡ none
      → lookup b items ≡ some e
      → (a == b) ≡ false
  other_key a b items e h k = elim (Bool-cases (a == b)) [
    | inr q ↦ q
    | inl q ↦
        let same : a ≡ b = ground arith in ground (arith, sym h ∙ ap (λ j. lookup j items) same ∙ k)
  ]

  erase-last :
      (n : ℕ) (items : List (Entry V)) (e : Entry V)
      → Distinct items
      → last_entry items ≡ some e
      → length items ≡ suc n
      → erase_key e.key items ≡ take n items
  unfolding last_entry erase_key
  erase-last n [] e d h l = absurd (omega arith)
  erase-last zero (f ∷ []) e d h l = ground arith
  erase-last (suc n) (f ∷ []) e d h l = absurd (omega arith)
  erase-last zero (f ∷ g ∷ items) e d h l = absurd (omega arith)
  erase-last (suc n) (f ∷ g ∷ items) e (a, k, d) h l =
      let other = other_key f.key e.key (g ∷ items) e k (lookup-last (g ∷ items) e d h) in
      rw other (ap (◌∷◌ f) (erase-last n (g ∷ items) e d h (omega arith)))

  take-take : (m n : ℕ) (items : List (Entry V)) → m ≤ n → take m (take n items) ≡ take m items
  take-take zero n items h = refl
  take-take (suc m) zero items h = absurd (omega arith)
  take-take (suc m) (suc n) [] h = refl
  take-take (suc m) (suc n) (e ∷ items) h = ap (◌∷◌ e) (take-take m n items (omega arith))

  whole-Becomes :
      {c : LruCache V} → Live c → length c.items ≤ c.limit → Becomes (take c.limit c.items) c c
  whole-Becomes {c} v h = record {
    live = v;
    same = sym (take_whole c.limit c.items h);
    settings = record { limit = refl; default_ttl = refl; policy = refl };
  }

  enforce_loop-Becomes :
      (fuel : ℕ) (c : LruCache V)
      → Live c
      → length c.items ≤ fuel
      → Becomes (take c.limit c.items) c (enforce_loop fuel c)
  unfolding enforce_loop
  enforce_loop-Becomes zero c v h = whole-Becomes v (omega arith)
  enforce_loop-Becomes (suc fuel) c v h = elim (Option-cases (last_entry c.items)) [
    | inl p ↦
        rw (p, enforce_loop) (whole-Becomes v (omega (arith, ap length (last-none c.items p))))
    | inr (e, p) ↦
        let d = v.indexed.distinct in
        let at = lookup-last c.items e d p in
        let c' = erase_entry e.key e.address capacity c in
        let b = erase_entry-Becomes e.key capacity e v at in
        let shorter = length-erase_key e.key c.items e at in
        elim (Bool-cases (ltb c.limit (length c.items))) [
          | inr q ↦ rw (p, enforce_loop, q) (whole-Becomes v (ground arith))
          | inl q ↦
              let n = length (erase_key e.key c.items) in
              let rest =
                enforce_loop-Becomes fuel c' b.live (omega (arith, ap length b.same, shorter)) in
              rw (p, enforce_loop, found e.key v.indexed at, q)
                (record {
                  live = rest.live;
                  same =
                      rest.same
                      ∙ rw
                          (
                            b.same,
                            b.settings.limit,
                            erase-last n c.items e d p (omega (arith, shorter)),
                          )
                          (take-take c.limit n c.items (ground (arith, shorter)));
                  settings = Settings-trans b.settings rest.settings;
                })
        ]
  ]

  pub enforce_capacity-Becomes :
      {c : LruCache V} → Live c → Becomes (take c.limit c.items) c (enforce_capacity c)
  unfolding enforce_capacity
  enforce_capacity-Becomes {c} v = enforce_loop-Becomes (length c.items) c v (omega arith)

  none-Becomes : {c : LruCache V} → Live c → length c.items ≤ 0 → Becomes [] c c
  none-Becomes {c} v h = record {
    live = v;
    same = length-zero c.items h;
    settings = record { limit = refl; default_ttl = refl; policy = refl };
  }
    where
      length-zero : (items : List (Entry V)) → length items ≤ 0 → items ≡ []
      length-zero [] h = refl
      length-zero (e ∷ items) h = absurd (omega arith)

  clear_loop-Becomes :
      (fuel : ℕ) (c : LruCache V)
      → Live c
      → length c.items ≤ fuel
      → Becomes [] c (clear_loop fuel c)
  unfolding clear_loop
  clear_loop-Becomes zero c v h = none-Becomes v (omega arith)
  clear_loop-Becomes (suc fuel) c v h = elim (Option-cases (last_entry c.items)) [
    | inl p ↦ rw (p, clear_loop) (none-Becomes v (omega (arith, ap length (last-none c.items p))))
    | inr (e, p) ↦
        let at = lookup-last c.items e v.indexed.distinct p in
        let b = erase_entry-Becomes e.key cleared e v at in
        let shorter = length-erase_key e.key c.items e at in
        let rest =
          clear_loop-Becomes fuel (erase_entry e.key e.address cleared c) b.live
            (omega (arith, ap length b.same, shorter)) in
        rw (p, clear_loop, found e.key v.indexed at)
          (record {
            live = rest.live;
            same = rest.same;
            settings = Settings-trans b.settings rest.settings;
          })
  ]

  pub clear-Becomes : {c : LruCache V} → Live c → Becomes [] c (clear c)
  unfolding clear
  clear-Becomes {c} v =
      let b = clear_loop-Becomes (length c.items) c v (omega arith) in
      record {
        live = record {
          indexed = record {
            distinct = b.live.indexed.distinct;
            fresh = b.live.indexed.fresh;
            agree = b.live.indexed.agree;
          };
          queued = rw b.same tt;
          sorted = tt;
        };
        same = b.same;
        settings = record {
          limit = b.settings.limit;
          default_ttl = b.settings.default_ttl;
          policy = b.settings.policy;
        };
      }
