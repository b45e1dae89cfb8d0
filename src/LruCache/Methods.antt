-- ===== src/LruCache/Methods.antt =====
-- What a put makes of an entry that is there or not, and what an access makes of one.
use mathlib.Core.Path.{subst}
use galay_utils.Prelude.{
  ℕ, ◌≡◌, refl, ap, ap₂, sym, ◌∙◌, arith, List, [], ◌∷◌, none, some, take, Option-cases, inl, inr,
  ◌⊎◌,
}
use galay_utils.LruCache.{
  Entry, Expiration, ExpirationPolicy, expire_after_write, expire_after_access, LruCache,
  expiration_from_ttl, update_entry, insert_entry, update_expiration, set_value, touch, add_front,
  record_update, record_insert, record_hit, refresh_after_access, entry_at,
}
use galay_utils.LruCache.Nodes.{
  lookup, erase_key, update_key, entry_at-lookup, lookup-key, lookup-update_key,
}
use galay_utils.LruCache.Valid.{Live, Becomes}
use galay_utils.LruCache.Writes.{
  renewed, added, set_value-Becomes, update_expiration-Becomes, touch-Becomes, add_front-Becomes,
}
use galay_utils.LruCache.Capacity.{enforce_capacity-Becomes}
use galay_utils.LruCache.Spec.{Line, line, refreshed}
use galay_utils.LruCache.Lines.{erase_key-update_key, stats-Becomes, Becomes-trans, Becomes-self}

policy-cases : (p : ExpirationPolicy) → (p ≡ expire_after_write) ⊎ (p ≡ expire_after_access)
policy-cases expire_after_write = inl refl
policy-cases expire_after_access = inr refl

module _ {V : Type 0} where
  -- The same cache, with its entries written otherwise.
  becomes :
      {items items' : List (Entry V)} {c c' : LruCache V}
      → items ≡ items'
      → Becomes items c c'
      → Becomes items' c c'
  becomes e b = record { live = b.live; same = b.same ∙ e; settings = b.settings }

  lookup-updated :
      (key : ℕ) (f : Entry V → Entry V) (items : List (Entry V)) (e : Entry V)
      → ((g : Entry V) → ((f g).address ≡ g.address) × ((f g).key ≡ g.key))
      → lookup key items ≡ some e
      → lookup key (update_key key f items) ≡ some (f e)
  lookup-updated key f items e w h = rw (lookup-update_key f key key items w, h) (ground arith)

  lookup-front :
      (key : ℕ) (e : Entry V) (items : List (Entry V))
      → e.key ≡ key
      → lookup key (e ∷ items) ≡ some e
  unfolding lookup
  lookup-front key e items k = ground (arith, k)

  update-front :
      (key : ℕ) (f : Entry V → Entry V) (e : Entry V) (items : List (Entry V))
      → e.key ≡ key
      → update_key key f (e ∷ items) ≡ f e ∷ items
  unfolding update_key
  update-front key f e items k = ground (arith, k)

  abbrev put_lines : ℕ → V → Expiration → Line V
  put_lines key value x = record {
    key = key;
    value = value;
    expires_at = x.expires_at;
    ttl = x.ttl;
  }

  pub update_entry-Becomes :
      (key : ℕ) (value : V) (x : Expiration) {c : LruCache V} (e : Entry V)
      → Live c
      → lookup key c.items ≡ some e
      → (e' : Entry V) × (line e' ≡ put_lines key value x)
        × Becomes (e' ∷ erase_key key c.items) c (update_entry e.address value x c)
  unfolding update_entry record_update
  update_entry-Becomes key value x {c} e v h =
      let f : Entry V → Entry V = λ e. record e { value = value } in
      let c₁ = set_value e.address value c in
      let c₂ = update_expiration e.address x c₁ in
      let a = set_value-Becomes key value e v h in
      let h₁ : lookup key c₁.items ≡ some (f e) =
        rw a.same (lookup-updated key f c.items e (λ _. (refl, refl)) h) in
      let b = update_expiration-Becomes key x (f e) a.live h₁ in
      let h₂ : lookup key c₂.items ≡ some (renewed x c₁ (f e)) =
        rw b.same (lookup-updated key (renewed x c₁) c₁.items (f e) (λ _. (refl, refl)) h₁) in
      let t = touch-Becomes key (renewed x c₁ (f e)) b.live h₂ in
      let rest : erase_key key c₂.items ≡ erase_key key c.items =
        ap (erase_key key) b.same
        ∙ erase_key-update_key key (renewed x c₁) c₁.items (λ _. refl)
        ∙ ap (erase_key key) a.same
        ∙ erase_key-update_key key f c.items (λ _. refl) in
      (
        renewed x c₁ (f e),
        ap (λ k. put_lines k value x) (lookup-key key c.items e h),
        stats-Becomes _
            (becomes (ap (◌∷◌ (renewed x c₁ (f e))) rest) (Becomes-trans (Becomes-trans a b) t)),
      )

  pub insert_entry-Becomes :
      (key : ℕ) (value : V) (x : Expiration) {c : LruCache V}
      → Live c
      → lookup key c.items ≡ none
      → (e : Entry V) × (line e ≡ put_lines key value x)
        × Becomes (take c.limit (e ∷ c.items)) c (insert_entry key value x c)
  unfolding insert_entry record_insert
  insert_entry-Becomes key value x {c} v h =
      let c₁ = add_front key value c in
      let a = add_front-Becomes key value v h in
      let new = added key value c in
      let h₁ : lookup key c₁.items ≡ some new = rw a.same (lookup-front key new c.items refl) in
      let b = update_expiration-Becomes key x new a.live h₁ in
      let both =
        becomes
          (ap (update_key key (renewed x c₁)) a.same
            ∙ update-front key (renewed x c₁) new c.items refl)
          (Becomes-trans a b) in
      let counted = stats-Becomes _ both in
      let last = enforce_capacity-Becomes counted.live in
      (
        renewed x c₁ new,
        refl,
        becomes (ap₂ take counted.settings.limit counted.same) (Becomes-trans counted last),
      )

  update-id : (key : ℕ) (items : List (Entry V)) → update_key key (λ e. e) items ≡ items
  unfolding update_key
  update-id key [] = refl
  update-id key (e ∷ items) = ground (arith, update-id key items)

  pub refresh-Becomes :
      (key now : ℕ) {c : LruCache V} (e : Entry V)
      → Live c
      → lookup key c.items ≡ some e
      → let c' = refresh_after_access now e.address c in
        (f : Entry V → Entry V) × (line (f e) ≡ refreshed now c.policy (line e))
        × ((f e).value ≡ e.value)
        × (((g : Entry V) → ((f g).address ≡ g.address) × ((f g).key ≡ g.key)))
        × Becomes (update_key key f c.items) c c'
  unfolding refresh_after_access expiration_from_ttl
  refresh-Becomes key now {c} e v h =
      let unchanged : Becomes (update_key key (λ e. e) c.items) c c =
        becomes (sym (update-id key c.items)) (Becomes-self v) in
      elim (policy-cases c.policy) [
        | inl p ↦ (
          λ e. e,
          rw p refl,
          refl,
          λ _. (refl, refl),
          subst (λ d. Becomes (update_key key (λ e. e) c.items) c d)
              (sym (simp (p, refresh_after_access))) unchanged,
        )
        | inr p ↦
            let at = entry_at-lookup key c.items e v.indexed.distinct h in
            elim (Option-cases e.ttl) [
              | inl q ↦ (
                λ e. e,
                rw (p, q) refl,
                refl,
                λ _. (refl, refl),
                subst (λ d. Becomes (update_key key (λ e. e) c.items) c d)
                    (sym (simp (p, refresh_after_access, at, q))) unchanged,
              )
              | inr (ttl, q) ↦
                  let x = expiration_from_ttl now (some ttl) in
                  (
                    renewed x c,
                    rw (p, q) refl,
                    refl,
                    λ _. (refl, refl),
                    subst (λ d. Becomes (update_key key (renewed x c) c.items) c d)
                        (sym (simp (p, refresh_after_access, at, q)))
                        (update_expiration-Becomes key x e v h),
                  )
            ]
      ]

  -- A touched entry, with its expiration moved on if the policy says so.
  pub access-Becomes :
      (key now : ℕ) {c : LruCache V} (e : Entry V)
      → Live c
      → lookup key c.items ≡ some e
      → let c' = refresh_after_access now e.address (touch e.address (record_hit c)) in
        (e' : Entry V) × (line e' ≡ refreshed now c.policy (line e))
        × (e'.value ≡ e.value)
        × (entry_at e.address c'.items ≡ some e')
        × Becomes (e' ∷ erase_key key c.items) c c'
  unfolding record_hit
  access-Becomes key now {c} e v h =
      let hit = stats-Becomes (record_hit c).stats (Becomes-self v) in
      let t = touch-Becomes key e hit.live h in
      let k = lookup-key key c.items e h in
      let both = Becomes-trans hit t in
      let front = lookup-front key e (erase_key key c.items) k in
      let at : lookup key (touch e.address (record_hit c)).items ≡ some e = rw t.same front in
      let (f, l, x, w, b) = refresh-Becomes key now e both.live at in
      let items' = ap (update_key key f) t.same ∙ update-front key f e (erase_key key c.items) k in
      let there : lookup key
            (refresh_after_access now e.address (touch e.address (record_hit c))).items
          ≡ some (f e) =
        rw b.same (lookup-updated key f _ e w at) in
      let found_at = entry_at-lookup key _ (f e) b.live.indexed.distinct there in
      (
        f e,
        l ∙ ap (λ p. refreshed now p (line e)) both.settings.policy,
        x,
        ap
              (λ a.
                entry_at a
                  (refresh_after_access now e.address (touch e.address (record_hit c))).items)
              (sym ((w e).0))
            ∙ found_at,
        becomes items' (Becomes-trans both b),
      )
