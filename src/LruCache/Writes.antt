-- ===== src/LruCache/Writes.antt =====
-- What the writes through an iterator make of the entries.
use mathlib.Core.Path.{subst}
use galay_utils.Prelude.{
  ℕ, ◌+◌, ◌<◌, ◌≡◌, refl, ap, sym, ◌∙◌, arith, true, List, [], ◌∷◌, Option, none, some, All, ◌==◌,
  if◌then◌else◌, Bool-cases, Option-cases, inl, inr,
}
use galay_utils.LruCache.{
  Entry, ExpireNode, Expiration, LruCache, find_index, entry_at, push, next_version_of,
  update_expiration, touch, set_value, add_front,
}
use galay_utils.LruCache.Nodes.{
  lookup, locate, erase_key, update_key, Distinct, IsWrite, entry_at-lookup, update_at-lookup,
  splice-lookup, lookup-key, lookup-erase_key, lookup-update_key, update_key-Distinct,
  erase_key-Distinct, entry_at-erased,
}
use galay_utils.LruCache.Queue.{covered, node_of, Ascending, push-Ascending, holds-push}
use galay_utils.LruCache.Valid.{Indexed, Live, Becomes, All-erase_key}

module _ {V : Type 0} where
  All-update_key :
      (P Q : Entry V → Type 0) (f : Entry V → Entry V) (key : ℕ) (items : List (Entry V))
      → ((e : Entry V) → P e → Q e)
      → ((e : Entry V) → e.key ≡ key → P e → Q (f e))
      → All P items
      → All Q (update_key key f items)
  unfolding update_key
  All-update_key P Q f key [] g h a = tt
  All-update_key P Q f key (e ∷ items) g h (p, a) = elim (Bool-cases (e.key == key)) [
    | inl q ↦ rw q (h e (ground arith) p, All-weaken items a)
    | inr q ↦ rw q (g e p, All-update_key P Q f key items g h a)
  ]
    where
      All-weaken : (l : List (Entry V)) → All P l → All Q l
      All-weaken [] a = tt
      All-weaken (e ∷ l) (p, a) = (g e p, All-weaken l a)

  -- A write that keeps address and key keeps the index right.
  update-Indexed :
      (key : ℕ) (f : Entry V → Entry V) {c c' : LruCache V}
      → IsWrite f
      → Indexed c
      → c'.items ≡ update_key key f c.items
      → c'.index ≡ c.index
      → c'.next_address ≡ c.next_address
      → Indexed c'
  unfolding locate
  update-Indexed key f {c} {c'} w v i x n = record {
    distinct = rw i (update_key-Distinct f key c.items w v.distinct);
    fresh =
        rw (i, n) (All-update_key _ _ f key c.items (λ e p. p) (λ e k p. rw ((w e).0) p) v.fresh);
    agree = λ j.
        rw (x, v.agree j, i, locate, lookup-update_key f j key c.items w)
          (located j (lookup j c.items));
  }
    where
      located :
          (j : ℕ) (o : Option (Entry V))
          → elim o [ none ↦ none | some e ↦ some e.address ]
            ≡ elim (if key == j then (elim o [ none ↦ none | some e ↦ some (f e) ]) else o) [
              | none ↦ none
              | some e ↦ some e.address
            ]
      located j none = ground arith
      located j (some e) = ground (arith, w e)

  pub set_value-Becomes :
      (key : ℕ) (value : V) {c : LruCache V} (e : Entry V)
      → Live c
      → lookup key c.items ≡ some e
      → Becomes
          (update_key key (λ e. record e { value = value }) c.items)
          c
          (set_value e.address value c)
  unfolding set_value
  set_value-Becomes key value {c} e v h =
      let same =
        update_at-lookup key (λ e. record e { value = value }) c.items e v.indexed.distinct h in
      record {
        live = record {
          indexed =
              update-Indexed key (λ e. record e { value = value }) (λ _. (refl, refl)) v.indexed
                same refl refl;
          queued = rw same (All-update_key _ _ _ key c.items (λ _ p. p) (λ _ _ p. p) v.queued);
          sorted = v.sorted;
        };
        same = same;
        settings = record { limit = refl; default_ttl = refl; policy = refl };
      }

  -- The entry that `updateExpiration` writes.
  abbrev pub renewed : Expiration → LruCache V → Entry V → Entry V
  renewed x c e = record e { expires_at = x.expires_at; ttl = x.ttl; version = next_version_of c }

  covered-push :
      (m : ExpireNode) (nodes : List ExpireNode) (e : Entry V)
      → covered nodes e ≡ true
      → covered (push m nodes) e ≡ true
  covered-push m nodes e h = elim (Option-cases e.expires_at) [
    | inl p ↦ rw p refl
    | inr (t, p) ↦ ground (arith, p, holds-push (node_of e t) m nodes)
  ]

  pub update_expiration-Becomes :
      (key : ℕ) (x : Expiration) {c : LruCache V} (e : Entry V)
      → Live c
      → lookup key c.items ≡ some e
      → Becomes (update_key key (renewed x c) c.items) c (update_expiration e.address x c)
  unfolding update_expiration
  update_expiration-Becomes key x {c} e v h =
      let f = renewed x c in
      let same = update_at-lookup key f c.items e v.indexed.distinct h in
      let at = entry_at-lookup key c.items e v.indexed.distinct h in
      let right : Indexed (update_expiration e.address x c) =
        update-Indexed key f (λ _. (refl, refl)) v.indexed same refl refl in
      elim (Option-cases x.expires_at) [
        | inl p ↦
            let queue : (update_expiration e.address x c).expirations ≡ c.expirations = rw p refl in
            record {
              live = record {
                indexed = right;
                queued = rw same (
                    subst (λ q. All (λ g. covered q g ≡ true) (update_key key f c.items))
                      (sym queue)
                      (All-update_key _ _ f key c.items (λ _ q. q) (λ _ _ q. rw p refl) v.queued));
                sorted = subst (Ascending 0) (sym queue) v.sorted;
              };
              same = same;
              settings = record { limit = refl; default_ttl = refl; policy = refl };
            }
        | inr (t, p) ↦
            let node : ExpireNode = record {
              expires_at = t;
              key = e.key;
              version = next_version_of c;
            } in
            let queue : (update_expiration e.address x c).expirations ≡ push node c.expirations =
              rw (p, at) refl in
            record {
              live = record {
                indexed = right;
                queued = rw same (
                    subst (λ q. All (λ g. covered q g ≡ true) (update_key key f c.items))
                      (sym queue)
                      (All-update_key _ _ f key c.items (λ g q. covered-push node c.expirations g q)
                        (λ g k q. rw p (
                          holds-push _ node c.expirations
                          ∙ ground (arith, k, lookup-key key c.items e h)))
                        v.queued));
                sorted =
                    subst (Ascending 0) (sym queue)
                      (push-Ascending 0 node c.expirations (omega arith) v.sorted);
              };
              same = same;
              settings = record { limit = refl; default_ttl = refl; policy = refl };
            }
      ]

  All-lookup :
      (P : Entry V → Type 0) (key : ℕ) (items : List (Entry V)) (e : Entry V)
      → lookup key items ≡ some e
      → All P items
      → P e
  unfolding lookup
  All-lookup P key [] e h a = ground arith
  All-lookup P key (f ∷ items) e h (p, a) = elim (Bool-cases (f.key == key)) [
    | inl q ↦ let same : f ≡ e = ground arith in rw⁻¹ same p
    | inr q ↦ All-lookup P key items e (ground arith) a
  ]

  locate-front :
      (j key : ℕ) (items : List (Entry V)) (e : Entry V)
      → Distinct items
      → lookup key items ≡ some e
      → locate j items ≡ locate j (e ∷ erase_key key items)
  unfolding locate lookup
  locate-front j key items e d h = elim (Bool-cases (key == j)) [
    | inl p ↦
        let same : key ≡ j = ground arith in
        ground (arith, lookup-key key items e h, ap (λ j. lookup j items) same)
    | inr p ↦ ground (arith, lookup-key key items e h, lookup-erase_key j key items d)
  ]

  pub touch-Becomes :
      (key : ℕ) {c : LruCache V} (e : Entry V)
      → Live c
      → lookup key c.items ≡ some e
      → Becomes (e ∷ erase_key key c.items) c (touch e.address c)
  unfolding touch
  touch-Becomes key {c} e v h =
      let same = splice-lookup key c.items e v.indexed.distinct h in
      let k = lookup-key key c.items e h in
      let d = v.indexed.distinct in
      record {
        live = record {
          indexed = record {
            distinct = rw same (
              entry_at-erased key c.items e d h,
              lookup-erase_key e.key key c.items d ∙ ground (arith, k),
              erase_key-Distinct key c.items d,
            );
            fresh = rw same (
              All-lookup _ key c.items e h v.indexed.fresh,
              All-erase_key _ key c.items v.indexed.fresh,
            );
            agree = λ j. v.indexed.agree j ∙ rw same (locate-front j key c.items e d h);
          };
          queued =
              rw same (All-lookup _ key c.items e h v.queued, All-erase_key _ key c.items v.queued);
          sorted = v.sorted;
        };
        same = same;
        settings = record { limit = refl; default_ttl = refl; policy = refl };
      }

  fresh-none :
      (address : ℕ) (items : List (Entry V))
      → All (λ e. e.address < address) items
      → entry_at address items ≡ none
  unfolding entry_at
  fresh-none address [] h = refl
  fresh-none address (e ∷ items) (p, h) = ground (arith, fresh-none address items h)

  All-lower :
      (n : ℕ) (items : List (Entry V))
      → All (λ e. e.address < n) items
      → All (λ e. e.address < n + 1) items
  All-lower n [] h = tt
  All-lower n (e ∷ items) (p, h) = (omega arith, All-lower n items h)

  abbrev pub added : ℕ → V → LruCache V → Entry V
  added key value c = record {
    address = c.next_address;
    key = key;
    value = value;
    expires_at = none;
    ttl = none;
    version = next_version_of c;
  }

  pub add_front-Becomes :
      (key : ℕ) (value : V) {c : LruCache V}
      → Live c
      → lookup key c.items ≡ none
      → Becomes (added key value c ∷ c.items) c (add_front key value c)
  unfolding add_front find_index locate lookup
  add_front-Becomes key value {c} v h = record {
    live = record {
      indexed = record {
        distinct = (fresh-none c.next_address c.items v.indexed.fresh, h, v.indexed.distinct);
        fresh = (omega arith, All-lower c.next_address c.items v.indexed.fresh);
        agree = λ j. ground (arith, v.indexed.agree j);
      };
      queued = (refl, v.queued);
      sorted = v.sorted;
    };
    same = refl;
    settings = record { limit = refl; default_ttl = refl; policy = refl };
  }
