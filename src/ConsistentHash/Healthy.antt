-- ===== src/ConsistentHash/Healthy.antt =====
-- Which node the search for a healthy one gives.
use galay_utils.Prelude.{
  ℕ, zero, suc, ◌-◌, ◌≡◌, refl, sym, ap, ◌∙◌, arith, List, [], ◌∷◌, ◌++◌, append-nil, Option, none,
  some, length, Option-cases, inl, inr, get_elem?, take, if◌then◌else◌, dec_le, take_whole,
}
use galay_utils.ConsistentHash.{
  NodeConfig, PhysicalNode, ConsistentHash, get_healthy_node, try_healthy,
}
use galay_utils.ConsistentHash.Clockwise.{IsSorted, from, below, clockwise, sorted_split}

abbrev or_else : Option NodeConfig → Option NodeConfig → Option NodeConfig
or_else none later = later
or_else (some x) later = some x

-- What an entry gives: its node, if that is healthy
unfoldable pub healthy_at : List PhysicalNode → ℕ × ℕ → Option NodeConfig
healthy_at store (_, place) = elim (get_elem? store place) [
  | none ↦ none
  | some n ↦ if n.status.healthy then some n.config else none
]

unfoldable pub first_healthy : List PhysicalNode → List (ℕ × ℕ) → Option NodeConfig
first_healthy store [] = none
first_healthy store (e ∷ ring) = or_else (healthy_at store e) (first_healthy store ring)

or_else_assoc : (a b c : Option NodeConfig) → or_else (or_else a b) c ≡ or_else a (or_else b c)
or_else_assoc none b c = refl
or_else_assoc (some x) b c = refl

or_else-none : (a : Option NodeConfig) → or_else a none ≡ a
or_else-none none = refl
or_else-none (some x) = refl

or_else_empty : (a b : Option NodeConfig) → or_else a b ≡ none → (a ≡ none) × (b ≡ none)
or_else_empty none b e = (refl, e)
or_else_empty (some x) b e = absurd (ground arith)

first_healthy-append :
    (store : List PhysicalNode) (xs ys : List (ℕ × ℕ))
    → first_healthy store (xs ++ ys) ≡ or_else (first_healthy store xs) (first_healthy store ys)
unfolding first_healthy
first_healthy-append store [] ys = refl
first_healthy-append store (e ∷ xs) ys =
    ap (or_else (healthy_at store e)) (first_healthy-append store xs ys)
    ∙ sym (or_else_assoc (healthy_at store e) (first_healthy store xs) (first_healthy store ys))

first_healthy-take :
    (store : List PhysicalNode) (n : ℕ) (xs ys : List (ℕ × ℕ))
    → first_healthy store (take n (xs ++ ys))
      ≡ or_else (first_healthy store (take n xs)) (first_healthy store (take (n - length xs) ys))
unfolding first_healthy
first_healthy-take store zero xs ys =
    let none_left : 0 ≡ 0 - length xs = omega arith in
    ap (λ n. first_healthy store (take n ys)) none_left
first_healthy-take store (suc n) [] ys =
    let all_left : suc n ≡ suc n - 0 = omega arith in
    ap (λ m. first_healthy store (take m ys)) all_left
first_healthy-take store (suc n) (e ∷ xs) ys =
    let same : n - length xs ≡ suc n - length (e ∷ xs) = omega arith in
    ap (or_else (healthy_at store e)) (first_healthy-take store n xs ys)
    ∙ sym (
        or_else_assoc (healthy_at store e) (first_healthy store (take n xs))
          (first_healthy store (take (n - length xs) ys)))
    ∙ ap
        (λ m.
          or_else (first_healthy store (take (suc n) (e ∷ xs))) (first_healthy store (take m ys)))
        same

module _ (hash_func : List ℕ → ℕ) (c : ConsistentHash) where
  abbrev tried : ℕ → List (ℕ × ℕ) → Option NodeConfig
  tried left it = (try_healthy hash_func left it c).1

  tried-zero : (it : List (ℕ × ℕ)) → tried 0 it ≡ none
  unfolding try_healthy
  tried-zero it = refl

  tried-cons :
      (left : ℕ) (e : ℕ × ℕ) (it : List (ℕ × ℕ))
      → tried (suc left) (e ∷ it) ≡ or_else (healthy_at c.store e) (tried left it)
  unfolding try_healthy healthy_at
  tried-cons left (h, place) it = elim (Option-cases (get_elem? c.store place)) [
    | inl q ↦ ground (arith, q)
    | inr (n, q) ↦ ground (arith, q)
  ]

  -- At its end the search goes on at the beginning.
  tried-wrap : (left : ℕ) → tried left [] ≡ tried left c.ring
  unfolding try_healthy
  tried-wrap zero = refl
  tried-wrap (suc left) = same c.ring refl
    where
      same : (ring : List (ℕ × ℕ)) → c.ring ≡ ring → tried (suc left) [] ≡ tried (suc left) c.ring
      same [] q = rw (try_healthy, q) refl
      same (e ∷ ring) q = rw (try_healthy, q) refl

  tried-append :
      (left : ℕ) (xs ys : List (ℕ × ℕ))
      → tried left (xs ++ ys)
        ≡ or_else (first_healthy c.store (take left xs)) (tried (left - length xs) ys)
  unfolding first_healthy
  tried-append zero xs ys =
      let none_left : 0 ≡ 0 - length xs = omega arith in
      tried-zero (xs ++ ys) ∙ sym (tried-zero ys) ∙ ap (λ n. tried n ys) none_left
  tried-append (suc left) [] ys =
      let all_left : suc left ≡ suc left - 0 = omega arith in ap (λ n. tried n ys) all_left
  tried-append (suc left) (e ∷ xs) ys =
      let same : left - length xs ≡ suc left - length (e ∷ xs) = omega arith in
      tried-cons left e (xs ++ ys)
      ∙ ap (or_else (healthy_at c.store e)) (tried-append left xs ys)
      ∙ sym (
          or_else_assoc (healthy_at c.store e) (first_healthy c.store (take left xs))
            (tried (left - length xs) ys))
      ∙ ap (λ n. or_else (first_healthy c.store (take (suc left) (e ∷ xs))) (tried n ys)) same

  around :
      (left : ℕ)
      → ((it : List (ℕ × ℕ)) → first_healthy c.store it ≡ none → tried left it ≡ none)
      → (ring : List (ℕ × ℕ)) → c.ring ≡ ring
      → first_healthy c.store ring ≡ none
      → tried (suc left) ring ≡ none
  unfolding first_healthy try_healthy
  around left later [] q n = rw (try_healthy, q) refl
  around left later (e ∷ it) q n =
      let (here, rest) = or_else_empty (healthy_at c.store e) (first_healthy c.store it) n in
      tried-cons left e it ∙ rw here (later it rest)

  -- With no healthy node on the ring, the search finds none, however often it goes round.
  tried-none :
      (left : ℕ) (it : List (ℕ × ℕ))
      → first_healthy c.store c.ring ≡ none
      → first_healthy c.store it ≡ none
      → tried left it ≡ none
  unfolding first_healthy
  tried-none zero it h n = tried-zero it
  tried-none (suc left) [] h n =
      tried-wrap (suc left) ∙ around left (λ it. tried-none left it h) c.ring refl h
  tried-none (suc left) (e ∷ it) h n =
      let (here, rest) = or_else_empty (healthy_at c.store e) (first_healthy c.store it) n in
      tried-cons left e it ∙ rw here (tried-none left it h rest)

  -- After what stood at or above the hash, the search goes on with what stands below it.
  tried_again :
      (left : ℕ) (lo hi : List (ℕ × ℕ))
      → lo ++ hi ≡ c.ring
      → first_healthy c.store hi ≡ none
      → tried left [] ≡ first_healthy c.store (take left lo)
  tried_again left lo hi q n =
      tried-wrap left ∙ ap (tried left) (sym q) ∙ tried-append left lo hi ∙ rest
    where
      rest :
          or_else (first_healthy c.store (take left lo)) (tried (left - length lo) hi)
          ≡ first_healthy c.store (take left lo)
      rest = elim (dec_le (length lo) left) [
        | no short ↦
            let over : left - length lo ≡ 0 = omega arith in
            ap (λ m. or_else (first_healthy c.store (take left lo)) (tried m hi)) over
            ∙ ap (or_else (first_healthy c.store (take left lo))) (tried-zero hi)
            ∙ or_else-none (first_healthy c.store (take left lo))
        | yes all ↦ elim (Option-cases (first_healthy c.store lo)) [
          | inr (x, r) ↦ rw (take_whole left lo all, r) refl
          | inl r ↦
              let nothing : first_healthy c.store c.ring ≡ none =
                ap (first_healthy c.store) (sym q) ∙ first_healthy-append c.store lo hi ∙ rw r n in
              rw (take_whole left lo all, r) (tried-none (left - length lo) hi nothing n)
        ]
      ]

  -- On a ring whose hashes ascend, the search for a healthy node gives the first healthy one among
  -- as many points as there are tries, from the hash of the key on and then from the start of the
  -- ring up to that hash again, and nothing if none of them is healthy.
  pub healthy_lem :
      (key : List ℕ) (max_retries : ℕ)
      → IsSorted c.ring
      → (get_healthy_node hash_func key max_retries c).1
        ≡ first_healthy c.store (take max_retries (clockwise (hash_func key) c.ring))
  unfolding get_healthy_node first_healthy
  healthy_lem key n s =
      let k = hash_func key in
      let hi = from k c.ring in
      let lo = below k c.ring in
      let (start, whole) = sorted_split k c.ring s in
      ap (tried n) (start ∙ sym (append-nil hi))
      ∙ tried-append n hi []
      ∙ last
      ∙ sym (first_healthy-take c.store n hi lo)
    where
      last :
          let hi = from (hash_func key) c.ring in
          or_else (first_healthy c.store (take n hi)) (tried (n - length hi) [])
          ≡ or_else
              (first_healthy c.store (take n hi))
              (first_healthy c.store (take (n - length hi) (below (hash_func key) c.ring)))
      last =
          let hi = from (hash_func key) c.ring in
          let lo = below (hash_func key) c.ring in
          let whole = (sorted_split (hash_func key) c.ring s).1 in
          let found = first_healthy c.store (take n hi) in
          elim (dec_le (length hi) n) [
            | no short ↦
                let over : n - length hi ≡ 0 = omega arith in
                ap (λ m. or_else found (tried m [])) over
                ∙ ap (or_else found) (tried-zero [])
                ∙ ap (λ m. or_else found (first_healthy c.store (take m lo))) (sym over)
            | yes all ↦ elim (Option-cases (first_healthy c.store hi)) [
              | inr (x, r) ↦ rw (take_whole n hi all, r) refl
              | inl r ↦ ap (or_else found) (tried_again (n - length hi) lo hi whole r)
            ]
          ]
