-- ===== src/LruCache/Nodes.antt =====
-- The list of entries, by address and by key.
use galay_utils.Prelude.{
  ℕ, ◌+◌, ◌≡◌, refl, ◌∙◌, arith, List, [], ◌∷◌, Option, none, some, length, ◌==◌, if◌then◌else◌,
  Bool-cases, inl, inr,
}
use galay_utils.LruCache.{Entry, entry_at, erase_at, update_at, splice, find_index, erase_index}

module _ {V : Type 0} where
  -- The entry of a key
  unfoldable pub lookup : ℕ → List (Entry V) → Option (Entry V)
  lookup key [] = none
  lookup key (e ∷ items) = let rest = lookup key items in if e.key == key then some e else rest

  unfoldable pub locate : ℕ → List (Entry V) → Option ℕ
  unfolding lookup
  locate key items = elim (lookup key items) [ none ↦ none | some e ↦ some e.address ]

  unfoldable pub erase_key : ℕ → List (Entry V) → List (Entry V)
  erase_key key [] = []
  erase_key key (e ∷ items) =
      let rest = erase_key key items in if e.key == key then items else e ∷ rest

  unfoldable pub update_key : ℕ → (Entry V → Entry V) → List (Entry V) → List (Entry V)
  update_key key f [] = []
  update_key key f (e ∷ items) =
      let rest = update_key key f items in if e.key == key then f e ∷ items else e ∷ rest

  -- No address and no key stands twice.
  abbrev pub Distinct : List (Entry V) → Type 0
  Distinct [] = Unit
  Distinct (e ∷ items) =
      (entry_at e.address items ≡ none) × (lookup e.key items ≡ none) × Distinct items

  pub lookup-key :
      (key : ℕ) (items : List (Entry V)) (e : Entry V) → lookup key items ≡ some e → e.key ≡ key
  unfolding lookup
  lookup-key key [] e h = ground arith
  lookup-key key (f ∷ items) e h = ground (arith, lookup-key key items e)

  pub entry_at-address :
      (address : ℕ) (items : List (Entry V)) (e : Entry V)
      → entry_at address items ≡ some e
      → e.address ≡ address
  unfolding entry_at
  entry_at-address address [] e h = ground arith
  entry_at-address address (f ∷ items) e h = ground (arith, entry_at-address address items e)

  pub entry_at-lookup :
      (key : ℕ) (items : List (Entry V)) (e : Entry V)
      → Distinct items
      → lookup key items ≡ some e
      → entry_at e.address items ≡ some e
  unfolding lookup entry_at
  entry_at-lookup key [] e d h = ground arith
  entry_at-lookup key (f ∷ items) e (a, k, d) h = ground (arith, entry_at-lookup key items e d)

  pub erase_at-lookup :
      (key : ℕ) (items : List (Entry V)) (e : Entry V)
      → Distinct items
      → lookup key items ≡ some e
      → erase_at e.address items ≡ erase_key key items
  unfolding lookup erase_at erase_key
  erase_at-lookup key [] e d h = ground arith
  erase_at-lookup key (f ∷ items) e (a, k, d) h =
      ground (arith, erase_at-lookup key items e d, entry_at-lookup key items e d)

  pub update_at-lookup :
      (key : ℕ) (f : Entry V → Entry V) (items : List (Entry V)) (e : Entry V)
      → Distinct items
      → lookup key items ≡ some e
      → update_at e.address f items ≡ update_key key f items
  unfolding lookup update_at update_key
  update_at-lookup key f [] e d h = ground arith
  update_at-lookup key f (g ∷ items) e (a, k, d) h =
      ground (arith, update_at-lookup key f items e d, entry_at-lookup key items e d)

  pub splice-lookup :
      (key : ℕ) (items : List (Entry V)) (e : Entry V)
      → Distinct items
      → lookup key items ≡ some e
      → splice e.address items ≡ e ∷ erase_key key items
  unfolding splice lookup erase_key
  splice-lookup key [] e d h = ground arith
  splice-lookup key (f ∷ items) e (a, k, d) h =
      ground (arith, erase_at-lookup key items e d, entry_at-lookup key items e d)

  pub lookup-erase_key :
      (j key : ℕ) (items : List (Entry V))
      → Distinct items
      → lookup j (erase_key key items) ≡ (if key == j then none else lookup j items)
  unfolding lookup erase_key
  lookup-erase_key j key [] d = ground arith
  lookup-erase_key j key (e ∷ items) (a, k, d) = ground (arith, lookup-erase_key j key items d)

  pub entry_at-erase_key :
      (address key : ℕ) (items : List (Entry V))
      → entry_at address items ≡ none
      → entry_at address (erase_key key items) ≡ none
  unfolding entry_at erase_key
  entry_at-erase_key address key [] h = refl
  entry_at-erase_key address key (e ∷ items) h =
      ground (arith, entry_at-erase_key address key items)

  pub entry_at-erased :
      (key : ℕ) (items : List (Entry V)) (e : Entry V)
      → Distinct items
      → lookup key items ≡ some e
      → entry_at e.address (erase_key key items) ≡ none
  unfolding entry_at lookup erase_key
  entry_at-erased key [] e d h = refl
  entry_at-erased key (f ∷ items) e (a, k, d) h =
      ground (arith, entry_at-erased key items e d, entry_at-lookup key items e d)

  pub erase_key-Distinct :
      (key : ℕ) (items : List (Entry V)) → Distinct items → Distinct (erase_key key items)
  unfolding erase_key
  erase_key-Distinct key [] d = tt
  erase_key-Distinct key (e ∷ items) (a, k, d) = elim (Bool-cases (e.key == key)) [
    | inl p ↦ rw p d
    | inr p ↦ rw p (
      entry_at-erase_key e.address key items a,
      lookup-erase_key e.key key items d ∙ ground (arith, k),
      erase_key-Distinct key items d,
    )
  ]

  pub length-erase_key :
      (key : ℕ) (items : List (Entry V)) (e : Entry V)
      → lookup key items ≡ some e
      → length (erase_key key items) + 1 ≡ length items
  unfolding lookup erase_key
  length-erase_key key [] e h = ground arith
  length-erase_key key (f ∷ items) e h = ground (arith, length-erase_key key items e)

pub find_index-erase_index :
    (j key : ℕ) (index : List (ℕ × ℕ))
    → find_index j (erase_index key index) ≡ (if key == j then none else find_index j index)
unfolding find_index erase_index
find_index-erase_index j key [] = ground arith
find_index-erase_index j key ((k, a) ∷ index) = ground (arith, find_index-erase_index j key index)

module _ {V : Type 0} where
  -- A write that keeps the address and the key.
  abbrev pub IsWrite : (Entry V → Entry V) → Type 0
  IsWrite f = (e : Entry V) → ((f e).address ≡ e.address) × ((f e).key ≡ e.key)

  pub entry_at-update_key :
      (f : Entry V → Entry V) (address key : ℕ) (items : List (Entry V))
      → IsWrite f
      → entry_at address items ≡ none
      → entry_at address (update_key key f items) ≡ none
  unfolding entry_at update_key
  entry_at-update_key f address key [] w h = refl
  entry_at-update_key f address key (e ∷ items) w h =
      ground (arith, w e, entry_at-update_key f address key items w)

  pub lookup-update_key :
      (f : Entry V → Entry V) (j key : ℕ) (items : List (Entry V))
      → IsWrite f
      → lookup j (update_key key f items) ≡ (
          if key == j
          then (elim (lookup j items) [ none ↦ none | some e ↦ some (f e) ])
          else lookup j items)
  unfolding lookup update_key
  lookup-update_key f j key [] w = ground arith
  lookup-update_key f j key (e ∷ items) w = ground (arith, w e, lookup-update_key f j key items w)

  pub update_key-Distinct :
      (f : Entry V → Entry V) (key : ℕ) (items : List (Entry V))
      → IsWrite f
      → Distinct items
      → Distinct (update_key key f items)
  unfolding update_key
  update_key-Distinct f key [] w d = tt
  update_key-Distinct f key (e ∷ items) w (a, k, d) = elim (Bool-cases (e.key == key)) [
    | inl p ↦ rw p (rw ((w e).0, (w e).1) (a, k, d))
    | inr p ↦ rw p (
      entry_at-update_key f e.address key items w a,
      lookup-update_key f e.key key items w ∙ ground (arith, k),
      update_key-Distinct f key items w d,
    )
  ]
