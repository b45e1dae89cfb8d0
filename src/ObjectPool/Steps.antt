-- ===== src/ObjectPool/Steps.antt =====
-- What holds of the objects in every state that a pool reaches.
use galay_utils.Prelude.{
  ℕ, zero, suc, ◌+◌, ◌%◌, ◌^◌, ◌≤◌, ◌<◌, ◌≡◌, ◌≢◌, refl, ap, arith, ◌||◌, List, [], ◌∷◌, ◌++◌,
  Option, none, some, length, length-append, ltb, ◌==◌, if◌then◌else◌, Bool-cases, inl, inr, ◌⊎◌,
  sub_size,
}
use galay_utils.ObjectPool.{
  ObjectPool, create, push_object, fill, init_pool, try_acquire_object, acquire, release, clear,
  shrink_loop, shrink,
}

-- How often an object stands in a list
unfoldable pub occurrences : ℕ → List ℕ → ℕ
occurrences k [] = 0
occurrences k (x ∷ xs) = let rest = occurrences k xs in if x == k then rest + 1 else rest

-- The list without one occurrence of the object
unfoldable pub without : ℕ → List ℕ → List ℕ
without k [] = []
without k (x ∷ xs) = let rest = without k xs in if x == k then xs else x ∷ rest

-- A pool, with the objects that its clients hold
pub record State : Type 0 where
  pub objects : ObjectPool
  pub lent : List ℕ

abbrev hand_out : List ℕ → ObjectPool × Option ℕ → State
hand_out lent (p, none) = record { objects = p; lent = lent }
hand_out lent (p, some k) = record { objects = p; lent = k ∷ lent }

-- What a client can do; only an object that it holds goes back.
pub data Step : State → State → Type 0 where
  acquired :
      (p : ObjectPool) (lent : List ℕ)
      → Step
          (record { objects = p; lent = lent })
          (record { objects = (acquire p).0; lent = (acquire p).1 ∷ lent })
  tried :
      (p : ObjectPool) (lent : List ℕ)
      → Step (record { objects = p; lent = lent }) (hand_out lent (try_acquire_object p))
  released :
      (k : ℕ) (p : ObjectPool) (lent : List ℕ)
      → 0 < occurrences k lent
      → Step
          (record { objects = p; lent = lent })
          (record { objects = release k p; lent = without k lent })
  cleared :
      (p : ObjectPool) (lent : List ℕ)
      → Step (record { objects = p; lent = lent }) (record { objects = clear p; lent = lent })
  shrunk :
      (n : ℕ) (p : ObjectPool) (lent : List ℕ)
      → Step (record { objects = p; lent = lent }) (record { objects = shrink n p; lent = lent })

pub data Steps : State → State → Type 0 where
  stop : (s : State) → Steps s s
  and_then : (s t u : State) → Step s t → Steps t u → Steps s u

-- Every object that was created is in the pool, with a client, or destroyed, and only once; the
-- counter is the length of the pool, which is within its bound.
pub record IsValid (s : State) : Type 0 where
  pub once :
      (k : ℕ)
      → occurrences k s.objects.pool + occurrences k s.lent + occurrences k s.objects.destroyed
        ≡ (if ltb k s.objects.next_object then 1 else 0)
  pub counted : s.objects.pool_size ≡ length s.objects.pool % 2 ^ 64
  pub bounded : s.objects.max_size ≢ 0 → length s.objects.pool ≤ s.objects.max_size

occurrences-append :
    (k : ℕ) (xs ys : List ℕ) → occurrences k (xs ++ ys) ≡ occurrences k xs + occurrences k ys
unfolding occurrences
occurrences-append k [] ys = omega arith
occurrences-append k (x ∷ xs) ys = ground (arith, occurrences-append k xs ys)

occurrences-snoc :
    (k j : ℕ) (xs : List ℕ)
    → occurrences k (xs ++ (j ∷ [])) ≡ occurrences k xs + (if j == k then 1 else 0)
unfolding occurrences
occurrences-snoc k j xs = ground (arith, occurrences-append k xs (j ∷ []))

occurrences-without :
    (k j : ℕ) (xs : List ℕ)
    → 0 < occurrences j xs
    → occurrences k (without j xs) + (if j == k then 1 else 0) ≡ occurrences k xs
unfolding occurrences without
occurrences-without k j [] h = ground arith
occurrences-without k j (x ∷ xs) h = ground (arith, occurrences-without k j xs)

clear-IsValid :
    (p : ObjectPool) (lent : List ℕ)
    → IsValid (record { objects = p; lent = lent })
    → IsValid (record { objects = clear p; lent = lent })
unfolding clear occurrences
clear-IsValid p lent v = record {
  once = λ k. omega (arith, v.once k, occurrences-append k p.destroyed p.pool);
  counted = omega arith;
  bounded = λ h. omega arith;
}

release-IsValid :
    (j : ℕ) (p : ObjectPool) (lent : List ℕ)
    → 0 < occurrences j lent
    → IsValid (record { objects = p; lent = lent })
    → IsValid (record { objects = release j p; lent = without j lent })
unfolding release push_object occurrences
release-IsValid j p lent h v =
    elim (Bool-cases (p.max_size == 0 || ltb (length p.pool) p.max_size)) [
      | inl q ↦ rw q (record {
        once = λ k.
            omega (arith, v.once k, occurrences-snoc k j p.pool, occurrences-without k j lent h);
        counted = omega (arith, v.counted, length-append p.pool (j ∷ []));
        bounded = λ d. ground (arith, q, d, length-append p.pool (j ∷ []));
      })
      | inr q ↦ rw q (record {
        once = λ k.
            omega
              (arith, v.once k, occurrences-snoc k j p.destroyed, occurrences-without k j lent h);
        counted = v.counted;
        bounded = v.bounded;
      })
    ]

pool-cases : (pool : List ℕ) → (pool ≡ []) ⊎ ((j : ℕ) × (rest : List ℕ) × (pool ≡ j ∷ rest))
pool-cases [] = inl refl
pool-cases (j ∷ rest) = inr (j, rest, refl)

create-IsValid :
    (p : ObjectPool) (lent : List ℕ)
    → IsValid (record { objects = p; lent = lent })
    → IsValid (record { objects = (create p).0; lent = (create p).1 ∷ lent })
unfolding create occurrences
create-IsValid p lent v = record {
  once = λ k. ground (arith, v.once k);
  counted = v.counted;
  bounded = v.bounded;
}

-- The first object of the pool goes to a client.
take_first-IsValid :
    (p : ObjectPool) (lent : List ℕ) (j : ℕ) (pool : List ℕ)
    → p.pool ≡ j ∷ pool
    → IsValid (record { objects = p; lent = lent })
    → IsValid (record {
      objects = record p { pool = pool; pool_size = sub_size p.pool_size 1 };
      lent = j ∷ lent;
    })
unfolding occurrences
take_first-IsValid p lent j pool e v = record {
  once = λ k. ground (arith, v.once k, ap (occurrences k) e);
  counted = omega (arith, v.counted, ap length e);
  bounded = λ d. omega (arith, v.bounded d, ap length e);
}

acquire-IsValid :
    (p : ObjectPool) (lent : List ℕ)
    → IsValid (record { objects = p; lent = lent })
    → IsValid (record { objects = (acquire p).0; lent = (acquire p).1 ∷ lent })
unfolding acquire
acquire-IsValid p lent v = elim (pool-cases p.pool) [
  | inl e ↦ rw (acquire, e) (create-IsValid p lent v)
  | inr (j, pool, e) ↦ rw (acquire, e) (take_first-IsValid p lent j pool e v)
]

try_acquire_object-IsValid :
    (p : ObjectPool) (lent : List ℕ)
    → IsValid (record { objects = p; lent = lent })
    → IsValid (hand_out lent (try_acquire_object p))
unfolding try_acquire_object
try_acquire_object-IsValid p lent v = elim (pool-cases p.pool) [
  | inl e ↦ rw (try_acquire_object, e) v
  | inr (j, pool, e) ↦ rw (try_acquire_object, e) (take_first-IsValid p lent j pool e v)
]

-- The first object of the pool is destroyed.
destroy_first-IsValid :
    (p : ObjectPool) (lent : List ℕ) (j : ℕ) (pool : List ℕ)
    → IsValid (record { objects = record p { pool = j ∷ pool }; lent = lent })
    → IsValid (record {
      objects = record p {
        pool = pool;
        pool_size = sub_size p.pool_size 1;
        destroyed = p.destroyed ++ (j ∷ []);
      };
      lent = lent;
    })
unfolding occurrences
destroy_first-IsValid p lent j pool v = record {
  once = λ k. ground (arith, v.once k, occurrences-snoc k j p.destroyed);
  counted = omega (arith, v.counted);
  bounded = λ d. omega (arith, v.bounded d);
}

shrink_loop-IsValid :
    (n : ℕ) (pool : List ℕ) (p : ObjectPool) (lent : List ℕ)
    → IsValid (record { objects = record p { pool = pool }; lent = lent })
    → IsValid (record { objects = shrink_loop n pool p; lent = lent })
unfolding shrink_loop
shrink_loop-IsValid n [] p lent v = v
shrink_loop-IsValid n (j ∷ pool) p lent v = elim (Bool-cases (ltb n (length (j ∷ pool)))) [
  | inr q ↦ rw (shrink_loop, q) v
  | inl q ↦
      rw (shrink_loop, q)
        (shrink_loop-IsValid n pool
          (record p { destroyed = p.destroyed ++ (j ∷ []); pool_size = sub_size p.pool_size 1 })
          lent (destroy_first-IsValid p lent j pool v))
]

step-IsValid : {s t : State} → Step s t → IsValid s → IsValid t
unfolding shrink
step-IsValid (Step.acquired p lent) v = acquire-IsValid p lent v
step-IsValid (Step.tried p lent) v = try_acquire_object-IsValid p lent v
step-IsValid (Step.released k p lent h) v = release-IsValid k p lent h v
step-IsValid (Step.cleared p lent) v = clear-IsValid p lent v
step-IsValid (Step.shrunk n p lent) v = shrink_loop-IsValid n p.pool p lent v

Steps-IsValid : {s t : State} → Steps s t → IsValid s → IsValid t
Steps-IsValid (Steps.stop s) v = v
Steps-IsValid (Steps.and_then s t u x more) v = Steps-IsValid more (step-IsValid x v)

fill-IsValid :
    (n : ℕ) (p : ObjectPool)
    → IsValid (record { objects = p; lent = [] })
    → (p.max_size ≢ 0 → length p.pool + n ≤ p.max_size)
    → IsValid (record { objects = fill n p; lent = [] })
unfolding fill create push_object occurrences
fill-IsValid zero p v h = v
fill-IsValid (suc n) p v h =
    let j = p.next_object in
    let q : ObjectPool = push_object j (create p).0 in
    let longer = length-append p.pool (j ∷ []) in
    let w : IsValid (record { objects = q; lent = [] }) = record {
      once = λ k. ground (arith, v.once k, occurrences-snoc k j p.pool);
      counted = omega (arith, v.counted, longer);
      bounded = λ d. omega (arith, h d, longer);
    } in
    fill-IsValid n q w (λ d. omega (arith, h d, longer))

-- A pool whose initial size is within its bound keeps this for ever, whatever is acquired, released,
-- cleared and shrunk in whatever order: each created object is either in the pool, or with one client,
-- or destroyed, and that once; the counter of the pool is its length; and the pool is within its
-- bound, if it has one.
pub pool_lem :
    (initial_size max_size : ℕ) {s : State}
    → (max_size ≢ 0 → initial_size ≤ max_size)
    → Steps (record { objects = init_pool initial_size max_size; lent = [] }) s
    → IsValid s
unfolding init_pool occurrences
pool_lem initial_size max_size h steps = Steps-IsValid steps (
    fill-IsValid initial_size _
      (record { once = λ k. ground arith; counted = omega arith; bounded = λ d. omega arith })
      (λ d. omega (arith, h d)))
