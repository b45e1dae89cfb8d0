-- ===== src/ObjectPool.antt =====
-- galay-utils/tool/pool.hpp: `ObjectPool`. An object is the number of its creation. The creator makes
-- a new object at every call, and the objects passed to the destroyer are kept as a list. Each method
-- is one step: the part of `acquire` outside the lock touches only the new object and a counter.
mod Steps
mod Tests
use galay_utils.Prelude.{
  ℕ, zero, suc, ◌+◌, ◌%◌, ◌^◌, Bool, true, false, ◌||◌, List, [], ◌∷◌, ◌++◌, Option, none, some,
  length, ltb, ◌==◌, if◌then◌else◌, add_size, sub_size,
}

pub record ObjectPool : Type 0 where
  pub pool : List ℕ
  pub max_size : ℕ
  pub total_created : ℕ
  pub pool_size : ℕ
  pub next_object : ℕ
  pub destroyed : List ℕ

-- `obj = m_creator(); ++m_totalCreated`
pub create : ObjectPool → ObjectPool × ℕ
create p = (
  record p { total_created = add_size p.total_created 1; next_object = p.next_object + 1 },
  p.next_object,
)

pub push_object : ℕ → ObjectPool → ObjectPool
push_object object p = record p {
  pool = p.pool ++ (object ∷ []);
  pool_size = add_size p.pool_size 1;
}

-- The loop of the constructor
fill : ℕ → ObjectPool → ObjectPool
fill zero p = p
fill (suc left) p = let (q, object) = create p in fill left (push_object object q)

pub init_pool : ℕ → ℕ → ObjectPool
init_pool initial_size max_size = fill initial_size (record {
  pool = [];
  max_size = max_size;
  total_created = 0;
  pool_size = 0;
  next_object = 0;
  destroyed = [];
})

pub try_acquire_object : ObjectPool → ObjectPool × Option ℕ
try_acquire_object p = elim p.pool [
  | [] ↦ (p, none)
  | object ∷ pool ↦ (record p { pool = pool; pool_size = sub_size p.pool_size 1 }, some object)
]

pub acquire : ObjectPool → ObjectPool × ℕ
acquire p = elim p.pool [
  | [] ↦ create p
  | object ∷ pool ↦ (record p { pool = pool; pool_size = sub_size p.pool_size 1 }, object)
]

pub release : ℕ → ObjectPool → ObjectPool
release object p =
    if p.max_size == 0 || ltb (length p.pool) p.max_size
    then push_object object p
    else record p { destroyed = p.destroyed ++ (object ∷ []) }

pub clear : ObjectPool → ObjectPool
clear p = record p { destroyed = p.destroyed ++ p.pool; pool = []; pool_size = 0 }

-- The loop of `shrink`, over the objects of the pool
shrink_loop : ℕ → List ℕ → ObjectPool → ObjectPool
shrink_loop target_size [] p = record p { pool = [] }
shrink_loop target_size (object ∷ pool) p =
    let rest =
      shrink_loop target_size pool (record p {
        destroyed = p.destroyed ++ (object ∷ []);
        pool_size = sub_size p.pool_size 1;
      }) in
    if ltb target_size (length (object ∷ pool)) then rest else record p { pool = object ∷ pool }

pub shrink : ℕ → ObjectPool → ObjectPool
shrink target_size p = shrink_loop target_size p.pool p
