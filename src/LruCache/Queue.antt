-- ===== src/LruCache/Queue.antt =====
-- The queue of expirations.
use galay_utils.Prelude.{
  ℕ, ◌≤◌, ◌≡◌, refl, arith, Bool, true, false, ◌&&◌, ◌||◌, List, [], ◌∷◌, none, some, ◌==◌, ltb,
  Bool-cases, inl, inr,
}
use galay_utils.LruCache.{Entry, ExpireNode, push}

abbrev pub same_node : ExpireNode → ExpireNode → Bool
same_node m n = m.expires_at == n.expires_at && (m.key == n.key && m.version == n.version)

unfoldable pub holds : ExpireNode → List ExpireNode → Bool
holds m [] = false
holds m (n ∷ nodes) = same_node m n || holds m nodes

-- The times ascend from `from` on.
abbrev pub Ascending : ℕ → List ExpireNode → Type 0
Ascending from [] = Unit
Ascending from (n ∷ nodes) = (from ≤ n.expires_at) × Ascending n.expires_at nodes

pub holds-push :
    (m n : ExpireNode) (nodes : List ExpireNode)
    → holds m (push n nodes) ≡ (same_node m n || holds m nodes)
unfolding holds push
holds-push m n [] = refl
holds-push m n (k ∷ nodes) = ground (arith, holds-push m n nodes)

pub push-Ascending :
    (from : ℕ) (n : ExpireNode) (nodes : List ExpireNode)
    → from ≤ n.expires_at
    → Ascending from nodes
    → Ascending from (push n nodes)
unfolding push
push-Ascending from n [] p h = (p, tt)
push-Ascending from n (k ∷ nodes) p (q, h) = elim (Bool-cases (ltb n.expires_at k.expires_at)) [
  | inl e ↦ rw e (p, (ground arith, h))
  | inr e ↦ rw e (q, push-Ascending k.expires_at n nodes (ground arith) h)
]

pub Ascending-later :
    (from : ℕ) (m : ExpireNode) (nodes : List ExpireNode)
    → Ascending from nodes
    → holds m nodes ≡ true
    → from ≤ m.expires_at
unfolding holds
Ascending-later from m [] a h = ground arith
Ascending-later from m (n ∷ nodes) (p, a) h = ground (arith, Ascending-later n.expires_at m nodes a)

module _ {V : Type 0} where
  abbrev pub node_of : Entry V → ℕ → ExpireNode
  node_of e t = record { expires_at = t; key = e.key; version = e.version }

  -- An entry that expires stands in the queue.
  abbrev pub covered : List ExpireNode → Entry V → Bool
  covered nodes e = elim e.expires_at [ none ↦ true | some t ↦ holds (node_of e t) nodes ]
