-- ===== src/ByteQueue/Refine.antt =====
-- The queue is the list of the bytes that were appended and not yet consumed.
use galay_utils.Prelude.{
  ℕ, zero, suc, ◌+◌, ◌-◌, ◌*◌, ◌≤◌, ◌<◌, ◌≡◌, refl, ap, ap₂, sym, ◌∙◌, arith, true, false, ◌&&◌,
  ◌||◌, List, [], ◌∷◌, ◌++◌, append-nil, length, length-append, length-drop, take, take_whole, drop,
  ltb, leb, ◌==◌, if◌then◌else◌, Bool-cases, inl, inr,
}
use galay_utils.ByteQueue.{ByteQueueView, size, clear, append, view, compact_if_needed, consume}

abbrev pub IsValid : ByteQueueView → Type 0
IsValid q = q.read_offset ≤ length q.storage

abbrev pub contents : ByteQueueView → List ℕ
contents q = drop q.read_offset q.storage

pub data Call : Type 0 where
  call_append : List ℕ → Call
  call_consume : ℕ → Call
  call_clear : Call
  call_view : ℕ → ℕ → Call

unfoldable pub step : Call → ByteQueueView → ByteQueueView × List ℕ
step (call_append input) q = (append input q, [])
step (call_consume n) q = (consume n q, [])
step call_clear q = (clear q, [])
step (call_view offset n) q = (q, view offset n q)

-- The same calls of a list
unfoldable pub list_step : Call → List ℕ → List ℕ × List ℕ
list_step (call_append input) xs = (xs ++ input, [])
list_step (call_consume n) xs = (drop n xs, [])
list_step call_clear xs = ([], [])
list_step (call_view offset n) xs =
    (xs, if leb (offset + n) (length xs) then take n (drop offset xs) else [])

unfoldable pub views : List Call → ByteQueueView → List (List ℕ)
views [] q = []
views (x ∷ calls) q = let r = step x q in r.1 ∷ views calls r.0

unfoldable pub list_views : List Call → List ℕ → List (List ℕ)
list_views [] xs = []
list_views (x ∷ calls) xs = let r = list_step x xs in r.1 ∷ list_views calls r.0

drop-append : (n : ℕ) (xs ys : List ℕ) → n ≤ length xs → drop n (xs ++ ys) ≡ drop n xs ++ ys
drop-append zero xs ys h = refl
drop-append (suc n) [] ys h = absurd (omega arith)
drop-append (suc n) (x ∷ xs) ys h = drop-append n xs ys (omega arith)

drop-none : (n : ℕ) → drop {A = ℕ} n [] ≡ []
drop-none zero = refl
drop-none (suc n) = refl

drop-drop : (m n : ℕ) (xs : List ℕ) → drop n (drop m xs) ≡ drop (m + n) xs
drop-drop zero n xs = let same : n ≡ 0 + n = omega arith in ap (λ k. drop k xs) same
drop-drop (suc m) n [] = drop-none n ∙ sym (drop-none (suc m + n))
drop-drop (suc m) n (x ∷ xs) =
    let same : suc (m + n) ≡ suc m + n = omega arith in
    drop-drop m n xs ∙ ap (λ k. drop k (x ∷ xs)) same

drop-all : (n : ℕ) (xs : List ℕ) → length xs ≤ n → drop n xs ≡ []
drop-all zero [] h = refl
drop-all zero (x ∷ xs) h = absurd (omega arith)
drop-all (suc n) [] h = refl
drop-all (suc n) (x ∷ xs) h = drop-all n xs (omega arith)

-- A valid queue with these contents
Holds : List ℕ → ByteQueueView → Type 0
Holds xs q = IsValid q × (contents q ≡ xs)

clear-Holds : (q : ByteQueueView) → Holds [] (clear q)
unfolding Holds clear
clear-Holds q = (omega arith, refl)

append-Holds :
    (input : List ℕ) (q : ByteQueueView) → IsValid q → Holds (contents q ++ input) (append input q)
unfolding Holds append clear
append-Holds [] q v = (v, sym (append-nil (contents q)))
append-Holds (b ∷ input) q v =
    let z : (length (b ∷ input) == 0) ≡ false = ground arith in
    elim (Bool-cases (q.read_offset == length q.storage)) [
      | inl p ↦
          let none_left : drop q.read_offset q.storage ≡ [] =
            drop-all q.read_offset q.storage (ground arith) in
          rw (z, p) (omega arith, ap (λ xs. xs ++ (b ∷ input)) (sym none_left))
      | inr p ↦
          rw (z, p)
            (
              omega (arith, v, length-append q.storage (b ∷ input)),
              drop-append q.read_offset q.storage (b ∷ input) v,
            )
    ]

compact_if_needed-Holds : (q : ByteQueueView) → IsValid q → Holds (contents q) (compact_if_needed q)
unfolding Holds compact_if_needed clear
compact_if_needed-Holds q v =
    let left = length-drop q.read_offset q.storage in
    elim (Bool-cases (q.read_offset == 0)) [
      | inl p ↦ rw p (v, refl)
      | inr p ↦ elim (Bool-cases (size q == 0)) [
        | inl r ↦
            let none_left : drop q.read_offset q.storage ≡ [] =
              drop-all q.read_offset q.storage (ground arith) in
            rw (p, r) (omega arith, sym none_left)
        | inr r ↦
            elim (Bool-cases
              (ltb q.read_offset 4096 && ltb (q.read_offset * 2) (length q.storage))) [
                | inl s ↦ rw (p, r, s) (v, refl)
                | inr s ↦
                    rw (p, r, s)
                      (omega arith, take_whole (size q) (contents q) (omega (arith, left)))
              ]
      ]
    ]

consume-Holds : (n : ℕ) (q : ByteQueueView) → IsValid q → Holds (drop n (contents q)) (consume n q)
unfolding Holds consume
consume-Holds n q v =
    let cleared : (q : ByteQueueView) → IsValid (clear q) × (contents (clear q) ≡ []) =
      clear-Holds in
    let compacted : (q : ByteQueueView)
        → IsValid q
        → IsValid (compact_if_needed q) × (contents (compact_if_needed q) ≡ contents q) =
      compact_if_needed-Holds in
    let left = length-drop q.read_offset q.storage in
    elim (Bool-cases (leb (size q) n)) [
      | inl p ↦
          let none_left : drop n (contents q) ≡ [] =
            drop-all n (contents q) (ground (arith, left)) in
          let (valid, same) = cleared q in rw (consume, p) (valid, same ∙ sym none_left)
      | inr p ↦
          let moved : ByteQueueView = record q { read_offset = q.read_offset + n } in
          let (valid, same) = compacted moved (ground (arith, v)) in
          rw (consume, p) (valid, same ∙ sym (drop-drop q.read_offset n q.storage))
    ]

view-eq :
    (offset n : ℕ) (q : ByteQueueView)
    → IsValid q
    → view offset n q
      ≡ (if leb (offset + n) (length (contents q)) then take n (drop offset (contents q)) else [])
unfolding view
view-eq offset n q v =
    let left = length-drop q.read_offset q.storage in
    let there = drop-drop q.read_offset offset q.storage in
    elim (Bool-cases (ltb (size q) offset || ltb (size q - offset) n)) [
      | inl p ↦
          let out : leb (offset + n) (length (contents q)) ≡ false = ground (arith, p, left, v) in
          rw (p, out) refl
      | inr p ↦
          let fits : leb (offset + n) (length (contents q)) ≡ true = ground (arith, p, left, v) in
          elim (Bool-cases (n == 0)) [
            | inl r ↦
                let zero_bytes : n ≡ 0 = ground arith in
                rw (p, r, fits) (ap (λ k. take k (drop offset (contents q))) (sym zero_bytes))
            | inr r ↦ rw (p, r, fits) (ap (take n) (sym there))
          ]
    ]

step-refines :
    (x : Call) (q : ByteQueueView)
    → IsValid q
    → IsValid (step x q).0
      × (contents (step x q).0 ≡ (list_step x (contents q)).0)
      × ((step x q).1 ≡ (list_step x (contents q)).1)
unfolding step list_step Holds
step-refines (call_append input) q v =
    let (valid, same) = append-Holds input q v in (valid, same, refl)
step-refines (call_consume n) q v = let (valid, same) = consume-Holds n q v in (valid, same, refl)
step-refines call_clear q v = let (valid, same) = clear-Holds q in (valid, same, refl)
step-refines (call_view offset n) q v = (v, refl, view-eq offset n q v)

-- Every sequence of appends, consumes and clears shows the same views as on the plain list of the
-- bytes that were appended and not consumed, from any queue whose offset lies within its memory.
pub queue_refines :
    (calls : List Call) (q : ByteQueueView)
    → IsValid q
    → views calls q ≡ list_views calls (contents q)
unfolding views list_views
queue_refines [] q v = refl
queue_refines (x ∷ calls) q v =
    let (valid, same, shown) = step-refines x q v in
    ap₂ ◌∷◌ shown (queue_refines calls (step x q).0 valid ∙ ap (list_views calls) same)

-- After a consume, the bytes that are kept in front of the offset are fewer than 4096 and no more than
-- those that can be read.
pub consume_bounds :
    (n : ℕ) (q : ByteQueueView)
    → let p = consume n q in (p.read_offset < 4096) × (p.read_offset ≤ size p)
unfolding consume compact_if_needed clear
consume_bounds n q = (ground arith, ground arith)
