-- ===== src/Prelude/Arrays.antt =====
-- Memory blocks as lists: bytes copied in and out, and lists given by a function of the position.
use Prim.Native.Nat.{ℕ, zero, suc, ◌+◌, ◌-◌, ◌%◌, ◌≤◌, ◌<◌}
use mathlib.Core.Path.{◌≡◌, refl, ap, ap₂, ◌∙◌}
use mathlib.Core.Bool.{◌&&◌}
use mathlib.Core.List.{List, [], ◌∷◌, ◌++◌}
use native.Mathlib.Decide.{dec_lt}
use native.Mathlib.Nat.{zero-add, suc-add, mod-eq_of_lt, mod-eq-sub-mod}
use native.Mathlib.Omega.{arith}
use galay_utils.Prelude.Tests.{ltb, leb, if◌then◌else◌}
use galay_utils.Prelude.Lists.{length, get_or, take, drop}

-- An index below twice the size wraps at most once.
pub mod_once : (x n : ℕ) → x < n + n → x % n ≡ (if ltb x n then x else x - n)
mod_once x n h = elim (dec_lt x n) [
  | yes p ↦ ground (arith, mod-eq_of_lt p)
  | no p ↦
      let wrap : x % n ≡ (x - n) % n = mod-eq-sub-mod (omega arith) in
      let small : (x - n) % n ≡ x - n = mod-eq_of_lt (omega arith) in ground (arith, wrap, small)
]

module _ {ℓ} {A : Type ℓ} where
  abbrev pub tabulate : ℕ → (ℕ → A) → List A
  tabulate zero f = []
  tabulate (suc n) f = f 0 ∷ tabulate n (λ i. f (i + 1))

  pub length-tabulate : (n : ℕ) (f : ℕ → A) → length (tabulate n f) ≡ n
  length-tabulate zero f = refl
  length-tabulate (suc n) f = ap suc (length-tabulate n (λ i. f (i + 1)))

  pub tabulate-ext :
      (n : ℕ) (f g : ℕ → A) → ((i : ℕ) → i < n → f i ≡ g i) → tabulate n f ≡ tabulate n g
  tabulate-ext zero f g h = refl
  tabulate-ext (suc n) f g h =
      ap₂ ◌∷◌ (h 0 (omega arith))
        (tabulate-ext n (λ i. f (i + 1)) (λ i. g (i + 1)) (λ i p. h (i + 1) (omega arith)))

  pub tabulate-add :
      (m n : ℕ) (f : ℕ → A) → tabulate (m + n) f ≡ tabulate m f ++ tabulate n (λ i. f (m + i))
  tabulate-add zero n f =
      rw zero-add (tabulate-ext n f (λ i. f (0 + i)) (λ i p. ap f (omega arith)))
  tabulate-add (suc m) n f = rw suc-add (
      ap (◌∷◌ (f 0)) (
        tabulate-add m n (λ i. f (i + 1))
        ∙ ap (◌++◌ (tabulate m (λ i. f (i + 1))))
            (tabulate-ext n (λ i. f (m + i + 1)) (λ i. f (suc m + i)) (λ i p. ap f (omega arith)))))

  -- `memcpy` of `xs` to the offset `i`; what would lie past the end is dropped.
  unfoldable pub overwrite : List A → ℕ → List A → List A
  overwrite [] i xs = []
  overwrite (b ∷ bs) zero [] = b ∷ bs
  overwrite (b ∷ bs) zero (x ∷ xs) = x ∷ overwrite bs zero xs
  overwrite (b ∷ bs) (suc i) xs = b ∷ overwrite bs i xs

  pub length-overwrite :
      (bs : List A) (i : ℕ) (xs : List A) → length (overwrite bs i xs) ≡ length bs
  unfolding overwrite
  length-overwrite [] i xs = refl
  length-overwrite (b ∷ bs) zero [] = refl
  length-overwrite (b ∷ bs) zero (x ∷ xs) = ap suc (length-overwrite bs zero xs)
  length-overwrite (b ∷ bs) (suc i) xs = ap suc (length-overwrite bs i xs)

  pub overwrite-nil : (bs : List A) (i : ℕ) → overwrite bs i [] ≡ bs
  unfolding overwrite
  overwrite-nil [] i = refl
  overwrite-nil (b ∷ bs) zero = refl
  overwrite-nil (b ∷ bs) (suc i) = ap (◌∷◌ b) (overwrite-nil bs i)

module _ {A : Type 0} where
  pub get_or-overwrite :
      (bs : List A) (i : ℕ) (xs : List A) (j : ℕ) (d : A)
      → i + length xs ≤ length bs
      → get_or (overwrite bs i xs) j d
        ≡ (if leb i j && ltb j (i + length xs) then get_or xs (j - i) d else get_or bs j d)
  unfolding overwrite
  get_or-overwrite [] i [] j d h = ground arith
  get_or-overwrite [] i (x ∷ xs) j d h = absurd (omega arith)
  get_or-overwrite (b ∷ bs) zero [] j d h = ground arith
  get_or-overwrite (b ∷ bs) zero (x ∷ xs) zero d h = ground arith
  get_or-overwrite (b ∷ bs) zero (x ∷ xs) (suc j) d h =
      ground (arith, get_or-overwrite bs zero xs j d)
  get_or-overwrite (b ∷ bs) (suc i) xs zero d h = ground arith
  get_or-overwrite (b ∷ bs) (suc i) xs (suc j) d h = ground (arith, get_or-overwrite bs i xs j d)

module _ {ℓ} {A : Type ℓ} where
  pub take-drop-eq-tabulate :
      (bs : List A) (i n : ℕ) (d : A)
      → i + n ≤ length bs
      → take n (drop i bs) ≡ tabulate n (λ k. get_or bs (i + k) d)
  take-drop-eq-tabulate [] zero zero d h = refl
  take-drop-eq-tabulate [] (suc i) zero d h = refl
  take-drop-eq-tabulate [] zero (suc n) d h = absurd (omega arith)
  take-drop-eq-tabulate [] (suc i) (suc n) d h = absurd (omega arith)
  take-drop-eq-tabulate (b ∷ bs) zero zero d h = refl
  take-drop-eq-tabulate (b ∷ bs) zero (suc n) d h = ap (◌∷◌ b) (
      take-drop-eq-tabulate bs zero n d (omega arith)
      ∙ tabulate-ext n (λ k. get_or bs (0 + k) d) (λ k. get_or (b ∷ bs) (0 + (k + 1)) d)
          (λ k p. ap (λ j. get_or (b ∷ bs) j d) {x = suc (0 + k)} (omega arith)))
  take-drop-eq-tabulate (b ∷ bs) (suc i) n d h =
      take-drop-eq-tabulate bs i n d (omega arith)
      ∙ tabulate-ext n (λ k. get_or bs (i + k) d) (λ k. get_or (b ∷ bs) (suc i + k) d)
          (λ k p. ap (λ j. get_or (b ∷ bs) j d) {x = suc (i + k)} (omega arith))

  pub take-eq-tabulate :
      (bs : List A) (n : ℕ) (d : A) → n ≤ length bs → take n bs ≡ tabulate n (λ k. get_or bs k d)
  take-eq-tabulate bs zero d h = refl
  take-eq-tabulate [] (suc n) d h = absurd (omega arith)
  take-eq-tabulate (b ∷ bs) (suc n) d h = ap (◌∷◌ b) (
      take-eq-tabulate bs n d (omega arith)
      ∙ tabulate-ext n (λ k. get_or bs k d) (λ k. get_or (b ∷ bs) (k + 1) d)
          (λ k p. ap (λ j. get_or (b ∷ bs) j d) {x = suc k} (omega arith)))

  pub get_or-take : (bs : List A) (n i : ℕ) (d : A) → i < n → get_or (take n bs) i d ≡ get_or bs i d
  get_or-take bs zero i d h = absurd (omega arith)
  get_or-take [] (suc n) i d h = refl
  get_or-take (b ∷ bs) (suc n) zero d h = refl
  get_or-take (b ∷ bs) (suc n) (suc i) d h = get_or-take bs n i d (omega arith)

  pub get_or-drop : (bs : List A) (n i : ℕ) (d : A) → get_or (drop n bs) i d ≡ get_or bs (n + i) d
  get_or-drop bs zero i d = ap (λ j. get_or bs j d) (omega arith)
  get_or-drop [] (suc n) i d = refl
  get_or-drop (b ∷ bs) (suc n) i d =
      get_or-drop bs n i d ∙ ap (λ j. get_or (b ∷ bs) j d) {x = suc (n + i)} (omega arith)

  pub take-tabulate : (k n : ℕ) (f : ℕ → A) → k ≤ n → take k (tabulate n f) ≡ tabulate k f
  take-tabulate zero n f h = refl
  take-tabulate (suc k) zero f h = absurd (omega arith)
  take-tabulate (suc k) (suc n) f h =
      ap (◌∷◌ (f 0)) (take-tabulate k n (λ i. f (i + 1)) (omega arith))

  pub drop-tabulate :
      (k n : ℕ) (f : ℕ → A) → k ≤ n → drop k (tabulate n f) ≡ tabulate (n - k) (λ i. f (k + i))
  drop-tabulate zero n f h =
      tabulate-ext n f (λ i. f (0 + i)) (λ i p. ap f (omega arith))
      ∙ ap (λ m. tabulate m (λ i. f (0 + i))) (omega arith)
  drop-tabulate (suc k) zero f h = absurd (omega arith)
  drop-tabulate (suc k) (suc n) f h =
      drop-tabulate k n (λ i. f (i + 1)) (omega arith)
      ∙ tabulate-ext (n - k) (λ i. f (k + i + 1)) (λ i. f (suc k + i)) (λ i p. ap f (omega arith))
      ∙ ap (λ m. tabulate m (λ i. f (suc k + i))) (omega arith)
