-- ===== src/Huffman/Bits.antt =====
-- The bits of a number, the highest first, when it is shifted, masked and put together.
use native.Mathlib.Nat.{
  div-div-eq-div-mul, div-le_self, mod-add-div, add-mul-mod_self_left, add-mul-div_right,
  div-eq_of_lt, mod-lt, mod-eq_of_lt, div-one, mul-le-mul_right,
}
use native.Mathlib.Omega.{pow_step}
use galay_utils.Prelude.{
  ℕ, zero, suc, ◌+◌, ◌*◌, ◌/◌, ◌%◌, ◌^◌, ◌≤◌, ◌<◌, ◌≡◌, refl, ap, ap₂, sym, ◌∙◌, arith, List, [],
  ◌∷◌, ◌++◌, append-nil, append_assoc, length, length-append,
}

-- The lowest bits of a number.
unfoldable pub to_bits : ℕ → ℕ → List ℕ
to_bits zero n = []
to_bits (suc w) n = to_bits w (n / 2) ++ (n % 2 ∷ [])

pub pow_pos : (w : ℕ) → 0 < 2 ^ w
pow_pos zero = omega arith
pow_pos (suc w) = omega (arith, pow_step 2 w, pow_pos w)

shift_half : (n w : ℕ) → n / 2 / 2 ^ w ≡ n / 2 ^ suc w
shift_half n w = div-div-eq-div-mul n 2 (2 ^ w) ∙ ap (λ m. n / m) (sym (pow_step 2 w))

half_mod : (n m : ℕ) → 0 < m → n / 2 % m ≡ n % (2 * m) / 2
half_mod n m h =
    let q = n / (2 * m) in
    let r = n % (2 * m) in
    let whole : 2 * m * q + r ≡ n = omega (arith, mod-add-div n (2 * m)) in
    let high : n / 2 ≡ r / 2 + m * q = omega (arith, whole) in
    let low : r / 2 < m = omega (arith, mod-lt n {m = 2 * m} (omega (arith, h))) in
    ap (λ y. y % m) high ∙ add-mul-mod_self_left (r / 2) m q ∙ mod-eq_of_lt low

pub to_bits-split : (a b n : ℕ) → to_bits (a + b) n ≡ to_bits a (n / 2 ^ b) ++ to_bits b n
unfolding to_bits
to_bits-split a zero n =
    let same : a + 0 ≡ a = omega arith in
    ap₂ to_bits same (sym (div-one n)) ∙ sym (append-nil (to_bits a (n / 2 ^ 0)))
to_bits-split a (suc b) n =
    let wider : a + suc b ≡ suc (a + b) = omega arith in
    ap (λ w. to_bits w n) wider
    ∙ ap (λ xs. xs ++ (n % 2 ∷ []))
        (to_bits-split a b (n / 2) ∙ ap (λ m. to_bits a m ++ to_bits b (n / 2)) (shift_half n b))
    ∙ append_assoc (to_bits a (n / 2 ^ suc b)) (to_bits b (n / 2)) (n % 2 ∷ [])

pub to_bits-head : (j n : ℕ) → to_bits (suc j) n ≡ n / 2 ^ j % 2 ∷ to_bits j n
unfolding to_bits
to_bits-head j n =
    let first : suc j ≡ 1 + j = omega arith in ap (λ w. to_bits w n) first ∙ to_bits-split 1 j n

-- Two bits that stand side by side are those of a half shift.
pub shift_bit : (n j : ℕ) → n < 2 ^ 32 → n / 2 ^ suc j * 2 % 2 ^ 32 + n / 2 ^ j % 2 ≡ n / 2 ^ j
shift_bit n j h =
    let half : n / 2 ^ suc j ≡ n / 2 ^ j / 2 =
      ap (λ m. n / m) (pow_step 2 j ∙ omega arith) ∙ sym (div-div-eq-div-mul n (2 ^ j) 2) in
    let less : n / 2 ^ j ≤ n = div-le_self n (2 ^ j) in
    let whole : n / 2 ^ suc j * 2 % 2 ^ 32 ≡ n / 2 ^ suc j * 2 =
      mod-eq_of_lt (omega (arith, half, less, h)) in
    omega (arith, whole, half)

pub to_bits-low : (w x n : ℕ) → to_bits w (x * 2 ^ w + n % 2 ^ w) ≡ to_bits w n
unfolding to_bits
to_bits-low zero x n = refl
to_bits-low (suc w) x n =
    let m = 2 ^ w in
    let r = n % (2 * m) in
    let step : 2 ^ suc w ≡ 2 * m = pow_step 2 w in
    let sum : x * 2 ^ suc w + n % 2 ^ suc w ≡ 2 * (x * m) + r =
      ap (λ k. x * k + n % k) step ∙ omega arith in
    let high : (x * 2 ^ suc w + n % 2 ^ suc w) / 2 ≡ x * m + n / 2 % m =
      omega (arith, sum, half_mod n m (pow_pos w)) in
    let low : (x * 2 ^ suc w + n % 2 ^ suc w) % 2 ≡ n % 2 =
      omega (arith, sum, mod-add-div n (2 * m)) in
    ap₂ (λ y b. to_bits w y ++ (b ∷ [])) high low
    ∙ ap (λ xs. xs ++ (n % 2 ∷ [])) (to_bits-low w x (n / 2))

pub length-to_bits : (w n : ℕ) → length (to_bits w n) ≡ w
unfolding to_bits
length-to_bits zero n = refl
length-to_bits (suc w) n =
    omega (arith, length-append (to_bits w (n / 2)) (n % 2 ∷ []), length-to_bits w (n / 2))

-- Low bits that are appended to a number.
pub to_bits-join :
    (a w x n : ℕ) → to_bits (a + w) (x * 2 ^ w + n % 2 ^ w) ≡ to_bits a x ++ to_bits w n
to_bits-join a w x n =
    let e = n % 2 ^ w in
    let high : (x * 2 ^ w + e) / 2 ^ w ≡ x =
      ap (λ y. y / 2 ^ w) (omega arith)
      ∙ add-mul-div_right e x (pow_pos w)
      ∙ omega (arith, div-eq_of_lt (mod-lt n (pow_pos w))) in
    to_bits-split a w (x * 2 ^ w + e) ∙ ap₂ ◌++◌ (ap (to_bits a) high) (to_bits-low w x n)

pub pow-add : (a b : ℕ) → 2 ^ (a + b) ≡ 2 ^ a * 2 ^ b
pow-add zero b = let same : 0 + b ≡ b = omega arith in ap (λ k. 2 ^ k) same ∙ omega arith
pow-add (suc a) b =
    let later : suc a + b ≡ suc (a + b) = omega arith in
    ap (λ k. 2 ^ k) later
    ∙ omega (arith, pow_step 2 (a + b), pow-add a b)
    ∙ sym (ap (λ k. k * 2 ^ b) (pow_step 2 a))

pub join-lt : (a w x n : ℕ) → x < 2 ^ a → x * 2 ^ w + n % 2 ^ w < 2 ^ (a + w)
join-lt a w x n h =
    omega
      (arith, pow-add a w, mod-lt n (pow_pos w), mul-le-mul_right {m = suc x} {n = 2 ^ a} (2 ^ w) h)

-- The bits of a text of bytes
unfoldable pub bytes_bits : List ℕ → List ℕ
bytes_bits [] = []
bytes_bits (b ∷ bytes) = to_bits 8 b ++ bytes_bits bytes

pub bytes_bits-append : (xs ys : List ℕ) → bytes_bits (xs ++ ys) ≡ bytes_bits xs ++ bytes_bits ys
unfolding bytes_bits
bytes_bits-append [] ys = refl
bytes_bits-append (b ∷ xs) ys =
    ap (λ zs. to_bits 8 b ++ zs) (bytes_bits-append xs ys)
    ∙ sym (append_assoc (to_bits 8 b) (bytes_bits xs) (bytes_bits ys))
