-- ===== src/Base64/Bits.antt =====
-- The masks of the coder as arithmetic, and the two tables against one another: each fact is a
-- finite table that is evaluated.
use galay_utils.Prelude.{
  ℕ, zero, suc, ◌/◌, ◌%◌, ◌<◌, ◌≡◌, refl, arith, Bool, true, false, not, ◌&&◌, bit_and, ◌==◌,
  get_or,
}
use galay_utils.Base64.{base64_chars, pos_of_char, is_pad, Decoded, ok, invalid, out_of_range}

holds_below : ℕ → (ℕ → Bool) → Bool
holds_below zero p = true
holds_below (suc n) p = p n && holds_below n p

holds_at : (n : ℕ) (p : ℕ → Bool) → holds_below n p ≡ true → (x : ℕ) → x < n → p x ≡ true
unfolding holds_below
holds_at zero p h x lt = absurd (omega arith)
holds_at (suc n) p h x lt = ground (arith, holds_at n p (ground arith) x)

-- The masks of one byte, all at once.
masks : ℕ → Bool
masks b =
    (bit_and b 0xfc / 4 == b / 4)
    && ((bit_and b 0x03 == b % 4)
        && ((bit_and b 0xf0 / 16 == b / 16)
            && ((bit_and b 0x0f == b % 16)
                && ((bit_and b 0xc0 / 64 == b / 64) && (bit_and b 0x3f == b % 64)))))

masks_hold : holds_below 256 masks ≡ true
unfolding holds_below masks
masks_hold = refl

pub byte_masks :
    (b : ℕ)
    → b < 256
    → (bit_and b 0xfc / 4 ≡ b / 4)
      × (bit_and b 0x03 ≡ b % 4)
      × (bit_and b 0xf0 / 16 ≡ b / 16)
      × (bit_and b 0x0f ≡ b % 16)
      × (bit_and b 0xc0 / 64 ≡ b / 64)
      × (bit_and b 0x3f ≡ b % 64)
unfolding masks
byte_masks b h =
    let all = holds_at 256 masks masks_hold b h in
    (ground arith, ground arith, ground arith, ground arith, ground arith, ground arith)

sextet_test : ℕ → Bool
sextet_test p = (bit_and p 0x30 / 16 == p / 16) && (bit_and p 0x3c / 4 == p / 4)

sextet_tests_hold : holds_below 64 sextet_test ≡ true
unfolding holds_below sextet_test
sextet_tests_hold = refl

pub sextet_masks : (p : ℕ) → p < 64 → (bit_and p 0x30 / 16 ≡ p / 16) × (bit_and p 0x3c / 4 ≡ p / 4)
unfolding sextet_test
sextet_masks p h =
    let all = holds_at 64 sextet_test sextet_tests_hold p h in (ground arith, ground arith)

-- A letter of either alphabet: the decoder knows it, and it is no padding and no line feed.
is_value : ℕ → Decoded ℕ → Bool
is_value v (ok p) = p == v
is_value v _ = false

letter_test : Bool → ℕ → Bool
letter_test url v =
    let c = get_or (base64_chars url) v 0 in
    is_value v (pos_of_char c) && (not (is_pad c) && not (c == 10))

letter_tests_hold : (url : Bool) → holds_below 64 (letter_test url) ≡ true
unfolding holds_below letter_test is_value pos_of_char base64_chars
letter_tests_hold true = refl
letter_tests_hold false = refl

ok_of_value : (v : ℕ) (d : Decoded ℕ) → is_value v d ≡ true → d ≡ ok v
unfolding is_value
ok_of_value v (ok p) h = ground arith
ok_of_value v invalid h = cc
ok_of_value v out_of_range h = cc

pub letter_laws :
    (url : Bool) (v : ℕ)
    → v < 64
    → let c = get_or (base64_chars url) v 0 in
      (pos_of_char c ≡ ok v) × (is_pad c ≡ false) × ((c == 10) ≡ false)
unfolding letter_test
letter_laws url v h =
    let c = get_or (base64_chars url) v 0 in
    let all = holds_at 64 (letter_test url) (letter_tests_hold url) v h in
    (ok_of_value v (pos_of_char c) (ground arith), ground arith, ground arith)
