-- ===== src/Base64/Decode.antt =====
-- `Base64Decode` reads back what `Base64Encode` wrote.
use galay_utils.Prelude.{
  ℕ, ◌+◌, ◌*◌, ◌/◌, ◌%◌, ◌<◌, ◌≡◌, refl, arith, Bool, false, List, [], ◌∷◌, All, length, ◌==◌,
}
use galay_utils.Base64.{
  ok, chunk, second, third, first_byte, second_byte, third_byte, pos_of_char, is_pad, decode_loop,
  decode, encode, ◌>>=◌,
}
use galay_utils.Base64.Bits.{byte_masks, sextet_masks, letter_laws}
use galay_utils.Base64.Blocks.{IsByte, letter, encoded, encode-eq-encoded}

module _ (url : Bool) where
  pos-letter : (v : ℕ) → v < 64 → pos_of_char (letter url v) ≡ ok v
  unfolding letter
  pos-letter v h = (letter_laws url v h).0

  pad-letter : (v : ℕ) → v < 64 → is_pad (letter url v) ≡ false
  unfolding letter
  pad-letter v h = (letter_laws url v h).1

  third-letter : (p2 v3 : ℕ) → v3 < 64 → third p2 (letter url v3 ∷ []) ≡ ok (third_byte p2 v3 ∷ [])
  unfolding third
  third-letter p2 v3 h = rw (pad-letter v3 h, pos-letter v3 h)

  second-letter :
      (p1 v2 : ℕ) (rest : List ℕ)
      → v2 < 64
      → second p1 (letter url v2 ∷ rest) ≡ (do more ← third v2 rest; ok (second_byte p1 v2 ∷ more))
  unfolding second
  second-letter p1 v2 rest h = rw (pad-letter v2 h, pos-letter v2 h)

  chunk-letters :
      (v0 v1 : ℕ) (rest : List ℕ)
      → v0 < 64
      → v1 < 64
      → chunk (letter url v0) (letter url v1) rest
        ≡ (do more ← second v1 rest; ok (first_byte v0 v1 ∷ more))
  unfolding chunk
  chunk-letters v0 v1 rest h0 h1 = rw (pos-letter v1 h1, pos-letter v0 h0)

-- The bytes back from their sextets.
first-back : (a k : ℕ) → IsByte a → k < 16 → first_byte (a / 4) (a % 4 * 16 + k) ≡ a
unfolding first_byte
first-back a k ha hk = omega (arith, sextet_masks (a % 4 * 16 + k) (omega arith))

second-back :
    (a b k : ℕ)
    → IsByte a
    → IsByte b
    → k < 4
    → second_byte (a % 4 * 16 + b / 16) (b % 16 * 4 + k) ≡ b
unfolding second_byte
second-back a b k ha hb hk = omega (
  arith,
  byte_masks (a % 4 * 16 + b / 16) (omega arith),
  sextet_masks (b % 16 * 4 + k) (omega arith),
)

first_of_zero : (a : ℕ) → IsByte a → first_byte (a / 4) (a % 4 * 16) ≡ a
unfolding first_byte
first_of_zero a ha = omega (arith, sextet_masks (a % 4 * 16) (omega arith))

second_of_zero :
    (a b : ℕ) → IsByte a → IsByte b → second_byte (a % 4 * 16 + b / 16) (b % 16 * 4) ≡ b
unfolding second_byte
second_of_zero a b ha hb =
    omega (
      arith,
      byte_masks (a % 4 * 16 + b / 16) (omega arith),
      sextet_masks (b % 16 * 4) (omega arith),
    )

third-back : (b c : ℕ) → IsByte c → third_byte (b % 16 * 4 + c / 64) (c % 64) ≡ c
unfolding third_byte
third-back b c hc = omega (arith, byte_masks (b % 16 * 4 + c / 64) (omega arith))

module _ (url : Bool) where
  chunk_one :
      (a : ℕ)
      → IsByte a
      → chunk (letter url (a / 4)) (letter url (a % 4 * 16)) (b'=' ∷ b'=' ∷ []) ≡ ok (a ∷ [])
  unfolding second
  chunk_one a ha = rw (
    chunk-letters url (a / 4) (a % 4 * 16) (b'=' ∷ b'=' ∷ []) (omega arith) (omega arith),
    first_of_zero a ha,
  )

  chunk_two :
      (a b : ℕ)
      → IsByte a
      → IsByte b
      → chunk
          (letter url (a / 4))
          (letter url (a % 4 * 16 + b / 16))
          (letter url (b % 16 * 4) ∷ b'=' ∷ [])
        ≡ ok (a ∷ b ∷ [])
  unfolding third
  chunk_two a b ha hb = rw (
    chunk-letters url (a / 4) (a % 4 * 16 + b / 16) (letter url (b % 16 * 4) ∷ b'=' ∷ [])
        (omega arith) (omega arith),
    second-letter url (a % 4 * 16 + b / 16) (b % 16 * 4) (b'=' ∷ []) (omega arith),
    first-back a (b / 16) ha (omega arith),
    second_of_zero a b ha hb,
  )

  chunk_three :
      (a b c : ℕ)
      → IsByte a
      → IsByte b
      → IsByte c
      → chunk
          (letter url (a / 4))
          (letter url (a % 4 * 16 + b / 16))
          (letter url (b % 16 * 4 + c / 64) ∷ letter url (c % 64) ∷ [])
        ≡ ok (a ∷ b ∷ c ∷ [])
  chunk_three a b c ha hb hc = rw (
    chunk-letters url (a / 4) (a % 4 * 16 + b / 16)
        (letter url (b % 16 * 4 + c / 64) ∷ letter url (c % 64) ∷ []) (omega arith) (omega arith),
    second-letter url (a % 4 * 16 + b / 16) (b % 16 * 4 + c / 64) (letter url (c % 64) ∷ [])
        (omega arith),
    third-letter url (b % 16 * 4 + c / 64) (c % 64) (omega arith),
    first-back a (b / 16) ha (omega arith),
    second-back a b (c / 64) ha hb (omega arith),
    third-back b c hc,
  )

  decode_loop-encoded :
      (bytes : List ℕ) → All IsByte bytes → decode_loop (encoded url bytes) ≡ ok bytes
  unfolding decode_loop
  decode_loop-encoded [] h = refl
  decode_loop-encoded (a ∷ []) h = rw (chunk_one a h.0)
  decode_loop-encoded (a ∷ b ∷ []) h = rw (chunk_two a b h.0 h.1.0)
  decode_loop-encoded (a ∷ b ∷ c ∷ rest) (ha, (hb, (hc, h))) =
      rw (chunk_three a b c ha hb hc, decode_loop-encoded rest h)

  no_line_feed : (v : ℕ) → v < 64 → (letter url v == 10) ≡ false
  unfolding letter
  no_line_feed v h = (letter_laws url v h).2

  -- An encoding holds no line feed.
  pub encoded_one_line :
      (bytes : List ℕ) → All IsByte bytes → All (λ c. (c == 10) ≡ false) (encoded url bytes)
  encoded_one_line [] h = tt
  encoded_one_line (a ∷ []) h =
      (no_line_feed _ (omega arith), (no_line_feed _ (omega arith), (refl, (refl, tt))))
  encoded_one_line (a ∷ b ∷ []) h = (
    no_line_feed _ (omega arith),
    (no_line_feed _ (omega arith), (no_line_feed _ (omega arith), (refl, tt))),
  )
  encoded_one_line (a ∷ b ∷ c ∷ rest) (ha, (hb, (hc, h))) = (
    no_line_feed _ (omega arith),
    (
      no_line_feed _ (omega arith),
      (no_line_feed _ (omega arith), (no_line_feed _ (omega arith), encoded_one_line rest h)),
    ),
  )

-- What `Base64Encode` makes of bytes, with the standard or the URL-safe letters, `Base64Decode`
-- turns back into the same bytes.
pub decode-encode :
    (url : Bool) (bytes : List ℕ) → All IsByte bytes → decode false (encode url bytes) ≡ ok bytes
unfolding decode
decode-encode url bytes h = rw (encode-eq-encoded url bytes h) (decode_loop-encoded url bytes h)

-- An encoding of `n` bytes has `(n + 2) / 3 * 4` characters, the size that the code reserves.
pub length-encode :
    (url : Bool) (bytes : List ℕ)
    → All IsByte bytes
    → length (encode url bytes) ≡ (length bytes + 2) / 3 * 4
length-encode url bytes h = rw (encode-eq-encoded url bytes h) (length-encoded bytes)
  where
    length-encoded : (l : List ℕ) → length (encoded url l) ≡ (length l + 2) / 3 * 4
    length-encoded [] = refl
    length-encoded (a ∷ []) = refl
    length-encoded (a ∷ b ∷ []) = refl
    length-encoded (a ∷ b ∷ c ∷ rest) = omega (arith, length-encoded rest)
