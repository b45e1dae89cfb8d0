-- ===== src/Base64/Blocks.antt =====
-- The encoding, three bytes at a time, by division and remainder (RFC 4648, section 4).
use galay_utils.Prelude.{
  ℕ, ◌+◌, ◌*◌, ◌/◌, ◌%◌, ◌<◌, ◌≡◌, ap, ◌∙◌, sym, arith, Bool, List, [], ◌∷◌, ◌++◌, append-nil,
  append_assoc, get_or, All, map, take,
}
use galay_utils.Base64.{base64_chars, sextets, letters, encode_loop, finish, encode, padding}
use galay_utils.Base64.Bits.{byte_masks}

abbrev pub IsByte : ℕ → Type 0
IsByte b = b < 256

unfoldable pub letter : Bool → ℕ → ℕ
letter url v = get_or (base64_chars url) v 0

abbrev pub encoded : Bool → List ℕ → List ℕ
encoded url [] = []
encoded url (a ∷ []) = letter url (a / 4) ∷ letter url (a % 4 * 16) ∷ b'=' ∷ b'=' ∷ []
encoded url (a ∷ b ∷ []) =
    letter url (a / 4) ∷ letter url (a % 4 * 16 + b / 16) ∷ letter url (b % 16 * 4) ∷ b'=' ∷ []
encoded url (a ∷ b ∷ c ∷ rest) =
    letter url (a / 4)
    ∷ letter url (a % 4 * 16 + b / 16)
    ∷ letter url (b % 16 * 4 + c / 64)
    ∷ letter url (c % 64)
    ∷ encoded url rest

sextets-eq :
    (a b c : ℕ)
    → IsByte a
    → IsByte b
    → IsByte c
    → sextets a b c ≡ a / 4 ∷ (a % 4 * 16 + b / 16) ∷ (b % 16 * 4 + c / 64) ∷ c % 64 ∷ []
unfolding sextets
sextets-eq a b c ha hb hc = ground (arith, byte_masks a ha, byte_masks b hb, byte_masks c hc)

sextets_one : (a : ℕ) → IsByte a → sextets a 0 0 ≡ a / 4 ∷ (a % 4 * 16) ∷ 0 ∷ 0 ∷ []
unfolding sextets
sextets_one a ha = ground (arith, byte_masks a ha)

sextets_two :
    (a b : ℕ)
    → IsByte a
    → IsByte b
    → sextets a b 0 ≡ a / 4 ∷ (a % 4 * 16 + b / 16) ∷ (b % 16 * 4) ∷ 0 ∷ []
unfolding sextets
sextets_two a b ha hb = ground (arith, byte_masks a ha, byte_masks b hb)

-- The letters of the values, and the padding behind them.
tail : Bool → List ℕ → ℕ → List ℕ → List ℕ
tail url ret i values =
    ret ++ (letters (base64_chars url) (take (i + 1) (take 3 values)) ++ padding i)

block :
    (url : Bool) (a b c : ℕ) (ret rest : List ℕ)
    → IsByte a
    → IsByte b
    → IsByte c
    → encode_loop (base64_chars url) [] ret (a ∷ b ∷ c ∷ rest)
      ≡ encode_loop (base64_chars url) [] (ret ++ encoded url (a ∷ b ∷ c ∷ [])) rest
unfolding encode_loop letters letter
block url a b c ret rest ha hb hc =
    ap
      (λ l.
        encode_loop (base64_chars url) [] (ret ++ map (λ v. get_or (base64_chars url) v 0) l) rest)
      (sextets-eq a b c ha hb hc)

encode_loop-encoded :
    (url : Bool) (bytes ret : List ℕ)
    → All IsByte bytes
    → let (pending, out) = encode_loop (base64_chars url) [] ret bytes in
      finish (base64_chars url) pending out ≡ ret ++ encoded url bytes
encode_loop-encoded url [] ret h = unfold encode_loop finish in sym (append-nil ret)
encode_loop-encoded url (a ∷ []) ret h =
    unfold encode_loop finish letters letter tail in ap (tail url ret 1) (sextets_one a h.0)
encode_loop-encoded url (a ∷ b ∷ []) ret h =
    unfold encode_loop finish letters letter tail in ap (tail url ret 2) (sextets_two a b h.0 h.1.0)
encode_loop-encoded url (a ∷ b ∷ c ∷ rest) ret (ha, (hb, (hc, h))) =
    rw (block url a b c ret rest ha hb hc) (
      encode_loop-encoded url rest (ret ++ encoded url (a ∷ b ∷ c ∷ [])) h
      ∙ append_assoc ret (encoded url (a ∷ b ∷ c ∷ [])) (encoded url rest))

-- On bytes `Base64Encode` is the encoding by blocks of three.
pub encode-eq-encoded :
    (url : Bool) (bytes : List ℕ) → All IsByte bytes → encode url bytes ≡ encoded url bytes
unfolding encode
encode-eq-encoded url bytes h = encode_loop-encoded url bytes [] h
