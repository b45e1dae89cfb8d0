-- ===== src/Base64.antt =====
-- galay-utils/encoding/base64.hpp: `Base64Util`, over bytes and characters as numbers.
-- The string, view and pointer overloads all run the functions below; a loop over positions is a
-- recursion over the characters from the position on.
mod Bits
mod Blocks
mod Decode
mod Lines
mod Tests
use Prim.Native.Char.{code}
use Prim.Native.String.{String}
use galay_utils.Prelude.{
  false, ℕ, zero, suc, ◌+◌, ◌*◌, ◌/◌, ◌%◌, ◌-◌, Bool, ◌||◌, List, [], ◌∷◌, ◌++◌, bit_and, ◌==◌,
  if◌then◌else◌, length, get_or, take, drop, min, map,
}

-- The code points of a text.
abbrev pub codes : String → List ℕ
codes String.[] = []
codes (String.◌∷◌ c s) = code c ∷ codes s

pub base64_chars : Bool → List ℕ
base64_chars url =
    codes "ABCDEFGHIJKLMNOPQRSTUVWXYZabcdefghijklmnopqrstuvwxyz0123456789"
    ++ (if url then codes "-_" else codes "+/")

pub decode_table : List ℕ
decode_table =
    0xff ∷ 0xff ∷ 0xff ∷ 0xff ∷ 0xff ∷ 0xff ∷ 0xff ∷ 0xff ∷ 0xff ∷ 0xff ∷ 0xff ∷ 0xff ∷ 0xff ∷ 0xff
    ∷ 0xff ∷ 0xff ∷ 0xff ∷ 0xff ∷ 0xff ∷ 0xff ∷ 0xff ∷ 0xff ∷ 0xff ∷ 0xff ∷ 0xff ∷ 0xff ∷ 0xff
    ∷ 0xff ∷ 0xff ∷ 0xff ∷ 0xff ∷ 0xff ∷ 0xff ∷ 0xff ∷ 0xff ∷ 0xff ∷ 0xff ∷ 0xff ∷ 0xff ∷ 0xff
    ∷ 0xff ∷ 0xff ∷ 0xff ∷ 0x3e ∷ 0xff ∷ 0x3e ∷ 0xff ∷ 0x3f ∷ 0x34 ∷ 0x35 ∷ 0x36 ∷ 0x37 ∷ 0x38
    ∷ 0x39 ∷ 0x3a ∷ 0x3b ∷ 0x3c ∷ 0x3d ∷ 0xff ∷ 0xff ∷ 0xff ∷ 0xff ∷ 0xff ∷ 0xff ∷ 0xff ∷ 0x00
    ∷ 0x01 ∷ 0x02 ∷ 0x03 ∷ 0x04 ∷ 0x05 ∷ 0x06 ∷ 0x07 ∷ 0x08 ∷ 0x09 ∷ 0x0a ∷ 0x0b ∷ 0x0c ∷ 0x0d
    ∷ 0x0e ∷ 0x0f ∷ 0x10 ∷ 0x11 ∷ 0x12 ∷ 0x13 ∷ 0x14 ∷ 0x15 ∷ 0x16 ∷ 0x17 ∷ 0x18 ∷ 0x19 ∷ 0xff
    ∷ 0xff ∷ 0xff ∷ 0xff ∷ 0x3f ∷ 0xff ∷ 0x1a ∷ 0x1b ∷ 0x1c ∷ 0x1d ∷ 0x1e ∷ 0x1f ∷ 0x20 ∷ 0x21
    ∷ 0x22 ∷ 0x23 ∷ 0x24 ∷ 0x25 ∷ 0x26 ∷ 0x27 ∷ 0x28 ∷ 0x29 ∷ 0x2a ∷ 0x2b ∷ 0x2c ∷ 0x2d ∷ 0x2e
    ∷ 0x2f ∷ 0x30 ∷ 0x31 ∷ 0x32 ∷ 0x33 ∷ 0xff ∷ 0xff ∷ 0xff ∷ 0xff ∷ 0xff ∷ 0xff ∷ 0xff ∷ 0xff
    ∷ 0xff ∷ 0xff ∷ 0xff ∷ 0xff ∷ 0xff ∷ 0xff ∷ 0xff ∷ 0xff ∷ 0xff ∷ 0xff ∷ 0xff ∷ 0xff ∷ 0xff
    ∷ 0xff ∷ 0xff ∷ 0xff ∷ 0xff ∷ 0xff ∷ 0xff ∷ 0xff ∷ 0xff ∷ 0xff ∷ 0xff ∷ 0xff ∷ 0xff ∷ 0xff
    ∷ 0xff ∷ 0xff ∷ 0xff ∷ 0xff ∷ 0xff ∷ 0xff ∷ 0xff ∷ 0xff ∷ 0xff ∷ 0xff ∷ 0xff ∷ 0xff ∷ 0xff
    ∷ 0xff ∷ 0xff ∷ 0xff ∷ 0xff ∷ 0xff ∷ 0xff ∷ 0xff ∷ 0xff ∷ 0xff ∷ 0xff ∷ 0xff ∷ 0xff ∷ 0xff
    ∷ 0xff ∷ 0xff ∷ 0xff ∷ 0xff ∷ 0xff ∷ 0xff ∷ 0xff ∷ 0xff ∷ 0xff ∷ 0xff ∷ 0xff ∷ 0xff ∷ 0xff
    ∷ 0xff ∷ 0xff ∷ 0xff ∷ 0xff ∷ 0xff ∷ 0xff ∷ 0xff ∷ 0xff ∷ 0xff ∷ 0xff ∷ 0xff ∷ 0xff ∷ 0xff
    ∷ 0xff ∷ 0xff ∷ 0xff ∷ 0xff ∷ 0xff ∷ 0xff ∷ 0xff ∷ 0xff ∷ 0xff ∷ 0xff ∷ 0xff ∷ 0xff ∷ 0xff
    ∷ 0xff ∷ 0xff ∷ 0xff ∷ 0xff ∷ 0xff ∷ 0xff ∷ 0xff ∷ 0xff ∷ 0xff ∷ 0xff ∷ 0xff ∷ 0xff ∷ 0xff
    ∷ 0xff ∷ 0xff ∷ 0xff ∷ 0xff ∷ 0xff ∷ 0xff ∷ 0xff ∷ 0xff ∷ 0xff ∷ 0xff ∷ 0xff ∷ 0xff ∷ 0xff
    ∷ 0xff ∷ 0xff ∷ 0xff ∷ 0xff ∷ 0xff ∷ 0xff ∷ 0xff ∷ 0xff ∷ []

-- A value stored into an `unsigned char`.
abbrev u8 : ℕ → ℕ
u8 n = n % 256

-- `char_array_4` from `char_array_3`: four values of six bits.
sextets : ℕ → ℕ → ℕ → List ℕ
sextets c0 c1 c2 =
    u8 (bit_and c0 0xfc / 4)
    ∷ u8 (bit_and c0 0x03 * 16 + bit_and c1 0xf0 / 16)
    ∷ u8 (bit_and c1 0x0f * 4 + bit_and c2 0xc0 / 64)
    ∷ u8 (bit_and c2 0x3f)
    ∷ []

letters : List ℕ → List ℕ → List ℕ
letters chars = map (λ v. get_or chars v 0)

-- The loop of `Base64Encode`. `pending` is `char_array_3[0..i)`.
encode_loop : List ℕ → List ℕ → List ℕ → List ℕ → List ℕ × List ℕ
encode_loop chars pending ret [] = (pending, ret)
encode_loop chars pending ret (b ∷ bytes) =
    let array = pending ++ (b ∷ []) in
    let full = length array == 3 in
    let quad = letters chars (sextets (get_or array 0 0) (get_or array 1 0) (get_or array 2 0)) in
    encode_loop chars (if full then [] else array) (if full then ret ++ quad else ret) bytes

-- `while (i++ < 3) ret += '=';`
padding : ℕ → List ℕ
padding i = if i == 1 then b'=' ∷ b'=' ∷ [] else if i == 2 then b'=' ∷ [] else []

-- What follows the loop; entries of `char_array_3` from `i` on are set to 0.
finish : List ℕ → List ℕ → List ℕ → List ℕ
unfolding padding
finish chars pending ret =
    let i = length pending in
    let values = sextets (get_or pending 0 0) (get_or pending 1 0) (get_or pending 2 0) in
    if i == 0 then ret else ret ++ (letters chars (take (i + 1) (take 3 values)) ++ padding i)

pub encode : Bool → List ℕ → List ℕ
unfolding encode_loop finish letters sextets base64_chars
encode url bytes =
    let (pending, ret) = encode_loop (base64_chars url) [] [] bytes in
    finish (base64_chars url) pending ret

pub data Decoded {ℓ} (A : Type ℓ) : Type ℓ where
  ok : A → Decoded A
  invalid : Decoded A  -- std::runtime_error of `pos_of_char`
  out_of_range : Decoded A  -- std::out_of_range of `at`

infixl 5 ◌>>=◌
abbrev ◌>>=◌ {ℓ κ} : {A : Type ℓ} {B : Type κ} → Decoded A → (A → Decoded B) → Decoded B
ok a >>= f = f a
invalid >>= f = invalid
out_of_range >>= f = out_of_range

pub pos_of_char : ℕ → Decoded ℕ
unfolding decode_table
pos_of_char chr =
    let value = get_or decode_table chr 0xff in if value == 0xff then invalid else ok value

abbrev pub is_pad : ℕ → Bool
is_pad c = c == b'=' || c == b'.'

first_byte : ℕ → ℕ → ℕ
first_byte p0 p1 = u8 (p0 * 4 + bit_and p1 0x30 / 16)

second_byte : ℕ → ℕ → ℕ
second_byte p1 p2 = u8 (bit_and p1 0x0f * 16 + bit_and p2 0x3c / 4)

third_byte : ℕ → ℕ → ℕ
third_byte p2 p3 = u8 (bit_and p2 0x03 * 64 + p3)

-- The third and fourth character of a chunk, as far as the string goes.
third : ℕ → List ℕ → Decoded (List ℕ)
third p2 [] = ok []
third p2 (c3 ∷ _) =
    if is_pad c3 then ok [] else (do p3 ← pos_of_char c3; ok (third_byte p2 p3 ∷ []))

second : ℕ → List ℕ → Decoded (List ℕ)
second p1 [] = ok []
second p1 (c2 ∷ rest) =
    if is_pad c2
    then ok []
    else (do p2 ← pos_of_char c2; more ← third p2 rest; ok (second_byte p1 p2 ∷ more))

-- One round of the loop: the second character is looked up before the first.
chunk : ℕ → ℕ → List ℕ → Decoded (List ℕ)
chunk c0 c1 rest = do
  p1 ← pos_of_char c1
  p0 ← pos_of_char c0
  more ← second p1 rest
  ok (first_byte p0 p1 ∷ more)

-- The list is the string from `pos` on; `at(pos + 1)` throws where it holds one character.
pub decode_loop : List ℕ → Decoded (List ℕ)
decode_loop [] = ok []
decode_loop (c0 ∷ []) = out_of_range
decode_loop (c0 ∷ c1 ∷ []) = chunk c0 c1 []
decode_loop (c0 ∷ c1 ∷ c2 ∷ []) = chunk c0 c1 (c2 ∷ [])
decode_loop (c0 ∷ c1 ∷ c2 ∷ c3 ∷ rest) = do
  bytes ← chunk c0 c1 (c2 ∷ c3 ∷ [])
  more ← decode_loop rest
  ok (bytes ++ more)

-- `std::remove` of line feeds.
remove_line_feeds : List ℕ → List ℕ
remove_line_feeds [] = []
remove_line_feeds (c ∷ s) = let rest = remove_line_feeds s in if c == 10 then rest else c ∷ rest

pub decode : Bool → List ℕ → Decoded (List ℕ)
decode remove_linebreaks s = decode_loop (if remove_linebreaks then remove_line_feeds s else s)

-- The loop of `insert_linebreaks` on the string from `pos` on; the fuel bounds its rounds.
break_loop : ℕ → ℕ → List ℕ → List ℕ
break_loop fuel distance [] = []
break_loop zero distance (c ∷ s) = []
break_loop (suc fuel) distance (c ∷ s) =
    let chunk_size = min distance (length (c ∷ s)) in
    let rest = drop chunk_size (c ∷ s) in
    take chunk_size (c ∷ s)
    ++ ((if length rest == 0 then [] else 10 ∷ []) ++ break_loop fuel distance rest)

pub insert_linebreaks : List ℕ → ℕ → List ℕ
unfolding break_loop
insert_linebreaks str distance =
    if length str == 0 || distance == 0
    then str
    else if (length str - 1) / distance == 0
    then str
    else break_loop (length str) distance str

pub encode_pem : List ℕ → List ℕ
encode_pem s = insert_linebreaks (encode false s) 64

pub encode_mime : List ℕ → List ℕ
encode_mime s = insert_linebreaks (encode false s) 76
