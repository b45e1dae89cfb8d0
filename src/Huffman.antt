-- ===== src/Huffman.antt =====
-- galay-utils/algorithm/huffman.hpp. Symbols are numbers, of which only equality is used. The tables
-- are association lists, and a table of frequencies is the list of its pairs in the order in which the
-- map is walked. The priority queue is the list of its trees by ascending frequency. A thrown
-- exception is `none`. `x << k` of a 32-bit word is `x * 2 ^ k % 2 ^ 32`, `x >> k` is `x / 2 ^ k`, the
-- mask `(1 << k) - 1` keeps the remainder by `2 ^ k`, and `|` with bits that are clear is a sum.
mod Bits
mod Encode
mod Decode
mod RoundTrip
mod Table
mod Codes
mod Build
mod Coding
mod Tests
use galay_utils.Prelude.{
  ℕ, zero, suc, ◌+◌, ◌-◌, ◌*◌, ◌/◌, ◌%◌, ◌^◌, min, Bool, true, false, List, [], ◌∷◌, ◌++◌, Option,
  none, some, map, length, ltb, leb, ◌&&◌, ◌==◌, if◌then◌else◌, add_size, get_or,
}

pub record HuffmanCode : Type 0 where
  pub code : ℕ
  pub length : ℕ

pub data HuffmanNode : Type 0 where
  leaf : ℕ → ℕ → HuffmanNode
  node : ℕ → HuffmanNode → HuffmanNode → HuffmanNode

pub record HuffmanTable : Type 0 where
  pub encode_table : List (ℕ × HuffmanCode)
  pub decode_table : List (HuffmanCode × ℕ)

-- `CodeKey::operator==`
abbrev pub same_code : HuffmanCode → HuffmanCode → Bool
same_code a b = a.code == b.code && a.length == b.length

-- `m_encodeTable.find(symbol)`
pub find_code : ℕ → List (ℕ × HuffmanCode) → Option HuffmanCode
find_code symbol [] = none
find_code symbol ((s, c) ∷ codes) =
    let rest = find_code symbol codes in if s == symbol then some c else rest

-- `m_decodeTable.find({code, length})`
pub find_symbol : HuffmanCode → List (HuffmanCode × ℕ) → Option ℕ
find_symbol key [] = none
find_symbol key ((c, s) ∷ symbols) =
    let rest = find_symbol key symbols in if same_code c key then some s else rest

-- `m_encodeTable[symbol] = code`
assign_code : ℕ → HuffmanCode → List (ℕ × HuffmanCode) → List (ℕ × HuffmanCode)
assign_code symbol code [] = (symbol, code) ∷ []
assign_code symbol code ((s, c) ∷ codes) =
    let rest = assign_code symbol code codes in
    if s == symbol then (s, code) ∷ codes else (s, c) ∷ rest

-- `m_decodeTable[{code, length}] = symbol`
assign_symbol : HuffmanCode → ℕ → List (HuffmanCode × ℕ) → List (HuffmanCode × ℕ)
assign_symbol code symbol [] = (code, symbol) ∷ []
assign_symbol code symbol ((c, s) ∷ symbols) =
    let rest = assign_symbol code symbol symbols in
    if same_code c code then (c, symbol) ∷ symbols else (c, s) ∷ rest

pub empty_table : HuffmanTable
empty_table = record { encode_table = []; decode_table = [] }

pub add_code : ℕ → ℕ → ℕ → HuffmanTable → Option HuffmanTable
add_code symbol code length t =
    let c : HuffmanCode = record { code = code; length = length } in
    if ltb 32 length
    then none
    else some (record {
      encode_table = assign_code symbol c t.encode_table;
      decode_table = assign_symbol c symbol t.decode_table;
    })

pub get_code : ℕ → HuffmanTable → Option HuffmanCode
get_code symbol t = find_code symbol t.encode_table

pub has_symbol : ℕ → HuffmanTable → Bool
has_symbol symbol t = elim (find_code symbol t.encode_table) [ none ↦ false | some _ ↦ true ]

-- `getSymbol` and `tryGetSymbol`
pub get_symbol : ℕ → ℕ → HuffmanTable → Option ℕ
get_symbol code length t = find_symbol (record { code = code; length = length }) t.decode_table

pub get_symbols : HuffmanTable → List ℕ
get_symbols t = map (λ p. p.0) t.encode_table

pub size : HuffmanTable → ℕ
size t = length t.encode_table

pub clear : HuffmanTable → HuffmanTable
clear t = record { encode_table = []; decode_table = [] }

pub record HuffmanEncoder : Type 0 where
  pub output : List ℕ
  pub buffer : ℕ
  pub buffer_bits : ℕ

pub init_encoder : HuffmanEncoder
init_encoder = record { output = []; buffer = 0; buffer_bits = 0 }

-- One round of `appendBits`: what it writes to the buffer, and the buffer's move to the output.
pub write_bits : ℕ → ℕ → HuffmanEncoder → HuffmanEncoder
write_bits extracted to_write e =
    let buffer = e.buffer * 2 ^ to_write % 2 ^ 32 + extracted in
    let buffer_bits = e.buffer_bits + to_write in
    if buffer_bits == 8
    then record { output = e.output ++ (buffer % 2 ^ 8 ∷ []); buffer = 0; buffer_bits = 0 }
    else record { output = e.output; buffer = buffer; buffer_bits = buffer_bits }

-- The loop of `appendBits`; the fuel bounds its rounds.
pub append_loop : ℕ → ℕ → ℕ → HuffmanEncoder → HuffmanEncoder
append_loop zero bits count e = e
append_loop (suc fuel) bits count e =
    let to_write = min (8 - e.buffer_bits) count in
    let shift = count - to_write in
    let rest =
      append_loop fuel bits shift (write_bits (bits / 2 ^ shift % 2 ^ to_write) to_write e) in
    if count == 0 then e else rest

pub append_bits : ℕ → ℕ → HuffmanEncoder → HuffmanEncoder
append_bits bits count e = append_loop count bits count e

pub encode_symbol : ℕ → HuffmanTable → HuffmanEncoder → Option HuffmanEncoder
encode_symbol symbol t e = elim (get_code symbol t) [
  | none ↦ none
  | some c ↦ some (append_bits c.code c.length e)
]

pub encode_symbols : List ℕ → HuffmanTable → HuffmanEncoder → Option HuffmanEncoder
encode_symbols [] t e = some e
encode_symbols (symbol ∷ symbols) t e = elim (encode_symbol symbol t e) [
  | none ↦ none
  | some e' ↦ encode_symbols symbols t e'
]

pub reset : HuffmanEncoder → HuffmanEncoder
reset e = record { output = []; buffer = 0; buffer_bits = 0 }

pub finish : HuffmanEncoder → HuffmanEncoder × List ℕ
finish e =
    let last = e.buffer * 2 ^ (8 - e.buffer_bits) % 2 ^ 32 % 2 ^ 8 in
    (reset e, if ltb 0 e.buffer_bits then e.output ++ (last ∷ []) else e.output)

pub bit_count : HuffmanEncoder → ℕ
bit_count e = length e.output * 8 + e.buffer_bits

pub record HuffmanDecoder : Type 0 where
  pub table : HuffmanTable
  pub min_code_len : ℕ
  pub max_code_len : ℕ

-- How a round of the loop of `decode` ends: it throws, breaks, or goes on.
pub data Round : Type 0 where
  thrown : Round
  broken : List ℕ → Round
  going : ℕ → ℕ → List ℕ → Round

check_length : HuffmanDecoder → ℕ → ℕ → List ℕ → Round
check_length d code code_len result =
    if ltb d.max_code_len code_len then thrown else going code code_len result

-- The body of the loop, for one bit.
pub take_bit : HuffmanDecoder → ℕ → ℕ → ℕ → ℕ → List ℕ → Round
take_bit d symbol_count bit code code_len result =
    let code = code * 2 % 2 ^ 32 + bit in
    let code_len = (code_len + 1) % 2 ^ 8 in
    if leb d.min_code_len code_len
    then elim (get_symbol code code_len d.table) [
      | none ↦ check_length d code code_len result
      | some symbol ↦
          let result = result ++ (symbol ∷ []) in
          if ltb 0 symbol_count && leb symbol_count (length result)
          then broken result
          else check_length d 0 0 result
    ]
    else check_length d code code_len result

-- `(data[byteIndex] >> bitOffset) & 1`
pub bit_at : List ℕ → ℕ → ℕ
bit_at input bit_index = get_or input (bit_index / 8) 0 / 2 ^ (7 - bit_index % 8) % 2

-- The loop of `decode`, with the number of bits that are left.
pub decode_loop : HuffmanDecoder → List ℕ → ℕ → ℕ → ℕ → ℕ → ℕ → List ℕ → Option (List ℕ)
decode_loop d input symbol_count zero bit_index code code_len result = some result
decode_loop d input symbol_count (suc left) bit_index code code_len result =
    elim (take_bit d symbol_count (bit_at input bit_index) code code_len result) [
      | thrown ↦ none
      | broken result ↦ some result
      | going code code_len result ↦
          decode_loop d input symbol_count left (bit_index + 1) code code_len result
    ]

pub decode : HuffmanDecoder → List ℕ → ℕ → Option (List ℕ)
decode d input symbol_count = decode_loop d input symbol_count (length input * 8) 0 0 0 []

abbrev pub frequency : HuffmanNode → ℕ
frequency (leaf _ f) = f
frequency (node f _ _) = f

-- `HuffmanNode(l, r)`
pub join : HuffmanNode → HuffmanNode → HuffmanNode
join l r = node (add_size (frequency l) (frequency r)) l r

-- `pq.push(node)`
pub push_node : HuffmanNode → List HuffmanNode → List HuffmanNode
push_node n [] = n ∷ []
push_node n (m ∷ queue) =
    let rest = push_node n queue in
    if ltb (frequency n) (frequency m) then n ∷ m ∷ queue else m ∷ rest

pub fill_queue : List (ℕ × ℕ) → List HuffmanNode → List HuffmanNode
fill_queue [] queue = queue
fill_queue ((s, f) ∷ frequencies) queue = fill_queue frequencies (push_node (leaf s f) queue)

-- The loop that joins the two rarest trees; the fuel bounds its rounds.
pub merge : ℕ → List HuffmanNode → List HuffmanNode
merge zero queue = queue
merge (suc fuel) [] = []
merge (suc fuel) (n ∷ []) = n ∷ []
merge (suc fuel) (l ∷ r ∷ queue) = merge fuel (push_node (join l r) queue)

-- `generateCodes`; the tree's children are never null.
pub generate_codes : HuffmanNode → ℕ → ℕ → HuffmanTable → Option HuffmanTable
generate_codes (leaf symbol _) code length t =
    if length == 0 then add_code symbol 0 1 t else add_code symbol code length t
generate_codes (node _ l r) code length t =
    elim (generate_codes l (code * 2 % 2 ^ 32) ((length + 1) % 2 ^ 8) t) [
      | none ↦ none
      | some t' ↦ generate_codes r (code * 2 % 2 ^ 32 + 1) ((length + 1) % 2 ^ 8) t'
    ]

pub build : List (ℕ × ℕ) → Option HuffmanTable
build frequencies = elim (merge (length frequencies) (fill_queue frequencies [])) [
  | [] ↦ some empty_table
  | root ∷ _ ↦ generate_codes root 0 0 empty_table
]

-- `++frequencies[item]`
pub count_item : ℕ → List (ℕ × ℕ) → List (ℕ × ℕ)
count_item item [] = (item, 1) ∷ []
count_item item ((s, n) ∷ frequencies) =
    let rest = count_item item frequencies in
    if s == item then (s, add_size n 1) ∷ frequencies else (s, n) ∷ rest

pub count_items : List ℕ → List (ℕ × ℕ) → List (ℕ × ℕ)
count_items [] frequencies = frequencies
count_items (item ∷ input) frequencies = count_items input (count_item item frequencies)

pub build_from_data : List ℕ → Option HuffmanTable
build_from_data input = build (count_items input [])
