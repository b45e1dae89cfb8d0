-- ===== src/Base64/Tests.antt =====
-- Runs of the coder, and its theorems at them.
use galay_utils.Prelude.{ℕ, ◌≡◌, refl, arith, true, false, List, [], ◌∷◌, All}
use galay_utils.Base64.{
  codes, encode, decode, decode_loop, ok, invalid, out_of_range, remove_line_feeds, encode_pem,
  encode_mime, insert_linebreaks, chunk, pos_of_char, second, third, first_byte, second_byte,
  third_byte,
}
use galay_utils.Base64.Blocks.{IsByte, encoded, encode-eq-encoded}
use galay_utils.Base64.Decode.{decode-encode}
use galay_utils.Base64.Lines.{decode_lines}

program : Unit {0}
unfolding encode decode decode_loop remove_line_feeds insert_linebreaks chunk pos_of_char second
    third first_byte second_byte third_byte
program = tt

encode_text : encode false (codes "Hello, World!") ≡ codes "SGVsbG8sIFdvcmxkIQ=="
unfolding program
encode_text = refl

decode_text : decode false (codes "SGVsbG8sIFdvcmxkIQ==") ≡ ok (codes "Hello, World!")
unfolding program
decode_text = refl

-- Padding may be left off, or be dots.
decode_unpadded :
    (decode false (codes "SGk") ≡ ok (codes "Hi")) × (decode false (codes "SGk.") ≡ ok (codes "Hi"))
unfolding program
decode_unpadded = (refl, refl)

decode_faults :
    (decode false (codes "SGVsb") ≡ out_of_range)
    × (decode false (codes "S*==") ≡ invalid)
    × (decode false (codes "S==") ≡ invalid)
unfolding program
decode_faults = (refl, refl, refl)

broken : insert_linebreaks (codes "abcde") 2 ≡ 97 ∷ 98 ∷ 10 ∷ 99 ∷ 100 ∷ 10 ∷ 101 ∷ []
unfolding program
broken = refl

abbrev sample : List ℕ
sample = 0 ∷ 255 ∷ 62 ∷ 63 ∷ []

sample-IsByte : All IsByte sample
sample-IsByte = omega arith

encode-eq-encoded_example : encode true sample ≡ encoded true sample
encode-eq-encoded_example = encode-eq-encoded true sample sample-IsByte

decode-encode_example : decode false (encode true sample) ≡ ok sample
decode-encode_example = decode-encode true sample sample-IsByte

decode_lines_example :
    (decode true (encode_pem sample) ≡ ok sample) × (decode true (encode_mime sample) ≡ ok sample)
decode_lines_example = decode_lines sample sample-IsByte
