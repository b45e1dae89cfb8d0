-- ===== src/Base64/Lines.antt =====
-- Line breaks: where they are put, and that decoding takes them out again.
use galay_utils.Prelude.{
  ℕ, zero, suc, ◌+◌, ◌-◌, ◌/◌, ◌≤◌, ◌<◌, ◌≡◌, refl, ap, ap₂, ◌∙◌, sym, arith, Bool, true, false,
  List, [], ◌∷◌, ◌++◌, append-nil, All, length, ◌==◌, if◌then◌else◌, take, drop, min,
  take-append-drop, length-drop, length-take, Bool-cases, inl, inr, ◌||◌,
}
use galay_utils.Base64.{
  ok, remove_line_feeds, decode, encode, break_loop, insert_linebreaks, encode_pem, encode_mime,
}
use galay_utils.Base64.Blocks.{IsByte, encode-eq-encoded}
use galay_utils.Base64.Decode.{decode-encode, encoded_one_line}

abbrev pub IsOneLine : List ℕ → Type 0
IsOneLine = All (λ c. (c == 10) ≡ false)

remove-one_line : (s : List ℕ) → IsOneLine s → remove_line_feeds s ≡ s
unfolding remove_line_feeds
remove-one_line [] h = refl
remove-one_line (c ∷ s) (hc, h) = rw hc (ap (◌∷◌ c) (remove-one_line s h))

remove-append :
    (s t : List ℕ) → remove_line_feeds (s ++ t) ≡ remove_line_feeds s ++ remove_line_feeds t
unfolding remove_line_feeds
remove-append [] t = refl
remove-append (c ∷ s) t = ground (arith, remove-append s t)

All-take : (n : ℕ) (s : List ℕ) → IsOneLine s → IsOneLine (take n s)
All-take zero s h = tt
All-take (suc n) [] h = tt
All-take (suc n) (c ∷ s) (hc, h) = (hc, All-take n s h)

All-drop : (n : ℕ) (s : List ℕ) → IsOneLine s → IsOneLine (drop n s)
All-drop zero s h = h
All-drop (suc n) [] h = tt
All-drop (suc n) (c ∷ s) (hc, h) = All-drop n s h

separator : Bool → List ℕ
separator last = if last then [] else 10 ∷ []

remove-separator : (last : Bool) → remove_line_feeds (separator last) ≡ []
unfolding remove_line_feeds separator
remove-separator true = refl
remove-separator false = refl

remove-break :
    (fuel distance : ℕ) (s : List ℕ)
    → length s ≤ fuel
    → 0 < distance
    → IsOneLine s
    → remove_line_feeds (break_loop fuel distance s) ≡ s
unfolding break_loop separator
remove-break fuel distance [] hf hd h = unfold remove_line_feeds in refl
remove-break zero distance (c ∷ s) hf hd h = absurd (omega arith)
remove-break (suc fuel) distance (c ∷ s) hf hd h =
    let n = min distance (length (c ∷ s)) in
    let rest = drop n (c ∷ s) in
    let feed = separator (length rest == 0) in
    let tail : remove_line_feeds (break_loop fuel distance rest) ≡ rest =
      remove-break fuel distance rest (omega (arith, length-drop n (c ∷ s))) hd
        (All-drop n (c ∷ s) h) in
    remove-append (take n (c ∷ s)) (feed ++ break_loop fuel distance rest)
    ∙ ap₂ ◌++◌ (remove-one_line (take n (c ∷ s)) (All-take n (c ∷ s) h)) (
        remove-append feed (break_loop fuel distance rest)
        ∙ ap₂ ◌++◌ (remove-separator (length rest == 0)) tail)
    ∙ take-append-drop n (c ∷ s)

remove-insert :
    (distance : ℕ) (s : List ℕ) → IsOneLine s → remove_line_feeds (insert_linebreaks s distance) ≡ s
unfolding insert_linebreaks
remove-insert distance s h =
    ground (arith, remove-one_line s h, remove-break (length s) distance s (omega arith))

-- With its line breaks removed first, the PEM and the MIME encoding of bytes decode to these bytes.
pub decode_lines :
    (bytes : List ℕ)
    → All IsByte bytes
    → (decode true (encode_pem bytes) ≡ ok bytes) × (decode true (encode_mime bytes) ≡ ok bytes)
unfolding decode encode_pem encode_mime
decode_lines bytes h =
    let plain : IsOneLine (encode false bytes) =
      rw (encode-eq-encoded false bytes h) (encoded_one_line false bytes h) in
    let back = decode-encode false bytes h in
    (
      rw (remove-insert 64 (encode false bytes) plain) back,
      rw (remove-insert 76 (encode false bytes) plain) back,
    )

-- The lengths of the lines of a text, `k` characters into the first.
abbrev pub line_lengths : ℕ → List ℕ → List ℕ
line_lengths k [] = k ∷ []
line_lengths k (c ∷ s) = if c == 10 then k ∷ line_lengths 0 s else line_lengths (k + 1) s

line_lengths-append :
    (k : ℕ) (s t : List ℕ) → IsOneLine s → line_lengths k (s ++ t) ≡ line_lengths (k + length s) t
line_lengths-append k [] t h = ap (λ n. line_lengths n t) (omega arith)
line_lengths-append k (c ∷ s) t (hc, h) =
    rw hc (line_lengths-append (k + 1) s t h ∙ ap (λ n. line_lengths n t) (omega arith))

line_lengths-rest :
    (fuel distance k : ℕ) (rest : List ℕ)
    → k ≤ distance
    → All (λ n. n ≤ distance) (line_lengths 0 (break_loop fuel distance rest))
    → All
        (λ n. n ≤ distance)
        (line_lengths k (separator (length rest == 0) ++ break_loop fuel distance rest))
unfolding break_loop separator
line_lengths-rest fuel distance k [] hk h = (hk, tt)
line_lengths-rest fuel distance k (c ∷ s) hk h = ground (arith, hk, h)

break-lengths :
    (fuel distance : ℕ) (s : List ℕ)
    → length s ≤ fuel
    → 0 < distance
    → IsOneLine s
    → All (λ n. n ≤ distance) (line_lengths 0 (break_loop fuel distance s))
unfolding break_loop separator
break-lengths fuel distance [] hf hd h = omega arith
break-lengths zero distance (c ∷ s) hf hd h = absurd (omega arith)
break-lengths (suc fuel) distance (c ∷ s) hf hd h =
    let n = min distance (length (c ∷ s)) in
    let rest = drop n (c ∷ s) in
    rw (line_lengths-append 0 (take n (c ∷ s)) _ (All-take n (c ∷ s) h)) (
      line_lengths-rest fuel distance (0 + length (take n (c ∷ s))) rest
        (omega (arith, length-take n (c ∷ s)))
        (break-lengths fuel distance rest (omega (arith, length-drop n (c ∷ s))) hd
          (All-drop n (c ∷ s) h)))

short-lengths :
    (distance : ℕ) (s : List ℕ)
    → length s ≤ distance
    → IsOneLine s
    → All (λ n. n ≤ distance) (line_lengths 0 s)
short-lengths distance s hl h =
    let one : line_lengths 0 s ≡ (0 + length s) ∷ [] =
      ap (line_lengths 0) (sym (append-nil s)) ∙ line_lengths-append 0 s [] h in
    rw one (omega arith)

insert-lengths :
    (distance : ℕ) (s : List ℕ)
    → 0 < distance
    → IsOneLine s
    → All (λ n. n ≤ distance) (line_lengths 0 (insert_linebreaks s distance))
unfolding insert_linebreaks
insert-lengths distance s hd h = elim (Bool-cases (length s == 0 || distance == 0)) [
  | inl e ↦ rw e (short-lengths distance s (ground arith) h)
  | inr e ↦ elim (Bool-cases ((length s - 1) / distance == 0)) [
    | inl f ↦
        let quotient : (length s - 1) / distance ≡ 0 = ground arith in
        rw (e, f) (short-lengths distance s (grind arith) h)
    | inr f ↦ rw (e, f) (break-lengths (length s) distance s (omega arith) hd h)
  ]
]

-- No line of a PEM encoding is longer than 64 characters, and none of a MIME encoding than 76.
pub line_bounds :
    (bytes : List ℕ)
    → All IsByte bytes
    → All (λ n. n ≤ 64) (line_lengths 0 (encode_pem bytes))
      × All (λ n. n ≤ 76) (line_lengths 0 (encode_mime bytes))
unfolding encode_pem encode_mime
line_bounds bytes h =
    let plain : IsOneLine (encode false bytes) =
      rw (encode-eq-encoded false bytes h) (encoded_one_line false bytes h) in
    (
      insert-lengths 64 (encode false bytes) (omega arith) plain,
      insert-lengths 76 (encode false bytes) (omega arith) plain,
    )
