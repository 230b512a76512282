-- ===== src/StreamId/Canonical.antt =====
-- What the decoder accepts, the encoder writes again, if it has no leading zero digit.
use native.Mathlib.Nat.{pow-suc, pow-le-pow_right, one-le-pow}
use sorostream_sdk.Base.{
  ℕ, zero, suc, ◌+◌, ◌-◌, ◌*◌, ◌/◌, ◌%◌, ◌^◌, ◌≤◌, ◌<◌, ◌≡◌, ◌≢◌, refl, sym, ap, ◌∙◌, inl, inr,
  some, List, [], ◌∷◌, ◌++◌, nat_eq, ◌==◌, ltb, if_elim, length, Bool-cases, Option-cases, arith,
}
use mathlib.Core.List.{append-nil}
use sorostream_sdk.Base.Result.{ok, err}
use sorostream_sdk.StreamId.{
  base58_alphabet, u64_max, invalid_character, char_at, digit_from, base58_map, encode_from,
  encode_stream_id, decode_from, decode_stream_id,
}

char_at-digit_from :
    (cs : List ℕ) (i ch d : ℕ)
    → digit_from cs i ch ≡ some d
    → (i ≤ d) × (d < i + length cs) × (char_at cs (d - i) ≡ ch)
unfolding digit_from char_at
char_at-digit_from [] i ch d h = absurd (ground (arith, h))
char_at-digit_from (c ∷ cs) i ch d h = elim (Bool-cases (c == ch)) [
  | inl same ↦
      let e : d ≡ i = ground (arith, h, same) in
      let place : d - i ≡ 0 = omega (arith, e) in
      (omega arith, omega arith, ap (char_at (c ∷ cs)) place ∙ ground (arith, same))
  | inr other ↦
      let rest : digit_from cs (i + 1) ch ≡ some d = ground (arith, h, other) in
      let (low, high, found) = char_at-digit_from cs (i + 1) ch d rest in
      let place : d - i ≡ suc (d - (i + 1)) = omega (arith, low) in
      (omega (arith, low), omega (arith, high), ap (char_at (c ∷ cs)) place ∙ found)
]

-- The digit of a character gives back the character.
record IsRead (ch : ℕ) (d : ℕ) : Type 0 where
  small : d < 58
  char : char_at base58_alphabet d ≡ ch

base58_map-IsRead : (ch d : ℕ) → base58_map ch ≡ some d → IsRead ch d
unfolding base58_map
base58_map-IsRead ch d h =
    let (low, high, found) = char_at-digit_from base58_alphabet 0 ch d h in
    record {
      small = omega (arith, high);
      char = ap (char_at base58_alphabet) (omega arith) ∙ found;
    }

-- A character that is decoded, and the rest.
record First (ch : ℕ) (rest : List ℕ) (acc n : ℕ) : Type 0 where
  digit : ℕ
  read : IsRead ch digit
  later : decode_from rest (acc * 58 + digit) ≡ ok n

read-First :
    (ch : ℕ) (rest : List ℕ) (acc n : ℕ) → decode_from (ch ∷ rest) acc ≡ ok n → First ch rest acc n
unfolding decode_from
read-First ch rest acc n h = elim (Option-cases (base58_map ch)) [
  | inl e ↦
      let bad : decode_from (ch ∷ rest) acc ≡ err (invalid_character ch) =
        rw (e, decode_from) refl in
      absurd (ground (arith, sym bad ∙ h))
  | inr (d, e) ↦
      let good : decode_from (ch ∷ rest) acc ≡ decode_from rest (acc * 58 + d) =
        rw (e, decode_from) refl in
      record { digit = d; read = base58_map-IsRead ch d e; later = sym good ∙ h }
]

last_of : (acc n : ℕ) → decode_from [] acc ≡ ok n → (acc ≡ n) × (n ≤ u64_max)
unfolding decode_from
last_of acc n h = ground (arith, h)

grow : (acc d p q : ℕ) → q ≡ p * 58 → acc * q ≤ (acc * 58 + d) * p
grow acc d p q e = rw e (grind arith)

-- The value grows by a factor of 58 with each character.
decode_from-ge :
    (s : List ℕ) (acc n : ℕ) → decode_from s acc ≡ ok n → (acc * 58 ^ length s ≤ n) × (n ≤ u64_max)
decode_from-ge [] acc n h = let (e, k) = last_of acc n h in (omega (arith, e), k)
decode_from-ge (ch ∷ s) acc n h =
    let f : First ch s acc n = read-First ch s acc n h in
    let (low, high) = decode_from-ge s (acc * 58 + f.digit) n f.later in
    (omega (arith, low, grow acc f.digit (58 ^ length s) _ (pow-suc 58 (length s))), high)

encode_digit :
    (rounds acc ch d : ℕ) (out : List ℕ)
    → IsRead ch d
    → 0 < acc * 58 + d
    → encode_from (suc rounds) (acc * 58 + d) out ≡ encode_from rounds acc (ch ∷ out)
unfolding encode_from
encode_digit rounds acc ch d out r h =
    let front : (acc * 58 + d) / 58 ≡ acc = omega (arith, r.small) in
    let last : (acc * 58 + d) % 58 ≡ d = omega (arith, r.small) in
    if_elim (λ l. l ≡ encode_from rounds acc (ch ∷ out)) (acc * 58 + d == 0)
      (λ nil. absurd (ground (arith, nil, h))) (λ more. rw (front, last, r.char) refl)

encode-decode_from :
    (s : List ℕ) (acc n rounds : ℕ) (out : List ℕ)
    → 0 < acc
    → decode_from s acc ≡ ok n
    → encode_from (length s + rounds) n out ≡ encode_from rounds acc (s ++ out)
encode-decode_from [] acc n rounds out h k =
    ap (λ m. encode_from m n out) (omega arith)
    ∙ ap (λ m. encode_from rounds m out) (sym (last_of acc n k).0)
encode-decode_from (ch ∷ s) acc n rounds out h k =
    let f : First ch s acc n = read-First ch s acc n k in
    let rest = encode-decode_from s (acc * 58 + f.digit) n (suc rounds) out (omega arith) f.later in
    ap (λ m. encode_from m n out) (omega arith)
    ∙ rest
    ∙ encode_digit rounds acc ch f.digit (s ++ out) f.read (omega arith)

decode_start :
    (s : List ℕ) (n : ℕ) → decode_stream_id s ≡ ok n → (s ≢ []) × (decode_from s 0 ≡ ok n)
unfolding decode_stream_id
decode_start [] n h = absurd (ground (arith, h))
decode_start (ch ∷ s) n h = ((λ e. absurd (ground (arith, e))), h)

lead_digit : (ch d : ℕ) → IsRead ch d → ch ≢ 49 → 0 < d
unfolding char_at
lead_digit ch zero r lead = absurd (lead (sym r.char))
lead_digit ch (suc d) r lead = omega arith

power_below : (d p n : ℕ) → 0 < d → d * p ≤ n → p ≤ n
power_below d p n h k = grind arith

at_most_ten : (k : ℕ) → 58 ^ k ≤ u64_max → k ≤ 10
at_most_ten k h = elim (Bool-cases (ltb 10 k)) [
  | inl long ↦
      let large : 58 ^ 11 ≤ 58 ^ k =
        pow-le-pow_right {n = 58} (omega arith) {i = 11} {j = k} (ground (arith, long)) in
      absurd (omega (arith, large, h))
  | inr short ↦ ground (arith, short)
]

encode_zero : (rounds : ℕ) (out : List ℕ) → encode_from rounds 0 out ≡ out
unfolding encode_from
encode_zero zero out = refl
encode_zero (suc rounds) out = refl

-- A text whose first character is not the digit zero, `1`, and that is decoded is what the result is
-- encoded as.
pub encode_stream_id-decode_stream_id :
    (ch : ℕ) (s : List ℕ) (id : ℕ)
    → ch ≢ 49
    → decode_stream_id (ch ∷ s) ≡ ok id
    → encode_stream_id id ≡ ok (ch ∷ s)
unfolding encode_stream_id
encode_stream_id-decode_stream_id ch s id lead h =
    let f : First ch s 0 id = read-First ch s 0 id (decode_start (ch ∷ s) id h).1 in
    let positive : 0 < f.digit = lead_digit ch f.digit f.read lead in
    let (low, high) = decode_from-ge s (0 * 58 + f.digit) id f.later in
    let power : 58 ^ length s ≤ id =
      power_below f.digit (58 ^ length s) id positive (omega (arith, low)) in
    let short : length s ≤ 10 = at_most_ten (length s) (omega (arith, power, high)) in
    let some_id : 1 ≤ id = omega (arith, power, one-le-pow (length s) 58 (omega arith)) in
    let back : encode_from 11 id [] ≡ ch ∷ s =
      ap (λ m. encode_from m id []) (omega (arith, short))
      ∙ encode-decode_from s (0 * 58 + f.digit) id (suc (10 - length s)) []
          (omega (arith, positive)) f.later
      ∙ encode_digit (10 - length s) 0 ch f.digit (s ++ []) f.read (omega (arith, positive))
      ∙ encode_zero (10 - length s) (ch ∷ (s ++ []))
      ∙ ap (λ l. ch ∷ l) (append-nil s) in
    if_elim (λ r. r ≡ ok (ch ∷ s)) (ltb u64_max id) (λ over. absurd (ground (arith, over, high)))
      (λ fits.
        if_elim (λ r. r ≡ ok (ch ∷ s)) (id == 0) (λ nil. absurd (ground (arith, nil, some_id)))
          (λ more. ap ok back))
