-- ===== src/StreamId/RoundTrip.antt =====
-- What the encoder writes, the decoder reads back.
use sorostream_sdk.Base.{
  ℕ, zero, suc, ◌/◌, ◌%◌, ◌^◌, ◌≤◌, ◌<◌, ◌≡◌, ◌≢◌, refl, ap, ◌∙◌, inl, inr, Bool, true, false, ◌&&◌,
  Option, none, some, List, [], ◌∷◌, nat_eq, ◌==◌, ltb, if_elim, Bool-cases, arith,
}
use native.Mathlib.Nat.{pow-suc}
use sorostream_sdk.Base.Result.{ok, ◌>>=◌}
use sorostream_sdk.StreamId.{
  codes, base58_alphabet, u64_max, char_at, digit_from, base58_map, encode_from, encode_stream_id,
  decode_from, decode_stream_id,
}

abbrev is_digit : Option ℕ → ℕ → Bool
is_digit none d = false
is_digit (some e) d = e == d

abbrev reads_below : ℕ → Bool
reads_below zero = true
reads_below (suc d) = is_digit (base58_map (char_at base58_alphabet d)) d && reads_below d

all_read : reads_below 58 ≡ true
unfolding base58_map digit_from char_at
all_read = refl

is_digit-eq : (o : Option ℕ) (d : ℕ) → is_digit o d ≡ true → o ≡ some d
is_digit-eq none d h = absurd (ground arith)
is_digit-eq (some e) d h = ap some (ground (arith, h))

reads_each :
    (n d : ℕ) → reads_below n ≡ true → d < n → base58_map (char_at base58_alphabet d) ≡ some d
reads_each zero d h l = absurd (omega arith)
reads_each (suc n) d h l = elim (Bool-cases (d == n)) [
  | inl same ↦ ground (arith, h, same, is_digit-eq (base58_map (char_at base58_alphabet n)) n)
  | inr other ↦ reads_each n d (ground (arith, h)) (ground (arith, other))
]

-- Each digit is read back from its character.
base58_map-char_at : (d : ℕ) → d < 58 → base58_map (char_at base58_alphabet d) ≡ some d
base58_map-char_at d h = reads_each 58 d all_read h

decode_digit :
    (n : ℕ) (result : List ℕ)
    → decode_from (char_at base58_alphabet (n % 58) ∷ result) (n / 58) ≡ decode_from result n
unfolding decode_from
decode_digit n result =
    rw (base58_map-char_at (n % 58) (omega arith), decode_from)
      (ap (decode_from result) (omega arith))

decode-encode_from :
    (rounds n : ℕ) (result : List ℕ)
    → n < 58 ^ rounds
    → decode_from (encode_from rounds n result) 0 ≡ decode_from result n
unfolding encode_from
decode-encode_from zero n result h = ap (decode_from result) (omega arith)
decode-encode_from (suc rounds) n result h = elim (Bool-cases (n == 0)) [
  | inl nil ↦ rw nil (ap (decode_from result) (ground (arith, nil)))
  | inr more ↦
      let small : n / 58 < 58 ^ rounds = omega (arith, pow-suc 58 rounds, h) in
      rw more (
        decode-encode_from rounds (n / 58) (char_at base58_alphabet (n % 58) ∷ result) small
        ∙ decode_digit n result)
]

encode_from-nonempty : (rounds n c : ℕ) (cs : List ℕ) → encode_from rounds n (c ∷ cs) ≢ []
unfolding encode_from
encode_from-nonempty zero n c cs e = absurd (ground (arith, e))
encode_from-nonempty (suc rounds) n c cs e =
    if_elim (λ l. l ≢ []) (n == 0) (λ nil q. absurd (ground (arith, q)))
      (λ more. encode_from-nonempty rounds (n / 58) (char_at base58_alphabet (n % 58)) (c ∷ cs)) e

decode_nonempty : (cs : List ℕ) → cs ≢ [] → decode_stream_id cs ≡ decode_from cs 0
unfolding decode_stream_id
decode_nonempty [] h = absurd (h refl)
decode_nonempty (c ∷ cs) h = refl

encode_positive : (rounds n : ℕ) → 0 < n → encode_from (suc rounds) n [] ≢ []
unfolding encode_from
encode_positive rounds n h =
    if_elim (λ l. l ≢ []) (n == 0) (λ nil e. absurd (ground (arith, nil, h)))
      (λ more. encode_from-nonempty rounds (n / 58) (char_at base58_alphabet (n % 58)) [])

read_one : decode_stream_id (codes "1") ≡ ok 0
unfolding decode_stream_id decode_from base58_map digit_from
read_one = refl

read_end : (id : ℕ) → id ≤ u64_max → decode_from [] id ≡ ok id
unfolding decode_from
read_end id h =
    if_elim (λ r. r ≡ ok id) (ltb u64_max id) (λ over. absurd (ground (arith, over, h)))
      (λ fits. refl)

-- Every u64 is read back from its base58 text.
pub decode_stream_id-encode_stream_id :
    (id : ℕ) → id ≤ u64_max → (encode_stream_id id >>= decode_stream_id) ≡ ok id
unfolding encode_stream_id
decode_stream_id-encode_stream_id id h =
    if_elim (λ r. (r >>= decode_stream_id) ≡ ok id) (ltb u64_max id)
      (λ over. absurd (ground (arith, over, h)))
      (λ fits.
        if_elim (λ r. (r >>= decode_stream_id) ≡ ok id) (id == 0)
          (λ nil. read_one ∙ ap ok (ground (arith, nil)))
          (λ more.
            decode_nonempty _ (encode_positive 10 id (ground (arith, more)))
            ∙ decode-encode_from 11 id [] (omega (arith, h))
            ∙ read_end id h))
