-- ===== src/StreamId.antt =====
-- `encodeStreamId` and `decodeStreamId` of utils.ts. A text is the list of the codes of its characters.
-- The loop of the encoder makes at most 11 rounds, since 2^64 is below 58^11; the theorems show that
-- this is enough.
pub mod RoundTrip
pub mod Canonical
mod Tests
use Prim.Native.Char.{code}
use sorostream_sdk.Base.{
  ℕ, zero, suc, ◌+◌, ◌-◌, ◌*◌, ◌/◌, ◌%◌, ◌^◌, String, Option, none, some, List, [], ◌∷◌, nat_eq,
  ◌==◌, ltb, if◌then◌else◌,
}
use sorostream_sdk.Base.Result.{Result, ok, err}

abbrev pub codes : String → List ℕ
codes String.[] = []
codes (String.◌∷◌ c s) = code c ∷ codes s

abbrev pub base58_alphabet : List ℕ
base58_alphabet = codes "123456789ABCDEFGHJKLMNPQRSTUVWXYZabcdefghijkmnopqrstuvwxyz"

abbrev pub u64_max : ℕ
u64_max = 2 ^ 64 - 1

pub data StreamIdError : Type 0 where
  out_of_range empty_string : StreamIdError
  invalid_character : ℕ → StreamIdError

-- `BASE58_ALPHABET[i]`, for a place in the alphabet.
unfoldable pub char_at : List ℕ → ℕ → ℕ
char_at [] i = 0
char_at (c ∷ cs) zero = c
char_at (c ∷ cs) (suc i) = char_at cs i

-- `BASE58_MAP[ch]`, from the number of the first place on.
unfoldable pub digit_from : List ℕ → ℕ → ℕ → Option ℕ
digit_from [] i ch = none
digit_from (c ∷ cs) i ch = if c == ch then some i else digit_from cs (i + 1) ch

unfoldable pub base58_map : ℕ → Option ℕ
unfolding digit_from
base58_map ch = digit_from base58_alphabet 0 ch

unfoldable pub encode_from : ℕ → ℕ → List ℕ → List ℕ
unfolding char_at
encode_from zero n result = result
encode_from (suc rounds) n result =
    let rest = encode_from rounds (n / 58) (char_at base58_alphabet (n % 58) ∷ result) in
    if n == 0 then result else rest

abbrev pub max_rounds : ℕ
max_rounds = 11

unfoldable pub encode_stream_id : ℕ → Result StreamIdError (List ℕ)
encode_stream_id id =
    if ltb u64_max id
    then err out_of_range
    else if id == 0
    then ok (codes "1")
    else ok (encode_from max_rounds id [])

unfoldable pub decode_from : List ℕ → ℕ → Result StreamIdError ℕ
unfolding base58_map
decode_from [] result = if ltb u64_max result then err out_of_range else ok result
decode_from (ch ∷ rest) result = elim (base58_map ch) [
  | none ↦ err (invalid_character ch)
  | some digit ↦ decode_from rest (result * 58 + digit)
]

unfoldable pub decode_stream_id : List ℕ → Result StreamIdError ℕ
decode_stream_id [] = err empty_string
decode_stream_id (ch ∷ rest) = decode_from (ch ∷ rest) 0
