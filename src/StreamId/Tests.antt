-- ===== src/StreamId/Tests.antt =====
-- Texts of concrete ids.
use sorostream_sdk.Base.{◌≡◌, refl, [], ◌∷◌, arith}
use sorostream_sdk.Base.Result.{ok, err, ◌>>=◌}
use sorostream_sdk.StreamId.{
  codes, u64_max, invalid_character, out_of_range, empty_string, encode_stream_id, encode_from,
  char_at, decode_stream_id, decode_from, base58_map, digit_from,
}
use sorostream_sdk.StreamId.RoundTrip.{decode_stream_id-encode_stream_id}
use sorostream_sdk.StreamId.Canonical.{encode_stream_id-decode_stream_id}

largest_text : encode_stream_id u64_max ≡ ok (codes "jpXCZedGfVQ")
unfolding encode_stream_id encode_from char_at
largest_text = refl

no_text : decode_stream_id [] ≡ err empty_string
unfolding decode_stream_id
no_text = refl

letter_l : decode_stream_id (codes "1l") ≡ err (invalid_character 108)
unfolding decode_stream_id decode_from base58_map digit_from
letter_l = refl

above_u64 : decode_stream_id (codes "jpXCZedGfVR") ≡ err out_of_range
unfolding decode_stream_id decode_from base58_map digit_from
above_u64 = refl

decode_stream_id-encode_stream_id_example :
    (encode_stream_id 1234567 >>= decode_stream_id) ≡ ok 1234567
decode_stream_id-encode_stream_id_example = decode_stream_id-encode_stream_id 1234567 (omega arith)

-- The text of 60 is "23", with the codes 50 and 51.
encode_stream_id-decode_stream_id_example : encode_stream_id 60 ≡ ok (50 ∷ 51 ∷ [])
unfolding decode_stream_id decode_from base58_map digit_from
encode_stream_id-decode_stream_id_example =
    encode_stream_id-decode_stream_id 50 (51 ∷ []) 60 (omega arith) refl
