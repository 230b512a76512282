-- ===== src/Mock/Creation.antt =====
-- `createStream`: its early exits, and the stream that it adds.
use sorostream_sdk.Base.{
  ℕ, suc, ◌≤◌, ◌≡◌, ◌≢◌, ◌⊎◌, inl, inr, String, false, some, List, string_eq, arith,
}
use text.Mathlib.TextEquality.{eq_iff}
use sorostream_sdk.Base.Dict
use sorostream_sdk.Base.Decimal.{to_string}
use sorostream_sdk.Base.Int.{pos, sign_cases}
use sorostream_sdk.Base.Result.{ok}
use sorostream_sdk.Stream.{Stream}
use sorostream_sdk.Mock.State.{Client}
use sorostream_sdk.Mock.Create.{
  CreateStreamParams, WriteOptions, create_stream, new_stream, created, passed, first_of_two,
}
use sorostream_sdk.Mock.Backing.{new_stream-IsBacked}
use sorostream_sdk.Mock.Solvency.{Command, IsChronological, run, total_paid, run-solvent}

-- What a `createStream` that returns a stream id has found and done.
pub record IsCreated (now : ℕ) (p : CreateStreamParams) (o : WriteOptions) (c : Client)
    (id : String) : Type 0 where
  pub value : ℕ
  pub duration : ℕ
  pub paid_in : p.amount ≡ pos (suc value)
  pub lasting : p.duration_seconds ≡ pos (suc duration)
  pub real_run : (o.dry_run ≡ false) × (p.flags.dry_run ≡ false)
  pub to_other : (c.sender_key ≡ "") ⊎ (p.recipient ≢ c.sender_key)
  pub in_time : passed (first_of_two p.start_time p.start_time_alias) now ≡ false
  pub fresh : id ≡ to_string c.next_id
  pub written :
      (create_stream now p o c).0.streams
      ≡ Dict.set id (new_stream now id c.sender_key p (suc value) (suc duration)) c.streams

module _ (now : ℕ) (p : CreateStreamParams) (o : WriteOptions) (c : Client) (id hash : String)
    (done : (create_stream now p o c).1 ≡ ok (created id hash)) where
  created_value : (v : ℕ) × (p.amount ≡ pos (suc v))
  unfolding create_stream
  created_value = elim (sign_cases p.amount) [
    | inl found ↦ found
    | inr (inl e) ↦ absurd (ground arith)
    | inr (inr (n, e)) ↦ absurd (ground arith)
  ]

  module _ (v : ℕ) (paid_in : p.amount ≡ pos (suc v)) where
    created_real : (o.dry_run ≡ false) × (p.flags.dry_run ≡ false)
    unfolding create_stream
    created_real = ground arith

    created_shown : (o.explain ≡ false) × (p.flags.explain ≡ false)
    unfolding create_stream
    created_shown = ground arith

    created_duration : (d : ℕ) × (p.duration_seconds ≡ pos (suc d))
    unfolding create_stream
    created_duration = elim (sign_cases p.duration_seconds) [
      | inl found ↦ found
      | inr (inl e) ↦ absurd (ground arith)
      | inr (inr (n, e)) ↦ absurd (ground arith)
    ]

    module _ (d : ℕ) (lasting : p.duration_seconds ≡ pos (suc d)) where
      created_to_other : (c.sender_key ≡ "") ⊎ (p.recipient ≢ c.sender_key)
      unfolding create_stream
      created_to_other = ground (
        arith,
        created_real,
        created_shown,
        eq_iff c.sender_key "",
        eq_iff p.recipient c.sender_key,
      )

      created_in_time : passed (first_of_two p.start_time p.start_time_alias) now ≡ false
      unfolding create_stream
      created_in_time = ground (arith, created_real, created_shown)

      created_fresh : id ≡ to_string c.next_id
      unfolding create_stream
      created_fresh = ground (arith, created_real, created_shown)

      created_written :
          (create_stream now p o c).0.streams
          ≡ Dict.set id (new_stream now id c.sender_key p (suc v) (suc d)) c.streams
      unfolding create_stream
      created_written = ground (arith, created_real, created_shown, created_in_time)

-- `createStream` returns a stream id only of a run that is no dry run, for a positive amount and
-- duration, a recipient that is not the sender or a client without a sender key, and a start that has
-- not passed. It has then written the new stream under the next id and no other.
pub create_stream-IsCreated :
    (now : ℕ) (p : CreateStreamParams) (o : WriteOptions) (c : Client) (id hash : String)
    → (create_stream now p o c).1 ≡ ok (created id hash)
    → IsCreated now p o c id
create_stream-IsCreated now p o c id hash done =
    let (v, paid_in) = created_value now p o c id hash done in
    let (d, lasting) = created_duration now p o c id hash done v paid_in in
    record {
      value = v;
      duration = d;
      paid_in = paid_in;
      lasting = lasting;
      real_run = created_real now p o c id hash done v paid_in;
      to_other = created_to_other now p o c id hash done v paid_in d lasting;
      in_time = created_in_time now p o c id hash done v paid_in d lasting;
      fresh = created_fresh now p o c id hash done v paid_in d lasting;
      written = created_written now p o c id hash done v paid_in d lasting;
    }

-- A stream that `createStream` has made pays out at most its deposit, top-ups included, over any
-- later run of withdrawals, cancellations, top-ups, transfers, locks and pauses in chronological
-- order.
pub create_stream-solvent :
    (now : ℕ) (p : CreateStreamParams) (o : WriteOptions) (c : Client) (id hash : String)
    (ks : List (ℕ × Command))
    → (create_stream now p o c).1 ≡ ok (created id hash)
    → IsChronological now ks
    → (s : Stream) × (Dict.get id (run ks (create_stream now p o c).0).streams ≡ some s)
      × (total_paid id ks (create_stream now p o c).0 ≤ s.deposit)
create_stream-solvent now p o c id hash ks done t =
    let k = create_stream-IsCreated now p o c id hash done in
    run-solvent ks now id (create_stream now p o c).0 t (
      rw (k.written, Dict.get-set_self)
        (new_stream-IsBacked now id c.sender_key p (suc k.value) (suc k.duration)))
