-- ===== src/Mock/Reads.antt =====
-- The reads of mock.ts that go through ids and pages. The optional `filter` of the lists is
-- `filterStreams` of utils.ts, a parameter here.
pub mod Pages
pub mod Walk
pub mod Batch
use sorostream_sdk.Base.{
  ℕ, zero, suc, ◌+◌, ◌-◌, String, Bool, true, false, ◌&&◌, Option, none, some, List, [], ◌∷◌, ◌++◌,
  nat_eq, string_eq, ◌==◌, ltb, if◌then◌else◌, contains, filter, length, take,
}
use sorostream_sdk.Base.Dict
use sorostream_sdk.Base.Dict.{Dict}
use sorostream_sdk.Base.Int.{ℤ, pos, negsuc}
use sorostream_sdk.Base.Result.{Result, ok, err}
use sorostream_sdk.Stream.{Stream, ClaimError}
use sorostream_sdk.Mock.State.{Error, Client, M, pure, throw, ◌>>=◌, find, stream_not_found}
use sorostream_sdk.Mock.Claimable.{claimable_at}
use sorostream_sdk.Mock.Create.{CreateStreamParams, CreateResult, WriteOptions, create_stream}

abbrev is_positive : ℤ → Bool
is_positive (pos zero) = false
is_positive (pos (suc n)) = true
is_positive (negsuc n) = false

-- `isValid` of `simulateStream`.
unfoldable pub simulate_stream : CreateStreamParams → Bool
simulate_stream p = is_positive p.amount && is_positive p.duration_seconds

unfoldable pub get_stream : String → M Stream
get_stream id = find id

-- The loop that drops the ids that were asked for before.
unfoldable pub distinct_from : List String → List String → List String
unfolding contains
distinct_from requested [] = requested
distinct_from requested (id ∷ ids) =
    distinct_from (if contains requested id then requested else requested ++ id ∷ []) ids

-- The streams of the ids, and the ids that have none.
unfoldable pub look_up : Dict String Stream → List String → List Stream × List String
look_up m [] = ([], [])
look_up m (id ∷ ids) =
    let (streams, missing) = look_up m ids in
    elim (Dict.get id m) [ some s ↦ (s ∷ streams, missing) | none ↦ (streams, id ∷ missing) ]

pub record BatchStreamsResult : Type 0 where
  pub streams : List Stream
  pub missing : List String
  pub rpc_calls : ℕ

abbrev strictly : Bool → List String → BatchStreamsResult → M BatchStreamsResult
strictly true (id ∷ missing) r = throw (stream_not_found id)
strictly _ _ r = pure r

abbrev calls_for : List String → ℕ
calls_for [] = 0
calls_for (id ∷ ids) = 1

unfoldable pub get_streams_batch : List String → Bool → M BatchStreamsResult
unfolding distinct_from look_up
get_streams_batch ids strict c =
    let requested = distinct_from [] ids in
    let (streams, missing) = look_up c.streams requested in
    strictly strict missing
      (record { streams = streams; missing = missing; rpc_calls = calls_for requested }) c

abbrev balance_of : ℕ → Option Stream → Result ClaimError ℕ
balance_of now none = ok 0
balance_of now (some s) = claimable_at s now

unfoldable pub get_claimable : ℕ → String → Client → Result ClaimError ℕ
get_claimable now id c = balance_of now (Dict.get id c.streams)

pub record PaginationParams : Type 0 where
  pub limit : Option ℕ
  pub cursor : Option String

pub record PaginatedStreams : Type 0 where
  pub streams : List Stream
  pub cursor : Option String
  pub has_more : Bool

-- `all.findIndex((s) => s.id === cursor) + 1`
unfoldable pub after_cursor : String → List Stream → ℕ
after_cursor cursor [] = 0
after_cursor cursor (s ∷ ss) =
    let rest = after_cursor cursor ss in
    if s.id == cursor then 1 else if rest == 0 then 0 else suc rest

-- An absent or empty cursor starts at the front.
unfoldable pub start_of : Option String → List Stream → ℕ
unfolding after_cursor
start_of none all = 0
start_of (some cursor) all = if cursor == "" then 0 else after_cursor cursor all

abbrev pub skip : ℕ → List Stream → List Stream
skip zero ss = ss
skip (suc n) [] = []
skip (suc n) (s ∷ ss) = skip n ss

abbrev pub last_id : List Stream → Option String
last_id [] = none
last_id (s ∷ []) = some s.id
last_id (s ∷ t ∷ ss) = last_id (t ∷ ss)

abbrev pub or_twenty : Option ℕ → ℕ
or_twenty none = 20
or_twenty (some n) = n

-- `_paginate`, with pagination.
unfoldable pub paginate : List Stream → PaginationParams → PaginatedStreams
unfolding start_of
paginate all p =
    let start = start_of p.cursor all in
    let page = take (or_twenty p.limit) (skip start all) in
    record {
      streams = page;
      cursor = last_id page;
      has_more = ltb (start + or_twenty p.limit) (length all);
    }

abbrev values : Dict String Stream → List Stream
values [] = []
values ((id, s) ∷ m) = s ∷ values m

-- The lists of `getStreamsBySender` and `getStreamsByRecipient`, before the pagination.
unfoldable pub streams_by_sender : (List Stream → List Stream) → String → Client → List Stream
streams_by_sender filter_streams sender c =
    filter_streams (filter (λ s. s.sender == sender) (values c.streams))

unfoldable pub streams_by_recipient : (List Stream → List Stream) → String → Client → List Stream
streams_by_recipient filter_streams recipient c =
    filter_streams (filter (λ s. s.recipient == recipient) (values c.streams))
