-- ===== src/Portfolio/Tests.antt =====
-- Reports over two concrete streams.
use sorostream_sdk.Base.{
  ◌+◌, ◌≡◌, ◌≤◌, refl, String, true, some, none, List, [], ◌∷◌, map, filter, nat_eq, string_eq,
  ◌==◌, sum_of, length, All, arith,
}
use sorostream_sdk.Base.Dict
use sorostream_sdk.Base.Dict.{Dict}
use sorostream_sdk.Base.Sort.{sort_on}
use sorostream_sdk.Base.Result.{ok}
use sorostream_sdk.Stream.{Stream}
use sorostream_sdk.Samples.{salary}
use sorostream_sdk.Portfolio.Totals.{
  StreamTotals, Aggregate, total_value_streamed, aggregate_by, value_of,
}
use sorostream_sdk.Portfolio.Select.{
  filter_streams, passes, by_start_time, by_end_time, by_amount, sort_streams,
  average_stream_duration,
}
use sorostream_sdk.Portfolio.Balance.{Fits, total_value_streamed-Balanced}
use sorostream_sdk.Portfolio.Groups.{IsNamed, IsTotalOf, figures, aggregate_by-Totals}
use sorostream_sdk.Portfolio.Funding.{IsStableSort, sort_streams-IsStable}

abbrev bonus : Stream
bonus = record salary { id = "2"; token = "xlm"; deposit = 5000; end_time = 300 }

abbrev streams : List Stream
streams = salary ∷ bonus ∷ []

streams-Fits : All Fits streams
streams-Fits = (omega arith, (omega arith, tt))

total_value_streamed-Balanced_example :
    (t : StreamTotals) × (total_value_streamed streams 150000 ≡ ok t)
    × (t.total_claimed + t.total_remaining ≡ t.total_deposited)
    × (t.total_claimable ≤ t.total_remaining)
    × (t.total_deposited ≡ sum_of (λ (s : Stream). s.deposit) streams)
    × (t.total_streams ≡ length streams)
total_value_streamed-Balanced_example = total_value_streamed-Balanced streams 150000 streams-Fits

aggregate_by-Totals_example :
    (groups : Dict String Aggregate) × (aggregate_by (λ (s : Stream). s.token) streams 150000
      ≡ ok (sort_on (λ (a : Aggregate). a.deposited) true (map value_of groups)))
    × All IsNamed groups
    × Dict.IsKeyed groups
    × ((k : String)
        → (t : StreamTotals) × (total_value_streamed
              (filter (λ (s : Stream). s.token == k) streams)
              150000
            ≡ ok t)
          × IsTotalOf (figures (Dict.get k groups)) t)
aggregate_by-Totals_example =
    aggregate_by-Totals (λ (s : Stream). s.token) streams 150000 streams-Fits

sort_streams-IsStable_example :
    IsStableSort (λ s. s.start_time) true streams (sort_streams streams by_start_time true)
    × IsStableSort (λ s. s.end_time) true streams (sort_streams streams by_end_time true)
    × IsStableSort (λ s. s.deposit) true streams (sort_streams streams by_amount true)
sort_streams-IsStable_example = sort_streams-IsStable streams true

median_duration : (average_stream_duration streams).median ≡ 150
unfolding average_stream_duration sort_on
median_duration = refl

ending_late :
    length (
      filter_streams streams
        (record {
          status = none;
          sender = none;
          recipient = some "bob";
          token = none;
          active_only = true;
          start_time_from = none;
          start_time_to = none;
          end_time_from = some 250;
          end_time_to = none;
        })
        150000)
    ≡ 1
unfolding filter_streams passes filter
ending_late = refl
