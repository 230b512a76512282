-- ===== src/Portfolio/Select.antt =====
-- `filterStreams`, `sortStreams`, `detectStreamDrift` and `averageStreamDuration` of utils.ts.
use sorostream_sdk.Base.{
  ℕ, ◌+◌, ◌-◌, ◌*◌, ◌/◌, ◌%◌, String, Bool, true, false, ◌&&◌, ◌||◌, not, some, none, Option, List,
  [], ◌∷◌, nat_eq, string_eq, ◌==◌, ltb, if◌then◌else◌, length, map, filter, sum_of,
}
use sorostream_sdk.Base.Sort.{sort_on}
use sorostream_sdk.Stream.{Stream, StreamStatus, active, cancelled, completed, paused}
use sorostream_sdk.Portfolio.{is_active, is_expired}

-- The name of a status, as the source has it.
abbrev pub status_name : StreamStatus → String
status_name active = "Active"
status_name cancelled = "Cancelled"
status_name completed = "Completed"
status_name paused = "Paused"

pub record StreamFilter : Type 0 where
  pub status : Option StreamStatus
  pub sender : Option String
  pub recipient : Option String
  pub token : Option String
  pub active_only : Bool
  pub start_time_from : Option ℕ
  pub start_time_to : Option ℕ
  pub end_time_from : Option ℕ
  pub end_time_to : Option ℕ

-- A criterion that is left out is met.
abbrev pub meets {ℓ} : {A : Type ℓ} → (A → Bool) → Option A → Bool
meets test none = true
meets test (some a) = test a

unfoldable pub passes : StreamFilter → ℕ → Stream → Bool
unfolding is_expired
passes f now s =
    meets (λ v. status_name s.status == status_name v) f.status
    && (meets (λ v. s.sender == v) f.sender
        && (meets (λ v. s.recipient == v) f.recipient
            && (meets (λ v. s.token == v) f.token
                && ((not f.active_only || (is_active s.status && not (is_expired s now)))
                    && (meets (λ v. not (ltb s.start_time v)) f.start_time_from
                        && (meets (λ v. not (ltb v s.start_time)) f.start_time_to
                            && (meets (λ v. not (ltb s.end_time v)) f.end_time_from
                                && meets (λ v. not (ltb v s.end_time)) f.end_time_to)))))))

unfoldable pub filter_streams : List Stream → StreamFilter → ℕ → List Stream
unfolding passes
filter_streams streams f now = filter (passes f now) streams

pub data StreamSortField : Type 0 where
  by_start_time by_end_time by_amount : StreamSortField

abbrev pub sort_key : StreamSortField → Stream → ℕ
sort_key by_start_time s = s.start_time
sort_key by_end_time s = s.end_time
sort_key by_amount s = s.deposit

unfoldable pub sort_streams : List Stream → StreamSortField → Bool → List Stream
sort_streams streams field descending = sort_on (sort_key field) descending streams

pub data DriftField : Type 0 where
  status deposit flow_rate end_time last_withdraw_time auto_renew : DriftField

abbrev flag : Bool → ℕ
flag true = 1
flag false = 0

-- Whether a field's values have different texts.
abbrev pub differs : DriftField → Stream → Stream → Bool
differs status a b = not (status_name a.status == status_name b.status)
differs deposit a b = not (a.deposit == b.deposit)
differs flow_rate a b = not (a.flow_rate == b.flow_rate)
differs end_time a b = not (a.end_time == b.end_time)
differs last_withdraw_time a b = not (a.last_withdraw_time == b.last_withdraw_time)
differs auto_renew a b = not (flag a.auto_renew == flag b.auto_renew)

abbrev pub drift_fields : List DriftField
drift_fields = status ∷ deposit ∷ flow_rate ∷ end_time ∷ last_withdraw_time ∷ auto_renew ∷ []

-- The fields that differ; the two values can be read from the streams.
unfoldable pub detect_stream_drift : Stream → Stream → List DriftField
detect_stream_drift cached on_chain = filter (λ f. differs f cached on_chain) drift_fields

pub record DurationStats : Type 0 where
  pub average : ℕ
  pub smallest : ℕ
  pub largest : ℕ
  pub median : ℕ

abbrev pub nth_or : ℕ → ℕ → List ℕ → ℕ
nth_or d n [] = d
nth_or d ℕ.zero (x ∷ xs) = x
nth_or d (ℕ.suc n) (x ∷ xs) = nth_or d n xs

-- `Math.round(a / b)`
abbrev pub rounded : ℕ → ℕ → ℕ
rounded a b = (2 * a + b) / (2 * b)

unfoldable pub average_stream_duration : List Stream → DurationStats
average_stream_duration [] = record { average = 0; smallest = 0; largest = 0; median = 0 }
average_stream_duration (s ∷ ss) =
    let durations =
      sort_on (λ (d : ℕ). d) false (map (λ (x : Stream). x.end_time - x.start_time) (s ∷ ss)) in
    let n = length durations in
    let mid = n / 2 in
    record {
      average = rounded (sum_of (λ (d : ℕ). d) durations) n;
      smallest = nth_or 0 0 durations;
      largest = nth_or 0 (n - 1) durations;
      median =
          if n % 2 == 0
          then rounded (nth_or 0 (mid - 1) durations + nth_or 0 mid durations) 2
          else nth_or 0 mid durations;
    }
