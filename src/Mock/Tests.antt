-- ===== src/Mock/Tests.antt =====
-- A client with one stream.
use sorostream_sdk.Base.{
  suc, ℕ, ◌≢◌, subst, ◌+◌, ◌-◌, ◌*◌, ◌≡◌, ◌≤◌, ◌⊎◌, refl, String, true, false, none, some, List, [],
  ◌∷◌, min, string_eq, arith, if◌then◌else◌, length,
}
use text.Mathlib.TextEquality.{eq_iff}
use sorostream_sdk.Base.Dict
use sorostream_sdk.Base.Dict.{Dict}
use sorostream_sdk.Base.Decimal.{to_string}
use sorostream_sdk.Base.Int.{pos}
use sorostream_sdk.Base.Result.{ok, err}
use sorostream_sdk.Stream.{Stream, active, cancelled, safe_claimable, i128_max}
use sorostream_sdk.Samples.{salary}
use sorostream_sdk.Mock.State.{Client, notify, stream_not_found, not_active}
use sorostream_sdk.Mock.Claimable.{claimable_at}
use sorostream_sdk.Mock.Create.{CreateStreamParams, WriteOptions, create_stream, created}
use sorostream_sdk.Mock.Flows
use sorostream_sdk.Mock.Flows.{withdraw_from, withdraw}
use sorostream_sdk.Mock.Lifecycle.{SplitStreamParams, pause_at, resume_at}
use sorostream_sdk.Mock.Backing.{IsBacked, Backed}
use sorostream_sdk.Mock.Solvency.{Command, run, total_paid, run-Backed}
use sorostream_sdk.Mock.Accrual.{resume_counts_pause}
use sorostream_sdk.Mock.Splitting.{IsDivided, split_stream-IsDivided}
use sorostream_sdk.Mock.Refinement.{IsRefined, run-IsRefined}
use sorostream_sdk.Mock.Payment.{Paid, withdraw-Outcome, withdraw_locked_forfeits}
use sorostream_sdk.Mock.Access.{set_operator, operator_cancel_stream}
use sorostream_sdk.Mock.Access.Authority.{set_operator-operator_cancel_stream}
use sorostream_sdk.Mock.Reads.{BatchStreamsResult, get_streams_batch}
use sorostream_sdk.Mock.Reads.Walk.{IsNamed, pages, pages-all}
use sorostream_sdk.Mock.Reads.Batch.{Answers, first_occurrences, get_streams_batch-Answers}
use sorostream_sdk.Mock.Creation.{create_stream-solvent}

abbrev client_with : Dict String Stream → Client
client_with streams = record {
  streams = streams;
  listeners = [];
  sender_key = "alice";
  next_id = 7;
  operators = [];
  delegates = [];
  stream_delegates = [];
  delivered = [];
}

abbrev client : Client
client = client_with (("1", salary) ∷ [])

abbrev over : Stream
over = record salary { status = cancelled }

-- Locked up to 180.
abbrev held : Stream
held = record salary { lock_until = some 180 }

-- A withdrawal, a pause, a withdrawal that is refused, and a top-up that is too.
abbrev commands : List (ℕ × Command)
commands =
    (150, Command.withdraw "1")
    ∷ (160, Command.pause "1")
    ∷ (170, Command.withdraw "1")
    ∷ (180, Command.top_up "1" (pos 50))
    ∷ []

pays_half : withdraw 150 false "1" client ≡ (
  record client { streams = ("1", record salary { last_withdraw_time = 150 }) ∷ [] },
  ok (Flows.withdrawn "mock-tx-withdraw-1-150" 500),
)
unfolding withdraw claimable_at safe_claimable Dict.get Dict.set notify to_string
pays_half = refl

salary-IsBacked : IsBacked 100 0 salary
salary-IsBacked = record {
  started = omega arith;
  bounded = omega arith;
  current = omega arith;
  funded = omega arith;
  covered = omega arith;
}

run-Backed_example :
    (now : ℕ) × Backed now
      (0 + total_paid "1" commands client)
      (Dict.get "1" (run commands client).streams)
unfolding Dict.get
run-Backed_example =
    run-Backed commands 100 0 "1" client
      (omega arith, (omega arith, (omega arith, (omega arith, tt)))) salary-IsBacked

run-IsRefined_example : IsRefined "1" commands client
run-IsRefined_example = run-IsRefined commands "1" client

abbrev halves : SplitStreamParams
halves = record {
  stream_id = "1";
  recipient_a = "carol";
  recipient_b = "dave";
  ratio_numerator = pos 1;
  ratio_denominator = pos 3;
}

split_stream-IsDivided_example : IsDivided 150 halves client salary 500
unfolding Dict.get safe_claimable
split_stream-IsDivided_example =
    split_stream-IsDivided 150 halves client salary 500 0 2 refl refl (omega arith) (omega arith)
      refl refl (omega arith) refl

abbrev no_flags : WriteOptions
no_flags = record { dry_run = false; explain = false }

abbrev rent : CreateStreamParams
rent = record {
  recipient = "bob";
  token = "usdc";
  amount = pos 1000;
  duration_seconds = pos 60;
  auto_renew = false;
  start_time = none;
  start_time_alias = none;
  lock_until = none;
  flags = no_flags;
}

rent_created : (create_stream 100 rent no_flags client).1 ≡ ok (created "7" "mock-tx-create-7")
unfolding create_stream to_string
rent_created = refl

create_stream-solvent_example :
    (s : Stream) × (Dict.get "7"
        (run ((130, Command.withdraw "7") ∷ []) (create_stream 100 rent no_flags client).0).streams
      ≡ some s)
    × (total_paid "7" ((130, Command.withdraw "7") ∷ []) (create_stream 100 rent no_flags client).0
        ≤ s.deposit)
create_stream-solvent_example =
    create_stream-solvent 100 rent no_flags client "7" "mock-tx-create-7"
      ((130, Command.withdraw "7") ∷ []) rent_created (omega arith, tt)

all-Fits : (s : Stream) → Dict.get "1" client.streams ≡ some s → s.deposit ≤ i128_max
unfolding Dict.get
all-Fits s found =
    let e : salary ≡ s = ground (arith, found) in subst (λ x. x.deposit ≤ i128_max) e (omega arith)

withdraw-Outcome_example :
    ((Dict.get "1" client.streams ≡ none)
      × (withdraw 150 false "1" client ≡ (client, err (stream_not_found "1"))))
    ⊎ ((s : Stream) × (Dict.get "1" client.streams ≡ some s)
        × (((s.status ≢ active) × (withdraw 150 false "1" client ≡ (client, err not_active)))
            ⊎ Paid 150 "1" client s))
withdraw-Outcome_example = withdraw-Outcome 150 "1" client all-Fits

resume_counts_pause_example :
    claimable_at (resume_at (pause_at salary 130) 140) 150
    ≡ ok (
        min
          (salary.flow_rate * (min 150 (salary.end_time + (140 - 130)) - salary.last_withdraw_time))
          salary.deposit)
resume_counts_pause_example =
    resume_counts_pause salary 130 140 150 (omega arith) refl (omega arith) (omega arith)

abbrev locked_client : Client
locked_client = client_with (("1", held) ∷ [])

held-found : Dict.get "1" locked_client.streams ≡ some held
unfolding Dict.get
held-found = refl

withdraw_locked_forfeits_example :
    (hash : String) × (left : Stream) × ((withdraw 150 false "1" locked_client).1
      ≡ ok (Flows.withdrawn hash 0))
    × (Dict.get "1" (withdraw 150 false "1" locked_client).0.streams ≡ some left)
    × (claimable_at left 190
        ≡ ok (min (held.flow_rate * (min 190 held.end_time - 150)) held.deposit))
withdraw_locked_forfeits_example =
    withdraw_locked_forfeits 150 "1" locked_client held 190 held-found (omega arith) refl refl
      (omega arith) (omega arith) refl

abbrev second : Stream
second = record salary { id = "2" }

abbrev third : Stream
third = record salary { id = "3" }

approves :
    (operator_cancel_stream "1"
      (record (set_operator "1" "eve" true client).0 { sender_key = "eve" })).1
    ≡ ok "mock-tx-op-cancel-1"
unfolding operator_cancel_stream set_operator Dict.get Dict.set
approves = refl

set_operator-operator_cancel_stream_example :
    (operator_cancel_stream "1"
      (record (set_operator "1" "eve" true client).0 { sender_key = "eve" })).0.streams
    ≡ (if true
        then Dict.set "1" (record salary { status = cancelled }) client.streams
        else client.streams)
unfolding Dict.get
set_operator-operator_cancel_stream_example =
    set_operator-operator_cancel_stream "1" "eve" true client salary refl

named : IsNamed (salary ∷ second ∷ third ∷ [])
named = (
  ground (arith, eq_iff "1" ""),
  (ground (arith, eq_iff "2" "1"), (ground (arith, eq_iff "3" "1"), tt)),
  (
    ground (arith, eq_iff "2" ""),
    (ground (arith, eq_iff "3" "2"), tt),
    (ground (arith, eq_iff "3" ""), tt, tt),
  ),
)

pages-all_example :
    pages (suc (length (salary ∷ second ∷ third ∷ []))) 2 none (salary ∷ second ∷ third ∷ [])
    ≡ salary ∷ second ∷ third ∷ []
pages-all_example = pages-all 1 (salary ∷ second ∷ third ∷ []) named

abbrev one_of_two : BatchStreamsResult
one_of_two = record { streams = salary ∷ []; missing = "9" ∷ []; rpc_calls = 1 }

batch : (get_streams_batch ("9" ∷ "1" ∷ "9" ∷ []) false client).1 ≡ ok one_of_two
unfolding get_streams_batch Dict.get
batch = refl

get_streams_batch-Answers_example :
    Answers client.streams
      (first_occurrences ("9" ∷ "1" ∷ "9" ∷ []))
      one_of_two.streams
      one_of_two.missing
get_streams_batch-Answers_example =
    get_streams_batch-Answers ("9" ∷ "1" ∷ "9" ∷ []) false client one_of_two batch
