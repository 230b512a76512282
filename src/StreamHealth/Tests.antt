-- ===== src/StreamHealth/Tests.antt =====
-- Health of concrete streams.
use sorostream_sdk.Base.{◌-◌, ◌*◌, ◌≡◌, ◌≤◌, refl, String, List, [], ◌∷◌, filter, arith}
use sorostream_sdk.Base.Result.{ok}
use sorostream_sdk.Samples.{salary}
use sorostream_sdk.StreamHealth.{underfunded, StreamHealthResult, judge, get_stream_health}
use sorostream_sdk.StreamHealth.Score.{IsFair, judge-Scored}
use sorostream_sdk.StreamHealth.Pending.{
  IsCovered, is_underfunded, get_stream_health-Covered, get_stream_health-Pending,
}

-- A stream without withdrawals for most of its time.
stalled_score : (judge salary 190 900 100).score ≡ 70
unfolding judge
stalled_score = refl

judge-Scored_example : IsFair 100 (judge salary 190 900 100)
judge-Scored_example = judge-Scored salary 190 900 100

abbrev entries : List (String × StreamHealthResult)
entries = ("1", judge salary 190 900 100) ∷ ("2", judge salary 100 0 1000) ∷ []

salary-IsCovered : IsCovered salary
salary-IsCovered = record { fits = omega arith; spans = omega arith; covers = omega arith }

get_stream_health-Covered_example :
    (h : StreamHealthResult) × (get_stream_health salary 150 ≡ ok h)
    × (filter is_underfunded h.diagnostics ≡ [])
    × (salary.flow_rate * (salary.end_time - 150) ≤ h.remaining_balance)
get_stream_health-Covered_example =
    get_stream_health-Covered salary 150 refl salary-IsCovered (omega arith)

get_stream_health-Pending_example :
    (h : StreamHealthResult) × (get_stream_health salary 50 ≡ ok h)
    × (h.score ≡ 70)
    × (h.diagnostics ≡ underfunded ∷ [])
get_stream_health-Pending_example =
    get_stream_health-Pending salary 50 refl salary-IsCovered (omega arith) refl (omega arith)
      (omega arith)
