-- ===== src/StreamHealth/Score.antt =====
-- What a score means.
use sorostream_sdk.Base.{
  ℕ, ◌+◌, ◌-◌, ◌*◌, ◌/◌, ◌≤◌, ◌<◌, suc, ◌≡◌, ◌≢◌, ◌↔◌, ◌⊎◌, refl, ap, inl, inr, min, max, String,
  Bool, true, false, ◌&&◌, List, [], ◌∷◌, ◌++◌, nat_eq, ltb, leb, if◌then◌else◌, filter, Bool-cases,
  arith,
}
use sorostream_sdk.Stream.{Stream}
use sorostream_sdk.StreamHealth.{
  StreamHealthResult, HealthStatus, Diagnostic, HealthSummary, judge, status_of_score, summarize,
  rank, healthy, no_withdrawal, underfunded, still_locked, critical, warning, ended_well,
  ended_early,
}

abbrev penalty : Bool → ℕ → ℕ
penalty b n = if b then n else 0

abbrev note : Bool → Diagnostic → List Diagnostic
note b d = if b then d ∷ [] else []

-- A stall costs at least 20 points.
stall_cost :
    (since threshold : ℕ) → 60 ≤ threshold → threshold < since → 20 ≤ 20 * since / threshold
stall_cost since threshold h k = grind arith

abbrev total_score : Bool → Bool → Bool → ℕ → ℕ
total_score a b c n = 100 - penalty a n - penalty b 30 - penalty c 10

abbrev notes : Bool → Bool → Bool → List Diagnostic
notes a b c = note a no_withdrawal ++ note b underfunded ++ note c still_locked

not_healthy :
    (high half : Bool)
    → high ≡ false
    → rank (if high then healthy else if half then warning else critical) ≢ 0
not_healthy true half e q = absurd (ground arith)
not_healthy false true e q = omega arith
not_healthy false false e q = omega arith

low_status : (score : ℕ) → score < 80 → rank (status_of_score score) ≢ 0
low_status score h = not_healthy (leb 80 score) (leb 50 score) (ground arith)

-- A score lies between 20 and 100, is 100 only without diagnostics, and is that of a healthy stream
-- only if the balance covers what is left to stream.
record IsScored (a b c : Bool) (n : ℕ) : Type 0 where
  lower : 20 ≤ total_score a b c n
  upper : total_score a b c n ≤ 100
  clean : (notes a b c ≡ []) ↔ (total_score a b c n ≡ 100)
  funded : b ≡ true → status_of_score (total_score a b c n) ≢ healthy

scored : (a b c : Bool) (n : ℕ) → (a ≡ true → 20 ≤ n) → n ≤ 40 → IsScored a b c n
scored a b c n h k = record {
  lower = ground arith;
  upper = omega arith;
  clean = (λ e. clean_score a b c n e, λ e. clean_notes a b c n h e);
  funded = λ e. unfunded a b c n e;
}
  where
    clean_score : (a b c : Bool) (n : ℕ) → notes a b c ≡ [] → total_score a b c n ≡ 100
    clean_score false false false n e = refl
    clean_score true b c n e = absurd (ground arith)
    clean_score false true c n e = absurd (ground arith)
    clean_score false false true n e = absurd (ground arith)

    clean_notes :
        (a b c : Bool) (n : ℕ) → (a ≡ true → 20 ≤ n) → total_score a b c n ≡ 100 → notes a b c ≡ []
    clean_notes false false false n h e = refl
    clean_notes true b c n h e = absurd (ground (arith, h refl))
    clean_notes false true c n h e = absurd (ground arith)
    clean_notes false false true n h e = absurd (omega arith)

    unfunded : (a b c : Bool) (n : ℕ) → b ≡ true → status_of_score (total_score a b c n) ≢ healthy
    unfunded a true c n e q = low_status (total_score a true c n) (omega arith) (ap rank q)
    unfunded a false c n e q = absurd (ground arith)

-- What a result says, for what is left to stream.
pub record IsFair (to_stream : ℕ) (h : StreamHealthResult) : Type 0 where
  pub lower : 20 ≤ h.score
  pub upper : h.score ≤ 100
  pub clean : (h.diagnostics ≡ []) ↔ (h.score ≡ 100)
  pub funded : (to_stream ≤ h.remaining_balance) ⊎ (h.status ≢ healthy)

-- Whatever the amounts, the score of a running stream lies between 20 and 100, it is 100 exactly if
-- there is nothing to diagnose, and a stream whose balance is short is not healthy.
pub judge-Scored :
    (s : Stream) (now streamed to_stream : ℕ) → IsFair to_stream (judge s now streamed to_stream)
unfolding judge
judge-Scored s now streamed to_stream =
    let duration = s.end_time - s.start_time in
    let since = if ltb 0 s.last_withdraw_time then now - s.last_withdraw_time else 0 in
    let threshold = max 60 (duration / 10) in
    let stalled = ltb 0 s.last_withdraw_time && ltb threshold since in
    let short = ltb (s.deposit - streamed) to_stream in
    let near_expiry =
      ltb (9 * duration) (10 * min (now - s.start_time) duration)
      && (ltb 0 (s.deposit - streamed) && ltb 0 (s.end_time - now)) in
    let i : IsScored stalled short near_expiry (min 40 (20 * since / threshold)) =
      scored stalled short near_expiry (min 40 (20 * since / threshold))
        (λ e.
          let c = stall_cost since threshold (omega arith) (ground (arith, e)) in omega (arith, c))
        (omega arith) in
    record {
      lower = i.lower;
      upper = i.upper;
      clean = i.clean;
      funded = elim (Bool-cases short) [
        | inl e ↦ inr (i.funded e)
        | inr e ↦ inl (ground (arith, e))
      ];
    }

abbrev pub sum_statuses : HealthSummary → ℕ
sum_statuses h = h.healthy + h.warning + h.critical + h.completed + h.cancelled

more :
    (id : String) (h : StreamHealthResult) (entries : List (String × StreamHealthResult))
    (status : HealthStatus)
    → sum_statuses (summarize entries) ≡ (summarize entries).total
    → sum_statuses (summarize ((id, record h { status = status }) ∷ entries))
      ≡ suc (summarize entries).total
unfolding summarize filter
more id h entries healthy e = omega (arith, e)
more id h entries warning e = omega (arith, e)
more id h entries critical e = omega (arith, e)
more id h entries ended_well e = omega (arith, e)
more id h entries ended_early e = omega (arith, e)

-- The five counts of a summary add up to the number of its entries.
pub summarize-total :
    (entries : List (String × StreamHealthResult))
    → sum_statuses (summarize entries) ≡ (summarize entries).total
unfolding summarize filter
summarize-total [] = refl
summarize-total ((id, h) ∷ entries) = more id h entries h.status (summarize-total entries)
