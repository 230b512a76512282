-- ===== src/LedgerWait/Termination.antt =====
-- That the wait for a ledger ends, and how.
use sorostream_sdk.Base.{
  ℕ, zero, suc, ◌+◌, ◌≤◌, ◌<◌, ◌≡◌, refl, Option, none, some, leb, if_elim, arith,
}
use sorostream_sdk.LedgerWait.{
  Round, WaitEnd, seen, timed_out, aborted, failed, WaitForLedgerOptions, Outcome, ended, slept,
  answered, poll_once, loop, wait_for_ledger,
}

-- A round that ends by seeing the ledger was answered with it.
abbrev pub Justified : Round → ℕ → WaitEnd → Type 0
Justified round target seen = (sequence : ℕ) × (round.answer ≡ some sequence) × (target ≤ sequence)
Justified round target timed_out =
    (sequence : ℕ) × (round.answer ≡ some sequence) × (sequence < target)
Justified round target aborted = Unit
Justified round target failed = round.answer ≡ none

-- A round ends for its reason, or the next one starts later, but before no more than the deadline.
abbrev IsRound : Round → ℕ → ℕ → ℕ → Outcome → Type 0
IsRound round target deadline now (ended e) = Justified round target e
IsRound round target deadline now (slept later) = (now < later) × (now < deadline)

answered-IsRound :
    (o : Option ℕ) (round : Round) (target poll_interval deadline start now : ℕ)
    → round.answer ≡ o
    → start ≤ now
    → 0 < poll_interval
    → IsRound round target deadline start (answered o round target poll_interval deadline now)
answered-IsRound none round target poll_interval deadline start now e s p = e
answered-IsRound (some sequence) round target poll_interval deadline start now e s p =
    if_elim (IsRound round target deadline start) (leb target sequence)
      (λ reached. (sequence, e, ground (arith, reached)))
      (λ behind.
        if_elim (IsRound round target deadline start) (leb deadline now)
          (λ late. (sequence, e, ground (arith, behind)))
          (λ in_time.
            if_elim (IsRound round target deadline start) round.aborted_asleep (λ b. tt)
              (λ b. (ground (arith, in_time), ground (arith, in_time)))))

poll_once-IsRound :
    (round : Round) (target poll_interval deadline now : ℕ)
    → 0 < poll_interval
    → IsRound round target deadline now (poll_once round target poll_interval deadline now)
unfolding poll_once
poll_once-IsRound round target poll_interval deadline now p =
    if_elim (IsRound round target deadline now) round.aborted_before (λ a. tt)
      (λ a.
        if_elim (IsRound round target deadline now) round.aborted_awaiting (λ b. tt)
          (λ b.
            answered-IsRound round.answer round target poll_interval deadline now
              (now + round.latency) refl (omega arith) p))

-- The loop ends in one of its rounds, for the reason that round has.
abbrev pub Ends : (ℕ → Round) → ℕ → Option WaitEnd → Type 0
Ends rounds target o = (e : WaitEnd) × (i : ℕ) × (o ≡ some e) × Justified (rounds i) target e

-- After a round the loop has ended, or it goes on with the rounds that are left.
round-Ends :
    (o : Outcome) (fuel : ℕ) (rounds : ℕ → Round) (i target poll_interval deadline now : ℕ)
    → IsRound (rounds i) target deadline now o
    → ((later : ℕ)
        → now < later
        → now < deadline
        → Ends rounds target (loop fuel rounds (i + 1) target poll_interval deadline later))
    → Ends rounds target (elim o [
      | ended e ↦ some e
      | slept later ↦ loop fuel rounds (i + 1) target poll_interval deadline later
    ])
round-Ends (ended e) fuel rounds i target poll_interval deadline now r goes_on = (e, i, refl, r)
round-Ends (slept later) fuel rounds i target poll_interval deadline now (l, d) goes_on =
    goes_on later l d

loop-Ends :
    (fuel : ℕ) (rounds : ℕ → Round) (i target poll_interval deadline now : ℕ)
    → 0 < poll_interval
    → deadline < now + fuel
    → 0 < fuel
    → Ends rounds target (loop fuel rounds i target poll_interval deadline now)
unfolding loop
loop-Ends zero rounds i target poll_interval deadline now p h q = absurd (omega arith)
loop-Ends (suc fuel) rounds i target poll_interval deadline now p h q =
    round-Ends (poll_once (rounds i) target poll_interval deadline now) fuel rounds i target
      poll_interval deadline now (poll_once-IsRound (rounds i) target poll_interval deadline now p)
      (λ later l d.
        loop-Ends fuel rounds (i + 1) target poll_interval deadline later p (omega arith)
          (omega arith))

-- With a positive poll interval the wait ends, after at most one round for each millisecond of the
-- timeout and one more: with the ledger only if a server answered with it or a later one, with a
-- timeout only if the answer was an earlier one.
pub wait_for_ledger-Ends :
    (rounds : ℕ → Round) (target : ℕ) (options : WaitForLedgerOptions) (now : ℕ)
    → 0 < options.poll_interval_ms
    → Ends rounds target (wait_for_ledger (options.timeout_ms + 1) rounds target options now)
unfolding wait_for_ledger
wait_for_ledger-Ends rounds target options now p =
    loop-Ends (options.timeout_ms + 1) rounds 0 target options.poll_interval_ms
      (now + options.timeout_ms) now p (omega arith) (omega arith)
