-- ===== src/CircuitBreaker/Probes.antt =====
-- Which calls a breaker lets through.
use sorostream_sdk.Base.{ℕ, ◌+◌, ◌≤◌, ◌≡◌, ◌≢◌, ◌↔◌, refl, true, false, List, [], ◌∷◌, All, arith}
use sorostream_sdk.CircuitBreaker.{
  closed, open_state, half_open, Breaker, Event, step, pause, admit, admitted, rejected,
  paused_by_hand, resume_now, begin,
}

-- An open breaker lets a call through exactly when the cooldown since the last failure is over, and
-- is half-open then.
pub admit_open_iff :
    (b : Breaker) (now : ℕ)
    → b.state ≡ open_state
    → b.manually_paused ≡ false
    → ((admit now b).1 ≡ admitted)
      ↔ ((b.last_failure_time + b.cooldown_ms ≤ now) × ((admit now b).0.state ≡ half_open))
unfolding admit
admit_open_iff b now o p = ground arith

-- Of two calls in a row that a breaker which is not closed lets through, the second comes no sooner
-- than the probe interval after the first.
pub probes_spaced :
    (b : Breaker) (t u : ℕ)
    → b.state ≢ closed
    → (admit t b).1 ≡ admitted
    → (admit u (admit t b).0).1 ≡ admitted
    → t + b.half_open_probe_interval_ms ≤ u
unfolding admit
probes_spaced b t u h first second = ground arith

abbrev pub run : List Event → Breaker → Breaker
run [] b = b
run (e ∷ es) b = run es (step e b)

step_paused :
    (e : Event) (b : Breaker)
    → e ≢ resume_now
    → b.manually_paused ≡ true
    → (step e b).manually_paused ≡ true
unfolding step
step_paused (begin now) b h p = ground arith
step_paused e b h p = ground arith

run_paused :
    (es : List Event) (b : Breaker)
    → All (λ e. e ≢ resume_now) es
    → b.manually_paused ≡ true
    → (run es b).manually_paused ≡ true
run_paused [] b h p = p
run_paused (e ∷ es) b (h, hs) p = run_paused es (step e b) hs (step_paused e b h p)

-- After `pause`, every call is rejected whatever else happens, settled calls, failures and `reset`
-- included, until `resume`.
pub paused_rejects :
    (es : List Event) (b : Breaker) (at now : ℕ)
    → All (λ e. e ≢ resume_now) es
    → (admit now (run es (pause at b))).1 ≡ rejected paused_by_hand
unfolding admit pause
paused_rejects es b at now h = ground (arith, run_paused es (pause at b) h refl)
