-- ===== src/Simulator/Tests.antt =====
-- A simulator fifty seconds ahead of the real time.
use sorostream_sdk.Base.{◌≡◌, ◌≤◌, ◌↔◌, ◌⊎◌, refl, none, some, [], ◌∷◌, string_eq, contains, arith}
use sorostream_sdk.Base.Dict
use sorostream_sdk.Base.Int.{pos}
use sorostream_sdk.Base.Result.{ok}
use sorostream_sdk.Stream.{active, paused, safe_claimable}
use sorostream_sdk.Samples.{salary}
use sorostream_sdk.Mock.Claimable
use sorostream_sdk.Simulator.{
  StreamSimulator, SimulatedWithdrawResult, now, claimable_at, simulate_withdraw, success, or_value,
  advance,
}
use sorostream_sdk.Simulator.Withdrawals.{Lasts, claimable_at-mock, simulate_withdraw_iff}
use sorostream_sdk.Simulator.Expiry.{IsSound}

abbrev ahead : StreamSimulator
ahead = record {
  clock_offset_seconds = 50;
  current_ledger_seq = 10;
  expiry_callbacks = "1" ∷ [];
  fired_expiry = [];
  storage_ttl = [];
  storage_ttl_ledger = [];
  fired = [];
}

abbrev withdrawn : SimulatedWithdrawResult
withdrawn = record { verdict = success 200; claimable = 500; ledger = 10 }

withdraws : simulate_withdraw 100 salary (some 200) none ahead ≡ ok withdrawn
unfolding simulate_withdraw now claimable_at safe_claimable Dict.get
withdraws = refl

expires : (advance 100 (pos 100) (salary ∷ salary ∷ []) none ahead).0.fired ≡ "1" ∷ []
unfolding advance contains
expires = refl

claimable_at-mock_example :
    claimable_at 100 salary ahead ≡ Claimable.claimable_at salary (now 100 ahead)
claimable_at-mock_example = claimable_at-mock 100 salary ahead

simulate_withdraw_iff_example :
    (claimable_at 100 salary ahead ≡ ok 500)
    × ((withdrawn.verdict ≡ success 200) ↔ (
        Lasts (Dict.get salary.id ahead.storage_ttl) (now 100 ahead)
        × Lasts
            (Dict.get salary.id ahead.storage_ttl_ledger)
            (or_value none ahead.current_ledger_seq)
        × ((salary.status ≡ active) ⊎ (salary.status ≡ paused))
        × (or_value (some 200) withdrawn.claimable ≤ withdrawn.claimable)
        × (200 ≡ or_value (some 200) withdrawn.claimable)))
simulate_withdraw_iff_example =
    simulate_withdraw_iff 100 salary (some 200) none ahead withdrawn 200 withdraws

ahead-IsSound : IsSound ahead
unfolding contains
ahead-IsSound = record { once = tt; noted = λ id e. ground arith }
