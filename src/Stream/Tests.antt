-- ===== src/Stream/Tests.antt =====
-- Runs of `safeClaimable`.
use sorostream_sdk.Base.{◌≡◌, refl, ◌^◌, none, some}
use sorostream_sdk.Base.Result.{ok, err}
use sorostream_sdk.Stream.{safe_claimable, overflow}

capped : safe_claimable 10 200 (some 1000) ≡ ok 1000
unfolding safe_claimable
capped = refl

uncapped : safe_claimable (2 ^ 100) (2 ^ 27) none ≡ err overflow
unfolding safe_claimable
uncapped = refl
