-- ===== src/Lifecycle/Tests.antt =====
-- Runs of the state machine.
use sorostream_sdk.Base.{◌≡◌, refl, false}
use sorostream_sdk.Base.Result.{ok}
use sorostream_sdk.Stream.{active, paused}
use sorostream_sdk.Lifecycle.{Context, get_next_state, StreamAction}

abbrev settled : Context
settled = record { is_fully_withdrawn = false; is_expired = false }

resumed : get_next_state paused StreamAction.resume settled ≡ ok active
unfolding get_next_state
resumed = refl
