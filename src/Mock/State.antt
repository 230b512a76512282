-- ===== src/Mock/State.antt =====
-- The `ledger` of an event is always 0 and left out. The state of `MockSoroStreamClient`, its
-- events and errors, and a method as a state and exception monad: what was written before a throw
-- stays written. No method of the mock awaits anything before its last write, so each runs without
-- interruption; `now` is the second at which it runs.
use Prim.Native.String
use sorostream_sdk.Base.{
  ℕ, zero, suc, ◌+◌, ◌/◌, String, Bool, true, false, ◌&&◌, ◌||◌, Option, none, some, List, [], ◌∷◌,
  ◌++◌, nat_eq, string_eq, ◌==◌, if◌then◌else◌,
}
use sorostream_sdk.Base.Decimal.{to_string}
use sorostream_sdk.Base.Dict
use sorostream_sdk.Base.Dict.{Dict}
use sorostream_sdk.Base.Int.{ℤ, pos, negsuc}
use sorostream_sdk.Base.Result.{Result, ok, err}
use sorostream_sdk.Stream.{Stream, StreamStatus, ClaimError, overflow}

pub data Error : Type 0 where
  insufficient_amount self_stream amount_not_positive duration_not_positive start_time_passed :
      Error
  stream_not_found : String → Error
  not_active not_paused locked already_locked rate_not_positive : Error
  ratio_not_positive ratio_too_large not_operator : Error
  claim_overflow division_by_zero : Error

-- The `data` of an event.
pub data EventData : Type 0 where
  parties : String → String → EventData
  amount : ℕ → EventData
  topped_up : ℕ → ℕ → EventData
  lock : ℕ → EventData
  new_recipient : String → EventData
  no_data : EventData

pub data EventType : Type 0 where
  stream_created stream_locked stream_withdrawn stream_completed : EventType
  stream_cancelled stream_topped_up stream_transferred stream_paused stream_resumed : EventType

pub record StreamEvent : Type 0 where
  pub type : EventType
  pub stream_id : String
  pub tx_hash : String
  pub timestamp : ℕ
  pub payload : EventData

pub record EventFilter : Type 0 where
  pub stream_id : Option String
  pub sender : Option String
  pub recipient : Option String

-- `delivered` lists each call of a listener's callback, by the listener's key, in order.
pub record Client : Type 0 where
  pub streams : Dict String Stream
  pub listeners : Dict String EventFilter
  pub sender_key : String
  pub next_id : ℕ
  pub operators : Dict String (List String)
  pub delegates : Dict String (List String)
  pub stream_delegates : Dict String (List String)
  pub delivered : List (String × StreamEvent)

abbrev pub M : Type 0 → Type 0
M A = Client → Client × Result Error A

abbrev pub pure : {A : Type 0} → A → M A
pure a c = (c, ok a)

abbrev pub throw : {A : Type 0} → Error → M A
throw e c = (c, err e)

infixl 5 ◌>>=◌ ◌>>◌
abbrev pub ◌>>=◌ : {A B : Type 0} → M A → (A → M B) → M B
◌>>=◌ m f c = let (c', r) = m c in elim r [ ok a ↦ f a c' | err e ↦ (c', err e) ]

abbrev pub ◌>>◌ : {A B : Type 0} → M A → M B → M B
m >> k = m >>= λ _. k

abbrev pub throw_if : Bool → Error → M (Unit {0})
throw_if true e c = (c, err e)
throw_if false e c = (c, ok tt)

-- The guard `if (x <= 0) throw e`.
abbrev pub positive : Error → ℤ → M ℕ
positive e (pos zero) = throw e
positive e (pos (suc n)) = pure (suc n)
positive e (negsuc n) = throw e

abbrev pub or_not_found : String → Option Stream → M Stream
or_not_found id none = throw (stream_not_found id)
or_not_found id (some s) = pure s

-- `this.streams.get(id)`, with the throw that follows it.
abbrev pub find : String → M Stream
find id c = or_not_found id (Dict.get id c.streams) c

abbrev pub is_active : StreamStatus → Bool
is_active StreamStatus.active = true
is_active _ = false

abbrev pub require_active : Stream → M (Unit {0})
require_active s = throw_if (if is_active s.status then false else true) not_active

-- `this.streams.set(id, s)`
abbrev pub put : String → Stream → M (Unit {0})
put id s c = (record c { streams = Dict.set id s c.streams }, ok tt)

abbrev pub lift : {A : Type 0} → Result ClaimError A → M A
lift (ok a) c = (c, ok a)
lift (err overflow) c = (c, err claim_overflow)

-- `/` of two bigints throws a RangeError at a zero divisor.
abbrev pub divide : ℕ → ℕ → M ℕ
divide a b = if b == 0 then throw division_by_zero else pure (a / b)

-- `wanted && actual !== wanted` rejects: an absent or empty wish accepts all.
accepts : Option String → Option String → Bool
accepts none actual = true
accepts (some wanted) none = wanted == ""
accepts (some wanted) (some actual) = wanted == "" || actual == wanted

sender_of : EventData → Option String
sender_of (parties sender recipient) = some sender
sender_of _ = none

recipient_of : EventData → Option String
recipient_of (parties sender recipient) = some recipient
recipient_of _ = none

unfoldable pub matches : EventFilter → StreamEvent → Bool
unfolding accepts sender_of recipient_of
matches f e =
    accepts f.stream_id (some e.stream_id)
    && (accepts f.sender (sender_of e.payload) && accepts f.recipient (recipient_of e.payload))

unfoldable pub notify : StreamEvent → Dict String EventFilter → List (String × StreamEvent)
unfolding matches
notify e [] = []
notify e ((key, f) ∷ rest) =
    let later = notify e rest in if matches f e then (key, e) ∷ later else later

abbrev pub emit : StreamEvent → M (Unit {0})
emit e c = (record c { delivered = c.delivered ++ notify e c.listeners }, ok tt)

-- `subscribeEvents`, under the key that it draws, and the returned `unsubscribe`.
unfoldable pub subscribe_events : String → EventFilter → M (Unit {0})
subscribe_events key f c = (record c { listeners = Dict.set key f c.listeners }, ok tt)

unfoldable pub unsubscribe : String → M (Unit {0})
unsubscribe key c = (record c { listeners = Dict.delete key c.listeners }, ok tt)

-- `String(nextId++)`
abbrev pub fresh_id : M String
fresh_id c = (record c { next_id = c.next_id + 1 }, ok (to_string c.next_id))

abbrev pub tx : String → String → String
tx kind id = String.◌++◌ kind id

abbrev pub tx_at : String → String → ℕ → String
tx_at kind id now = String.◌++◌ (tx kind id) (String.◌++◌ "-" (to_string now))

unfoldable pub set_sender : String → M (Unit {0})
set_sender address c = (record c { sender_key = address }, ok tt)

unfoldable pub seed_stream : Stream → M (Unit {0})
seed_stream s = put s.id s
