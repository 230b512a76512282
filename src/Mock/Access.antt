-- ===== src/Mock/Access.antt =====
-- Delegates and operators of mock.ts. A `Set` is the list of its members in insertion order.
pub mod Authority
use sorostream_sdk.Base.{
  ℕ, ◌+◌, String, Bool, true, false, not, Option, none, some, List, [], ◌∷◌, ◌++◌, string_eq, ◌==◌,
  if◌then◌else◌, contains, filter,
}
use sorostream_sdk.Base.Dict
use sorostream_sdk.Base.Dict.{Dict}
use sorostream_sdk.Base.Int.{ℤ}
use sorostream_sdk.Base.Result.{ok, err}
use sorostream_sdk.Stream.{Stream, cancelled}
use sorostream_sdk.Mock.State.{
  Error, Client, M, pure, throw, ◌>>=◌, ◌>>◌, throw_if, positive, find, put, divide, tx,
  amount_not_positive, not_operator,
}

abbrev pub or_empty : Option (List String) → List String
or_empty none = []
or_empty (some xs) = xs

-- `Set.add` and `Set.delete`.
unfoldable pub add_member : String → List String → List String
unfolding contains
add_member x xs = if contains xs x then xs else xs ++ x ∷ []

unfoldable pub drop_member : String → List String → List String
drop_member x xs = filter (λ y. not (y == x)) xs

unfoldable pub add_delegate : String → M String
unfolding add_member
add_delegate delegate c = (
  record c {
    delegates =
        Dict.set c.sender_key (add_member delegate (or_empty (Dict.get c.sender_key c.delegates)))
          c.delegates;
  },
  ok (tx "mock-tx-add-delegate-" delegate),
)

-- Of an owner without a set nothing is changed.
abbrev without_member :
    String → String → Option (List String) → Dict String (List String) → Dict String (List String)
without_member key x none m = m
without_member key x (some xs) m = Dict.set key (drop_member x xs) m

unfoldable pub revoke_delegate : String → M String
unfolding drop_member
revoke_delegate delegate c = (
  record c {
    delegates =
        without_member c.sender_key delegate (Dict.get c.sender_key c.delegates) c.delegates;
  },
  ok (tx "mock-tx-revoke-delegate-" delegate),
)

unfoldable pub get_delegates : Option String → Client → List String
get_delegates none c = or_empty (Dict.get c.sender_key c.delegates)
get_delegates (some delegator) c = or_empty (Dict.get delegator c.delegates)

abbrev pub stream_tx : String → String → String → String
stream_tx kind id delegate = tx (tx kind id) (tx "-" delegate)

unfoldable pub grant_delegate : String → String → M String
unfolding add_member
grant_delegate id delegate = do
  s ← find id
  λ c. (
    record c {
      stream_delegates =
          Dict.set id (add_member delegate (or_empty (Dict.get id c.stream_delegates)))
            c.stream_delegates;
    },
    ok (stream_tx "mock-tx-grant-stream-delegate-" id delegate),
  )

unfoldable pub revoke_delegate_from_stream : String → String → M String
unfolding drop_member
revoke_delegate_from_stream id delegate = do
  s ← find id
  λ c. (
    record c {
      stream_delegates =
          without_member id delegate (Dict.get id c.stream_delegates) c.stream_delegates;
    },
    ok (stream_tx "mock-tx-revoke-stream-delegate-" id delegate),
  )

unfoldable pub get_stream_delegates : String → Client → List String
get_stream_delegates id c = or_empty (Dict.get id c.stream_delegates)

-- `this.operators.get(id) ?? []`
unfoldable pub operators_of : String → Client → List String
operators_of id c = or_empty (Dict.get id c.operators)

-- The operators after a call of `setOperator`.
unfoldable pub change_operators :
    String → String → Bool → List String → Dict String (List String) → Dict String (List String)
unfolding drop_member contains
change_operators id operator true existing m =
    if contains existing operator then m else Dict.set id (existing ++ operator ∷ []) m
change_operators id operator false existing m = Dict.set id (drop_member operator existing) m

unfoldable pub set_operator : String → String → Bool → M String
unfolding change_operators operators_of
set_operator id operator approved = do
  s ← find id
  λ c. (
    record c { operators = change_operators id operator approved (operators_of id c) c.operators },
    ok (tx "mock-tx-set-op-" id),
  )

-- `if (!ops.includes(this.senderKey)) throw`
unfoldable pub require_operator : String → M (Unit {0})
unfolding operators_of contains
require_operator id c = throw_if (not (contains (operators_of id c) c.sender_key)) not_operator c

unfoldable pub operator_cancel_stream : String → M String
unfolding require_operator
operator_cancel_stream id = do
  s ← find id
  require_operator id
  put id (record s { status = cancelled })
  pure (tx "mock-tx-op-cancel-" id)

unfoldable pub operator_top_up : String → ℤ → M String
unfolding require_operator
operator_top_up id p = do
  value ← positive amount_not_positive p
  s ← find id
  require_operator id
  extra ← divide value s.flow_rate
  put id (record s { deposit = s.deposit + value; end_time = s.end_time + extra })
  pure (tx "mock-tx-op-topup-" id)
