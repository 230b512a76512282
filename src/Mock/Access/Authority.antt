-- ===== src/Mock/Access/Authority.antt =====
-- Who may act on a stream as its operator.
use sorostream_sdk.Base.{
  ◌≡◌, String, Bool, true, false, some, List, [], ◌∷◌, ◌++◌, string_eq, ◌==◌, if◌then◌else◌,
  contains, contains-append, filter, arith,
}
use text.Mathlib.TextEquality.{eq_iff}
use sorostream_sdk.Base.Dict
use sorostream_sdk.Stream.{Stream, cancelled}
use sorostream_sdk.Mock.State.{Client}
use sorostream_sdk.Mock.Access.{
  or_empty, drop_member, change_operators, operators_of, set_operator, operator_cancel_stream,
}

contains-drop_member :
    (xs : List String) (x q : String)
    → contains (drop_member x xs) q ≡ (if x == q then false else contains xs q)
unfolding drop_member filter contains
contains-drop_member [] x q = ground arith
contains-drop_member (y ∷ ys) x q =
    ground (arith, contains-drop_member ys x q, eq_iff x q, eq_iff y q, eq_iff y x)

-- What `setOperator` makes of the operators of any stream.
change_operators-contains :
    (id other operator q : String) (approved : Bool) (c : Client)
    → contains
        (or_empty
          (Dict.get other (change_operators id operator approved (operators_of id c) c.operators)))
        q
      ≡ (if id == other
          then (if operator == q then approved else contains (operators_of other c) q)
          else contains (operators_of other c) q)
unfolding change_operators operators_of
change_operators-contains id other operator q true c = ground (
  arith,
  eq_iff id other,
  eq_iff operator q,
  Dict.get-set id other (or_empty (Dict.get id c.operators) ++ operator ∷ []) c.operators,
  contains-append (or_empty (Dict.get id c.operators)) operator q,
)
change_operators-contains id other operator q false c = ground (
  arith,
  eq_iff id other,
  eq_iff operator q,
  Dict.get-set id other (drop_member operator (or_empty (Dict.get id c.operators))) c.operators,
  contains-drop_member (or_empty (Dict.get id c.operators)) operator q,
)

set_operator-operators :
    (id operator : String) (approved : Bool) (c : Client) (s : Stream)
    → Dict.get id c.streams ≡ some s
    → (set_operator id operator approved c).0.operators
      ≡ change_operators id operator approved (operators_of id c) c.operators
unfolding set_operator
set_operator-operators id operator approved c s found = ground arith

-- After `setOperator` of a stream that exists, the operator is approved for that stream or not, as
-- was asked; other operators, and those of other streams, are as before.
pub set_operator-contains :
    (id other operator q : String) (approved : Bool) (c : Client) (s : Stream)
    → Dict.get id c.streams ≡ some s
    → contains (operators_of other (set_operator id operator approved c).0) q ≡ (
        if id == other
        then (if operator == q then approved else contains (operators_of other c) q)
        else contains (operators_of other c) q)
unfolding operators_of
set_operator-contains id other operator q approved c s found =
    rw (set_operator-operators id operator approved c s found)
      (change_operators-contains id other operator q approved c)

set_operator-streams :
    (id operator : String) (approved : Bool) (c : Client)
    → (set_operator id operator approved c).0.streams ≡ c.streams
unfolding set_operator
set_operator-streams id operator approved c = ground arith

operator_cancel_stream-eq :
    (id : String) (c : Client) (s : Stream) (approved : Bool) (m : Dict.Dict String Stream)
    → c.streams ≡ m
    → Dict.get id c.streams ≡ some s
    → contains (operators_of id c) c.sender_key ≡ approved
    → (operator_cancel_stream id c).0.streams
      ≡ (if approved then Dict.set id (record s { status = cancelled }) m else m)
unfolding operator_cancel_stream
operator_cancel_stream-eq id c s approved m same found h = ground arith

-- The last `setOperator` decides what `operatorCancelStream` does for that operator: approved, it
-- cancels the stream whatever its status and lock, else it changes no stream.
pub set_operator-operator_cancel_stream :
    (id operator : String) (approved : Bool) (c : Client) (s : Stream)
    → Dict.get id c.streams ≡ some s
    → (operator_cancel_stream id
        (record (set_operator id operator approved c).0 { sender_key = operator })).0.streams
      ≡ (if approved then Dict.set id (record s { status = cancelled }) c.streams else c.streams)
unfolding operators_of
set_operator-operator_cancel_stream id operator approved c s found =
    let allowed : contains (operators_of id (set_operator id operator approved c).0) operator
        ≡ approved =
      ground (
        arith,
        set_operator-contains id id operator operator approved c s found,
        eq_iff id id,
        eq_iff operator operator,
      ) in
    let same = set_operator-streams id operator approved c in
    operator_cancel_stream-eq id
      (record (set_operator id operator approved c).0 { sender_key = operator }) s approved
      c.streams same (rw same found) allowed
