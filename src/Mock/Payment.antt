-- ===== src/Mock/Payment.antt =====
-- What a call of `withdraw` pays, from the amounts and times of the stream.
use sorostream_sdk.Base.{
  ℕ, ◌-◌, ◌*◌, ◌≤◌, ◌<◌, ◌≡◌, ◌≢◌, ◌⊎◌, ap, ◌∙◌, inl, inr, String, true, false, none, some, min,
  nat_eq, string_eq, ◌==◌, leb, if◌then◌else◌, Bool-cases, Option-cases, arith,
}
use sorostream_sdk.Base.Dict
use sorostream_sdk.Base.Result.{ok, err}
use sorostream_sdk.Stream.{Stream, active, completed, i128_max}
use sorostream_sdk.Mock.State.{Client, tx_at, stream_not_found, not_active}
use sorostream_sdk.Mock.Claimable.{before, claimable_at}
use sorostream_sdk.Mock.Flows.{withdraw, withdraw_from, withdrawn}
use sorostream_sdk.Mock.Effects.{withdraw_missing, withdraw_inactive, withdraw_found, Status-cases}
use sorostream_sdk.Mock.Accrual.{claimable_active, claimable_at-withdraw_from}

-- What an active stream owes: nothing while it is locked, and otherwise the flow from the last
-- withdrawal until now or the end, at most the deposit.
abbrev pub due : Stream → ℕ → ℕ
due s now =
    if before now s.lock_until
    then 0
    else min (s.flow_rate * (min now s.end_time - s.last_withdraw_time)) s.deposit

claimable_locked :
    (s : Stream) (now : ℕ)
    → s.status ≡ active
    → before now s.lock_until ≡ true
    → claimable_at s now ≡ ok 0
unfolding claimable_at
claimable_locked s now live held = ground arith

claimable_at-due :
    (s : Stream) (now : ℕ)
    → s.deposit ≤ i128_max
    → s.status ≡ active
    → claimable_at s now ≡ ok (due s now)
claimable_at-due s now fits live = elim (Bool-cases (before now s.lock_until)) [
  | inl held ↦ rw held (claimable_locked s now live held)
  | inr free ↦ rw free (claimable_active s now fits live free)
]

-- The stream after a withdrawal: it is completed from its end on.
abbrev pub paid_out : Stream → ℕ → Stream
paid_out s now = record s {
  last_withdraw_time = min now s.end_time;
  status = if leb s.end_time now then completed else active;
}

withdraw_from-paid_out : (s : Stream) (now : ℕ) → withdraw_from s now ≡ paid_out s now
unfolding withdraw_from
withdraw_from-paid_out s now =
    let same : leb s.end_time (min now s.end_time) ≡ leb s.end_time now = ground arith in
    ap
      (λ b. record s {
        last_withdraw_time = min now s.end_time;
        status = if b then completed else active;
      })
      same

module _ (now : ℕ) (target : String) (c : Client) where
  -- A withdrawal from the active stream `s` returns what it owes and changes that stream alone.
  pub record Paid (s : Stream) : Type 0 where
    pub live : s.status ≡ active
    pub answer :
        (hash : String) × ((withdraw now false target c).1 ≡ ok (withdrawn hash (due s now)))
    pub slots :
        (id : String)
        → Dict.get id (withdraw now false target c).0.streams
          ≡ (if target == id then some (paid_out s now) else Dict.get id c.streams)

  withdraw_answer :
      (s : Stream) (a : ℕ)
      → Dict.get target c.streams ≡ some s
      → s.status ≡ active
      → claimable_at s now ≡ ok a
      → (withdraw now false target c).1 ≡ ok (withdrawn (tx_at "mock-tx-withdraw-" target now) a)
  unfolding withdraw claimable_at
  withdraw_answer s a found live claimed = ground arith

  withdraw-Paid :
      (s : Stream)
      → Dict.get target c.streams ≡ some s
      → s.status ≡ active
      → s.deposit ≤ i128_max
      → Paid s
  withdraw-Paid s found live fits =
      let claimed = claimable_at-due s now fits live in
      let moved = (withdraw_found now target c s (due s now) found live claimed).0 in
      record {
        live = live;
        answer = (_, withdraw_answer s (due s now) found live claimed);
        slots = λ id.
            ap (λ m. Dict.get id m) moved
            ∙ Dict.get-set target id (withdraw_from s now) c.streams
            ∙ ap (λ t. if target == id then some t else Dict.get id c.streams)
                (withdraw_from-paid_out s now);
      }

  -- A withdrawal that is not a dry run throws and changes nothing, if there is no such stream or it is
  -- not active. From an active stream it pays the flow from the last withdrawal until now or the end,
  -- at most the deposit, and nothing while a lock holds; the stream is then withdrawn until that time
  -- and completed from its end on, and all others stay. The deposit fits an i128.
  pub withdraw-Outcome :
      ((s : Stream) → Dict.get target c.streams ≡ some s → s.deposit ≤ i128_max)
      → ((Dict.get target c.streams ≡ none)
          × (withdraw now false target c ≡ (c, err (stream_not_found target))))
        ⊎ ((s : Stream) × (Dict.get target c.streams ≡ some s)
            × (((s.status ≢ active) × (withdraw now false target c ≡ (c, err not_active)))
                ⊎ Paid s))
  withdraw-Outcome fits = elim (Option-cases (Dict.get target c.streams)) [
    | inl absent ↦ inl (absent, withdraw_missing now target c absent)
    | inr (s, found) ↦ elim (Status-cases s.status) [
      | inl live ↦ inr (s, found, inr (withdraw-Paid s found live (fits s found)))
      | inr idle ↦ inr (s, found, inl (idle, withdraw_inactive now target c s found idle))
    ]
  ]

  -- A withdrawal from a locked stream returns and pays nothing, and what had accrued is lost: when the
  -- lock is over, at `t`, the claim of the stream that it leaves counts from that withdrawal. The
  -- stream is active and not at its end, and its deposit fits an i128.
  pub withdraw_locked_forfeits :
      (s : Stream) (t : ℕ)
      → Dict.get target c.streams ≡ some s
      → s.deposit ≤ i128_max
      → s.status ≡ active
      → before now s.lock_until ≡ true
      → now < s.end_time
      → now ≤ t
      → before t s.lock_until ≡ false
      → (hash : String) × (left : Stream) × ((withdraw now false target c).1
          ≡ ok (withdrawn hash 0))
        × (Dict.get target (withdraw now false target c).0.streams ≡ some left)
        × (claimable_at left t ≡ ok (min (s.flow_rate * (min t s.end_time - now)) s.deposit))
  withdraw_locked_forfeits s t found fits live held early h free =
      let claimed = claimable_locked s now live held in
      (
        _,
        withdraw_from s now,
        withdraw_answer s 0 found live claimed,
        ap (λ m. Dict.get target m) (withdraw_found now target c s 0 found live claimed).0
            ∙ Dict.get-set_self target (withdraw_from s now) c.streams,
        (claimable_at-withdraw_from s now t fits early h free).0,
      )
