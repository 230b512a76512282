-- ===== src/ConnectionPool/Grants.antt =====
-- Who is granted a connection, and when.
use sorostream_sdk.Base.{
  ℕ, ◌+◌, ◌≤◌, ◌≡◌, ◌⊎◌, refl, ap, inl, inr, String, Option, List, [], ◌∷◌, ◌++◌, nat_eq, ◌==◌, ltb,
  if_elim, length, sum_of, sum_of-append, arith,
}
use sorostream_sdk.ConnectionPool.{
  Waiter, ConnectionPool, ConnectionPriority, next_waiter, hand_over, freed, least_loaded_slot,
  change_at, unsubscribe, all_idle, emit_if_drained, grant, acquire, release, abort, Event, asked,
  released, aborted, step,
}
use sorostream_sdk.ConnectionPool.Waiting.{
  InLine, sum_of-remove_waiter, remove_waiter-Numbered, append-Numbered, waits, remove_waiter-waits,
  length-remove_waiter, next_waiter-Outranks, Numbered,
}

-- No more connections are held than the limit, a caller waits only while all are held, and the waiters'
-- numbers are different.
pub record IsServed (p : ConnectionPool) : Type 0 where
  pub within : p.active_connections ≤ p.max_connections
  pub busy : (length p.waiters ≡ 0) ⊎ (p.active_connections ≡ p.max_connections)
  pub numbered : Numbered p.waiter_seq p.waiters

-- The callers that were granted and those that wait, each with its weight.
abbrev pub callers : (String → ℕ) → ConnectionPool → ℕ
callers f p =
    sum_of (λ (g : String × ℕ). f g.0) p.granted + sum_of (λ (v : Waiter). f v.caller) p.waiters

-- What an event leaves that brings in or takes out callers.
pub record Served (p p' : ConnectionPool) (more fewer : List String) : Type 0 where
  pub served : IsServed p'
  pub counted : (f : String → ℕ) → callers f p' + sum_of f fewer ≡ callers f p + sum_of f more

granted_more :
    (f : String → ℕ) (p : ConnectionPool) (c : String × ℕ)
    → sum_of (λ (g : String × ℕ). f g.0) (p.granted ++ c ∷ [])
      ≡ sum_of (λ (g : String × ℕ). f g.0) p.granted + f c.0
granted_more f p c = omega (arith, sum_of-append (λ (g : String × ℕ). f g.0) p.granted (c ∷ []))

acquire-Served :
    (caller : String) (priority : Option ConnectionPriority) (now : ℕ) (p : ConnectionPool)
    → IsServed p
    → Served p (acquire caller priority now p) (caller ∷ []) []
unfolding acquire grant
acquire-Served caller priority now p h =
    if_elim (λ r. Served p r (caller ∷ []) []) (ltb p.active_connections p.max_connections)
      (λ free. record {
        served = record {
          within = ground (arith, free);
          busy = ground (arith, h.busy, free);
          numbered = h.numbered;
        };
        counted = λ f. omega (arith, granted_more f p (caller, least_loaded_slot p.slots));
      })
      (λ full. record {
        served = record {
          within = h.within;
          busy = inr (ground (arith, full, h.within));
          numbered = append-Numbered p.waiter_seq _ p.waiters refl h.numbered;
        };
        counted = λ f. omega (arith, sum_of-append (λ (v : Waiter). f v.caller) p.waiters (_ ∷ []));
      })

emit_if_drained-Served :
    (p q : ConnectionPool) (more fewer : List String)
    → Served p q more fewer
    → Served p (emit_if_drained q) more fewer
unfolding emit_if_drained
emit_if_drained-Served p q more fewer s =
    if_elim (λ r. Served p r more fewer) (all_idle q.slots)
      (λ idle. record {
        served = record {
          within = s.served.within;
          busy = s.served.busy;
          numbered = s.served.numbered;
        };
        counted = s.counted;
      })
      (λ in_use. s)

someone : (w : Waiter) (ws : List Waiter) → InLine w ws → 1 ≤ length ws
someone w [] i = absurd i
someone w (v ∷ vs) i = omega arith

release-Served :
    (i now : ℕ) (p : ConnectionPool)
    → IsServed p
    → 1 ≤ p.active_connections
    → Served p (release i now p) [] []
unfolding release grant
release-Served i now p h held =
    let handed = hand_over (next_waiter p.waiters) now (freed i p) in
    let s : Served p handed [] [] = elim (next_waiter-Outranks p.waiters) [
      | inl (stop, nobody) ↦ rw stop (record {
        served = record {
          within = omega (arith, h.within);
          busy = inl (ap length nobody);
          numbered = h.numbered;
        };
        counted = λ f. refl;
      })
      | inr (best, found, outranks, in_line) ↦ rw found (record {
        served = record {
          within = omega (arith, h.within, held);
          busy = ground (arith, h.busy, someone best p.waiters in_line, held);
          numbered = remove_waiter-Numbered p.waiter_seq best.seq p.waiters h.numbered;
        };
        counted = λ f. omega (
          arith,
          sum_of-remove_waiter (λ v. f v.caller) p.waiter_seq best p.waiters h.numbered in_line,
          granted_more f p (best.caller, least_loaded_slot (change_at i unsubscribe p.slots)),
        );
      })
    ] in
    emit_if_drained-Served p handed [] [] s

-- The callers that an event brings in, and those that stop waiting at it.
abbrev pub asks : Event → List String
asks (asked caller priority now) = caller ∷ []
asks (released i now) = []
asks (aborted seq) = []

abbrev pub gives_up : Event → ConnectionPool → List String
gives_up (asked caller priority now) p = []
gives_up (released i now) p = []
gives_up (aborted seq) p = waits seq p.waiters

-- Whatever is asked for, released and given up: no more connections are held than the limit, a caller
-- waits only while all are held, and each caller has been granted a connection once, waits, or gave
-- up. With any weights of the callers, those that were granted, those that wait and those that gave up
-- weigh as much as those before and those that asked.
pub step-Served :
    (e : Event) (p : ConnectionPool) → IsServed p → Served p (step e p) (asks e) (gives_up e p)
unfolding step abort
step-Served (asked caller priority now) p h = acquire-Served caller priority now p h
step-Served (released i now) p h =
    if_elim (λ r. Served p r [] []) (p.active_connections == 0)
      (λ none_held. record { served = h; counted = λ f. refl })
      (λ some_held. release-Served i now p h (ground (arith, some_held)))
step-Served (aborted seq) p h = record {
  served = record {
    within = h.within;
    busy = ground (arith, h.busy, length-remove_waiter seq p.waiters);
    numbered = remove_waiter-Numbered p.waiter_seq seq p.waiters h.numbered;
  };
  counted = λ f. omega (arith, remove_waiter-waits f seq p.waiters);
}
