-- ===== src/Wire/Events/Order.antt =====
-- Which messages may follow which in the accepted events of a session (`EventOrder.accept` of
-- protocol/wire.py, over the messages of one helper).
use zephyr_remote_openocd.Shared.{
  ◌≡◌, refl, Bool, true, false, not, ◌&&◌, ◌||◌, Option, none, some, List, [], ◌∷◌, ◌++◌, arith,
  nat_beq, ℕ, Result-cases, inl, inr, ok,
}
use zephyr_remote_openocd.Outcome.{CompletionPolicy, is_live_server}
use zephyr_remote_openocd.Wire.Json.{Fields}
use zephyr_remote_openocd.Wire.Events.{
  Kind, session_created, attempt, ready, child_output, log_chunk, session_ended, kind_of,
  validate_event, EventOrder, new, accept, on_valid, on_kind, on_log_data, on_ended, refuse,
}
use zephyr_remote_openocd.Wire.Events.History.{accept_all, validate_event-kind}

number : Kind → ℕ
number session_created = 0
number attempt = 1
number ready = 2
number child_output = 3
number log_chunk = 4
number session_ended = 5

matches : Kind → Option Kind → Bool
unfolding number
matches k none = false
matches k (some j) = nat_beq (number j) (number k)

-- Whether one of the messages is of the kind.
pub seen : Kind → List Fields → Bool
unfolding matches
seen k [] = false
seen k (m ∷ ms) = matches k (kind_of m) || seen k ms

-- What a message of a kind asks of the messages before it.
pub may_follow : CompletionPolicy → Bool → List Fields → Kind → Bool
may_follow policy log before session_created = not (seen session_created before)
may_follow policy log before attempt = seen session_created before && not (seen attempt before)
may_follow policy log before ready =
    is_live_server policy
    && (seen session_created before && (seen attempt before && not (seen ready before)))
may_follow policy log before child_output = seen session_created before && seen attempt before
may_follow policy log before log_chunk = log && (seen session_created before && seen attempt before)
may_follow policy log before session_ended = true

-- What has become of `s` after the messages `ms`.
record Tells (ms : List Fields) (s t : EventOrder) : Type 0 where
  policy : t.policy ≡ s.policy
  log_requested : t.log_requested ≡ s.log_requested
  created : t.created ≡ (s.created || seen session_created ms)
  attempted : t.attempted ≡ (s.attempted || seen attempt ms)
  ready_seen : t.ready_seen ≡ (s.ready_seen || seen ready ms)
  ended : t.ended ≡ (s.ended || seen session_ended ms)

on_valid-Tells :
    (k : Kind) (m : Fields) (s : EventOrder)
    → kind_of m ≡ some k
    → (on_valid k m s).0 ≡ ok tt
    → Tells (m ∷ []) s (on_valid k m s).1
unfolding on_valid on_kind on_log_data on_ended refuse seen matches number
on_valid-Tells k m s e h = record {
  policy = ground arith;
  log_requested = ground arith;
  created = ground arith;
  attempted = ground arith;
  ready_seen = ground arith;
  ended = ground arith;
}

accept-Tells :
    (m : Fields) (s : EventOrder) → (accept m s).0 ≡ ok tt → Tells (m ∷ []) s (accept m s).1
unfolding accept
accept-Tells m s h = elim (Result-cases (validate_event m)) [
  | inl (k, v) ↦ rw (v, accept) (on_valid-Tells k m s (validate_event-kind m k v) (ground arith))
  | inr (x, v) ↦ absurd (ground arith)
]

accept_all-Tells :
    (ms : List Fields) (s : EventOrder)
    → (accept_all ms s).0 ≡ ok tt
    → Tells ms s (accept_all ms s).1
unfolding accept_all seen
accept_all-Tells [] s h = record {
  policy = refl;
  log_requested = refl;
  created = ground arith;
  attempted = ground arith;
  ready_seen = ground arith;
  ended = ground arith;
}
accept_all-Tells (m ∷ ms) s h = elim (Result-cases (accept m s).0) [
  | inl (u, v) ↦
      let one = accept-Tells m s v in
      let rest = accept_all-Tells ms (accept m s).1 (ground arith) in
      record {
        policy = ground arith;
        log_requested = ground arith;
        created = ground arith;
        attempted = ground arith;
        ready_seen = ground arith;
        ended = ground arith;
      }
  | inr (e, v) ↦ absurd (ground arith)
]

accept_all-append :
    (before after : List Fields) (s : EventOrder)
    → (accept_all (before ++ after) s).0 ≡ ok tt
    → ((accept_all before s).0 ≡ ok tt) × ((accept_all after (accept_all before s).1).0 ≡ ok tt)
unfolding accept_all
accept_all-append [] after s h = (refl, h)
accept_all-append (m ∷ ms) after s h = ground (arith, accept_all-append ms after (accept m s).1)

-- What one accepted message says of the fields at hand.
on_valid-guards :
    (k : Kind) (m : Fields) (s : EventOrder) (before : List Fields) (policy : CompletionPolicy)
    (log : Bool)
    → Tells before (new policy log) s
    → (on_valid k m s).0 ≡ ok tt
    → (may_follow policy log before k ≡ true) × (seen session_ended before ≡ false)
unfolding on_valid on_kind on_log_data on_ended refuse new may_follow
on_valid-guards k m s before policy log t h = (ground arith, ground arith)

-- In every accepted sequence of events, each message is of a known kind and stands where the order
-- of a session allows it: nothing follows SESSION_ENDED; SESSION_CREATED comes once, ATTEMPT once and
-- after SESSION_CREATED, READY once, after ATTEMPT and for a live server only; CHILD_OUTPUT and
-- LOG_DATA come after SESSION_CREATED and ATTEMPT, LOG_DATA only where the log was requested.
pub events_in_order :
    (policy : CompletionPolicy) (log : Bool) (before after : List Fields) (m : Fields)
    (s : EventOrder)
    → accept_all (before ++ (m ∷ after)) (new policy log) ≡ (ok tt, s)
    → (k : Kind) × ((kind_of m ≡ some k)
        × ((may_follow policy log before k ≡ true) × (seen session_ended before ≡ false)))
unfolding accept accept_all
events_in_order policy log before after m s h =
    let split = accept_all-append before (m ∷ after) (new policy log) (ground arith) in
    let told = accept_all-Tells before (new policy log) split.0 in
    elim (Result-cases (validate_event m)) [
      | inl (k, v) ↦ (
        k,
        (
          validate_event-kind m k v,
          on_valid-guards k m (accept_all before (new policy log)).1 before policy log told
              (ground arith),
        ),
      )
      | inr (x, v) ↦ absurd (ground arith)
    ]
