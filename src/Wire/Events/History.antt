-- ===== src/Wire/Events/History.antt =====
-- What the accepted events of a session say together (`EventOrder.accept` of protocol/wire.py, over
-- the messages of one helper).
use zephyr_remote_openocd.Shared.{
  ℕ, ◌+◌, ◌≡◌, Bool, Option, some, List, [], ◌∷◌, arith, length, Error, Result, Result-cases, inl,
  inr, ok, raised, string_eq, Exec,
}
use zephyr_remote_openocd.Outcome.{CompletionPolicy, LogReport, TerminalSnapshot}
use zephyr_remote_openocd.Wire.Frames.{Bytes}
use zephyr_remote_openocd.Wire.Json.{Fields, get, is_int}
use zephyr_remote_openocd.Wire.Base64.{log_data}
use zephyr_remote_openocd.Wire.Terminal.{decode_terminal}
use zephyr_remote_openocd.Wire.Events.{
  Kind, log_chunk, session_ended, kind_of, validate_event, EventOrder, new, accept, on_valid,
  on_kind, on_log_data, on_ended, refuse,
}

on_log_data_unchanged :
    (b : Bytes) (v : Bool) (s : EventOrder) (e : Error)
    → (on_log_data b v s).0 ≡ raised e
    → (on_log_data b v s).1 ≡ s
unfolding on_log_data refuse
on_log_data_unchanged b v s e h = ground arith

on_ended_unchanged :
    (t : TerminalSnapshot) (s : EventOrder) (e : Error)
    → (on_ended t s).0 ≡ raised e
    → (on_ended t s).1 ≡ s
unfolding on_ended refuse
on_ended_unchanged t s e h = ground arith

on_kind_unchanged :
    (k : Kind) (m : Fields) (s : EventOrder) (e : Error)
    → (on_kind k m s).0 ≡ raised e
    → (on_kind k m s).1 ≡ s
unfolding on_kind refuse
on_kind_unchanged log_chunk m s e h = elim (Result-cases (log_data (get "data" m))) [
  | inl (b, v) ↦ ground (arith, on_log_data_unchanged b (is_int s.log_bytes (get "offset" m)) s e)
  | inr (x, v) ↦ ground arith
]
on_kind_unchanged session_ended m s e h = elim (Result-cases (decode_terminal m)) [
  | inl (t, v) ↦ ground (arith, on_ended_unchanged t s e)
  | inr (x, v) ↦ ground arith
]
on_kind_unchanged k m s e h = ground arith

on_valid_unchanged :
    (k : Kind) (m : Fields) (s : EventOrder) (e : Error)
    → (on_valid k m s).0 ≡ raised e
    → (on_valid k m s).1 ≡ s
unfolding on_valid refuse
on_valid_unchanged k m s e h = ground (arith, on_kind_unchanged k m s e)

-- `accept` on each message of a list, up to the first that is refused.
unfoldable pub accept_all : List Fields → Exec EventOrder (Unit {0})
accept_all [] s = (ok tt, s)
accept_all (m ∷ ms) s = elim (accept m s).0 [
  | ok u ↦ accept_all ms (accept m s).1
  | raised e ↦ (raised e, s)
]

payload : Option Kind → Result Bytes → ℕ
payload (some log_chunk) (ok bytes) = length bytes
payload _ _ = 0

-- The number of log bytes that a message carries.
pub carried : Fields → ℕ
carried m = payload (kind_of m) (log_data (get "data" m))

pub total : List Fields → ℕ
total [] = 0
total (m ∷ ms) = carried m + total ms

pub validate_event-kind : (m : Fields) (k : Kind) → validate_event m ≡ ok k → kind_of m ≡ some k
unfolding validate_event
validate_event-kind m k h = ground arith

on_kind-bytes :
    (k : Kind) (m : Fields) (s : EventOrder)
    → (on_kind k m s).0 ≡ ok tt
    → (on_kind k m s).1.log_bytes ≡ s.log_bytes + payload (some k) (log_data (get "data" m))
unfolding on_kind on_log_data on_ended refuse payload
on_kind-bytes k m s h = ground arith

accept-bytes :
    (m : Fields) (s : EventOrder)
    → (accept m s).0 ≡ ok tt
    → (accept m s).1.log_bytes ≡ s.log_bytes + carried m
unfolding accept on_valid refuse carried
accept-bytes m s h = elim (Result-cases (validate_event m)) [
  | inl (k, v) ↦ ground (arith, on_kind-bytes k m s, validate_event-kind m k)
  | inr (x, v) ↦ ground arith
]

accept_all-bytes :
    (ms : List Fields) (s : EventOrder)
    → (accept_all ms s).0 ≡ ok tt
    → (accept_all ms s).1.log_bytes ≡ s.log_bytes + total ms
unfolding accept_all total
accept_all-bytes [] s h = omega arith
accept_all-bytes (m ∷ ms) s h = ground (arith, accept-bytes m s, accept_all-bytes ms (accept m s).1)

-- Over any accepted messages, `log_bytes` is the number of bytes that their LOG_DATA carried.
log_bytes-total :
    (policy : CompletionPolicy) (log : Bool) (ms : List Fields) (s : EventOrder)
    → accept_all ms (new policy log) ≡ (ok tt, s)
    → s.log_bytes ≡ total ms
unfolding new
log_bytes-total policy log ms s h = ground (arith, accept_all-bytes ms (new policy log))

-- A SESSION_ENDED that is accepted after such messages reports exactly that number of log bytes.
pub ended_counts_log :
    (policy : CompletionPolicy) (log : Bool) (ms : List Fields) (s : EventOrder) (m : Fields)
    (t : TerminalSnapshot) (r : LogReport)
    → accept_all ms (new policy log) ≡ (ok tt, s)
    → kind_of m ≡ some session_ended
    → decode_terminal m ≡ ok t
    → t.log ≡ some r
    → (accept m s).0 ≡ ok tt
    → r.byte_count ≡ total ms
unfolding accept on_valid on_kind on_ended refuse
ended_counts_log policy log ms s m t r h kind decoded report accepted =
    elim (Result-cases (validate_event m)) [
      | inl (k, v) ↦ ground (arith, validate_event-kind m k v, log_bytes-total policy log ms s h)
      | inr (x, v) ↦ ground arith
    ]
