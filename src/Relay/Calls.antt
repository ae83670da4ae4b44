-- ===== src/Relay/Calls.antt =====
-- The calls of the session on its log relay, in any order, from a new relay.
use zephyr_remote_openocd.Shared.{
  ◌≡◌, refl, Bool, true, false, Option, none, some, List, [], ◌∷◌, ◌++◌, arith, Error, Bool-cases,
  inl, inr,
}
use zephyr_remote_openocd.Outcome.{LogReport}
use zephyr_remote_openocd.Wire.Frames.{Bytes}
use zephyr_remote_openocd.Relay.Writer.{LogWriter, Between}
use zephyr_remote_openocd.Relay.{
  LogRelay, new, accept, confirm_disposal, cut, read_failed, decide, report, ready_to_decide,
  is_empty, pump, progress,
}
use zephyr_remote_openocd.Relay.Invariant.{
  Inv, new-Inv, accept_lost, accept-Inv, accept_end-Inv, confirm_disposal-Inv, cut-Inv,
  read_failed-Inv, decide_lost, decide-Inv, decide_unacquired-Inv, acquire-Inv,
}
use zephyr_remote_openocd.Relay.Pumping.{pump-Inv}

-- `reads` is one chunk of `_observe_log`, `progresses` is `_log_progress`, `expires` is the final drain
-- deadline and `ends_childless` is `_log_decided`, which decides where no child was acquired. `acquires`
-- is the acquisition of the child, which is over before the log is decided. `reports` is `_log_report`,
-- which the session calls with a decision at hand, since `_coordinate` ends with one. `passes` is what
-- the protocol output does in between.
pub data Call : Type 0 where
  reads : Bytes → Call
  progresses : Call
  confirms : Call
  cuts : Call
  read_fails : Error → Call
  expires : Call
  ends_childless : Call
  reports : Bool → Call
  acquires : Call
  passes : Between → Call

-- The relay, the writer, all bytes that were read from the channel, and `_child_acquired`.
pub record Relaying (S : Type 0) : Type 0 where
  pub relay : LogRelay
  pub out : S
  pub fed : Bytes
  pub acquired : Bool

empty_of_ready : (r : LogRelay) → ready_to_decide r ≡ true → is_empty r.buffer ≡ true
unfolding ready_to_decide
empty_of_ready r e = ground arith

-- `_observe_log` reads no more after the end of the channel. Before a child is acquired the relay alone
-- holds the channel open and writes nothing to it, so that no byte is read.
abbrev read_unless : {S : Type 0} → Bool → Bool → Bytes → Relaying S → Relaying S
read_unless true acquired chunk s = s
read_unless false acquired [] s = record s { relay = accept [] s.relay }
read_unless false false (b ∷ bs) s = s
read_unless false true (b ∷ bs) s = record s {
  relay = accept (b ∷ bs) s.relay;
  fed = s.fed ++ (b ∷ bs);
}

abbrev decide_childless : {S : Type 0} → Bool → Relaying S → Relaying S
decide_childless true s = s
decide_childless false s = record s { relay = (decide false false s.relay).1 }

abbrev report_decided : {S : Type 0} → Bool → Option LogReport → Relaying S → Relaying S
report_decided confirmed none s = s
report_decided confirmed (some decision) s = record s { relay = (report confirmed s.relay).1 }

abbrev begin_child : {S : Type 0} → Option LogReport → Relaying S → Relaying S
begin_child none s = record s { acquired = true }
begin_child (some decision) s = s

report-same :
    (confirmed : Bool) (r : LogRelay) (d : LogReport)
    → r.decision ≡ some d
    → (report confirmed r).1 ≡ r
unfolding report decide
report-same confirmed r d e = ground arith

module _ {S : Type 0} (w : LogWriter S) where
  unfoldable pub step : Call → Relaying S → Relaying S
  step (reads chunk) s = read_unless s.relay.end_of_file s.acquired chunk s
  step progresses s = let (r, out) = progress w s.relay s.out in record s { relay = r; out = out }
  step confirms s = record s { relay = confirm_disposal s.relay }
  step cuts s = record s { relay = cut s.relay }
  step (read_fails e) s = record s { relay = read_failed e s.relay }
  step expires s = record s { relay = (decide true true s.relay).1 }
  step ends_childless s = decide_childless s.acquired s
  step (reports confirmed) s = report_decided confirmed s.relay.decision s
  step acquires s = begin_child s.relay.decision s
  step (passes b) s = record s { out = w.between b s.out }

  unfoldable pub run : Relaying S → List Call → Relaying S
  run s [] = s
  run s (c ∷ cs) = run (step c s) cs

  abbrev pub Kept : Relaying S → Type 0
  Kept s =
      (lost : Bytes) × (Inv s.acquired s.fed lost s.relay (w.events s.out)
        × (s.acquired ≡ false → s.fed ≡ []))

  progress-Kept : (s : Relaying S) → Kept s → Kept (step progresses s)
  unfolding step progress
  progress-Kept s (lost, (h, none_read)) =
      let (lost', k) = pump-Inv w s.acquired s.fed lost s.relay s.out h in
      let r = (pump w s.relay s.out).0 in
      elim (Bool-cases (ready_to_decide r)) [
        | inl e ↦ rw e (
          decide_lost s.acquired s.fed lost' r _ k,
          (decide-Inv s.acquired s.fed lost' r _ k false (empty_of_ready r e), none_read),
        )
        | inr e ↦ rw e (lost', (k, none_read))
      ]

  read-Kept :
      (ended acquired : Bool) (chunk : Bytes) (s : Relaying S)
      → s.relay.end_of_file ≡ ended
      → s.acquired ≡ acquired
      → Kept s
      → Kept (read_unless ended acquired chunk s)
  read-Kept true acquired chunk s e a h = h
  read-Kept false acquired [] s e a (lost, (h, n)) =
      (lost, (accept_end-Inv s.acquired s.fed lost s.relay _ h, n))
  read-Kept false false (b ∷ bs) s e a h = h
  read-Kept false true (b ∷ bs) s e a (lost, (h, n)) = (
    lost ++ accept_lost (b ∷ bs) s.relay,
    (accept-Inv s.acquired s.fed lost s.relay _ b bs h a e, λ x. absurd (ground arith)),
  )

  decide_childless-Kept :
      (acquired : Bool) (s : Relaying S)
      → s.acquired ≡ acquired
      → Kept s
      → Kept (decide_childless acquired s)
  decide_childless-Kept true s e h = h
  decide_childless-Kept false s e (lost, (h, n)) = (
    decide_lost s.acquired s.fed lost s.relay _ h,
    (decide_unacquired-Inv s.acquired s.fed lost s.relay _ h e (n e), n),
  )

  report-Kept :
      (confirmed : Bool) (decision : Option LogReport) (s : Relaying S)
      → s.relay.decision ≡ decision
      → Kept s
      → Kept (report_decided confirmed decision s)
  report-Kept confirmed none s e h = h
  report-Kept confirmed (some d) s e (lost, (h, n)) =
      (lost, (rw (report-same confirmed s.relay d e) h, n))

  acquire-Kept :
      (decision : Option LogReport) (s : Relaying S)
      → s.relay.decision ≡ decision
      → Kept s
      → Kept (begin_child decision s)
  acquire-Kept none s e (lost, (h, n)) =
      (lost, (acquire-Inv s.acquired s.fed lost s.relay _ h e, λ x. absurd (ground arith)))
  acquire-Kept (some d) s e h = h

  step-Kept : (c : Call) (s : Relaying S) → Kept s → Kept (step c s)
  unfolding step
  step-Kept (reads chunk) s h = read-Kept s.relay.end_of_file s.acquired chunk s refl refl h
  step-Kept progresses s h = progress-Kept s h
  step-Kept confirms s (lost, (h, n)) =
      (lost, (confirm_disposal-Inv s.acquired s.fed lost s.relay _ h, n))
  step-Kept cuts s (lost, (h, n)) = (lost, (cut-Inv s.acquired s.fed lost s.relay _ h, n))
  step-Kept (read_fails e) s (lost, (h, n)) =
      (lost, (read_failed-Inv s.acquired s.fed lost s.relay _ h e, n))
  step-Kept expires s (lost, (h, n)) = (
    decide_lost s.acquired s.fed lost s.relay _ h,
    (decide-Inv s.acquired s.fed lost s.relay _ h true refl, n),
  )
  step-Kept ends_childless s h = decide_childless-Kept s.acquired s refl h
  step-Kept (reports confirmed) s h = report-Kept confirmed s.relay.decision s refl h
  step-Kept acquires s h = acquire-Kept s.relay.decision s refl h
  step-Kept (passes b) s (lost, (h, n)) = (lost, (rw (w.between-events b s.out) h, n))

  pub run-Kept : (s : Relaying S) (cs : List Call) → Kept s → Kept (run s cs)
  unfolding run
  run-Kept s [] h = h
  run-Kept s (c ∷ cs) h = run-Kept (step c s) cs (step-Kept c s h)

  abbrev pub begun : S → Relaying S
  begun out = record { relay = new; out = out; fed = []; acquired = false }

  pub begun-Kept : (out : S) → w.events out ≡ [] → Kept (begun out)
  begun-Kept out e = ([], (rw e (new-Inv false), λ _. refl))
