-- ===== src/Source/Mqtt/History.antt =====
-- What the source has made of the inputs that it took.
use ingestion_service.Common.{
  ◌≡◌, refl, sym, ap, ◌∙◌, Bool, true, false, Option, none, some, List, [], ◌∷◌, if◌then◌else◌,
  arith, Bool-cases, inl, inr,
}
use ingestion_service.Source.{IngestJob, dispatch, dispatch_all}
use ingestion_service.Source.Mqtt.{
  Event, con_ack, disconnect, other, sub_ack, publish, Input, changed, polled, failed, MqttSource,
  try_subscribe, all_ok, handle, subscribe_if_pending, dispatch_published, on_event, asks_to_stop,
  run,
}

-- The inputs up to the one that stops the source.
unfoldable pub taken : List Input → List Input
taken [] = []
taken (changed stop ∷ inputs) = let rest = taken inputs in if stop then [] else rest
taken (polled e has_room ∷ inputs) = polled e has_room ∷ taken inputs
taken (failed wake ∷ inputs) =
    let rest = taken inputs in if asks_to_stop wake then failed wake ∷ [] else failed wake ∷ rest

-- The messages that were published to it.
abbrev pub jobs_of : List Input → List IngestJob
jobs_of [] = []
jobs_of (polled (publish job) has_room ∷ inputs) = job ∷ jobs_of inputs
jobs_of (polled con_ack has_room ∷ inputs) = jobs_of inputs
jobs_of (polled (sub_ack codes) has_room ∷ inputs) = jobs_of inputs
jobs_of (polled disconnect has_room ∷ inputs) = jobs_of inputs
jobs_of (polled other has_room ∷ inputs) = jobs_of inputs
jobs_of (changed stop ∷ inputs) = jobs_of inputs
jobs_of (failed wake ∷ inputs) = jobs_of inputs

-- What an input changes: the broker has accepted all of a subscription, or the connection was closed
-- or failed. A subscription that it has not accepted in full changes nothing, as in the source.
abbrev pub says : Input → Option Bool
says (polled (sub_ack codes) has_room) = if all_ok codes then some true else none
says (polled disconnect has_room) = some false
says (polled con_ack has_room) = none
says (polled (publish job) has_room) = none
says (polled other has_room) = none
says (failed wake) = some false
says (changed stop) = none

-- What the last input that changes it says.
abbrev pub last_said : Bool → List Input → Bool
last_said b [] = b
last_said b (i ∷ inputs) = elim (says i) [ none ↦ last_said b inputs | some c ↦ last_said c inputs ]

subscribe_if_pending-keeps :
    (has_room : Bool) (s : MqttSource)
    → ((subscribe_if_pending has_room s).ready ≡ s.ready)
      × ((subscribe_if_pending has_room s).dispatcher ≡ s.dispatcher)
unfolding subscribe_if_pending try_subscribe
subscribe_if_pending-keeps has_room s = (ground arith, ground arith)

-- One event in front of others.
on_event-ready :
    (e : Event) (has_room : Bool) (s : MqttSource) (inputs : List Input)
    → last_said (on_event e has_room s).ready inputs
      ≡ last_said s.ready (polled e has_room ∷ inputs)
unfolding on_event dispatch_published handle
on_event-ready con_ack r s inputs =
    ap (λ b. last_said b inputs)
      (subscribe_if_pending-keeps r (record s { subscribe_pending = true })).0
on_event-ready disconnect r s inputs =
    ap (λ b. last_said b inputs) (subscribe_if_pending-keeps r (record s { ready = false })).0
on_event-ready other r s inputs = ap (λ b. last_said b inputs) (subscribe_if_pending-keeps r s).0
on_event-ready (publish job) r s inputs =
    ap (λ b. last_said b inputs) (subscribe_if_pending-keeps r s).0
on_event-ready (sub_ack codes) r s inputs = elim (Bool-cases (all_ok codes)) [
  | inl e ↦
      let told : last_said s.ready (polled (sub_ack codes) r ∷ inputs) ≡ last_said true inputs =
        ground (arith, e) in
      rw e (
        ap (λ b. last_said b inputs) (subscribe_if_pending-keeps r (record s { ready = true })).0
        ∙ sym told)
  | inr e ↦
      let told : last_said s.ready (polled (sub_ack codes) r ∷ inputs) ≡ last_said s.ready inputs =
        ground (arith, e) in
      rw e (ap (λ b. last_said b inputs) (subscribe_if_pending-keeps r s).0 ∙ sym told)
]

on_event-dispatcher :
    (e : Event) (has_room : Bool) (s : MqttSource) (inputs : List Input)
    → dispatch_all (jobs_of inputs) (on_event e has_room s).dispatcher
      ≡ dispatch_all (jobs_of (polled e has_room ∷ inputs)) s.dispatcher
unfolding on_event dispatch_published handle dispatch_all
on_event-dispatcher con_ack r s inputs =
    ap (dispatch_all (jobs_of inputs))
      (subscribe_if_pending-keeps r (record s { subscribe_pending = true })).1
on_event-dispatcher disconnect r s inputs =
    ap (dispatch_all (jobs_of inputs)) (subscribe_if_pending-keeps r (record s { ready = false })).1
on_event-dispatcher other r s inputs =
    ap (dispatch_all (jobs_of inputs)) (subscribe_if_pending-keeps r s).1
on_event-dispatcher (publish job) r s inputs =
    ap (λ d. dispatch_all (jobs_of inputs) (dispatch job d)) (subscribe_if_pending-keeps r s).1
on_event-dispatcher (sub_ack codes) r s inputs = elim (Bool-cases (all_ok codes)) [
  | inl e ↦ rw e (
      ap (dispatch_all (jobs_of inputs))
        (subscribe_if_pending-keeps r (record s { ready = true })).1)
  | inr e ↦ rw e (ap (dispatch_all (jobs_of inputs)) (subscribe_if_pending-keeps r s).1)
]

-- A source has dispatched exactly the messages published to it until it stopped, in their order. Of the
-- SubAcks that accept all of a subscription, the Disconnects and the failed polls that it has met, it is
-- ready if the last was such a SubAck, not ready if it was another, and as before if there was none. A
-- SubAck that rejects anything, like every other event, leaves it as it was: ready if it was ready.
pub run-history :
    (inputs : List Input) (s : MqttSource)
    → ((run inputs s).dispatcher ≡ dispatch_all (jobs_of (taken inputs)) s.dispatcher)
      × ((run inputs s).ready ≡ last_said s.ready (taken inputs))
unfolding run taken dispatch_all
run-history [] s = (refl, refl)
run-history (changed true ∷ inputs) s = (refl, refl)
run-history (changed false ∷ inputs) s = run-history inputs s
run-history (failed none ∷ inputs) s = run-history inputs (record s { ready = false })
run-history (failed (some true) ∷ inputs) s = (refl, refl)
run-history (failed (some false) ∷ inputs) s = run-history inputs (record s { ready = false })
run-history (polled e has_room ∷ inputs) s =
    let (sent, told) = run-history inputs (on_event e has_room s) in
    (
      sent ∙ on_event-dispatcher e has_room s (taken inputs),
      told ∙ on_event-ready e has_room s (taken inputs),
    )
