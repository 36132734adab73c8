-- ===== src/Source/Mqtt.antt =====
-- `MqttSource::run` of src/infrastructure/source/mqtt.rs, given what its waits come to.
pub mod History
use ingestion_service.Common.{
  Bool, true, false, not, ◌&&◌, Option, none, some, List, [], ◌∷◌, if◌then◌else◌,
}
use ingestion_service.Model.Messages.{Str}
use ingestion_service.Source.{IngestJob, IngestDispatcher, dispatch}

-- The events of the connection that `run` tells apart. Of a SubAck they have whether each of its return
-- codes is a success.
pub data Event : Type 0 where
  con_ack disconnect other : Event
  sub_ack : List Bool → Event
  publish : IngestJob → Event

-- What a wait of the loop ends with: a change of the shutdown channel, and whether it asks to stop; an
-- event, and whether the request channel has room for a subscription; or an error of the connection, and
-- whether the wait behind it ends with such a change (`none`: with the delay).
pub data Input : Type 0 where
  changed : Bool → Input
  polled : Event → Bool → Input
  failed : Option Bool → Input

-- The source and what it changes: how many subscriptions it has queued, and the dispatcher.
pub record MqttSource : Type 0 where
  pub subscribe_pending : Bool
  pub ready : Bool
  pub queued : List (Unit {0})
  pub dispatcher : IngestDispatcher

unfoldable pub try_subscribe : Bool → MqttSource → MqttSource
try_subscribe has_room s =
    if has_room then record s { subscribe_pending = false; queued = tt ∷ s.queued } else s

abbrev pub all_ok : List Bool → Bool
all_ok [] = true
all_ok (c ∷ codes) = c && all_ok codes

-- The `match` on the event.
unfoldable pub handle : Event → MqttSource → MqttSource
handle con_ack s = record s { subscribe_pending = true }
handle (sub_ack codes) s = if all_ok codes then record s { ready = true } else s
handle disconnect s = record s { ready = false }
handle (publish job) s = s
handle other s = s

unfoldable pub subscribe_if_pending : Bool → MqttSource → MqttSource
subscribe_if_pending has_room s = if s.subscribe_pending then try_subscribe has_room s else s

unfoldable pub dispatch_published : Event → MqttSource → MqttSource
dispatch_published (publish job) s = record s { dispatcher = dispatch job s.dispatcher }
dispatch_published con_ack s = s
dispatch_published (sub_ack codes) s = s
dispatch_published disconnect s = s
dispatch_published other s = s

-- The branch for an event.
unfoldable pub on_event : Event → Bool → MqttSource → MqttSource
on_event e has_room s = dispatch_published e (subscribe_if_pending has_room (handle e s))

abbrev pub asks_to_stop : Option Bool → Bool
asks_to_stop none = false
asks_to_stop (some stop) = stop

-- The loop: the state in which it ends, or waits for more.
unfoldable pub run : List Input → MqttSource → MqttSource
run [] s = s
run (changed stop ∷ inputs) s = let rest = run inputs s in if stop then s else rest
run (polled e has_room ∷ inputs) s = run inputs (on_event e has_room s)
run (failed wake ∷ inputs) s =
    let s' : MqttSource = record s { ready = false } in
    let rest = run inputs s' in if asks_to_stop wake then s' else rest
