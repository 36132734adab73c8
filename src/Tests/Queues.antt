-- ===== src/Tests/Queues.antt =====
-- The dispatcher on two channels, of which one is full and one is open, and a source in front of it.
use ingestion_service.Common.{ℕ, ◌≡◌, refl, true, false, none, [], ◌∷◌, List}
use ingestion_service.Source.{IngestJob, Channel, IngestDispatcher, dispatch_all}
use ingestion_service.Source.Mqtt.{
  MqttSource, Input, changed, polled, failed, con_ack, sub_ack, publish, run,
}
use ingestion_service.Source.Mqtt.History.{taken, jobs_of, last_said, run-history}

abbrev job : IngestJob
job = record { topic = b'a' ∷ []; payload = 1 ∷ [] }

abbrev channel_of : ℕ → List IngestJob → Channel
channel_of capacity jobs = record { open' = true; capacity = capacity; jobs = jobs }

abbrev two_channels : IngestDispatcher
two_channels = record {
  senders = channel_of 1 (job ∷ []) ∷ channel_of 2 [] ∷ [];
  next = 0;
  dropped = 0;
}

abbrev idle_source : MqttSource
idle_source = record {
  subscribe_pending = false;
  ready = false;
  queued = [];
  dispatcher = two_channels;
}

-- A connection, its subscription, a message, a loss of the connection, and the shutdown.
abbrev one_day : List Input
one_day =
    polled con_ack true
    ∷ polled (sub_ack (true ∷ [])) false
    ∷ polled (publish job) true
    ∷ failed none
    ∷ changed true
    ∷ polled (publish job) true
    ∷ []

run-history_example :
    ((run one_day idle_source).dispatcher
      ≡ dispatch_all (jobs_of (taken one_day)) idle_source.dispatcher)
    × ((run one_day idle_source).ready ≡ last_said false (taken one_day))
run-history_example = run-history one_day idle_source

one_day_jobs : jobs_of (taken one_day) ≡ job ∷ []
unfolding taken
one_day_jobs = refl
