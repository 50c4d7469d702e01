-- ===== src/Examples/Flows.antt =====
-- Examples for pkg/observability/flowlog.go: a buffer of one record that refuses a second one.
use coordino.Base.{none, ◌≡◌, ◌≤◌, refl, false, true, some, List, [], ◌∷◌, ◌++◌, bytes, length}
use coordino.Observability.Flowlog.{
  FlowRecord, new_ring_buffer_exporter, start, stop, export, receive,
}
use coordino.Observability.Flowlog.Events.{History, Event, history, begun}
use coordino.Observability.Flowlog.Queue.{export_history}

abbrev flow : FlowRecord
flow = record {
  src_identity = 1;
  dst_identity = 2;
  src_ip = bytes "10.0.0.2";
  dst_ip = bytes "10.0.0.3";
  proto = 6;
  dst_port = 80;
  verdict = bytes "allow";
  matched_policy = bytes "web";
  timestamp = 5;
}

abbrev events : List Event
events =
    Event.starts
    ∷ Event.exports false flow
    ∷ Event.exports false flow
    ∷ Event.receives
    ∷ Event.exports false flow
    ∷ Event.stops
    ∷ []

abbrev after : History
after = record {
  exporter = record {
    buffer_path = [];
    running = false;
    records = record { capacity = 1; queue = flow ∷ []; closed = true };
    readers = 1;
  };
  accepted = flow ∷ flow ∷ [];
  delivered = flow ∷ [];
}

happened : history events (some (begun [] 1)) ≡ some after
unfolding start stop export receive new_ring_buffer_exporter
happened = refl

export_history_example :
    (length after.exporter.records.queue ≤ 1)
    × (after.delivered ++ after.exporter.records.queue ≡ after.accepted)
export_history_example = export_history 1 [] events after happened

-- A second start leaves the channel closed, and the next record panics.
restart_panics :
    history
      (Event.starts ∷ Event.stops ∷ Event.starts ∷ Event.exports false flow ∷ [])
      (some (begun [] 1))
    ≡ none
unfolding start stop export new_ring_buffer_exporter
restart_panics = refl
