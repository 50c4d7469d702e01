-- ===== src/Observability/Flowlog/Events.antt =====
-- The calls of RingBufferExporter (pkg/observability/flowlog.go) and the reads of its readers, one after
-- the other.
use coordino.Base.{ℕ, Bool, Option, none, some, List, [], ◌∷◌, ◌++◌, Bytes}
use coordino.Observability.Flowlog.{
  FlowRecord, RingBufferExporter, Sent, start, stop, export, receive, new_ring_buffer_exporter,
}

-- The exporter with the records that it accepted and those that readers got, in order.
pub record History : Type 0 where
  pub exporter : RingBufferExporter
  pub accepted : List FlowRecord
  pub delivered : List FlowRecord

pub data Event : Type 0 where
  starts stops receives : Event
  exports : Bool → FlowRecord → Event

abbrev pub with_exporter : History → RingBufferExporter → History
with_exporter h e = record h { exporter = e }

abbrev pub after_export : FlowRecord → History → Option (RingBufferExporter × Sent) → Option History
after_export r h none = none
after_export r h (some (e, Sent.handed)) = some (record {
  exporter = e;
  accepted = h.accepted ++ (r ∷ []);
  delivered = h.delivered ++ (r ∷ []);
})
after_export r h (some (e, Sent.queued)) =
    some (record { exporter = e; accepted = h.accepted ++ (r ∷ []); delivered = h.delivered })
after_export r h (some (e, Sent.refused text)) = some (with_exporter h e)

abbrev pub after_receive : History → RingBufferExporter × Option FlowRecord → History
after_receive h (e, none) = with_exporter h e
after_receive h (e, some r) = record {
  exporter = e;
  accepted = h.accepted;
  delivered = h.delivered ++ (r ∷ []);
}

abbrev pub after_stop : History → Option RingBufferExporter → Option History
after_stop h none = none
after_stop h (some e) = some (with_exporter h e)

abbrev pub happen : Event → History → Option History
happen Event.starts h = some (with_exporter h (start h.exporter))
happen Event.stops h = after_stop h (stop h.exporter)
happen Event.receives h = some (after_receive h (receive h.exporter))
happen (Event.exports waiting r) h = after_export r h (export waiting r h.exporter)

-- `none` once an event has panicked.
abbrev pub history : List Event → Option History → Option History
history [] h = h
history (e ∷ es) none = none
history (e ∷ es) (some h) = history es (happen e h)

abbrev pub begun : Bytes → ℕ → History
begun path size = record {
  exporter = new_ring_buffer_exporter path size;
  accepted = [];
  delivered = [];
}
