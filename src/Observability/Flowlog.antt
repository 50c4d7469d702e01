-- ===== src/Observability/Flowlog.antt =====
-- The exporters of pkg/observability/flowlog.go. `none` is a panic: a send on the closed channel, or
-- its second close. A channel is its capacity, its queue and whether it is closed.
pub mod Events
pub mod Queue
use coordino.Base.{
  ℕ, ◌+◌, Bool, true, false, ◌&&◌, not, Option, none, some, List, [], ◌∷◌, ◌++◌, Bytes, bytes, ltb,
  length, if◌then◌else◌,
}

pub record FlowRecord : Type 0 where
  pub src_identity : ℕ
  pub dst_identity : ℕ
  pub src_ip : Bytes
  pub dst_ip : Bytes
  pub proto : ℕ
  pub dst_port : ℕ
  pub verdict : Bytes
  pub matched_policy : Bytes
  pub timestamp : ℕ

pub record Channel : Type 0 where
  pub capacity : ℕ
  pub queue : List FlowRecord
  pub closed : Bool

-- `readers` counts the goroutines that Start made and that still read.
pub record RingBufferExporter : Type 0 where
  pub buffer_path : Bytes
  pub running : Bool
  pub records : Channel
  pub readers : ℕ

unfoldable pub new_ring_buffer_exporter : Bytes → ℕ → RingBufferExporter
new_ring_buffer_exporter path size = record {
  buffer_path = path;
  running = false;
  records = record { capacity = size; queue = []; closed = false };
  readers = 0;
}

unfoldable pub start : RingBufferExporter → RingBufferExporter
start e = if e.running then e else record e { running = true; readers = e.readers + 1 }

unfoldable pub stop : RingBufferExporter → Option RingBufferExporter
stop e =
    if not e.running
    then some e
    else if e.records.closed
    then none
    else some (record e { running = false; records = record (e.records) { closed = true } })

abbrev pub is_empty : List FlowRecord → Bool
is_empty [] = true
is_empty (r ∷ rs) = false

abbrev pub enqueued : FlowRecord → RingBufferExporter → RingBufferExporter
enqueued r e = record e { records = record (e.records) { queue = e.records.queue ++ (r ∷ []) } }

-- What `Export` did with the record: it was handed to a reader, it is in the queue, or neither, with
-- the text of the error.
pub data Sent : Type 0 where
  handed : Sent
  queued : Sent
  refused : Bytes → Sent

-- `waiting` says whether a reader waits for a record, which it does only at an empty queue.
unfoldable pub export : Bool → FlowRecord → RingBufferExporter → Option (RingBufferExporter × Sent)
export waiting r e =
    if not e.running
    then some (e, Sent.refused (bytes "exporter not running"))
    else if e.records.closed
    then none
    else if waiting && is_empty e.records.queue
    then some (e, Sent.handed)
    else if ltb (length e.records.queue) e.records.capacity
    then some (enqueued r e, Sent.queued)
    else some (e, Sent.refused (bytes "buffer full, dropping record"))

abbrev pub with_queue : List FlowRecord → RingBufferExporter → RingBufferExporter
with_queue rs e = record e { records = record (e.records) { queue = rs } }

-- A reader takes the next record, if there is one.
unfoldable pub receive : RingBufferExporter → RingBufferExporter × Option FlowRecord
receive e = elim e.records.queue [ [] ↦ (e, none) | r ∷ rs ↦ (with_queue rs e, some r) ]

-- LogExporter: the line is given by its parts.
pub record LogExporter : Type 0 where
  pub running : Bool

unfoldable pub new_log_exporter : LogExporter
new_log_exporter = record { running = false }

unfoldable pub log_start : LogExporter → LogExporter
log_start e = record e { running = true }

unfoldable pub log_stop : LogExporter → LogExporter
log_stop e = record e { running = false }

-- The record whose line is printed, or the error.
unfoldable pub log_export : FlowRecord → LogExporter → Option FlowRecord × Option Bytes
log_export r e =
    if not e.running then (none, some (bytes "exporter not running")) else (some r, none)
