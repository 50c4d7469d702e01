-- ===== src/Observability/Flowlog/Queue.antt =====
-- Whole histories of RingBufferExporter (pkg/observability/flowlog.go), with its readers.
use coordino.Base.{
  ℕ, ◌≤◌, ◌<◌, ◌≡◌, refl, sym, ap, ◌∙◌, subst, inl, inr, arith, Bool, true, ◌&&◌, Option, none,
  some, List, [], ◌∷◌, ◌++◌, Bytes, ltb, length, length-append, Bool-cases, Option-cases,
  some-injective, ◌≢◌,
}
use mathlib.Core.List.{append_assoc, append-nil}
use coordino.Observability.Flowlog.{
  FlowRecord, RingBufferExporter, Sent, start, stop, export, receive, enqueued, is_empty,
  new_ring_buffer_exporter,
}
use coordino.Observability.Flowlog.Events.{
  History, Event, with_exporter, after_export, after_receive, after_stop, happen, history, begun,
}

-- The queue fits, and holds what was accepted and not yet delivered.
pub record Sound (size : ℕ) (h : History) : Type 0 where
  pub same_capacity : h.exporter.records.capacity ≡ size
  pub bounded : length h.exporter.records.queue ≤ size
  pub in_order : h.delivered ++ h.exporter.records.queue ≡ h.accepted

module _ (size : ℕ) where
  -- A call that leaves the channel's capacity and queue.
  same_records :
      (h : History) (e : RingBufferExporter)
      → e.records.capacity ≡ h.exporter.records.capacity
      → e.records.queue ≡ h.exporter.records.queue
      → Sound size h
      → Sound size (with_exporter h e)
  same_records h e c q s = record {
    same_capacity = c ∙ s.same_capacity;
    bounded = subst (λ rs. length rs ≤ size) (sym q) s.bounded;
    in_order = ap (λ rs. h.delivered ++ rs) q ∙ s.in_order;
  }

  start-Sound : (h : History) → Sound size h → Sound size (with_exporter h (start h.exporter))
  unfolding start
  start-Sound h s = elim (Bool-cases h.exporter.running) [
    | inl e ↦ same_records h (start h.exporter) (rw (e, start) refl) (rw (e, start) refl) s
    | inr e ↦ same_records h (start h.exporter) (rw (e, start) refl) (rw (e, start) refl) s
  ]

  receive-Sound :
      (h : History) (rs : List FlowRecord)
      → h.exporter.records.queue ≡ rs
      → Sound size h
      → Sound size (after_receive h (receive h.exporter))
  unfolding receive
  receive-Sound h [] q s = rw (q, receive) (same_records h h.exporter refl refl s)
  receive-Sound h (r ∷ rs) q s =
      rw (q, receive)
        (record {
          same_capacity = s.same_capacity;
          bounded = omega (arith, s.bounded, ap (λ (xs : List FlowRecord). length xs) q);
          in_order =
              append_assoc h.delivered (r ∷ []) rs
              ∙ ap (λ xs. h.delivered ++ xs) (sym q)
              ∙ s.in_order;
        })

  handed-Sound :
      (h : History) (r : FlowRecord)
      → h.exporter.records.queue ≡ []
      → Sound size h
      → Sound size (record {
        exporter = h.exporter;
        accepted = h.accepted ++ (r ∷ []);
        delivered = h.delivered ++ (r ∷ []);
      })
  handed-Sound h r q s = record {
    same_capacity = s.same_capacity;
    bounded = s.bounded;
    in_order =
        ap (λ xs. (h.delivered ++ (r ∷ [])) ++ xs) q
        ∙ append-nil (h.delivered ++ (r ∷ []))
        ∙ ap (λ xs. xs ++ (r ∷ []))
            (sym (append-nil h.delivered) ∙ ap (λ xs. h.delivered ++ xs) (sym q) ∙ s.in_order);
  }

  queued-Sound :
      (h : History) (r : FlowRecord)
      → length h.exporter.records.queue < h.exporter.records.capacity
      → Sound size h
      → Sound size (record {
        exporter = enqueued r h.exporter;
        accepted = h.accepted ++ (r ∷ []);
        delivered = h.delivered;
      })
  queued-Sound h r room s = record {
    same_capacity = s.same_capacity;
    bounded = omega (arith, room, s.same_capacity, length-append h.exporter.records.queue (r ∷ []));
    in_order =
        sym (append_assoc h.delivered h.exporter.records.queue (r ∷ []))
        ∙ ap (λ xs. xs ++ (r ∷ [])) s.in_order;
  }

  -- What one call of `export` does.
  data Exported (h : History) (r : FlowRecord) : Option (RingBufferExporter × Sent) → Type 0 where
    panics : Exported h r none
    gave_up : (text : Bytes) → Exported h r (some (h.exporter, Sent.refused text))
    gave : h.exporter.records.queue ≡ [] → Exported h r (some (h.exporter, Sent.handed))
    put :
        length h.exporter.records.queue < h.exporter.records.capacity
        → Exported h r (some (enqueued r h.exporter, Sent.queued))

  empty_of : (rs : List FlowRecord) (w : Bool) → (w && is_empty rs) ≡ true → rs ≡ []
  empty_of [] w g = refl
  empty_of (x ∷ xs) w g = absurd (ground (arith, g))

  export-Exported :
      (waiting : Bool) (h : History) (r : FlowRecord) → Exported h r (export waiting r h.exporter)
  unfolding export
  export-Exported waiting h r = elim (Bool-cases h.exporter.running) [
    | inr e ↦ rw (e, export) (gave_up _)
    | inl e ↦ elim (Bool-cases h.exporter.records.closed) [
      | inl f ↦ rw (e, f, export) panics
      | inr f ↦ elim (Bool-cases (waiting && is_empty h.exporter.records.queue)) [
        | inl g ↦ rw (e, f, g, export) (gave (empty_of h.exporter.records.queue waiting g))
        | inr g ↦
            elim (Bool-cases (ltb (length h.exporter.records.queue) h.exporter.records.capacity)) [
              | inl l ↦ rw (e, f, g, l, export) (put (ground (arith, l)))
              | inr l ↦ rw (e, f, g, l, export) (gave_up _)
            ]
      ]
    ]
  ]

  after_export-Sound :
      (h h' : History) (r : FlowRecord) (o : Option (RingBufferExporter × Sent))
      → Exported h r o
      → after_export r h o ≡ some h'
      → Sound size h
      → Sound size h'
  after_export-Sound h h' r _ panics e s = absurd (ground (arith, e))
  after_export-Sound h h' r _ (gave_up text) e s =
      subst (Sound size) (some-injective _ _ e) (same_records h h.exporter refl refl s)
  after_export-Sound h h' r _ (gave q) e s =
      subst (Sound size) (some-injective _ _ e) (handed-Sound h r q s)
  after_export-Sound h h' r _ (put room) e s =
      subst (Sound size) (some-injective _ _ e) (queued-Sound h r room s)

  -- What one call of `stop` does to the channel's records.
  data Stopped (e : RingBufferExporter) : Option RingBufferExporter → Type 0 where
    died : Stopped e none
    left :
        (f : RingBufferExporter)
        → f.records.capacity ≡ e.records.capacity
        → f.records.queue ≡ e.records.queue
        → Stopped e (some f)

  stop-Stopped : (e : RingBufferExporter) → Stopped e (stop e)
  unfolding stop
  stop-Stopped e = elim (Bool-cases e.running) [
    | inr x ↦ rw (x, stop) (left _ refl refl)
    | inl x ↦ elim (Bool-cases e.records.closed) [
      | inl y ↦ rw (x, y, stop) died
      | inr y ↦ rw (x, y, stop) (left _ refl refl)
    ]
  ]

  after_stop-Sound :
      (h h' : History) (o : Option RingBufferExporter)
      → Stopped h.exporter o
      → after_stop h o ≡ some h'
      → Sound size h
      → Sound size h'
  after_stop-Sound h h' _ died made s = absurd (ground (arith, made))
  after_stop-Sound h h' _ (left f c q) made s =
      subst (Sound size) (some-injective _ _ made) (same_records h f c q s)

  happen-Sound :
      (ev : Event) (h h' : History) → happen ev h ≡ some h' → Sound size h → Sound size h'
  happen-Sound Event.starts h h' made s =
      subst (Sound size) (some-injective _ _ made) (start-Sound h s)
  happen-Sound Event.stops h h' made s =
      after_stop-Sound h h' (stop h.exporter) (stop-Stopped h.exporter) made s
  happen-Sound Event.receives h h' made s =
      subst (Sound size) (some-injective _ _ made) (receive-Sound h h.exporter.records.queue refl s)
  happen-Sound (Event.exports waiting r) h h' made s =
      after_export-Sound h h' r (export waiting r h.exporter) (export-Exported waiting h r) made s

  lost : (rest : List Event) (k : History) → history rest none ≢ some k
  lost [] k x = ground (arith, x)
  lost (ev ∷ rest) k x = ground (arith, x)

  history-Sound :
      (es : List Event) (h h' : History)
      → history es (some h) ≡ some h'
      → Sound size h
      → Sound size h'
  history-Sound [] h h' made s = subst (Sound size) (some-injective _ _ made) s
  history-Sound (ev ∷ es) h h' made s = elim (Option-cases (happen ev h)) [
    | inl none_left ↦ absurd (lost es h' (ap (history es) (sym none_left) ∙ made))
    | inr (m, next) ↦
        history-Sound es m h' (ap (history es) (sym next) ∙ made) (happen-Sound ev h m next s)
  ]

  begun-Sound : (path : Bytes) → Sound size (begun path size)
  unfolding new_ring_buffer_exporter
  begun-Sound path = record { same_capacity = refl; bounded = omega arith; in_order = refl }

  -- After any calls of Start, Stop and Export on a new ring buffer, and any reads of its readers,
  -- none of which panicked: the queue holds no more records than the buffer's size, and the records
  -- that readers got followed by those in the queue are exactly the records that Export accepted, in
  -- order.
  pub export_history :
      (path : Bytes) (es : List Event) (h : History)
      → history es (some (begun path size)) ≡ some h
      → (length h.exporter.records.queue ≤ size)
        × (h.delivered ++ h.exporter.records.queue ≡ h.accepted)
  export_history path es h made =
      let s = history-Sound es (begun path size) h made (begun-Sound path) in
      (s.bounded, s.in_order)
