-- ===== src/Harvesting/Harvester/Deletions.antt =====
-- Which deletions a run registers: `_register_deleted_references` of
-- app/harvesters/abstract_harvester.py.
use svp_harvester.Prelude.{
  ℕ, true, false, Option, none, some, List, [], ◌∷◌, ◌++◌, ◌+◌, contains, ◌≡◌, refl, sym, ap, ◌∙◌,
  append_assoc, append-nil,
}
use svp_harvester.Prelude.Action.{Outcome, ok, ◌>>=◌}
use svp_harvester.Harvesting.Model.{deleted, event_type_eq, Row, ReferenceEvent, Exception}
use svp_harvester.Harvesting.Dao.{create_reference_event}
use svp_harvester.Harvesting.Recorder.{register_deletion}
use svp_harvester.Harvesting.Harvester.{
  register_deletions, register_deleted_references, not_found_again,
}
use svp_harvester.Harvesting.World.{
  enqueue, Harvester, World, Message, reference_event, put_in_queue, on_db,
}

-- The deletion events of an id on, one for each row, the newest first.
abbrev pub deletion_events : ℕ → ℕ → List Row → List ReferenceEvent → List ReferenceEvent
deletion_events harvesting_id id [] events = events
deletion_events harvesting_id id (row ∷ rows) events = deletion_events harvesting_id (id + 1) rows (
    record {
      id = id;
      type = deleted;
      enhanced = false;
      reference_id = row.id;
      harvesting_id = harvesting_id;
    }
    ∷ events)

abbrev pub deletion_messages : ℕ → List Row → List Message
deletion_messages id [] = []
deletion_messages id (row ∷ rows) = reference_event id deleted ∷ deletion_messages (id + 1) rows

abbrev pub with_messages : Option (List Message) → List Message → Option (List Message)
with_messages none new = none
with_messages (some messages) new = some (messages ++ new)

with_messages-cons :
    (queue : Option (List Message)) (message : Message) (new : List Message)
    → with_messages (enqueue message queue) new ≡ with_messages queue (message ∷ new)
with_messages-cons none message new = refl
with_messages-cons (some messages) message new = ap some (append_assoc messages (message ∷ []) new)

with_messages-nil : (queue : Option (List Message)) → queue ≡ with_messages queue []
with_messages-nil none = refl
with_messages-nil (some messages) = ap some (sym (append-nil messages))

-- The rows are reported as deleted, and nothing else happens.
pub record AreDeleted (harvesting_id : ℕ) (rows : List Row) (w : World)
    (r : Outcome Exception (Unit {0}) × World) : Type 0 where
  pub returned : r.0 ≡ ok tt
  pub events : r.1.db.events ≡ deletion_events harvesting_id w.db.next_event rows w.db.events
  pub queue : r.1.queue ≡ with_messages w.queue (deletion_messages w.db.next_event rows)
  pub references : r.1.db.references ≡ w.db.references

module _ {Version : Type 0} (self : Harvester Version) where
  register_deletions-AreDeleted :
      (rows : List Row) (w : World)
      → AreDeleted self.harvesting_id rows w (register_deletions self rows w)
  unfolding register_deletions ◌>>=◌ put_in_queue on_db register_deletion create_reference_event
  register_deletions-AreDeleted [] w = record {
    returned = refl;
    events = refl;
    queue = with_messages-nil w.queue;
    references = refl;
  }
  register_deletions-AreDeleted (row ∷ rows) w =
      let r = register_deletions-AreDeleted rows _ in
      record {
        returned = r.returned;
        events = r.events;
        queue =
            r.queue
            ∙ with_messages-cons w.queue (reference_event w.db.next_event deleted)
                (deletion_messages (w.db.next_event + 1) rows);
        references = r.references;
      }

  -- For the references of the last completed harvesting: if the event types of the harvester hold
  -- deleted, then each of them that was not found again, in order, gets one deletion event and one
  -- message, behind the messages of the queue if there is one, and no reference is changed. If they do
  -- not hold it, nothing happens, even where deleted is requested by default.
  pub register_deleted_references-AreDeleted :
      (previous : List Row) (w : World)
      → (contains self.event_types deleted ≡ true
          → AreDeleted self.harvesting_id
              (not_found_again self w.existing previous)
              w
              (register_deleted_references self previous w))
        × (contains self.event_types deleted ≡ false
            → register_deleted_references self previous w ≡ (ok tt, w))
  unfolding register_deleted_references
  register_deleted_references-AreDeleted previous w = (
    λ asked. rw asked (register_deletions-AreDeleted (not_found_again self w.existing previous) w),
    λ not_asked. rw not_asked refl,
  )
