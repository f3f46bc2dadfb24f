-- ===== src/Harvesting/Harvester/Registration.antt =====
-- The cases of `_handle_converted_result` of app/harvesters/abstract_harvester.py.
use svp_harvester.Harvesting.Recorder.{register_creation, register_update, register_unchanged}
use svp_harvester.Prelude.{
  String, Bool, not, ◌&&◌, ◌||◌, Option, none, some, Bool-cases, inl, inr, ◌==◌, string_eq,
}
use svp_harvester.Harvesting.Model.{created, updated, unchanged, event_type_eq, Reference, Row, Db}
use svp_harvester.Harvesting.Recorder.Registering.{IsLast}
use svp_harvester.Harvesting.Harvester.{handle_converted_result, requested}
use svp_harvester.Harvesting.World.{Harvester, text_gtb}

-- A registration is none, a creation, an update or an unchanged event, each against the last
-- stored version: a rule for what all of them keep.
module _ {Version : Type 0} (self : Harvester Version) (Q : Db → Type 0) (ref : Reference) (db : Db)
    (nothing : Q db)
    (creation : IsLast none ref db → Q (register_creation self.harvesting_id ref db).1)
    (update : (old_ref : Row) (enhanced : Bool)
      → IsLast (some old_ref) ref db
      → Q (register_update self.harvesting_id old_ref ref enhanced db).1)
    (keep : (old_ref : Row) (enhanced : Bool)
      → IsLast (some old_ref) ref db
      → Q (register_unchanged self.harvesting_id old_ref ref enhanced db).1) where
  pub handle_converted_result-rule :
      (old_ref : Option Row) (hash : String)
      → IsLast old_ref ref db
      → Q (handle_converted_result self ref old_ref hash db).1
  unfolding handle_converted_result
  handle_converted_result-rule none hash last = elim (Bool-cases (requested self created)) [
    | inl asked ↦ rw asked (creation last)
    | inr not_asked ↦ rw not_asked nothing
  ]
  handle_converted_result-rule (some old_ref) hash last =
      let enhanced = text_gtb ref.harvester_version old_ref.harvester_version in
      let anyway = enhanced && self.fetch_enhancements in
      elim (Bool-cases (not (hash == old_ref.hash) && (requested self updated || anyway))) [
        | inl changed ↦ rw changed (update old_ref enhanced last)
        | inr same ↦
            elim (Bool-cases ((hash == old_ref.hash) && (requested self unchanged || anyway))) [
              | inl reported ↦ rw (same, reported) (keep old_ref enhanced last)
              | inr silent ↦ rw (same, silent) nothing
            ]
      ]
