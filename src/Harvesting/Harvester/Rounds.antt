-- ===== src/Harvesting/Harvester/Rounds.antt =====
-- One round of the loop of AbstractHarvester.run (app/harvesters/abstract_harvester.py), computed.
use svp_harvester.Prelude.{refl, String, Bool, Option, some, ◌≡◌, string_eq, ap, ◌∙◌}
use svp_harvester.Prelude.Action.{bind_of_ok, Outcome, ok, lift, gets}
use svp_harvester.Harvesting.Model.{event_type_eq, Exception, Reference, Row}
use svp_harvester.Harvesting.Recorder.{exists}
use svp_harvester.Harvesting.Converter.{Semver, Converter, build}
use svp_harvester.Harvesting.Harvester.{
  process, compare_with, convert_and_register, convert_if_needed, announce, handle_converted_result,
  get_version,
}
use svp_harvester.Harvesting.World.{Harvester, World, on_db, version_or_error}

module _ {Version Raw : Type 0} (self : Harvester Version) (semver : Semver Version)
    (converter : Converter Raw Version) where
  -- A round in which nothing raises: the comparison, the conversion, and the event.
  pub process_round :
      (raw : Raw) (version : Version) (new_ref converted : Reference) (old_ref : Option Row)
      (w compared_w : World) (hash : String) (enhanced : Bool)
      → self.version ≡ some version
      → build semver converter raw version ≡ ok new_ref
      → exists new_ref w.db ≡ old_ref
      → compare_with self semver converter old_ref new_ref raw w ≡ (ok (hash, enhanced), compared_w)
      → convert_if_needed self semver converter raw new_ref old_ref (hash, enhanced) ≡ ok converted
      → let r = handle_converted_result self converted old_ref hash compared_w.db in
        process self semver converter raw w ≡ announce self r.0 (record compared_w { db = r.1 })
  unfolding process convert_and_register lift gets
  process_round raw version new_ref converted old_ref w compared_w hash enhanced v b found c k =
      bind_of_ok (lift (get_version self semver converter)) _ (version_ok self.version v)
      ∙ bind_of_ok (lift (build semver converter raw version)) _ (ap (λ o. (o, w)) b)
      ∙ bind_of_ok (gets (λ (x : World). exists new_ref x.db)) _ (ap (λ o. (ok o, w)) found)
      ∙ bind_of_ok (compare_with self semver converter old_ref new_ref raw) _ c
      ∙ bind_of_ok
          (lift (convert_if_needed self semver converter raw new_ref old_ref (hash, enhanced))) _
          (ap (λ o. (o, compared_w)) k)
      ∙ bind_of_ok (on_db (handle_converted_result self converted old_ref hash)) _ {s = compared_w}
          refl
    where
      version_ok :
          (o : Option Version)
          → o ≡ some version
          → ◌≡◌ {A = Outcome Exception Version × World} (version_or_error o, w) (ok version, w)
      version_ok o e = rw e
