-- ===== src/Harvesting/Harvester/Idempotence.antt =====
-- Harvesting the same source data again with the same harvester (AbstractHarvester.run of
-- app/harvesters/abstract_harvester.py).
use text.Mathlib.TextPositions.{compare_refl}
use svp_harvester.Harvesting.Model.{ReferenceEvent, Row, unchanged, event_type_eq, Reference, Db}
use svp_harvester.Prelude.{
  refl, path→eq, sym, ap, ◌∙◌, String, false, Option, none, some, [], ◌∷◌, ◌++◌, ◌≡◌, arith,
  string_eq,
}
use svp_harvester.Prelude.Action.{ok, ◌>>=◌}
use svp_harvester.Harvesting.Dao.{get_last_reference_by_source_identifier}
use svp_harvester.Harvesting.Recorder.{exists}
use svp_harvester.Harvesting.Converter.{Semver, IsLawful, Converter, build, blank}
use svp_harvester.Harvesting.Harvester.{
  process, compare_with, convert_if_needed, announce, handle_converted_result, requested,
}
use svp_harvester.Harvesting.World.{Harvester, World, text_gtb}
use svp_harvester.Harvesting.Harvester.Rounds.{process_round}

text_gtb_irrefl : (s : String) → text_gtb s s ≡ false
text_gtb_irrefl s = rw (compare_refl s, text_gtb)

module _ {Version Raw : Type 0} (self : Harvester Version) (semver : Semver Version)
    (converter : Converter Raw Version) (lawful : IsLawful semver) where
  -- What `build` makes of a raw result whose hash is known.
  abbrev pub built : Raw → Version → String → Reference
  built raw version hash = record {
    source_identifier = converter.source_identifier raw;
    harvester = converter.harvester;
    harvester_version = semver.print version;
    hash = hash;
    content = blank;
  }

  pub build-built :
      (raw : Raw) (version : Version) (hash : String)
      → converter.compute_hash raw version ≡ ok hash
      → build semver converter raw version ≡ ok (built raw version hash)
  unfolding build
  build-built raw version hash e = ground (arith, lawful.parse-print version, e)

  -- A stored reference whose hash and harvester version are those of the raw result.
  pub record IsUpToDate (raw : Raw) (version : Version) (old_ref : Row) : Type 0 where
    pub hash : converter.compute_hash raw version ≡ ok old_ref.hash
    pub release : old_ref.harvester_version ≡ semver.print version

  abbrev pub joined : Row → World → World
  joined old_ref w = record w { existing = w.existing ++ old_ref ∷ [] }

  compare_with-same :
      (raw : Raw) (version : Version) (old_ref : Row) (w : World)
      → semver.gtb version version ≡ false
      → IsUpToDate raw version old_ref
      → compare_with self semver converter (some old_ref) (built raw version old_ref.hash) raw w
        ≡ (ok (old_ref.hash, false), joined old_ref w)
  unfolding compare_with ◌>>=◌
  compare_with-same raw version old_ref w irrefl u =
      ground (arith, lawful.parse-print version, u.release, irrefl)

  convert_if_needed-same :
      (raw : Raw) (new_ref : Reference) (old_ref : Row)
      → convert_if_needed self semver converter raw new_ref (some old_ref) (old_ref.hash, false)
        ≡ ok new_ref
  unfolding convert_if_needed
  convert_if_needed-same raw new_ref old_ref =
      ground (arith, path→eq old_ref.hash old_ref.hash refl)

  handle_converted_result-same :
      (new_ref : Reference) (old_ref : Row) (db : Db)
      → new_ref.harvester_version ≡ old_ref.harvester_version
      → requested self unchanged ≡ false
      → handle_converted_result self new_ref (some old_ref) old_ref.hash db ≡ (none, db)
  unfolding handle_converted_result
  handle_converted_result-same new_ref old_ref db same silent =
      ground
        (arith, path→eq old_ref.hash old_ref.hash refl, text_gtb_irrefl old_ref.harvester_version)

  -- For a raw result whose last stored version has its hash and the harvester's version, if
  -- unchanged references are not requested: the round succeeds, writes nothing in the tables and
  -- the queue, and notes the stored reference as found again.
  pub process_up_to_date :
      (raw : Raw) (version : Version) (old_ref : Row) (w : World)
      → self.version ≡ some version
      → semver.gtb version version ≡ false
      → requested self unchanged ≡ false
      → get_last_reference_by_source_identifier w.db
          (converter.source_identifier raw)
          converter.harvester
        ≡ some old_ref
      → IsUpToDate raw version old_ref
      → process self semver converter raw w ≡ (ok tt, joined old_ref w)
  unfolding announce
  process_up_to_date raw version old_ref w v irrefl silent found u =
      let new_ref = built raw version old_ref.hash in
      process_round self semver converter raw version new_ref new_ref (some old_ref) w
        (joined old_ref w) old_ref.hash false v (build-built raw version old_ref.hash u.hash)
        (unfold exists in found) (compare_with-same raw version old_ref w irrefl u)
        (convert_if_needed-same raw new_ref old_ref)
      ∙ ap
          (λ (r : Option ReferenceEvent × Db).
            announce self r.0 (record (joined old_ref w) { db = r.1 }))
          (handle_converted_result-same new_ref old_ref w.db (sym u.release) silent)
