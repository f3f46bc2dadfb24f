-- ===== src/Harvesting/Harvester/Process.antt =====
-- What one round of the loop of `AbstractHarvester.run` may do to the world: it changes the list of
-- known references, or it registers one reference against the last stored version of it.
use svp_harvester.Prelude.Action.{
  modify, Outcome, ok, raised, Outcome-cases, Preserves, Preserves-bind, lift, gets, ◌>>=◌,
}
use svp_harvester.Prelude.{
  String, Bool, Option, none, some, List, [], ◌∷◌, ◌++◌, Bool-cases, ◌≡◌, refl, inl, inr, arith,
  ◌∙◌, ap, sym, subst,
}
use svp_harvester.Harvesting.Model.{Exception, Reference, Row, Db}
use svp_harvester.Harvesting.Dao.{get_last_reference_by_source_identifier}
use svp_harvester.Harvesting.Recorder.{exists}
use svp_harvester.Harvesting.Converter.{
  Semver, Converter, build, convert, validate_reference, check_fields, failed_fields,
}
use svp_harvester.Harvesting.Harvester.{
  compare_with, convert_and_register, process, handle_converted_result, announce, convert_if_needed,
  needs_conversion, get_version, ReferenceEvent,
}
use svp_harvester.Harvesting.World.{Harvester, World, put_in_queue}

-- `exists` reads nothing of the new reference but its source identifier and its harvester.
exists_of_keys :
    (a b : Reference) (db : Db)
    → a.source_identifier ≡ b.source_identifier
    → a.harvester ≡ b.harvester
    → exists a db ≡ exists b db
unfolding exists
exists_of_keys a b db p q = λ i. get_last_reference_by_source_identifier db (p i) (q i)

check_fields-keys :
    (fields : List String) (ref out : Reference) → check_fields fields ref ≡ ok out → ref ≡ out
check_fields-keys [] ref out h = ground arith
check_fields-keys (field ∷ fields) ref out h = cc

abbrev known : Option Row → World → World
known none w = w
known (some old_ref) w = record w { existing = w.existing ++ old_ref ∷ [] }

module _ {Version : Type 0} (self : Harvester Version) where
  -- The world after a reference was compared with a stored one, and handled.
  pub registered : Option Row → Reference → String → World → World
  registered old_ref ref hash w =
      let r = handle_converted_result self ref old_ref hash w.db in
      (announce self r.0 (record w { db = r.1 })).1

  announce-db : (event : Option ReferenceEvent) (w : World) → w.db ≡ (announce self event w).1.db
  unfolding announce put_in_queue modify
  announce-db none w = refl
  announce-db (some event) w = refl

  pub registered-db :
      (old_ref : Option Row) (ref : Reference) (hash : String) (w : World)
      → (handle_converted_result self ref old_ref hash w.db).1 ≡ (registered old_ref ref hash w).db
  unfolding registered
  registered-db old_ref ref hash w =
      announce-db (handle_converted_result self ref old_ref hash w.db).0
        (record w { db = (handle_converted_result self ref old_ref hash w.db).1 })

module _ {Version Raw : Type 0} (self : Harvester Version) (semver : Semver Version)
    (converter : Converter Raw Version) where
  convert-keys :
      (raw : Raw) (ref out : Reference)
      → convert semver converter raw ref ≡ ok out
      → (ref.source_identifier ≡ out.source_identifier) × (ref.harvester ≡ out.harvester)
  unfolding convert validate_reference
  convert-keys raw ref out h = elim (Outcome-cases (converter.convert raw ref)) [
    | inl (content, e) ↦
        let filled : Reference = record ref { content = content } in
        ground (arith, e, check_fields-keys (failed_fields filled) filled out)
    | inr (error, e) ↦ ground (arith, e)
  ]

  pub compare_with-known :
      (old_ref : Option Row) (new_ref : Reference) (raw : Raw) (w : World)
      → (compare_with self semver converter old_ref new_ref raw w).1 ≡ known old_ref w
  unfolding compare_with ◌>>=◌
  compare_with-known none new_ref raw w = refl
  compare_with-known (some old_ref) new_ref raw w = ground arith

  convert_if_needed-keys :
      (raw : Raw) (ref out : Reference) (old_ref : Option Row) (compared : String × Bool)
      → convert_if_needed self semver converter raw ref old_ref compared ≡ ok out
      → (ref.source_identifier ≡ out.source_identifier) × (ref.harvester ≡ out.harvester)
  unfolding convert_if_needed
  convert_if_needed-keys raw ref out old_ref compared h =
      elim (Bool-cases (needs_conversion self semver converter old_ref compared.0 compared.1)) [
        | inl needed ↦ convert-keys raw ref out (rw needed at h)
        | inr skipped ↦ ground (arith, skipped)
      ]

  convert_and_register-registered :
      (raw : Raw) (new_ref converted : Reference) (old_ref : Option Row) (compared : String × Bool)
      (w : World)
      → convert_if_needed self semver converter raw new_ref old_ref compared ≡ ok converted
      → (convert_and_register self semver converter raw new_ref old_ref compared w).1
        ≡ registered self old_ref converted compared.0 w
  unfolding convert_and_register registered ◌>>=◌
  convert_and_register-registered raw new_ref converted old_ref compared w e = rw e

  module _ (P : World → Type 0)
      (keep_existing : (existing : List Row) (w : World)
        → P w
        → P (record w { existing = existing }))
      (keep_registered : (ref : Reference) (hash : String) (w : World)
        → P w
        → P (registered self (exists ref w.db) ref hash w)) where
    convert_and_register-keeps :
        (raw : Raw) (new_ref : Reference) (old_ref : Option Row) (compared : String × Bool)
        (w : World)
        → old_ref ≡ exists new_ref w.db
        → P w
        → P (convert_and_register self semver converter raw new_ref old_ref compared w).1
    convert_and_register-keeps raw new_ref old_ref compared w found h =
        elim (Outcome-cases
          (convert_if_needed self semver converter raw new_ref old_ref compared)) [
            | inl (converted, e) ↦
                let keys = convert_if_needed-keys raw new_ref converted old_ref compared e in
                rw (convert_and_register-registered raw new_ref converted old_ref compared w e) (
                  subst (λ o. P (registered self o converted compared.0 w))
                    (sym (found ∙ exists_of_keys new_ref converted w.db keys.0 keys.1))
                    (keep_registered converted compared.0 w h))
            | inr (error, e) ↦ unfold convert_and_register ◌>>=◌ in rw e h
          ]

    known-keeps : (old_ref : Option Row) (w : World) → P w → P (known old_ref w)
    known-keeps none w h = h
    known-keeps (some old_ref) w h = keep_existing (w.existing ++ old_ref ∷ []) w h

    compared-keeps :
        (raw : Raw) (new_ref : Reference)
        → Preserves P (
            gets (λ (w : World). exists new_ref w.db) >>= λ old_ref.
            compare_with self semver converter old_ref new_ref raw >>= λ compared.
            convert_and_register self semver converter raw new_ref old_ref compared)
    unfolding ◌>>=◌
    compared-keeps raw new_ref w h =
        go (compare_with self semver converter (exists new_ref w.db) new_ref raw w).0 _
          (compare_with-known (exists new_ref w.db) new_ref raw w)
      where
        found : (o : Option Row) → w.db ≡ (known o w).db
        found none = refl
        found (some row) = refl

        go :
            (o : Outcome Exception (String × Bool)) (t : World)
            → t ≡ known (exists new_ref w.db) w
            → P
                (elim o as (λ _. Outcome Exception (Unit {0}) × World) [
                  | ok compared ↦
                      convert_and_register self semver converter raw new_ref
                        (exists new_ref w.db)
                        compared
                        t
                  | raised e ↦ (raised e, t)
                ]).1
        go (ok compared) t e =
            convert_and_register-keeps raw new_ref (exists new_ref w.db) compared t
              (ap (exists new_ref) (found (exists new_ref w.db) ∙ sym (ap (λ (x : World). x.db) e)))
              (subst P (sym e) (known-keeps (exists new_ref w.db) w h))
        go (raised e') t e = subst P (sym e) (known-keeps (exists new_ref w.db) w h)

    pub process-Preserves : (raw : Raw) → Preserves P (process self semver converter raw)
    unfolding process
    process-Preserves raw =
        Preserves-bind (lift (get_version self semver converter)) _ (λ w h. unfold lift in h)
          λ version.
            Preserves-bind (lift (build semver converter raw version)) _ (λ w h. unfold lift in h)
              λ new_ref. compared-keeps raw new_ref
