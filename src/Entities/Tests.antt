-- ===== src/Entities/Tests.antt =====
-- Sample entities: app/services/entities/entity_resolution_service.py and app/db/daos/entity_dao.py
-- at concrete inputs.
use svp_harvester.Entities.Validation
use svp_harvester.Entities.Validity
use svp_harvester.Prelude.Action
use svp_harvester.Prelude.{
  ◌&&◌, nat_eq, subst, sym, eq→path, arith, false, none, [], ◌∷◌, ◌≡◌, refl, string_eq, pair_eq,
  any, filter, not, arith, some,
}
use svp_harvester.Entities.{
  NewEntity, update_entity, Identifier, Entity, remove_nullified_identifiers, elect,
}
use svp_harvester.Entities.Updating.{IsUpdated, update_entity-IsUpdated}
use svp_harvester.Entities.Nullified.{
  is_nullified, has_neighbours, remove_nullified_identifiers-filter,
}
use svp_harvester.Entities.Types.{IsDistinct}
use svp_harvester.Entities.Taking.{IsOwn}
use svp_harvester.Entities.Resolution.{IsExclusive}
use svp_harvester.Entities.Election.{HaveSameKeys, elect-same_keys}

abbrev orcid : Identifier
orcid = ("orcid", "0")

abbrev idref : Identifier
idref = ("idref", "1")

abbrev owner : Entity
owner = record { id = 1; name = none; identifiers = orcid ∷ [] }

abbrev other : Entity
other = record { id = 2; name = none; identifiers = idref ∷ [] }

own-IsDistinct : IsDistinct owner.identifiers
own-IsDistinct = (refl, tt)

submitted-IsDistinct : IsDistinct (idref ∷ [])
submitted-IsDistinct = (refl, tt)

orcid-IsExclusive : IsExclusive owner.identifiers (other ∷ [])
unfolding pair_eq string_eq
orcid-IsExclusive i h =
    subst (λ (x : Identifier). IsOwn x (other ∷ [])) (sym (eq→path i orcid (ground (arith, h))))
      refl

abbrev submitted : NewEntity
submitted = record { name = some "Ada"; identifiers = idref ∷ [] }

update_entity-IsUpdated_example :
    IsUpdated submitted
      ("scopus_eid" ∷ [])
      owner
      (update_entity submitted ("scopus_eid" ∷ []) owner (owner ∷ other ∷ []))
unfolding nat_eq
update_entity-IsUpdated_example =
    update_entity-IsUpdated submitted ("scopus_eid" ∷ []) owner (owner ∷ other ∷ [])
      submitted-IsDistinct own-IsDistinct orcid-IsExclusive

remove_nullified_identifiers-filter_example :
    let left = remove_nullified_identifiers ("orcid" ∷ "idref" ∷ []) (orcid ∷ idref ∷ []) in
    (any (is_nullified ("orcid" ∷ "idref" ∷ [])) left
      ≡ has_neighbours ("orcid" ∷ "idref" ∷ []) (orcid ∷ idref ∷ []))
    × (has_neighbours ("orcid" ∷ "idref" ∷ []) (orcid ∷ idref ∷ []) ≡ false
        → left ≡ filter (λ i. not (is_nullified ("orcid" ∷ "idref" ∷ []) i)) (orcid ∷ idref ∷ []))
remove_nullified_identifiers-filter_example =
    remove_nullified_identifiers-filter ("orcid" ∷ "idref" ∷ []) (orcid ∷ idref ∷ [])

reordered : HaveSameKeys ("orcid" ∷ "idref" ∷ []) ("idref" ∷ "orcid" ∷ [])
reordered key = ground arith

elect-same_keys_example :
    elect ("orcid" ∷ "idref" ∷ []) (owner ∷ other ∷ [])
    ≡ elect ("idref" ∷ "orcid" ∷ []) (owner ∷ other ∷ [])
elect-same_keys_example =
    elect-same_keys ("orcid" ∷ "idref" ∷ []) ("idref" ∷ "orcid" ∷ []) (owner ∷ other ∷ []) reordered

-- A request whose only identifier has no type: the message of the failed assertion cannot be made.
missing_type :
    Validation.check_identifiers_referenced_in_settings ("orcid" ∷ "idref" ∷ []) (record {
      name = some "Ada";
      identifiers = Validation.given (Validation.hash none (some "1") ∷ []);
    })
    ≡ Action.raised Validation.type_error
unfolding Validation.check_identifiers_referenced_in_settings
missing_type = refl

abbrev request : Validation.Identifiers
request = Validation.given (Validation.hash (some "idref") (some "1") ∷ [])

checks-is_valid_person_example :
    Validity.is_ok (
        Validation.check_minimal_information
          ("orcid" ∷ "idref" ∷ [])
          (record { name = none; identifiers = request }))
      && Validity.is_ok (
          Validation.check_identifiers_referenced_in_settings
            ("orcid" ∷ "idref" ∷ [])
            (record { name = none; identifiers = request }))
    ≡ Validity.is_valid_person ("orcid" ∷ "idref" ∷ []) none request
checks-is_valid_person_example =
    Validity.checks-is_valid_person ("orcid" ∷ "idref" ∷ []) none request
