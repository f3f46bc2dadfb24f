-- ===== src/Contributors/Tests.antt =====
-- Contributors of a sample reference: app/harvesters/abstract_references_converter.py and
-- app/db/daos/contributor_dao.py at concrete inputs.
use svp_harvester.Prelude.{
  option_eq, none, some, [], ◌∷◌, ◌≡◌, refl, string_eq, contains, pair_eq, map, arith, false≢true,
}
use svp_harvester.Prelude.Action.{ok, ◌>>=◌, pure, lift}
use svp_harvester.Tables.{get_or_create, attempt, commit, interfere, one_or_none}
use svp_harvester.Tables.Race.{IsUnique, IsStored}
use svp_harvester.Contributors.{
  Identifier, NewContributor, Contributors, make, has_key_of, get_or_create_contributor_by_name,
  get_by_source_and_name, create_contributor, update_contributor_name, replaced_identifiers,
  with_valid_type, stored_identifier,
}
use svp_harvester.Contributors.Roles.{validate_role, loc_author_roles}
use svp_harvester.Contributors.Contributions.{
  ContributionInformations, Contribution, Caches, contributions, contributions_from, contribution,
  contributor_for, resolve_contributor, key_of, cached, remember,
}
use svp_harvester.Contributors.Names.{IsRenamed, update_contributor_name-IsRenamed}
use svp_harvester.Contributors.ExternalIdentifiers.{AreNormal, replaced_identifiers-AreNormal}
use svp_harvester.Contributors.Sharing.{IsShared, contributions-IsShared}
use svp_harvester.Contributors.Creation.{create_contributor-IsStored}

abbrev ada : NewContributor
ada = record {
  source = "hal";
  source_identifier = some "1";
  name = some "Ada";
  first_name = none;
  last_name = none;
}

-- Another process inserts the same contributor between the look-up and the commit.
abbrev raced : Contributors
raced = record { rows = []; next_id = 0; concurrent = (ada ∷ []) ∷ [] }

nothing_stored : IsUnique has_key_of raced.rows
nothing_stored new = omega arith

create_contributor-IsStored_example : IsStored has_key_of ada (create_contributor ada raced)
unfolding option_eq
create_contributor-IsStored_example = create_contributor-IsStored ada raced refl nothing_stored

update_contributor_name-IsRenamed_example :
    IsRenamed (make 0 ada) (some "Ada L.") (update_contributor_name (make 0 ada) (some "Ada L."))
update_contributor_name-IsRenamed_example =
    update_contributor_name-IsRenamed (make 0 ada) (some "Ada L.")

abbrev orcid : Identifier
orcid = ("orcid", "https://orcid.org/0")

replaced_identifiers-AreNormal_example :
    ((a : Identifier)
      → contains (replaced_identifiers [] (orcid ∷ [])) a
        ≡ contains (map stored_identifier (with_valid_type (orcid ∷ []))) a)
    × AreNormal (replaced_identifiers [] (orcid ∷ []))
replaced_identifiers-AreNormal_example =
    replaced_identifiers-AreNormal [] (orcid ∷ []) (λ i h. absurd (false≢true h))

abbrev author : ContributionInformations
author = record {
  role = "https://id.loc.gov/vocabulary/relators/aut.html";
  rank = some 0;
  name = some "Ada";
  first_name = none;
  last_name = none;
  identifier = none;
  ext_identifiers = none;
}

abbrev empty : Contributors
empty = record { rows = []; next_id = 0; concurrent = [] }

abbrev by_name_only : NewContributor
by_name_only = record ada { source_identifier = none }

abbrev contributed : Contribution
contributed = record { contributor = make 0 by_name_only; role = author.role; rank = some 0 }

abbrev after : Contributors
after = record { rows = make 0 by_name_only ∷ []; next_id = 1; concurrent = [] }

two_contributions :
    contributions "hal" (author ∷ author ∷ []) empty ≡ (ok (contributed ∷ contributed ∷ []), after)
unfolding contributions contributions_from contribution contributor_for resolve_contributor key_of
    cached remember get_or_create_contributor_by_name get_by_source_and_name get_or_create attempt
    commit interfere one_or_none validate_role loc_author_roles ◌>>=◌ pure lift option_eq string_eq
two_contributions = refl

contributions-IsShared_example :
    (caches : Caches) × IsShared caches (author ∷ author ∷ []) (contributed ∷ contributed ∷ [])
contributions-IsShared_example =
    contributions-IsShared "hal" (author ∷ author ∷ []) empty after (contributed ∷ contributed ∷ [])
      two_contributions
