-- ===== src/Concepts/Completing.antt =====
-- What happens when informations are completed again, as the second attempt of
-- `_get_or_create_concept_by_uri` does (app/services/concepts, the solvers' `complete_information`).
use svp_harvester.Concepts.{
  ConceptInformations, Environment, Source, idref, wikidata, jel, abes, Completed, infer_source,
  complete_by, complete_information, dereferencing_error, check_idref, complete_wikidata,
  wikidata_informations, complete_inferred, complete_from, with_source, source_of,
}
use svp_harvester.Prelude.{String, ◌<>◌, Option, none, some, ◌≡◌, refl, ap, ◌∙◌, arith}
use svp_harvester.Prelude.Action.{ok, raised}

module _ (environment : Environment) where
  -- The code of a Wikidata concept is found again in the URI that is made of it.
  abbrev pub FindsCode : ConceptInformations → Type 0
  FindsCode d =
      (code : String)
      → d.source ≡ some wikidata
      → d.code ≡ some code
      → environment.wikidata_code ("http://www.wikidata.org/entity/" <> code) ≡ code

  -- What completing again leads to.
  abbrev pub again : Source → ConceptInformations → Completed
  again idref d = ok d
  again wikidata d = ok d
  again jel d = raised dereferencing_error
  again abes d = ok d

  check_idref_twice :
      (code : String) (c d : ConceptInformations)
      → check_idref environment code c ≡ ok d
      → (d.source ≡ c.source) × (complete_by environment idref d ≡ ok d)
  unfolding complete_by
  check_idref_twice code c d h = ground arith

  wikidata_informations_twice :
      (code : String) (c d : ConceptInformations)
      → FindsCode d
      → c.source ≡ some wikidata
      → wikidata_informations environment code c ≡ ok d
      → (d.source ≡ c.source) × (complete_by environment wikidata d ≡ ok d)
  unfolding complete_by
  wikidata_informations_twice code c d f its h =
      let found : d.code ≡ some code = ground arith in
      let source : d.source ≡ some wikidata = ground arith in
      let same = f code source found in ground arith

  complete_by_twice :
      (s : Source) (c d : ConceptInformations)
      → FindsCode d
      → c.source ≡ some s
      → complete_by environment s c ≡ ok d
      → (d.source ≡ c.source) × (complete_by environment s d ≡ again s d)
  unfolding complete_by
  complete_by_twice idref c d f its h = ground arith
  complete_by_twice wikidata c d f its h = go c.code c.uri h
    where
      go :
          (code uri : Option String)
          → complete_wikidata environment code uri c ≡ ok d
          → (d.source ≡ c.source) × (complete_by environment wikidata d ≡ ok d)
      go code (some uri) k = wikidata_informations_twice (environment.wikidata_code uri) c d f its k
      go (some code) none k = wikidata_informations_twice code c d f its k
      go none none k = ground arith
  complete_by_twice jel c d f its h = ground arith
  complete_by_twice abes c d f its h = ground arith

  -- Informations with a source that is theirs or inferred are completed by its solver.
  record IsSourced (c d : ConceptInformations) : Type 0 where
    source : Source
    before : ConceptInformations
    its : before.source ≡ some source
    completed : complete_by environment source before ≡ ok d

  with_source-IsSourced :
      (o : Option Source) (c d : ConceptInformations)
      → complete_inferred environment (with_source o c) ≡ ok d
      → IsSourced c d
  with_source-IsSourced none c d h = absurd (ground arith)
  with_source-IsSourced (some s) c d h = record {
    source = s;
    before = record c { source = some s };
    its = refl;
    completed = h;
  }

  inferred-IsSourced :
      (uri : Option String) (c d : ConceptInformations)
      → complete_inferred environment (infer_source uri c) ≡ ok d
      → IsSourced c d
  inferred-IsSourced none c d h = absurd (ground arith)
  inferred-IsSourced (some uri) c d h = with_source-IsSourced (source_of uri) c d h

  complete_from-IsSourced :
      (o : Option Source) (c d : ConceptInformations)
      → c.source ≡ o
      → complete_from environment o c ≡ ok d
      → IsSourced c d
  complete_from-IsSourced (some s) c d e h = record {
    source = s;
    before = c;
    its = e;
    completed = h;
  }
  complete_from-IsSourced none c d e h = inferred-IsSourced c.uri c d h

  -- If the informations of a concept could be completed, to complete the result again gives the same
  -- informations, except for a JEL concept: there it always fails, with the error that the
  -- concept cannot be dereferenced. For Wikidata the code must be found again in its URI.
  pub complete_information_twice :
      (c d : ConceptInformations)
      → FindsCode d
      → complete_information environment c ≡ ok d
      → (s : Source) × (d.source ≡ some s) × (complete_information environment d ≡ again s d)
  unfolding complete_information
  complete_information_twice c d f h =
      let i = complete_from-IsSourced c.source c d refl h in
      let (kept, twice) = complete_by_twice i.source i.before d f i.its i.completed in
      (i.source, kept ∙ i.its, ap (λ o. complete_from environment o d) (kept ∙ i.its) ∙ twice)
