-- ===== src/Lib.antt =====
-- Verification library of svp-harvester, which collects bibliographic references of researchers from
-- several sources (HAL, IdRef, ScanR, OpenAlex, Scopus) and records what changed since the last
-- harvesting.
--
-- How the program is put together. A request names a person by identifiers. The retrieval service
-- resolves it to a stored entity, chooses harvesters and starts one run per relevant harvester. A run
-- reads raw results from its source, builds and converts references, compares each with its last
-- stored version, stores it as created, updated, unchanged or deleted and puts messages in a queue.
-- The converters share contributors, document types, issues, journals and books between references.
--
-- Files and what they model, by paths from the repository's root.
--   Prelude            shared names: equality tests, lists, and `Action`, the state passing with
--                      exceptions that every stateful method is written in.
--   Harvesting/Model, Harvesting/Dao   the rows and statements of a harvesting (app/db/models,
--                      app/db/daos), `Db` being the tables with their sequences.
--   Harvesting/Recorder   `ReferencesRecorder` of app/db/references/references_recorder.py.
--   Harvesting/Converter  build, convert and the check of a reference
--                      (app/harvesters/abstract_references_converter.py); what a source defines is a
--                      record of functions, `Converter`, and semantic versions are `Semver`.
--   Harvesting/World   what a run reads and writes: the database, the result queue, its objects.
--   Harvesting/Harvester  `AbstractHarvester` of app/harvesters/abstract_harvester.py: `process` is the
--                      body of the loop of `run`, `process_or_report` adds its inner `except`,
--                      `harvest_and_complete` is the outer `try`, `start` its handlers, `run` the
--                      whole. Its children prove properties of `run`.
--   Tables             the look-up, insert and retry of the `_get_or_create_…` methods, with the
--                      inserts of other processes before each commit as an explicit schedule.
--   Contributors       app/db/daos/contributor_dao.py, the models beside it, and the contributor part
--                      of app/harvesters/abstract_references_converter.py, with the roles of
--                      app/db/models/contribution.py.
--   Publications       document types, issues, journals and books with their look-ups.
--   Entities           app/services/entities/entity_resolution_service.py and app/db/daos/entity_dao.py.
--   Entities/Validation   the checks that a request for a person must pass (app/models/people.py).
--   Retrieval          app/services/retrieval/retrieval_service.py.
--   Hashing            the texts of app/services/hash that are hashed for RDF and XML results; `objects`
--                      of the RDF library is a parameter, and the digest stays with `Converter`.
--   Amqp               app/amqp/amqp_message_processor.py: `wait_for_message` is one round of a
--                      worker's loop, `process_message` what it does with a payload.
--   Amqp/Listening     app/amqp/amqp_interface.py: the listener, the queue of tasks and the workers as
--                      a relation of steps.
--   Concepts           app/services/concepts: the source of a concept and the completion of what is
--                      known of it; `_get_or_create_concept_by_uri` of
--                      app/harvesters/abstract_references_converter.py in Concepts/GetOrCreate.
--   Sources/Hal        contributors and their organizations in
--                      app/harvesters/hal/hal_references_converter.py.
--   Sources/Roles, Sources/DocumentTypes   the tables of the role and document type converters of
--                      app/harvesters.
--   Organizations      `_organizations` and its get-or-create, with the solvers of
--                      app/services/organizations for HAL and Scopus.
--   Identifiers        app/services/identifiers: `infer_identifiers` with its rule, which infers a HAL
--                      identifier from a URL; Identifiers/Versions and Identifiers/Paths are proofs.
--   Sources/Idref      `fetch_results` of app/harvesters/idref/idref_harvester.py, with the queries that
--                      run at the same time and the order of their ends as a parameter.
-- The modules named Tests run the definitions on samples and apply the theorems to them.
--
-- Bounds and assumptions. Numbers are unbounded, as in Python and for sequences of ids. Every list
-- is traversed by structural recursion and the retry is written out twice; the only fuel is that of
-- `wait_for_remaining`, the number of pending queries, and it is enough because each wait completes one.
-- A harvesting runs alone on its rows and its own statements commit; other processes write only where
-- `Store.concurrent` says so. Of a query without an order the rows come in the order of the table.
-- Event types are the four of the enumeration. The fields that a converter fills are lists of texts.
-- The result queue is unbounded.
--
-- Not modelled: requests to the sources and, beyond the above, the mapping of their formats, what
-- concept solvers fetch and concepts without URI, the search of identities of organizations in
-- IdRef and ROR, which nothing calls, the hash of JSON results, the AMQP connection and the
-- listener of results, the API and web pages, settings, migrations, caches and jobs.
mod Prelude
pub mod Harvesting
pub mod Tables
pub mod Contributors
pub mod Publications
pub mod Entities
pub mod Retrieval
pub mod Amqp
pub mod Hashing
pub mod Sources
pub mod Concepts
pub mod Organizations
pub mod Identifiers
