-- ===== src/Harvesting/Sample.antt =====
-- A source for the tests: two releases of its harvester, and results that are texts.
use svp_harvester.Prelude.{
  String, Bool, true, false, Option, none, some, [], ◌∷◌, refl, ◌==◌, string_eq, if◌then◌else◌,
}
use svp_harvester.Prelude.Action.{ok}
use svp_harvester.Harvesting.Model.{
  created, updated, deleted, unchanged, running, unexpected_format, external_endpoint_failure,
  Exception, Harvesting, Retrieval, Db,
}
use svp_harvester.Harvesting.Converter.{Semver, IsLawful, Converter, blank}
use svp_harvester.Harvesting.World.{Harvester, World, Fetch, result}

pub data Release : Type 0 where
  v9 v10 : Release

abbrev pub print : Release → String
print v9 = "9.0.0"
print v10 = "10.0.0"

abbrev pub newer : Release → Release → Bool
newer v10 v9 = true
newer _ _ = false

unfoldable pub parse : String → Option Release
unfolding string_eq
parse text = if text == "9.0.0" then some v9 else if text == "10.0.0" then some v10 else none

abbrev pub semver : Semver Release
semver = record { parse = parse; print = print; gtb = newer }

pub semver-IsLawful : IsLawful semver
unfolding parse
semver-IsLawful = record { parse-print = elim [ v9 ↦ refl | v10 ↦ refl ] }

-- A raw result: an identifier and the text that is hashed.
pub record Raw : Type 0 where
  pub identifier : String
  pub text : String

abbrev pub unreadable : Exception
unreadable = record { kind = unexpected_format; message = "unreadable" }

abbrev pub unreachable : Exception
unreachable = record { kind = external_endpoint_failure; message = "unreachable" }

abbrev pub converter : Converter Raw Release
converter = record {
  harvester = "hal";
  source_identifier = λ raw. raw.identifier;
  compute_hash = λ raw version. ok raw.text;
  convert = λ raw ref. ok (record blank { titles = some (raw.text ∷ []) });
}

abbrev pub self : Harvester Release
self = record {
  harvesting_id = 1;
  entity_id = 7;
  event_types = created ∷ updated ∷ deleted ∷ unchanged ∷ [];
  fetch_enhancements = true;
  version = some v9;
}

abbrev pub retrieval : Retrieval
retrieval = record { id = 0; entity_id = 7; event_types = [] }

abbrev pub harvesting : Harvesting
harvesting = record { id = 1; harvester = "hal"; retrieval_id = 0; state = running }

abbrev pub db : Db
db = record {
  references = [];
  events = [];
  harvestings = harvesting ∷ [];
  retrievals = retrieval ∷ [];
  errors = [];
  next_reference = 0;
  next_event = 0;
  next_harvesting = 2;
  next_retrieval = 1;
}

abbrev pub world : World
world = record { db = db; queue = some []; harvesting = none; existing = [] }

abbrev pub article : Raw
article = record { identifier = "hal-1"; text = "one" }

abbrev pub fetch : Fetch Raw
fetch = record { items = result article ∷ []; failure = none }
