-- ===== src/Harvesting/Model.antt =====
-- The rows that a harvesting reads and writes: app/db/models/{reference, reference_event, harvesting,
-- retrieval, harvesting_error, versioned_record}.py. Only the columns that the harvesting logic
-- reads are kept. The columns that a converter fills are one value, `Content`.
use svp_harvester.Prelude.{ℕ, String, Bool, Option, List, Eq}

-- `ReferenceEvent.Type`
pub data EventType : Type 0 where
  created updated deleted unchanged : EventType

-- `Harvesting.State`
pub data State : Type 0 where
  idle running completed failed : State

instance abbrev pub event_type_eq : Eq EventType
event_type_eq = record { dec = hlevel }

instance abbrev pub state_eq : Eq State
state_eq = record { dec = hlevel }

-- The classes of exceptions that `AbstractHarvester.run` tells apart.
pub data Kind : Type 0 where
  external_endpoint_failure unexpected_format : Kind
  connection_error postgres_connection_error sql_timeout other : Kind

pub record Exception : Type 0 where
  pub kind : Kind
  pub message : String

-- The attributes of a `Reference` that a converter fills, `none` where the attribute is `None`.
pub record Content : Type 0 where
  pub titles : Option (List String)
  pub subtitles : Option (List String)
  pub abstracts : Option (List String)
  pub subjects : Option (List String)
  pub document_type : Option (List String)
  pub contributions : Option (List String)

-- A `Reference` object before it is stored.
pub record Reference : Type 0 where
  pub source_identifier : String
  pub harvester : String
  pub harvester_version : String
  pub hash : String
  pub content : Content

-- A stored reference.
pub record Row : Type 0 where
  pub id : ℕ
  pub version : ℕ
  pub reference : Reference
  pub open reference use *

pub record ReferenceEvent : Type 0 where
  pub id : ℕ
  pub type : EventType
  pub enhanced : Bool
  pub reference_id : ℕ
  pub harvesting_id : ℕ

pub record Retrieval : Type 0 where
  pub id : ℕ
  pub entity_id : ℕ
  pub event_types : List EventType

pub record Harvesting : Type 0 where
  pub id : ℕ
  pub harvester : String
  pub retrieval_id : ℕ
  pub state : State

pub record HarvestingError : Type 0 where
  pub harvesting_id : ℕ
  pub name : Kind
  pub message : String

-- The tables, the newest row first, with the next value of each sequence of ids.
pub record Db : Type 0 where
  pub references : List Row
  pub events : List ReferenceEvent
  pub harvestings : List Harvesting
  pub retrievals : List Retrieval
  pub errors : List HarvestingError
  pub next_reference : ℕ
  pub next_event : ℕ
  pub next_harvesting : ℕ
  pub next_retrieval : ℕ
