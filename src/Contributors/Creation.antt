-- ===== src/Contributors/Creation.antt =====
-- `_get_or_create_contributor_by_identifier` and `_get_or_create_contributor_by_name` of
-- app/harvesters/abstract_references_converter.py, with other processes that insert contributors.
use svp_harvester.Prelude.{
  String, true, Option, none, some, List, filter, ◌==◌, string_eq, option_eq, ◌≡◌, refl, path→eq,
  eq→path, and_left, and_right,
}
use svp_harvester.Tables.{one_or_none}
use svp_harvester.Tables.Race.{IsUnique, IsKeyed, IsStored, get_or_create-IsStored}
use svp_harvester.Contributors.{
  Contributor, NewContributor, Contributors, make, has_key_of, is_named, find_contributor,
  get_by_source_and_identifier, get_by_source_and_name, create_contributor, find_by_key, has_key,
}

find_by_key_lem :
    (source : String) (identifier name : Option String) (rows : List Contributor)
    → find_by_key source identifier name rows
      ≡ one_or_none (filter (has_key source identifier name) rows)
unfolding get_by_source_and_identifier get_by_source_and_name
find_by_key_lem source (some identifier) name rows = refl
find_by_key_lem source none name rows = refl

has_key-made : (row : Contributor) → has_key row.source row.source_identifier row.name row ≡ true
has_key-made row = go row.source_identifier refl
  where
    go :
        (identifier : Option String)
        → row.source_identifier ≡ identifier
        → has_key row.source identifier row.name row ≡ true
    go (some identifier) e =
        rw (path→eq row.source row.source refl, path→eq row.source_identifier (some identifier) e)
          refl
    go none e =
        rw
          (
            path→eq row.source row.source refl,
            path→eq row.name row.name refl,
            path→eq row.source_identifier none e,
          )
          refl

-- A row that has a key has that key only.
has_key-same :
    (source : String) (identifier name : Option String) (made row : Contributor)
    → has_key source identifier name made ≡ true
    → has_key source identifier name row ≡ has_key made.source made.source_identifier made.name row
has_key-same source (some identifier) name made row h =
    let s = eq→path made.source source (and_left _ h) in
    let i =
      eq→path made.source_identifier (some identifier) (and_right (made.source == source) h) in
    rw (s, i) refl
has_key-same source none name made row h =
    let s = eq→path made.source source (and_left _ h) in
    let rest = and_right (made.source == source) h in
    let n = eq→path made.name name (and_left _ rest) in
    let i = eq→path made.source_identifier none (and_right (made.name == name) rest) in
    rw (s, n, i) refl

contributors-IsKeyed : IsKeyed has_key_of make is_named
contributors-IsKeyed = record {
  made = λ id new h. has_key-made (make id new);
  same = λ id new other row.
      has_key-same other.source other.source_identifier other.name (make id new) row;
}

-- From a table where each source has no two contributors with one identifier, nor two with one name
-- and no identifier, for a contributor with a name: whatever contributors other processes insert
-- around the commits, a call returns a contributor and never fails. The table then holds that
-- contributor as the only one with the source and the identifier, or with the source and the name
-- if there is no identifier, and it still has no two contributors with one key.
pub create_contributor-IsStored :
    (new : NewContributor) (s : Contributors)
    → is_named new ≡ true
    → IsUnique has_key_of s.rows
    → IsStored has_key_of new (create_contributor new s)
create_contributor-IsStored =
    get_or_create-IsStored has_key_of make is_named contributors-IsKeyed find_contributor
      (λ new rows unique. find_by_key_lem new.source new.source_identifier new.name rows)
