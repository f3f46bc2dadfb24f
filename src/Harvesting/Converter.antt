-- ===== src/Harvesting/Converter.antt =====
-- The parts of app/harvesters/abstract_references_converter.py that every source shares: `build`
-- and the check `validate_reference` around `convert`. What a source supplies is `Converter`; the
-- package semver is `Semver`.
use Prim.Native.Char.{code}
use Prim.Native.String.{[] as empty, ◌∷◌ as cons}
use svp_harvester.Prelude.{
  ℕ, String, ◌≡◌, Bool, true, false, ◌&&◌, ◌||◌, Option, none, some, List, [], ◌∷◌, leb, contains,
  nat_eq, if◌then◌else◌,
}
use svp_harvester.Prelude.Action.{Outcome, ok, raised}
use svp_harvester.Harvesting.Model.{other, Exception, Content, Reference}

-- `VersionInfo.parse`, `str` and `>` of the package semver.
pub record Semver (Version : Type 0) : Type 0 where
  pub parse : String → Option Version
  pub print : Version → String
  pub gtb : Version → Version → Bool

-- What the documentation of semver says of a printed version.
pub record IsLawful {Version : Type 0} (semver : Semver Version) : Type 0 where
  pub parse-print : (v : Version) → semver.parse (semver.print v) ≡ some v

-- What the class of a source defines: its name, the identifier of a raw result, the hash over the
-- keys of a harvester version, and the conversion.
pub record Converter (Raw Version : Type 0) : Type 0 where
  pub harvester : String
  pub source_identifier : Raw → String
  pub compute_hash : Raw → Version → Outcome Exception String
  pub convert : Raw → Reference → Outcome Exception Content

-- The relationships of a new `Reference` object are empty lists.
abbrev pub blank : Content
blank = record {
  titles = some [];
  subtitles = some [];
  abstracts = some [];
  subjects = some [];
  document_type = some [];
  contributions = some [];
}

abbrev pub other_error : String → Exception
other_error message = record { kind = other; message = message }

-- The characters that `str.strip` removes.
abbrev pub is_space : ℕ → Bool
is_space c =
    leb 9 c && leb c 13
    || leb 28 c && leb c 32
    || leb 0x2000 c && leb c 0x200a
    || contains (0x85 ∷ 0xa0 ∷ 0x1680 ∷ 0x2028 ∷ 0x2029 ∷ 0x202f ∷ 0x205f ∷ 0x3000 ∷ []) c

-- `not s.strip()`
unfoldable pub is_blank : String → Bool
is_blank empty = true
is_blank (cons c s) = is_space (code c) && is_blank s

abbrev pub is_empty_list : Option (List String) → Bool
is_empty_list none = true
is_empty_list (some []) = true
is_empty_list (some (x ∷ xs)) = false

abbrev pub is_none : Option (List String) → Bool
is_none none = true
is_none (some xs) = false

abbrev pub failed_if : Bool → String → List String → List String
failed_if failed field rest = if failed then field ∷ rest else rest

-- The names of the fields that the three loops of `validate_reference` collect.
unfoldable pub failed_fields : Reference → List String
unfolding is_blank
failed_fields ref = failed_if (is_empty_list ref.content.titles) "titles" (
    failed_if (is_blank ref.harvester) "harvester" (
      failed_if (is_none ref.content.abstracts) "abstracts" (
        failed_if (is_none ref.content.subtitles) "subtitles" (
          failed_if (is_none ref.content.subjects) "subjects" (
            failed_if (is_none ref.content.document_type) "document_type"
              (failed_if (is_none ref.content.contributions) "contributions" []))))))

abbrev pub check_fields : List String → Reference → Outcome Exception Reference
check_fields [] ref = ok ref
check_fields (field ∷ fields) ref = raised (other_error "should be set on reference")

unfoldable pub validate_reference : Reference → Outcome Exception Reference
validate_reference ref = check_fields (failed_fields ref) ref

module _ {Raw Version : Type 0} (semver : Semver Version) (converter : Converter Raw Version) where
  -- `Reference._validate_version`
  unfoldable pub validate_version : String → Outcome Exception String
  validate_version version = elim (semver.parse version) [
    | none ↦ raised (other_error "Invalid semantic version")
    | some parsed ↦ ok (semver.print parsed)
  ]

  unfoldable pub build : Raw → Version → Outcome Exception Reference
  unfolding validate_version
  build raw harvester_version = elim (validate_version (semver.print harvester_version)) [
    | raised e ↦ raised e
    | ok version ↦ elim (converter.compute_hash raw harvester_version) [
      | raised e ↦ raised e
      | ok hash ↦ ok (record {
        source_identifier = converter.source_identifier raw;
        harvester = converter.harvester;
        harvester_version = version;
        hash = hash;
        content = blank;
      })
    ]
  ]

  -- `convert` under its decorator: the conversion, then the check of what it filled.
  unfoldable pub convert : Raw → Reference → Outcome Exception Reference
  convert raw new_ref = elim (converter.convert raw new_ref) [
    | raised e ↦ raised e
    | ok content ↦ validate_reference (record new_ref { content = content })
  ]
