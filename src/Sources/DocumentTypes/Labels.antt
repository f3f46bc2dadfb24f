-- ===== src/Sources/DocumentTypes/Labels.antt =====
-- The label of a document type follows from its URI, whichever source it comes from.
use mathlib.Core.Option.{none-ne-some, some-injective}
use svp_harvester.Prelude.{
  or_cases, subst, inl, inr, ◌⊎◌, Bool-cases, and_left, and_right, String, Bool, true, ◌||◌, some,
  [], ◌∷◌, ◌++◌, all, ◌≡◌, ◌≢◌, refl, sym, ap, ◌∙◌, ◌==◌, string_eq, if◌then◌else◌, Option-cases,
  eq→path,
}
use svp_harvester.Sources.DocumentTypes.{
  TypesConverter, TypesMapping, hal, scanr, science_plus, sudoc, idref, open_edition, open_alex,
  scopus, hal_types, scanr_types, science_plus_types, sudoc_types, idref_types, open_edition_types,
  open_alex_types, scopus_types, unknown_code, types_mapping, type_of, convert_type,
}

abbrev all_types : TypesMapping
all_types =
    hal_types ++ open_alex_types ++ scopus_types ++ scanr_types ++ science_plus_types ++ sudoc_types
    ++ idref_types ++ open_edition_types

-- The label of the first entry with a URI.
abbrev label_of : String → TypesMapping → String
label_of uri [] = ""
label_of uri (entry ∷ entries) = if entry.1 == uri then entry.2 else label_of uri entries

abbrev has_its_label : String × String × String → Bool
has_its_label entry = (entry.1 == unknown_code.0) || (label_of entry.1 all_types == entry.2)

hal_labels : all has_its_label hal_types ≡ true
unfolding string_eq
hal_labels = refl

scanr_labels : all has_its_label scanr_types ≡ true
unfolding string_eq
scanr_labels = refl

science_plus_labels : all has_its_label science_plus_types ≡ true
unfolding string_eq
science_plus_labels = refl

sudoc_labels : all has_its_label sudoc_types ≡ true
unfolding string_eq
sudoc_labels = refl

idref_labels : all has_its_label idref_types ≡ true
unfolding string_eq
idref_labels = refl

open_edition_labels : all has_its_label open_edition_types ≡ true
unfolding string_eq
open_edition_labels = refl

open_alex_labels : all has_its_label open_alex_types ≡ true
unfolding string_eq
open_alex_labels = refl

scopus_labels : all has_its_label scopus_types ≡ true
unfolding string_eq
scopus_labels = refl

mapping_labels : (converter : TypesConverter) → all has_its_label (types_mapping converter) ≡ true
mapping_labels hal = hal_labels
mapping_labels scanr = scanr_labels
mapping_labels science_plus = science_plus_labels
mapping_labels sudoc = sudoc_labels
mapping_labels idref = idref_labels
mapping_labels open_edition = open_edition_labels
mapping_labels open_alex = open_alex_labels
mapping_labels scopus = scopus_labels

type_of-label :
    (key : String) (mapping : TypesMapping) (code : String × String)
    → all has_its_label mapping ≡ true
    → type_of key mapping ≡ some code
    → (code.0 ≡ unknown_code.0) ⊎ (label_of code.0 all_types ≡ code.1)
type_of-label key [] code labels e = absurd (none-ne-some code e)
type_of-label key (entry ∷ entries) code labels e = elim (Bool-cases (entry.0 == key)) [
  | inl same ↦
      let its : (entry.1, entry.2) ≡ code =
        some-injective (entry.1, entry.2) code
          (sym (ap (λ b. if b then some (entry.1, entry.2) else type_of key entries) same) ∙ e) in
      subst (λ c. (c.0 ≡ unknown_code.0) ⊎ (label_of c.0 all_types ≡ c.1)) its
        (elim (or_cases (entry.1 == unknown_code.0) (label_of entry.1 all_types == entry.2)
          (and_left _ labels)) [
            | inl unknown ↦ inl (eq→path entry.1 unknown_code.0 unknown)
            | inr label ↦ inr (eq→path (label_of entry.1 all_types) entry.2 label)
          ])
  | inr other ↦
      type_of-label key entries code (and_right (has_its_label entry) labels)
        (sym (ap (λ b. if b then some (entry.1, entry.2) else type_of key entries) other) ∙ e)
]

convert_type-label :
    (converter : TypesConverter) (document_type : String)
    → let made = convert_type converter document_type in
      made.0 ≢ unknown_code.0 → label_of made.0 all_types ≡ made.1
unfolding convert_type
convert_type-label converter document_type =
    elim (Option-cases (type_of document_type (types_mapping converter))) [
      | inl missing ↦ rw missing (λ known. absurd (known refl))
      | inr (code, e) ↦ rw e (λ known.
          elim (type_of-label document_type (types_mapping converter) code
            (mapping_labels converter) e) [
              | inl unknown ↦ absurd (known unknown)
              | inr label ↦ label
            ])
    ]

-- For any two document types, of the same source or of different ones: if their conversions have the
-- same URI, which is not that of the unknown type, then they have the same label.
pub convert_type-labels :
    (one other : TypesConverter) (type_of_one type_of_other : String)
    → (convert_type one type_of_one).0 ≡ (convert_type other type_of_other).0
    → (convert_type one type_of_one).0 ≢ unknown_code.0
    → (convert_type one type_of_one).1 ≡ (convert_type other type_of_other).1
convert_type-labels one other type_of_one type_of_other same known =
    sym (convert_type-label one type_of_one known)
    ∙ ap (λ uri. label_of uri all_types) same
    ∙ convert_type-label other type_of_other (λ unknown. known (same ∙ unknown))
