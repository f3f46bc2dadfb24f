-- ===== src/Identifiers/Tests.antt =====
-- The inference of HAL identifiers on samples.
use Prim.Native.Char.{Char, code}
use svp_harvester.Prelude.{
  String, Bool, ◌&&◌, none, some, [], ◌∷◌, ◌≡◌, refl, leb, nat_eq, string_eq, arith,
}
use svp_harvester.Prelude.Splitting.{is_free-IsFree}
use svp_harvester.Identifiers.{ParsedUrl, hal_id_in, infer_identifiers, hal_id_from_hal_url}
use svp_harvester.Identifiers.Recovery.{AreDigits, IsNumber}
use svp_harvester.Identifiers.Paths.{file, infer_identifiers-hal_id}

abbrev is_ascii_digit : Char → Bool
is_ascii_digit c = leb 48 (code c) && leb (code c) 57

with_version : hal_id_in is_ascii_digit "/hal-02185511v2/document" ≡ some "hal-02185511"
unfolding hal_id_in nat_eq string_eq
with_version = refl

with_file : hal_id_in is_ascii_digit "/halshs-021/file/paper.pdf" ≡ some "halshs-021"
unfolding hal_id_in nat_eq string_eq
with_file = refl

-- The characters of the name and two of `/file` are stripped, so that the path ends with `fil`.
with_content : hal_id_in is_ascii_digit "/hal-021/file/content" ≡ none
unfolding hal_id_in nat_eq string_eq
with_content = refl

ascii-AreDigits : AreDigits is_ascii_digit
ascii-AreDigits = record { kept = λ c h. ground (arith, h); no_version = λ c h. ground (arith, h) }

abbrev url_sample : String → ParsedUrl
url_sample url = record { scheme = "https"; netloc = "shs.hal.science"; path = url }

hal_digits : IsNumber is_ascii_digit "02185511"
hal_digits = record { digits = refl; first = refl }

version_digits : IsNumber is_ascii_digit "2"
version_digits = record { digits = refl; first = refl }

infer_identifiers-hal_id_example :
    infer_identifiers is_ascii_digit url_sample
      (hal_id_from_hal_url ∷ hal_id_from_hal_url ∷ [])
      (some "/hal-02185511v2/file/a paper.pdf" ∷ none ∷ [])
      (("doi", "10.1") ∷ [])
    ≡ ("doi", "10.1") ∷ ("hal", "hal-02185511") ∷ []
unfolding string_eq nat_eq
infer_identifiers-hal_id_example =
    infer_identifiers-hal_id is_ascii_digit ascii-AreDigits "hal" "02185511" hal_digits ""
      (some "2") version_digits url_sample "/hal-02185511v2/file/a paper.pdf" "https"
      "shs.hal.science" (file "a paper.pdf") (hal_id_from_hal_url ∷ []) (none ∷ [])
      (("doi", "10.1") ∷ []) refl refl (is_free-IsFree "/file" "/hal-02185511v2" refl) refl refl
      refl refl refl refl
