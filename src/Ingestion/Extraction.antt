-- ===== src/Ingestion/Extraction.antt =====
-- app/extraction/registry.py, `ExtractionRegistry`, over extractors, whose work on bytes and on the web is a
-- parameter of each.
use Prim.Native.String.{String, ◌++◌ as ◌<>◌}
use Prim.Native.Char.{code}
use enterprise_llm_assistant.Core.Exceptions.{unsupported_extraction}
use enterprise_llm_assistant.Core.Json.{Json}
use enterprise_llm_assistant.Prelude.{
  ℕ, Bool, true, false, ◌||◌, Option, none, some, List, [], ◌∷◌, ◌++◌,
}
use enterprise_llm_assistant.Prelude.{string_eq, if◌then◌else◌, eqb}
use enterprise_llm_assistant.Prelude.Text.{before, truthy, lower, occurs_in, join}
use enterprise_llm_assistant.Prelude.Dict
use enterprise_llm_assistant.Prelude.Dict.{Dict}
use enterprise_llm_assistant.Prelude.Exec.{Result, ok, raised}

pub record Extracted : Type 0 where
  pub text : String
  pub source_type : String
  pub metadata : Dict String Json
  pub filename : Option String

-- A `DocumentExtractor`; a file's bytes are numbers.
pub record Extractor : Type 0 where
  pub source_type : String
  pub extensions : List String
  pub url_patterns : List String
  pub extract_bytes : List ℕ → String → Result Extracted
  pub extract_url : String → Result Extracted

pub record Registry : Type 0 where
  pub extractors : List Extractor
  pub by_extension : Dict String Extractor
  pub url_extractors : List Extractor

-- `self._by_extension[extension.lower()] = extractor`, for each of the extensions.
unfoldable pub file_under : List String → Extractor → Dict String Extractor → Dict String Extractor
file_under [] extractor by_extension = by_extension
file_under (extension ∷ extensions) extractor by_extension =
    file_under extensions extractor (Dict.insert (lower extension) extractor by_extension)

abbrev has_patterns : Extractor → Bool
has_patterns extractor = elim extractor.url_patterns [ [] ↦ false | ◌∷◌ _ _ ↦ true ]

unfoldable pub register : Extractor → Registry → Registry
unfolding file_under
register extractor registry = record registry {
  by_extension = file_under extractor.extensions extractor registry.by_extension;
  url_extractors =
      if has_patterns extractor
      then registry.url_extractors ++ extractor ∷ []
      else registry.url_extractors;
}

register_all : List Extractor → Registry → Registry
unfolding register
register_all [] registry = registry
register_all (extractor ∷ extractors) registry =
    register_all extractors (register extractor registry)

-- `ExtractionRegistry(extractors)`
unfoldable pub extraction_registry : List Extractor → Registry
unfolding register_all
extraction_registry extractors =
    register_all extractors
      (record { extractors = extractors; by_extension = []; url_extractors = [] })

-- `filename.rsplit(".", 1)[-1]`
after_last_dot : String → String
after_last_dot String.[] = String.[]
after_last_dot (String.◌∷◌ c s) =
    let rest = after_last_dot s in
    if occurs_in "." s then rest else if eqb (code c) b'.' then s else String.◌∷◌ c s

unfoldable pub extension_of : String → String
unfolding after_last_dot
extension_of filename = if occurs_in "." filename then lower (after_last_dot filename) else ""

place : String → List String → List String
place s [] = s ∷ []
place s (t ∷ ts) = let rest = place s ts in if before t s then t ∷ rest else s ∷ t ∷ ts

-- `sorted(texts)`
unfoldable pub sorted : List String → List String
unfolding place
sorted [] = []
sorted (s ∷ ss) = place s (sorted ss)

unfoldable pub list_supported_extensions : Registry → List String
list_supported_extensions registry = sorted (Dict.keys registry.by_extension)

unfoldable pub resolve_filename : String → Registry → Result Extractor
resolve_filename filename registry =
    let extension = extension_of filename in
    let listed = join ", " (list_supported_extensions registry) in
    elim (Dict.lookup extension registry.by_extension) [
      | some extractor ↦ ok extractor
      | none ↦ raised (
          unsupported_extraction (
            "Unsupported file type '."
            <> extension
            <> "'. Supported extensions: "
            <> (if truthy listed then listed else "none")))
    ]

any_pattern : List String → String → Bool
any_pattern [] lowered = false
any_pattern (pattern ∷ patterns) lowered = occurs_in pattern lowered || any_pattern patterns lowered

first_supporting : String → List Extractor → Option Extractor
unfolding any_pattern
first_supporting url [] = none
first_supporting url (extractor ∷ extractors) =
    let rest = first_supporting url extractors in
    if any_pattern extractor.url_patterns (lower url) then some extractor else rest

unfoldable pub resolve_url : String → Registry → Result Extractor
unfolding first_supporting
resolve_url url registry = elim (first_supporting url registry.url_extractors) [
  | some extractor ↦ ok extractor
  | none ↦ raised (
      unsupported_extraction
        "Unsupported URL. Currently only YouTube links are reserved for future extraction.")
]
