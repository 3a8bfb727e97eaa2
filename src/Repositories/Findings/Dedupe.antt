-- ===== src/Repositories/Findings/Dedupe.antt =====
-- `FindingStore.upsert` keeps one finding for a fingerprint.
use enterprise_llm_assistant.Prelude.{true, ◌≡◌, arith}
use enterprise_llm_assistant.Prelude.{string_eq}
use enterprise_llm_assistant.Prelude.Text.{truthy}
use enterprise_llm_assistant.Prelude.Dict.{dict_laws}
use enterprise_llm_assistant.Repositories.Findings.{
  OpsFinding, FindingStore, existing_of, upsert, updated,
}

-- After a finding with an id that is not empty was put in, a later one with the same fingerprint becomes an update of it: the later call answers with the first answer, updated.
pub upsert-twice :
    (first second : OpsFinding) (s : FindingStore)
    → truthy first.id ≡ true
    → second.fingerprint ≡ first.fingerprint
    → let (answer, t) = upsert first s in (upsert second t).0 ≡ updated answer second
unfolding upsert existing_of
upsert-twice first second s named same = grind (arith, dict_laws)
