-- ===== src/Repositories/Findings/Filed.antt =====
-- The invariant of `FindingStore`, and that its operations keep it.
use enterprise_llm_assistant.Prelude.{String, true, none, some, [], ◌≡◌, refl, arith, inl, inr}
use enterprise_llm_assistant.Prelude.{string_eq, Option-cases}
use enterprise_llm_assistant.Prelude.Dict
use enterprise_llm_assistant.Repositories.Findings.{
  OpsFinding, FindingStore, existing_of, upsert, updated, mark_notified,
}
use enterprise_llm_assistant.Repositories.Findings.Heard.{IsFiled, existing_of-lookup}

pub IsFiled-empty : IsFiled (record { by_id = []; by_fingerprint = [] })
unfolding existing_of
IsFiled-empty = record {
  own_id = λ fp id f e. ground (arith, Dict.lookup-empty {V = String} fp);
  own_fingerprint = λ fp id f e. ground (arith, Dict.lookup-empty {V = String} fp);
  kept = λ fp id e. ground (arith, Dict.lookup-empty {V = String} fp);
}

-- A finding in place of one that has the same id and fingerprint.
replaced-IsFiled :
    (id : String) (old new : OpsFinding) (s : FindingStore)
    → Dict.lookup id s.by_id ≡ some old
    → new.id ≡ old.id
    → new.fingerprint ≡ old.fingerprint
    → IsFiled s
    → IsFiled (record s { by_id = Dict.insert id new s.by_id })
unfolding existing_of
replaced-IsFiled id old new s there same_id same_fingerprint h = record {
  own_id = λ fp k f e. ground (
    arith,
    Dict.lookup-insert k id new s.by_id,
    h.own_id fp k f,
    h.own_id fp k old,
    existing_of-lookup fp k f (record s { by_id = Dict.insert id new s.by_id }) e,
  );
  own_fingerprint = λ fp k f e. ground (
    arith,
    Dict.lookup-insert k id new s.by_id,
    h.own_fingerprint fp k f,
    h.own_fingerprint fp k old,
    existing_of-lookup fp k f (record s { by_id = Dict.insert id new s.by_id }) e,
  );
  kept = λ fp k e. ground (arith, Dict.lookup-insert k id new s.by_id, h.kept fp k e);
}

added-IsFiled :
    (made : OpsFinding) (s : FindingStore)
    → Dict.lookup made.id s.by_id ≡ none
    → IsFiled s
    → IsFiled (record {
      by_id = Dict.insert made.id made s.by_id;
      by_fingerprint = Dict.insert made.fingerprint made.id s.by_fingerprint;
    })
unfolding existing_of
added-IsFiled made s fresh h =
    let t : FindingStore = record {
      by_id = Dict.insert made.id made s.by_id;
      by_fingerprint = Dict.insert made.fingerprint made.id s.by_fingerprint;
    } in
    record {
      own_id = λ fp k f e. ground (
        arith,
        Dict.lookup-insert k made.id made s.by_id,
        h.own_id fp k f,
        h.kept fp k,
        Dict.lookup-insert fp made.fingerprint made.id s.by_fingerprint,
        existing_of-lookup fp k f t e,
      );
      own_fingerprint = λ fp k f e. ground (
        arith,
        Dict.lookup-insert k made.id made s.by_id,
        h.own_fingerprint fp k f,
        h.kept fp k,
        Dict.lookup-insert fp made.fingerprint made.id s.by_fingerprint,
        existing_of-lookup fp k f t e,
      );
      kept = λ fp k e. ground (
        arith,
        Dict.lookup-insert k made.id made s.by_id,
        h.kept fp k,
        Dict.lookup-insert fp made.fingerprint made.id s.by_fingerprint,
      );
    }

pub upsert-IsFiled :
    (made : OpsFinding) (s : FindingStore)
    → Dict.lookup made.id s.by_id ≡ none
    → IsFiled s
    → IsFiled (upsert made s).1
unfolding upsert
upsert-IsFiled made s fresh h = elim (Option-cases (existing_of made.fingerprint s)) [
  | inl e ↦ rw (e, upsert) (added-IsFiled made s fresh h)
  | inr ((id, f), e) ↦
      let (indexed, named, there) = existing_of-lookup made.fingerprint id f s e in
      rw (e, upsert) (replaced-IsFiled id f (updated f made) s there refl refl h)
]

pub mark_notified-IsFiled :
    (id : String) (s : FindingStore) → IsFiled s → IsFiled (mark_notified id s)
unfolding mark_notified
mark_notified-IsFiled id s h = elim (Option-cases (Dict.lookup id s.by_id)) [
  | inl e ↦ rw (e, mark_notified) h
  | inr (f, e) ↦
      rw (e, mark_notified) (replaced-IsFiled id f (record f { notified = true }) s e refl refl h)
]
