-- ===== src/Repositories/Findings/Heard.antt =====
-- A finding that was announced stays marked, and its fingerprint leads to it.
use enterprise_llm_assistant.Prelude.{
  String, true, none, some, ◌≡◌, ◌≢◌, refl, sym, ap, ◌∙◌, arith, inl, inr,
}
use enterprise_llm_assistant.Prelude.{string_eq, ==_cases, Option-cases}
use enterprise_llm_assistant.Prelude.Text.{truthy}
use enterprise_llm_assistant.Prelude.Dict
use enterprise_llm_assistant.Repositories.Findings.{
  OpsFinding, FindingStore, existing_of, upsert, updated, mark_notified,
}

-- Every fingerprint leads to a finding that has it, and that is kept under its own id.
pub record IsFiled (s : FindingStore) : Type 0 where
  pub own_id : (fp id : String) (f : OpsFinding) → existing_of fp s ≡ some (id, f) → f.id ≡ id
  pub own_fingerprint :
      (fp id : String) (f : OpsFinding) → existing_of fp s ≡ some (id, f) → f.fingerprint ≡ fp
  pub kept :
      (fp id : String) → Dict.lookup fp s.by_fingerprint ≡ some id → Dict.lookup id s.by_id ≢ none

-- The fingerprint leads to a finding that was announced.
pub record Heard (fp : String) (s : FindingStore) : Type 0 where
  pub id : String
  pub finding : OpsFinding
  pub indexed : Dict.lookup fp s.by_fingerprint ≡ some id
  pub named : truthy id ≡ true
  pub there : Dict.lookup id s.by_id ≡ some finding
  pub notified : finding.notified ≡ true

pub existing_of-Heard :
    (fp : String) (s : FindingStore) (h : Heard fp s) → existing_of fp s ≡ some (h.id, h.finding)
unfolding existing_of
existing_of-Heard fp s h = ground (arith, h.indexed, h.named, h.there)

pub existing_of-lookup :
    (fp id : String) (f : OpsFinding) (s : FindingStore)
    → existing_of fp s ≡ some (id, f)
    → (Dict.lookup fp s.by_fingerprint ≡ some id)
      × (truthy id ≡ true)
      × (Dict.lookup id s.by_id ≡ some f)
unfolding existing_of
existing_of-lookup fp id f s e = (ground arith, ground arith, ground arith)

same_found : (a b : OpsFinding) → some a ≡ some b → a.notified ≡ b.notified
same_found a b e = cc

pub mark_notified-Heard :
    (fp id : String) (s : FindingStore) → Heard fp s → Heard fp (mark_notified id s)
unfolding mark_notified
mark_notified-Heard fp id s h = elim (Option-cases (Dict.lookup id s.by_id)) [
  | inl e ↦ rw (e, mark_notified) h
  | inr (f, e) ↦
      rw (e, mark_notified)
        (elim (==_cases h.id id) [
          | inl (q, p) ↦ record {
            id = h.id;
            finding = record f { notified = true };
            indexed = h.indexed;
            named = h.named;
            there =
                ground (arith, Dict.lookup-insert h.id id (record f { notified = true }) s.by_id);
            notified = refl;
          }
          | inr (q, p) ↦ record {
            id = h.id;
            finding = h.finding;
            indexed = h.indexed;
            named = h.named;
            there =
                ground (
                  arith,
                  h.there,
                  Dict.lookup-insert h.id id (record f { notified = true }) s.by_id,
                );
            notified = h.notified;
          }
        ])
]

-- A finding whose id is new does not take the place of another.
pub upsert-Heard :
    (fp : String) (made : OpsFinding) (s : FindingStore)
    → Dict.lookup made.id s.by_id ≡ none
    → Heard fp s
    → Heard fp (upsert made s).1
unfolding upsert
upsert-Heard fp made s fresh h = elim (Option-cases (existing_of made.fingerprint s)) [
  | inl e ↦
      rw (e, upsert)
        (record {
          id = h.id;
          finding = h.finding;
          indexed = ground (
            arith,
            h.indexed,
            existing_of-Heard fp s h,
            Dict.lookup-insert fp made.fingerprint made.id s.by_fingerprint,
          );
          named = h.named;
          there = ground (arith, h.there, Dict.lookup-insert h.id made.id made s.by_id);
          notified = h.notified;
        })
  | inr ((id, f), e) ↦
      rw (e, upsert)
        (elim (==_cases h.id id) [
          | inl (q, p) ↦ record {
            id = h.id;
            finding = updated f made;
            indexed = h.indexed;
            named = h.named;
            there = ground (arith, Dict.lookup-insert h.id id (updated f made) s.by_id);
            notified =
                sym (
                  same_found h.finding f (
                    sym h.there
                    ∙ ap (λ k. Dict.lookup k s.by_id) p
                    ∙ (existing_of-lookup made.fingerprint id f s e).2))
                ∙ h.notified;
          }
          | inr (q, p) ↦ record {
            id = h.id;
            finding = h.finding;
            indexed = h.indexed;
            named = h.named;
            there = ground (arith, h.there, Dict.lookup-insert h.id id (updated f made) s.by_id);
            notified = h.notified;
          }
        ])
]

-- What `upsert` answers with is kept under its id, and its fingerprint leads to it.
pub record Stored (fp : String) (f : OpsFinding) (s : FindingStore) : Type 0 where
  pub indexed : Dict.lookup fp s.by_fingerprint ≡ some f.id
  pub named : truthy f.id ≡ true
  pub there : Dict.lookup f.id s.by_id ≡ some f

pub upsert-Stored :
    (made : OpsFinding) (s : FindingStore)
    → IsFiled s
    → truthy made.id ≡ true
    → Stored made.fingerprint (upsert made s).0 (upsert made s).1
unfolding upsert
upsert-Stored made s filed named = elim (Option-cases (existing_of made.fingerprint s)) [
  | inl e ↦
      rw (e, upsert)
        (record {
          indexed = ground (
            arith,
            Dict.lookup-insert made.fingerprint made.fingerprint made.id s.by_fingerprint,
          );
          named = named;
          there = ground (arith, Dict.lookup-insert made.id made.id made s.by_id);
        })
  | inr ((id, f), e) ↦
      let (indexed, some_id, there) = existing_of-lookup made.fingerprint id f s e in
      let own = filed.own_id made.fingerprint id f e in
      rw (e, upsert)
        (record {
          indexed = ground (arith, indexed, own);
          named = ground (arith, some_id, own);
          there = ground (arith, own, Dict.lookup-insert f.id id (updated f made) s.by_id);
        })
]

pub Stored-Heard :
    (fp : String) (f : OpsFinding) (s : FindingStore)
    → Stored fp f s
    → f.notified ≡ true
    → Heard fp s
Stored-Heard fp f s h told = record {
  id = f.id;
  finding = f;
  indexed = h.indexed;
  named = h.named;
  there = h.there;
  notified = told;
}

pub mark_notified-Stored :
    (fp : String) (f : OpsFinding) (s : FindingStore)
    → Stored fp f s
    → Heard fp (mark_notified f.id s)
unfolding mark_notified
mark_notified-Stored fp f s h =
    rw (h.there, mark_notified)
      (record {
        id = f.id;
        finding = record f { notified = true };
        indexed = h.indexed;
        named = h.named;
        there = ground (arith, Dict.lookup-insert f.id f.id (record f { notified = true }) s.by_id);
        notified = refl;
      })

-- Another diagnosis of a fingerprint that was heard of meets a finding that is marked.
pub upsert-notified :
    (made : OpsFinding) (s : FindingStore)
    → Heard made.fingerprint s
    → (upsert made s).0.notified ≡ true
unfolding upsert
upsert-notified made s h = ground (arith, existing_of-Heard made.fingerprint s h, h.notified)
