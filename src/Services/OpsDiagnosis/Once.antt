-- ===== src/Services/OpsDiagnosis/Once.antt =====
-- A finding is announced once, however often its alert comes.
use mathlib.Core.Path.{subst}
use enterprise_llm_assistant.Repositories.Findings
use enterprise_llm_assistant.Repositories.Findings.{OpsFinding, FindingStore}
use enterprise_llm_assistant.Repositories.Findings.Heard.{
  IsFiled, Heard, Stored, Stored-Heard, upsert-Stored, upsert-Heard, upsert-notified,
  mark_notified-Heard, mark_notified-Stored,
}
use enterprise_llm_assistant.Repositories.Findings.Filed.{upsert-IsFiled, mark_notified-IsFiled}
use enterprise_llm_assistant.Services.Alerts.{AlertPayload, resolve_fingerprint}
use enterprise_llm_assistant.Services.OpsNotifier.{notify}
use enterprise_llm_assistant.Services.OpsSetup.{Setup, OpsDraws, State}
use enterprise_llm_assistant.Services.OpsDiagnosis.{announce, diagnose}
use enterprise_llm_assistant.Services.OpsDiagnosis.Steps.{Diagnosed, diagnose-Diagnosed}
use enterprise_llm_assistant.Prelude.{String, true, none, ◌≡◌, arith, inl, inr}
use enterprise_llm_assistant.Prelude.{string_eq, if◌then◌else◌, Bool-cases}
use enterprise_llm_assistant.Prelude.Text.{truthy}
use enterprise_llm_assistant.Prelude.Dict

module _ (O : Setup) where
  announce-store :
      (f : OpsFinding) (s : State O)
      → (announce O f s).1.store
        ≡ (if f.notified then s.store else Findings.mark_notified f.id s.store)
  unfolding announce notify
  announce-store f s = ground arith

  announce-silent :
      (f : OpsFinding) (s : State O) → f.notified ≡ true → (announce O f s).1.slack ≡ s.slack
  unfolding announce
  announce-silent f s told = ground arith

  -- The store after a diagnosis.
  diagnose-store :
      (d : OpsDraws) (alert : AlertPayload) (s : State O) (h : Diagnosed O d alert s)
      → let (f, t) = Findings.upsert h.finding s.store in
        (diagnose O d alert s).1.store ≡ (if f.notified then t else Findings.mark_notified f.id t)
  diagnose-store d alert s h = rw h.announced (
      announce-store (Findings.upsert h.finding s.store).0
        (record s { llm = h.llm; store = (Findings.upsert h.finding s.store).1 }))

  -- A statement that marking keeps.
  marked_or_not :
      (P : FindingStore → Type 0) (f : OpsFinding) (t : FindingStore)
      → (f.notified ≡ true → P t)
      → P (Findings.mark_notified f.id t)
      → P (if f.notified then t else Findings.mark_notified f.id t)
  marked_or_not P f t told marked = elim (Bool-cases f.notified) [
    | inl e ↦ rw e (told e)
    | inr e ↦ rw e marked
  ]

  diagnose-IsFiled :
      (d : OpsDraws) (alert : AlertPayload) (s : State O)
      → Dict.lookup d.id s.store.by_id ≡ none
      → IsFiled s.store
      → IsFiled (diagnose O d alert s).1.store
  diagnose-IsFiled d alert s fresh filed =
      let h = diagnose-Diagnosed O d alert s in
      let (f, t) = Findings.upsert h.finding s.store in
      let after = upsert-IsFiled h.finding s.store (rw h.id fresh) filed in
      rw (diagnose-store d alert s h)
        (marked_or_not IsFiled f t (λ told. after) (mark_notified-IsFiled f.id t after))

  -- After a diagnosis, the fingerprint leads to a finding that was announced.
  diagnose-Heard :
      (d : OpsDraws) (alert : AlertPayload) (s : State O)
      → truthy d.id ≡ true
      → IsFiled s.store
      → Heard (resolve_fingerprint alert) (diagnose O d alert s).1.store
  diagnose-Heard d alert s named filed =
      let h = diagnose-Diagnosed O d alert s in
      let (f, t) = Findings.upsert h.finding s.store in
      let stored : Stored (resolve_fingerprint alert) f t =
        subst (λ (x : String). Stored x f t) h.fingerprint
          (upsert-Stored h.finding s.store filed (rw h.id named)) in
      rw (diagnose-store d alert s h) (
        marked_or_not (Heard (resolve_fingerprint alert)) f t
          (Stored-Heard (resolve_fingerprint alert) f t stored)
          (mark_notified-Stored (resolve_fingerprint alert) f t stored))

  diagnose-keeps :
      (fp : String) (d : OpsDraws) (alert : AlertPayload) (s : State O)
      → Dict.lookup d.id s.store.by_id ≡ none
      → Heard fp s.store
      → Heard fp (diagnose O d alert s).1.store
  diagnose-keeps fp d alert s fresh heard =
      let h = diagnose-Diagnosed O d alert s in
      let (f, t) = Findings.upsert h.finding s.store in
      let after = upsert-Heard fp h.finding s.store (rw h.id fresh) heard in
      rw (diagnose-store d alert s h)
        (marked_or_not (Heard fp) f t (λ told. after) (mark_notified-Heard fp f.id t after))

  diagnose-silent :
      (d : OpsDraws) (alert : AlertPayload) (s : State O)
      → Heard (resolve_fingerprint alert) s.store
      → (diagnose O d alert s).1.slack ≡ s.slack
  diagnose-silent d alert s heard =
      let h = diagnose-Diagnosed O d alert s in
      rw h.announced (
        announce-silent (Findings.upsert h.finding s.store).0 _
          (upsert-notified h.finding s.store (rw h.fingerprint heard)))

  -- The states that diagnoses lead to, each with an id that is new.
  pub data Later (s : State O) : State O → Type 0 where
    now : Later s s
    then_ :
        {t : State O}
        → Later s t
        → (d : OpsDraws) (alert : AlertPayload) → Dict.lookup d.id t.store.by_id ≡ none
        → truthy d.id ≡ true
        → Later s (diagnose O d alert t).1

  Later-Heard : (fp : String) {s t : State O} → Later s t → Heard fp s.store → Heard fp t.store
  Later-Heard fp now h = h
  Later-Heard fp (then_ {t} later d alert fresh named) h =
      diagnose-keeps fp d alert t fresh (Later-Heard fp later h)

  Later-IsFiled : {s t : State O} → Later s t → IsFiled s.store → IsFiled t.store
  Later-IsFiled now h = h
  Later-IsFiled (then_ {t} later d alert fresh named) h =
      diagnose-IsFiled d alert t fresh (Later-IsFiled later h)

  -- From a store in order, reached by any diagnoses, and after an alert was diagnosed and any others were,
  -- another alert with the same fingerprint sends nothing to Slack. Every id that is drawn is new and not
  -- empty.
  pub notified_once :
      (s t u : State O) (d e : OpsDraws) (first second : AlertPayload)
      → IsFiled s.store
      → Later s t
      → truthy d.id ≡ true
      → Later (diagnose O d first t).1 u
      → resolve_fingerprint second ≡ resolve_fingerprint first
      → (diagnose O e second u).1.slack ≡ u.slack
  notified_once s t u d e first second filed before named after same =
      let heard = diagnose-Heard d first t named (Later-IsFiled before filed) in
      diagnose-silent e second u (rw same (Later-Heard (resolve_fingerprint first) after heard))
