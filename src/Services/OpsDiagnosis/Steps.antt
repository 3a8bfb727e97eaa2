-- ===== src/Services/OpsDiagnosis/Steps.antt =====
-- What `diagnose` comes to: it stores a finding and announces it, and leaves the cluster as it was.
use enterprise_llm_assistant.Clients.KubernetesApi.{Answer}
use enterprise_llm_assistant.Core.Json.{object}
use enterprise_llm_assistant.Core.Json.Values.{fields_of}
use enterprise_llm_assistant.Repositories.Findings
use enterprise_llm_assistant.Repositories.Findings.{OpsFinding, FindingHypothesis}
use enterprise_llm_assistant.Services.Alerts.{AlertPayload, resolve_fingerprint}
use enterprise_llm_assistant.Services.OpsNotifier.{notify}
use enterprise_llm_assistant.Services.LlmService.{Llm}
use enterprise_llm_assistant.Services.OpsSetup.{Setup, OpsDraws, State}
use enterprise_llm_assistant.Services.OpsAdvisory.{build_advisory}
use enterprise_llm_assistant.Services.OpsDiagnosis.{
  gather, collect_evidence, queries, finding_of, announce, diagnose,
}
use enterprise_llm_assistant.Tools.Kubernetes
use enterprise_llm_assistant.Tools.Kubernetes.ReadOnly.{execute-state}
use enterprise_llm_assistant.Prelude.{
  ℕ, String, Bool, true, false, none, some, List, [], ◌∷◌, ◌≡◌, refl, arith, not, ◌||◌, inl, inr,
}
use enterprise_llm_assistant.Prelude.{if◌then◌else◌, Bool-cases}
use enterprise_llm_assistant.Prelude.Exec.{Result, ok}

module _ (O : Setup) where
  gather-state : (queries : List Answer) (s : O.cluster.State) → (gather O queries s).1 ≡ s
  unfolding gather
  gather-state [] s = refl
  gather-state (query ∷ queries) s =
      let (r, t) =
        Kubernetes.execute O.cluster O.json O.settings O.client
          (O.json.dumps (object (fields_of query))) s in
      ground (
        arith,
        execute-state O.cluster O.json O.settings O.client (O.json.dumps (object (fields_of query)))
            s,
        gather-state queries t,
      )

  abbrev either :
      {A : Type 0}
      → Bool
      → A
      → A
      → Llm O.provider.State O.cache.State
      → State O
      → Result A × State O
  either test p q l s = if test then (ok p, s) else (ok q, record s { llm = l })

  chosen :
      {A : Type 0} (test : Bool) (p q : A) (l : Llm O.provider.State O.cache.State) (s : State O)
      → (a : A) × (m : Llm O.provider.State O.cache.State) × (either test p q l s
          ≡ (ok a, record s { llm = m }))
  chosen true p q l s = (p, s.llm, refl)
  chosen false p q l s = (q, l, refl)

  -- The advisory is made whatever the model does, and changes nothing but the model.
  build_advisory-ok :
      (clock : ℕ × ℕ) (alert : AlertPayload) (evidence : List Answer) (s : State O)
      → (advisory : List FindingHypothesis × List String) × (l : Llm O.provider.State O.cache.State)
        × (build_advisory O clock alert evidence s ≡ (ok advisory, record s { llm = l }))
  unfolding build_advisory
  build_advisory-ok (now, failed_at) alert evidence s =
      chosen (not O.has_llm || not O.settings.ops_use_llm_hypothesis) _ _ _ s

  -- What a diagnosis of an alert stores, and that it announces what it stored.
  pub record Diagnosed (d : OpsDraws) (alert : AlertPayload) (s : State O) : Type 0 where
    pub finding : OpsFinding
    pub llm : Llm O.provider.State O.cache.State
    pub id : finding.id ≡ d.id
    pub fingerprint : finding.fingerprint ≡ resolve_fingerprint alert
    pub announced :
        diagnose O d alert s
        ≡ announce O
            (Findings.upsert finding s.store).0
            (record s { llm = llm; store = (Findings.upsert finding s.store).1 })

  pub diagnose-Diagnosed : (d : OpsDraws) (alert : AlertPayload) (s : State O) → Diagnosed d alert s
  unfolding diagnose collect_evidence finding_of
  diagnose-Diagnosed d alert s =
      let evidence = (gather O (queries alert) s.cluster).0 in
      let (advisory, l, made) = build_advisory-ok d.clock alert evidence s in
      record {
        finding = finding_of O d alert evidence advisory;
        llm = l;
        id = refl;
        fingerprint = refl;
        announced = rw (gather-state (queries alert) s.cluster) (rw made refl);
      }

  announce-ok :
      (f : OpsFinding) (s : State O)
      → (g : OpsFinding) × ((announce O f s).0 ≡ ok g) × ((announce O f s).1.cluster ≡ s.cluster)
  unfolding announce notify
  announce-ok f s = elim (Bool-cases f.notified) [
    | inl e ↦ (f, ground arith, ground arith)
    | inr e ↦ (
      elim (Findings.get f.id (Findings.mark_notified f.id s.store)) [
        | none ↦ f
        | some marked ↦ marked
      ],
      ground arith,
      ground arith,
    )
  ]

  -- Whatever the cluster, the model and the webhook of Slack do, `diagnose` returns a finding, and leaves the
  -- cluster as it was.
  pub diagnose-returns :
      (d : OpsDraws) (alert : AlertPayload) (s : State O)
      → (f : OpsFinding) × ((diagnose O d alert s).0 ≡ ok f)
        × ((diagnose O d alert s).1.cluster ≡ s.cluster)
  diagnose-returns d alert s =
      let h = diagnose-Diagnosed d alert s in
      let (f, answer, cluster) =
        announce-ok (Findings.upsert h.finding s.store).0
          (record s { llm = h.llm; store = (Findings.upsert h.finding s.store).1 }) in
      (f, rw h.announced answer, rw h.announced cluster)
