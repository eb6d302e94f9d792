-- ===== src/Steps/Nesting.antt =====
-- When src/steps/sub_workflow.py starts a nested execution.
use workflow_automation_engi.Db.{Workflow}
use workflow_automation_engi.Steps.SubWorkflow.{
  UuidText, MappingJinja, prepare, nested_workflow, build_trigger_data, load_nested,
}
use workflow_automation_engi.Prelude.{
  nat_eq_iff, Bool-cases, Option-cases, ◌==◌, Fields, Dict, get, ℕ, ◌<◌, ◌≡◌, sym, ap, ◌∙◌, inl,
  inr, true, Option, none, some, ok, nat_key, ltb, ltb→lt, Result-split, find,
}
use workflow_automation_engi.Engine.Context.{StepInput}
use workflow_automation_engi.Services.{own_workflow, owned_workflow}

module _ (max_sub_workflow_depth : ℕ) (uuids : UuidText) (jinja : MappingJinja)
    (workflows : Dict ℕ Workflow) where
  -- What a nested execution is started with: below the bound, for an active workflow of the tenant.
  abbrev pub IsNested : StepInput → Workflow × Fields × ℕ → Type 0
  IsNested context (workflow, trigger_data, tenant_id) =
      (context.depth < max_sub_workflow_depth)
      × (context.tenant_id ≡ some tenant_id)
      × (workflow.tenant_id ≡ tenant_id)
      × (workflow.is_active ≡ true)

  own_workflow-tenant :
      (tenant_id : ℕ) (o : Option Workflow) (w : Workflow)
      → own_workflow tenant_id o ≡ some w
      → w.tenant_id ≡ tenant_id
  own_workflow-tenant tenant_id none w h = absurd (cc h)
  own_workflow-tenant tenant_id (some v) w h = elim (Bool-cases (v.tenant_id == tenant_id)) [
    | inl own ↦
        let e : v ≡ w = (let h' = rw own at h in cc) in
        ap (λ (u : Workflow). u.tenant_id) (sym e) ∙ (nat_eq_iff v.tenant_id tenant_id).0 own
    | inr foreign ↦ absurd (cc (rw foreign at h))
  ]

  nested_workflow-own :
      (workflow_id tenant_id : ℕ) (w : Workflow)
      → nested_workflow max_sub_workflow_depth uuids jinja workflows workflow_id tenant_id ≡ ok w
      → (w.tenant_id ≡ tenant_id) × (w.is_active ≡ true)
  unfolding nested_workflow
  nested_workflow-own workflow_id tenant_id w h =
      elim (Option-cases (owned_workflow workflow_id tenant_id workflows)) [
        | inl gone ↦ absurd (cc (rw gone at h))
        | inr (v, found) ↦ elim (Bool-cases v.is_active) [
          | inl active ↦
              let e : v ≡ w = (let h2 = simp active at (rw found at h) in cc) in
              (
                own_workflow-tenant tenant_id (get workflow_id workflows) w (found ∙ ap some e),
                ap (λ (u : Workflow). u.is_active) (sym e) ∙ active,
              )
          | inr inactive ↦ absurd (cc (simp inactive at (rw found at h)))
        ]
      ]

  prepared-IsNested :
      (config : Fields) (context : StepInput) (workflow_id t : ℕ) (workflow : Workflow)
      (trigger_data : Fields) (tenant_id : ℕ)
      → ltb context.depth max_sub_workflow_depth ≡ true
      → context.tenant_id ≡ some t
      → load_nested max_sub_workflow_depth uuids jinja workflows config context workflow_id t
        ≡ ok (workflow, trigger_data, tenant_id)
      → IsNested context (workflow, trigger_data, tenant_id)
  unfolding load_nested
  prepared-IsNested config context workflow_id t workflow trigger_data tenant_id within tenant h =
      elim (Result-split
        (nested_workflow max_sub_workflow_depth uuids jinja workflows workflow_id t)) [
          | inr (x, refused) ↦ absurd (cc (rw refused at h))
          | inl (w, nested) ↦ elim (Result-split (build_trigger_data jinja config context)) [
            | inr (x, refused) ↦ absurd (cc (rw (nested, refused) at h))
            | inl (built, e) ↦
                let h' : ok (w, built, t) ≡ ok (workflow, trigger_data, tenant_id) =
                  rw (nested, e) at h in
                let same : w ≡ workflow = cc in
                let same_tenant : t ≡ tenant_id = cc in
                let own = nested_workflow-own workflow_id t w nested in
                (
                  ltb→lt context.depth max_sub_workflow_depth within,
                  tenant ∙ ap some same_tenant,
                  ap (λ (u : Workflow). u.tenant_id) (sym same) ∙ own.0 ∙ same_tenant,
                  ap (λ (u : Workflow). u.is_active) (sym same) ∙ own.1,
                )
          ]
        ]

  pub prepare-IsNested :
      (config : Fields) (context : StepInput) (prepared : Workflow × Fields × ℕ)
      → prepare max_sub_workflow_depth uuids jinja workflows config context ≡ ok prepared
      → IsNested context prepared
  unfolding prepare
  prepare-IsNested config context (workflow, trigger_data, tenant_id) h =
      elim (Option-cases (find "workflow_id" config)) [
        | inl gone ↦ absurd (cc (simp gone at h))
        | inr (given, e1) ↦ elim (Bool-cases (ltb context.depth max_sub_workflow_depth)) [
          | inr deep ↦ absurd (cc (simp (e1, deep) at h))
          | inl within ↦ elim (Option-cases (uuids.parse given)) [
            | inl malformed ↦ absurd (cc (simp (e1, within, malformed) at h))
            | inr (workflow_id, e2) ↦ elim (Option-cases context.tenant_id) [
              | inl unknown ↦ absurd (cc (simp (e1, within, e2, unknown) at h))
              | inr (t, e3) ↦
                  prepared-IsNested config context workflow_id t workflow trigger_data tenant_id
                    within e3 (simp (e1, within, e2, e3) at h)
            ]
          ]
        ]
      ]
