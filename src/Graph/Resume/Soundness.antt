-- ===== src/Graph/Resume/Soundness.antt =====
-- What holds of every contract that `resolve_resume_contract` returns.
use d_mobility.Prelude.{
  String, ◌≡◌, refl, ap, true, ◌≢◌, ◌≤◌, not, List, Option, some, arith, eq_iff, all,
}
use d_mobility.Graph.Stages.{
  Stage, stage_of, stage_index, stage_before, same_stage, stage_name, prepare, downstream_stages,
}
use d_mobility.Graph.Resume.{
  ◌>>=◌, Result, ok, raised, CleanupPolicyName, retry_current_stage_only, invalidate_downstream,
  ModificationType, ResumeStrategyName, ResumeRuleContract, Resolved, resolve_resume_contract,
  validate_stage_name, validate_resume_request, contract, resolve_strategy, manual_fix_defaults,
  or_strategy, or_files, invalidated_stages_for,
}

-- A chain of calls that returns has returned at each call.
pub both_return {u v} :
    {V : Type u} {W : Type v} (call : Result V) (next : V → Result W) {result : W}
    → (call >>= next) ≡ ok result
    → (value : V) × (call ≡ ok value) × (next value ≡ ok result)
both_return (raised error) next e = absurd (cc e)
both_return (ok value) next e = (value, refl, e)

pub same_stage_refl : (a : Stage) → same_stage a a ≡ true
same_stage_refl prepare = refl
same_stage_refl _ = refl

-- The text of a stage is read back as the stage.
pub stage_of-stage_name : (a : Stage) → stage_of (stage_name a) ≡ some a
unfolding stage_of
stage_of-stage_name prepare = refl
stage_of-stage_name _ = refl

pub same_stage-eq : (a b : Stage) → same_stage a b ≡ true → a ≡ b
same_stage-eq a b h =
    cc (stage_of-stage_name a, stage_of-stage_name b, ap stage_of ((eq_iff _ _).0 h))

not_before_self : (s : Stage) → not (stage_before s s) ≡ true
unfolding stage_before
not_before_self prepare = refl
not_before_self _ = refl

downstream_not_before : (s : Stage) → all (λ t. not (stage_before t s)) (downstream_stages s) ≡ true
unfolding downstream_stages stage_before
downstream_not_before prepare = refl
downstream_not_before _ = refl

-- No stage that a policy invalidates stands before the stage to resume from.
pub invalidated_not_before :
    (s : Stage) (policy : CleanupPolicyName)
    → all (λ t. not (stage_before t s)) (invalidated_stages_for s policy) ≡ true
unfolding invalidated_stages_for
invalidated_not_before s retry_current_stage_only = rw (not_before_self s)
invalidated_not_before s invalidate_downstream = downstream_not_before s
invalidated_not_before s _ = rw (not_before_self s) (downstream_not_before s)

-- What a stage to resume from, a cleanup policy and the current stage have to do with one another.
pub record IsCompatible (current target : Stage) (policy : CleanupPolicyName) : Type 0 where
  pub not_after : stage_index target ≤ stage_index current
  pub retry_stays : policy ≡ retry_current_stage_only → target ≡ current
  pub invalidate_moves : policy ≡ invalidate_downstream → target ≢ current

validate_resume_request-IsCompatible :
    (current target : Stage) (policy : CleanupPolicyName) {s : Stage}
    → validate_resume_request current target policy ≡ ok s
    → IsCompatible current target policy
unfolding validate_resume_request
validate_resume_request-IsCompatible current target policy h = record {
  not_after = ground arith;
  retry_stays = λ e. same_stage-eq target current (ground arith);
  invalidate_moves = λ e q. ground (arith, same_stage_refl current);
}

validate_stage_name-eq-ok :
    (text : String) {s : Stage} → validate_stage_name text ≡ ok s → stage_of text ≡ some s
unfolding validate_stage_name
validate_stage_name-eq-ok text h = ground arith

pub contract-eq-ok :
    (modification : ModificationType) (requested : ResumeStrategyName)
    (files warnings : List String) (r : Resolved) {c : ResumeRuleContract}
    → contract modification requested files warnings r ≡ ok c
    → (c.resume_stage ≡ r.stage)
      × (c.cleanup_policy ≡ r.policy)
      × (c.invalidated_stages ≡ invalidated_stages_for r.stage r.policy)
unfolding contract
contract-eq-ok modification requested files warnings r h = ground arith

-- The steps behind a contract that is returned.
record Steps (current_stage : String) (c : ResumeRuleContract) : Type 0 where
  current : Stage
  resolved : Resolved
  named : stage_of current_stage ≡ some current
  compatible : IsCompatible current resolved.stage resolved.policy
  resume_stage : c.resume_stage ≡ resolved.stage
  cleanup_policy : c.cleanup_policy ≡ resolved.policy
  invalidated : c.invalidated_stages ≡ invalidated_stages_for resolved.stage resolved.policy

module _ (current_stage : String) (modification : ModificationType)
    (requested : Option ResumeStrategyName) (selected_stage : Option String)
    (selected_policy : Option CleanupPolicyName) (modified_files : Option (List String)) where
  abbrev strategy : ResumeStrategyName
  strategy = or_strategy requested (manual_fix_defaults modification).requested_resume_strategy

  steps :
      {c : ResumeRuleContract}
      → resolve_resume_contract current_stage modification requested selected_stage selected_policy
          modified_files
        ≡ ok c
      → Steps current_stage c
  unfolding resolve_resume_contract
  steps h =
      let (current, e, h1) = both_return (validate_stage_name current_stage) _ h in
      let (r, e2, h2) =
        both_return
          (resolve_strategy current (manual_fix_defaults modification) selected_stage
            selected_policy strategy)
          _ h1 in
      let (s, e3, h3) = both_return (validate_resume_request current r.stage r.policy) _ h2 in
      let (p, q, i) =
        contract-eq-ok modification strategy
          (or_files modified_files (manual_fix_defaults modification).modified_files)
          (manual_fix_defaults modification).warnings r h3 in
      record {
        current = current;
        resolved = r;
        named = validate_stage_name-eq-ok current_stage e;
        compatible = validate_resume_request-IsCompatible current r.stage r.policy e3;
        resume_stage = p;
        cleanup_policy = q;
        invalidated = i;
      }

  -- A contract that resolve_resume_contract returns names a stage that the current stage can
  -- resume from: it is not after the current stage, it is the current stage under
  -- retry_current_stage_only and another under invalidate_downstream; the invalidated stages are
  -- those of its policy, and none of them stands before the stage to resume from.
  pub resolve_resume_contract_sound :
      {c : ResumeRuleContract}
      → resolve_resume_contract current_stage modification requested selected_stage selected_policy
          modified_files
        ≡ ok c
      → (current : Stage) × (stage_of current_stage ≡ some current)
        × IsCompatible current c.resume_stage c.cleanup_policy
        × (c.invalidated_stages ≡ invalidated_stages_for c.resume_stage c.cleanup_policy)
        × (all (λ t. not (stage_before t c.resume_stage)) c.invalidated_stages ≡ true)
  resolve_resume_contract_sound h =
      let t = steps h in
      (
        t.current,
        t.named,
        rw (t.resume_stage, t.cleanup_policy) t.compatible,
        rw (t.resume_stage, t.cleanup_policy) t.invalidated,
        rw (t.invalidated, t.resume_stage)
            (invalidated_not_before t.resolved.stage t.resolved.policy),
      )
