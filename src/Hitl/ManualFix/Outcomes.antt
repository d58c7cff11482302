-- ===== src/Hitl/ManualFix/Outcomes.antt =====
-- Which manual fixes are accepted, and what an accepted instruction holds.
use d_mobility.Prelude.{
  String, ◌≡◌, refl, ◌||◌, not, ◌==◌, Bool-cases, inl, inr, subst, ap, eq_iff, or_text, List, Bool,
  true, false, leb, Option, ◌∙◌, some, none,
}
use d_mobility.Graph.Stages.{
  Stage, prepare, relax, scf, stage_of, stage_name, stage_index, stage_before, same_stage,
  previous_stage,
}
use d_mobility.Graph.Resume.{
  ◌>>=◌, Result, ok, raised, CleanupPolicyName, ModificationType, incar, kpoints, poscar, multiple,
  custom, ResumeStrategyName, retry_current_stage, rerun_previous_stage, rerun_from_relax,
  default_rule, ResumeRuleContract, resolve_resume_contract, validate_stage_name, resolve_strategy,
  or_strategy, or_policy, or_files, manual_fix_defaults, validate_resume_request, contract,
}
use d_mobility.Graph.Resume.Soundness.{both_return, IsCompatible, resolve_resume_contract_sound}
use d_mobility.Graph.Cleanup.{FileSystem}
use d_mobility.Hitl.ManualFix.{
  compute_default_resume_rule, build_custom_resume_rule, choose_rule, instruction_of,
  ManualFixInstruction, build_manual_fix_instruction, strategy_name, policy_name,
}

abbrev pub is_ok {ℓ} : {A : Type ℓ} → Result A → Bool
is_ok (ok a) = true
is_ok (raised e) = false

-- Where the default rule of a modification can resume from.
abbrev pub default_accepts : ModificationType → Stage → Bool
default_accepts kpoints s = stage_before scf s
default_accepts poscar s = leb (stage_index relax) (stage_index s)
default_accepts multiple s = leb (stage_index relax) (stage_index s)
default_accepts (ModificationType.unlisted _) s = false
default_accepts _ s = true

-- The default rule of a manual fix is accepted exactly at these stages: always for INCAR and
-- custom, strictly after scf for KPOINTS, from relax on for POSCAR and multiple, and never for an
-- unlisted modification.
pub default_rule_accepted :
    (s : Stage) (t : ModificationType)
    → is_ok (compute_default_resume_rule (stage_name s) t) ≡ default_accepts t s
unfolding compute_default_resume_rule resolve_resume_contract validate_stage_name stage_of
    resolve_strategy or_strategy manual_fix_defaults validate_resume_request stage_index contract
    stage_before
default_rule_accepted prepare incar = refl
default_rule_accepted _ incar = refl
default_rule_accepted prepare kpoints = refl
default_rule_accepted _ kpoints = refl
default_rule_accepted prepare poscar = refl
default_rule_accepted _ poscar = refl
default_rule_accepted prepare multiple = refl
default_rule_accepted _ multiple = refl
default_rule_accepted prepare custom = refl
default_rule_accepted _ custom = refl
default_rule_accepted prepare (ModificationType.unlisted text) = refl
default_rule_accepted _ (ModificationType.unlisted text) = refl

-- A refused default rule refuses the whole instruction, whatever else is chosen.
refused_with_default :
    (fs : FileSystem) (workdir current_stage : String) (t : ModificationType)
    (requested : Option ResumeStrategyName) (selected_stage : Option String)
    (selected_policy : Option CleanupPolicyName)
    → is_ok (compute_default_resume_rule current_stage t) ≡ false
    → is_ok (
        build_manual_fix_instruction fs current_stage workdir t requested selected_stage
          selected_policy)
      ≡ false
unfolding build_manual_fix_instruction
refused_with_default fs workdir current_stage t requested selected_stage selected_policy h =
    go (compute_default_resume_rule current_stage t) h
  where
    go :
        (m : Result ResumeRuleContract)
        → is_ok m ≡ false
        → is_ok (do
          base ← m
          rule ← choose_rule current_stage t requested selected_stage selected_policy base
          ok (instruction_of fs workdir t rule))
          ≡ false
    go (ok base) q = cc
    go (raised e) q = refl

-- At scf or a stage before it a KPOINTS fix is refused with every strategy, stage and policy.
pub kpoints_refused_early :
    (fs : FileSystem) (workdir : String) (s : Stage) (requested : Option ResumeStrategyName)
    (selected_stage : Option String) (selected_policy : Option CleanupPolicyName)
    → stage_before scf s ≡ false
    → is_ok (
        build_manual_fix_instruction fs
          (stage_name s)
          workdir
          kpoints
          requested
          selected_stage
          selected_policy)
      ≡ false
kpoints_refused_early fs workdir s requested selected_stage selected_policy h =
    refused_with_default fs workdir (stage_name s) kpoints requested selected_stage selected_policy
      (default_rule_accepted s kpoints ∙ h)

-- With a chosen strategy and no chosen stage or policy, an INCAR fix reruns from relax, or from
-- the previous stage, only where that is the current stage, it always retries the current stage,
-- and a KPOINTS fix never retries the current stage.
pub strategy_keeps_default_policy :
    (fs : FileSystem) (workdir : String) (s : Stage)
    → let fix = λ (t : ModificationType) (r : ResumeStrategyName).
      is_ok (build_manual_fix_instruction fs (stage_name s) workdir t (some r) none none) in
      (fix incar rerun_from_relax ≡ same_stage s relax)
      × (fix incar rerun_previous_stage ≡ same_stage s prepare)
      × (fix incar retry_current_stage ≡ true)
      × (fix kpoints retry_current_stage ≡ false)
unfolding build_manual_fix_instruction choose_rule build_custom_resume_rule
    compute_default_resume_rule resolve_resume_contract validate_stage_name stage_of
    resolve_strategy or_strategy manual_fix_defaults validate_resume_request stage_index contract
    stage_before or_policy or_files previous_stage
strategy_keeps_default_policy fs workdir prepare = (refl, refl, refl, refl)
strategy_keeps_default_policy fs workdir _ = (refl, refl, refl, refl)

made_of :
    (fs : FileSystem) (workdir : String) (t : ModificationType) (c : ResumeRuleContract)
    (current : Stage) {i : ManualFixInstruction}
    → ok (instruction_of fs workdir t c) ≡ ok i
    → IsCompatible current c.resume_stage c.cleanup_policy
    → IsCompatible current i.resume_stage i.cleanup_policy
unfolding instruction_of
made_of fs workdir t c current {i} h p =
    let e : instruction_of fs workdir t c ≡ i = cc h in
    subst (λ (j : ManualFixInstruction). IsCompatible current j.resume_stage j.cleanup_policy) e p

module _ (fs : FileSystem) (workdir current_stage : String) (t : ModificationType)
    (requested : Option ResumeStrategyName) (selected_stage : Option String)
    (selected_policy : Option CleanupPolicyName) where
  sound_default :
      (c : ResumeRuleContract)
      → compute_default_resume_rule current_stage t ≡ ok c
      → (current : Stage) × (stage_of current_stage ≡ some current)
        × IsCompatible current c.resume_stage c.cleanup_policy
  unfolding compute_default_resume_rule
  sound_default c h =
      let (current, e, p, _, _) =
        resolve_resume_contract_sound current_stage t (some default_rule) none none none h in
      (current, e, p)

  -- A named current stage is not the empty text, so a custom rule starts from it.
  current_kept :
      (s : String) {current : Stage}
      → stage_of current_stage ≡ some current
      → or_text (some current_stage) s ≡ current_stage
  unfolding stage_of
  current_kept s e = elim (Bool-cases (current_stage == "")) [
    | inl empty ↦ absurd (cc (ap stage_of ((eq_iff current_stage "").0 empty), e))
    | inr named ↦ rw named
  ]

  sound_custom :
      (s : String) (policy : CleanupPolicyName) (files : List String) (r : ResumeStrategyName)
      (c : ResumeRuleContract) {named : Stage}
      → stage_of current_stage ≡ some named
      → build_custom_resume_rule s policy files (some current_stage) t r ≡ ok c
      → (current : Stage) × (stage_of current_stage ≡ some current)
        × IsCompatible current c.resume_stage c.cleanup_policy
  unfolding build_custom_resume_rule
  sound_custom s policy files r c e h =
      let (current, e', p, _, _) =
        resolve_resume_contract_sound (or_text (some current_stage) s) t (some r) (some s)
          (some policy) (some files) h in
      (current, rw (current_kept s e) at e', p)

  -- The rule behind an instruction is the default rule or the custom rule, so it is compatible
  -- with the current stage.
  choose_rule-IsCompatible :
      (base c : ResumeRuleContract)
      → compute_default_resume_rule current_stage t ≡ ok base
      → choose_rule current_stage t requested selected_stage selected_policy base ≡ ok c
      → (current : Stage) × (stage_of current_stage ≡ some current)
        × IsCompatible current c.resume_stage c.cleanup_policy
  unfolding choose_rule
  choose_rule-IsCompatible base c h k =
      let r = or_strategy requested base.requested_resume_strategy in
      let s = or_text selected_stage (stage_name base.resume_stage) in
      let policy = or_policy selected_policy base.cleanup_policy in
      let test =
        not (strategy_name r == strategy_name base.requested_resume_strategy)
        || not (s == stage_name base.resume_stage)
        || not (policy_name policy == policy_name base.cleanup_policy) in
      elim (Bool-cases test) [
        | inl differs ↦
            sound_custom s policy base.modified_files r c (sound_default base h).1 (rw differs at k)
        | inr same ↦ sound_default c (h ∙ (rw same at k))
      ]

  -- An accepted manual fix instruction resumes at a stage that is compatible with the current
  -- stage under its policy, and the current stage is one of the table.
  pub build_manual_fix_instruction-IsCompatible :
      {i : ManualFixInstruction}
      → build_manual_fix_instruction fs current_stage workdir t requested selected_stage
          selected_policy
        ≡ ok i
      → (current : Stage) × (stage_of current_stage ≡ some current)
        × IsCompatible current i.resume_stage i.cleanup_policy
  unfolding build_manual_fix_instruction
  build_manual_fix_instruction-IsCompatible h =
      let (base, e1, h1) = both_return (compute_default_resume_rule current_stage t) _ h in
      let (c, e2, h2) =
        both_return (choose_rule current_stage t requested selected_stage selected_policy base) _
          h1 in
      let (current, e, p) = choose_rule-IsCompatible base c e1 e2 in
      (current, e, made_of fs workdir t c current h2 p)
