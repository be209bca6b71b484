-- ===== src/Runner/Recovery.antt =====
-- What a resumed run has restored when it goes on.
use enterprise_vault_migrati.Prelude.{
  ℕ, zero, suc, ◌≡◌, refl, ap, ◌∙◌, subst, String, Option, some, List, [], ◌∷◌, ◌++◌, map, take,
  drop, All, length,
}
use enterprise_vault_migrati.Runtime.{Runtime}
use enterprise_vault_migrati.Errors.{ok}
use enterprise_vault_migrati.StateMachine.{MigrationState, parse_state}
use enterprise_vault_migrati.Contracts.{Configuration, validate_configuration}
use enterprise_vault_migrati.Checkpoint.{CheckpointSnapshot}
use enterprise_vault_migrati.Runner.Registry.{resolve, index_of}
use enterprise_vault_migrati.Runner.Ordering.{CutAt}
use enterprise_vault_migrati.Runner.Checkpoints.{
  build_checkpoint_metrics, resolve_resume_configuration, resolve_resume_index,
}
use enterprise_vault_migrati.Runner.Restore.{resume_index}
use enterprise_vault_migrati.Runner.Steps.{step_state, Step}
use enterprise_vault_migrati.Runner.Loop.{Setup}
use enterprise_vault_migrati.Runner.Reconstruct.{from_target, IsReplayable, replayed-Repeatable}
use enterprise_vault_migrati.Context.{TargetPort}
use enterprise_vault_migrati.Contracts.Documents.{TransformedDocument}
use enterprise_vault_migrati.Runner.Ready.{moved}
use enterprise_vault_migrati.Runner.Replay.{
  Replaying, Resumed, restored_live, state_of, build_resume_runtime,
}
use enterprise_vault_migrati.Errors.{Answers, Answers-then}
use enterprise_vault_migrati.StateMachine.{new}
use enterprise_vault_migrati.Runner.States.{state_after, state_after-append, moved-state_after}
use enterprise_vault_migrati.Runner.Repeats.{OneFails, ReachedAt, replay_steps-Answers}

map-take : {A B : Type 0} (f : A → B) (n : ℕ) (xs : List A) → map f (take n xs) ≡ take n (map f xs)
map-take f zero xs = refl
map-take f (suc n) [] = refl
map-take f (suc n) (x ∷ xs) = ap (λ ys. f x ∷ ys) (map-take f n xs)

take_next :
    {A : Type 0} (xs : List A) (y : A) (ys : List A)
    → take (suc (length xs)) (xs ++ y ∷ ys) ≡ xs ++ y ∷ []
take_next [] y ys = refl
take_next (x ∷ xs) y ys = ap (λ zs. x ∷ zs) (take_next xs y ys)

take_cut :
    (name : String) (i : ℕ) (names : List String)
    → CutAt name i names
    → take (suc i) names ≡ take i names ++ name ∷ []
take_cut name i names c =
    subst (λ n. take (suc n) names ≡ take i names ++ name ∷ []) c.counted
      (ap (take (suc (length (take i names)))) c.cut
        ∙ take_next (take i names) name (drop (suc i) names))

-- The state after the steps up to the completed one.
replayed_state :
    (name : String) (i : ℕ) (names : List String) (from st : MigrationState)
    → CutAt name i names
    → step_state name ≡ some st
    → state_after (take (suc i) names) from ≡ moved from st
replayed_state name i names from st c e =
    ap (λ ns. state_after ns from) (take_cut name i names c)
    ∙ state_after-append (take i names) (name ∷ []) from
    ∙ rw e (moved-state_after (take i names) from st)

state_of_lem :
    {F : Type 0} (rt : Runtime F) (v : String) (st : MigrationState)
    → parse_state v ≡ some st
    → state_of rt v ≡ ok st
unfolding state_of
state_of_lem rt v st e = rw (state_of, e) refl

module _ {F S : Type 0} (rt : Runtime F) (setup : Setup F S) (port : TargetPort F S)
    (schedule : List TransformedDocument) (entered_at left_at : String → ℕ) where
  -- The upload is replayed by its reconstruction from the target.
  abbrev Replayed : Replaying F S
  Replayed = from_target rt port schedule entered_at left_at

  -- The steps of the registry, whose finalize hooks are harmless and of which those other than the
  -- upload leave the world alone, are resumed from a checkpoint of a registered step with a known
  -- state and a valid configuration. Then the resumption raises only what one of the replayed steps
  -- raises; or else the run goes on right behind the completed step, the target is as it was, since
  -- the upload is reconstructed and not done again, and the machine is in the state of that step, or
  -- in that of the checkpoint if it is terminal.
  pub build_resume_runtime-Answers :
      (steps : List (Step F S)) (initial : Option (Configuration F)) (k : CheckpointSnapshot F)
      (world : S) (name : String) (i : ℕ) (from st : MigrationState)
      → let names = map (λ (s : Step F S). s.name) steps in
        resolve names ≡ names
        → k.last_completed_step ≡ some name
        → index_of name names ≡ some i
        → step_state name ≡ some st
        → parse_state k.current_state ≡ some from
        → validate_configuration rt (resolve_resume_configuration initial k)
          ≡ ok (resolve_resume_configuration initial k)
        → All IsReplayable (take (suc i) steps)
        → Answers
            (λ (x : Resumed F S).
              (x.start_index ≡ suc i)
              × (x.live.shared.world ≡ world)
              × (x.live.shared.machine.current_state ≡ moved from st))
            (OneFails rt setup Replayed k.created_at (take (suc i) steps))
            (build_resume_runtime rt setup Replayed steps initial k world)
  unfolding build_resume_runtime restored_live new
  build_resume_runtime-Answers steps initial k world name i from st sorted last at own known valid
        h =
      let names = map (λ (s : Step F S). s.name) steps in
      let index = resume_index rt names name i at in
      let found = ap (resolve_resume_index rt names) last ∙ index.0 in
      let live = restored_live rt (resolve_resume_configuration initial k) k from world in
      let state =
        ap (λ ns. state_after ns from) (map-take (λ (s : Step F S). s.name) (suc i) steps)
        ∙ replayed_state name i names from st (subst (CutAt name i) sorted index.1) own in
      let metrics = some (build_checkpoint_metrics rt k k.created_at k.updated_at) in
      let E = OneFails rt setup Replayed k.created_at (take (suc i) steps) in
      rw (found, state_of_lem rt k.current_state from known, valid)
        (Answers-then
          (ReachedAt {F = F} world
            (state_after (map (λ (s : Step F S). s.name) (take (suc i) steps)) from))
          E _ E _ _
          (replay_steps-Answers rt setup Replayed k.created_at (take (suc i) steps)
            (replayed-Repeatable rt setup port schedule entered_at left_at k.created_at
              (take (suc i) steps) h)
            metrics live)
          (λ e f. f) (λ x there. (refl, there.0, there.1 ∙ state)))
