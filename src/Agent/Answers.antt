-- ===== src/Agent/Answers.antt =====
-- What `executeCommand` returns for a command, and what an answer says of the managers.
use xui_agent.Prelude.{
  ◌≡◌, ◌⊎◌, refl, Bool, true, false, ◌&&◌, ◌==◌, Option, none, some, length, inl, inr, Outcome, ok,
  err, Bool-cases,
}
use xui_agent.Spool.Bytes.{Bytes, bytes_eq}
use xui_agent.Classified.{ApplyError}
use xui_agent.Xray.Disk.{ApplyResult, Request}
use xui_agent.Binary.Disk.{UpdateResult}
use xui_agent.Update.Disk.{Pending}
use xui_agent.Io.{
  Io, World, Result, Meets, Triple, bind-Triple, consequence, pure-Triple, attempt-Triple, done,
  failed, killed, LoadError, not_exist, unreadable, attempt, ◌>>=◌, pure,
}
use xui_agent.Agent.Machine.{
  Machine, Setting, Command, CommandType, CommandResult, agent_update, validate_config,
  apply_config, xray_update, other_command, command_expired,
}
use xui_agent.Agent.Commands.{
  Execution, execute_command, dispatch, rejected_result, is_current, validate_payload,
  apply_payload, execute_config_apply, update_payload, execute_xray_update, execute_agent_update,
  after_pending, try_failed, after_failed, with_request, with_version, agent_result,
  validation_result, applied_result, update_result,
}

any-Meets :
    {S E A : Type 0} (r : Result E A) (s : S)
    → Meets (λ _ _. Unit {0}) (λ _ _. Unit {0}) (λ _. Unit {0}) r s
any-Meets (done a) s = tt
any-Meets (failed e) s = tt
any-Meets killed s = tt

-- An error that is looked at is no error.
tried-Triple :
    {S E F A : Type 0} {P : S → Type 0} (m : Io S F A)
    → Triple {S = S} {E = E} P (attempt m) (λ _ _. Unit {0}) (λ _ _. ⊥) (λ _. Unit {0})
tried-Triple m =
    consequence (attempt-Triple (record { at = λ w h. any-Meets (m w).0 (m w).1.state })) (λ s h. h)
      (λ _ s h. tt) (λ _ s h. h) (λ s h. h)

-- The result is the command's; only an update of the agent that succeeds restarts it.
pub record Answers (c : Command) (x : CommandResult × Bool) : Type 0 where
  pub same_command : x.0.command_id ≡ c.id
  pub restarts : (x.1 ≡ false) ⊎ ((c.kind ≡ agent_update) × (x.0.success ≡ true))

-- A command that is not current, or has no identifier, has failed and has changed nothing.
pub record Answered (env : Setting) (c : Command) (before : Machine) (x : CommandResult × Bool)
    (after : Machine) : Type 0 where
  pub answers : Answers c x
  pub refused :
      (((length c.id == 0) ≡ false) × (is_current env c ≡ true))
      ⊎ ((x.0.success ≡ false) × (after ≡ before))

module _ (env : Setting) (c : Command) where
  abbrev Run : {A : Type 0} → (Machine → Type 0) → Execution A → (A → Type 0) → Type 0
  Run P m Q = Triple P m (λ x _. Q x) (λ _ _. ⊥) (λ _. Unit {0})

  abbrev Own : CommandResult → Type 0
  Own r = r.command_id ≡ c.id

  agent_result-Answers :
      (kind : c.kind ≡ agent_update) (r : Outcome LoadError Bytes)
      → Answers c (agent_result env c r)
  agent_result-Answers kind (ok v) = record { same_command = refl; restarts = inr (kind, refl) }
  agent_result-Answers kind (err e) = record { same_command = refl; restarts = inl refl }

  module _ {P : Machine → Type 0} where
    answer : (r : CommandResult) → Own r → Run P (pure (r, false)) (Answers c)
    answer r e = pure-Triple _ (λ s h. record { same_command = e; restarts = inl refl })

    plain : (r : CommandResult) → Own r → Run P (pure r) Own
    plain r e = pure-Triple _ (λ s h. e)

    quiet :
        {m : Execution CommandResult} → Run P m Own → Run P (m >>= λ r. pure (r, false)) (Answers c)
    quiet t =
        bind-Triple t (λ r. pure-Triple _ (λ s h. record { same_command = h; restarts = inl refl }))

    -- A manager is asked, and whatever it returns makes a result of the command.
    asked :
        {E A : Type 0} (m : Io Machine E A) (f : Outcome E A → CommandResult)
        → ((r : Outcome E A) → Own (f r))
        → Run P (attempt m >>= λ r. pure (f r)) Own
    asked m f own = bind-Triple (tried-Triple m) (λ r. pure-Triple _ (λ s h. own r))

    module _ (kind : c.kind ≡ agent_update) where
      concluded :
          (m : Execution Bytes) → Run P (attempt m >>= λ r. pure (agent_result env c r)) (Answers c)
      concluded m =
          bind-Triple (tried-Triple m) (λ r. pure-Triple _ (λ s h. agent_result-Answers kind r))

      after_failed-Triple :
          (v : Bytes) (f : Outcome LoadError Pending) → Run P (after_failed env c v f) (Answers c)
      unfolding after_failed
      after_failed-Triple v (ok p) = elim (Bool-cases (bytes_eq p.command_id c.id)) [
        | inl e ↦ rw e (answer _ refl)
        | inr ne ↦ rw ne (concluded _)
      ]
      after_failed-Triple v (err not_exist) = concluded _
      after_failed-Triple v (err unreadable) = answer _ refl

  module _ (kind : c.kind ≡ agent_update) where
    try_failed-Triple : {P : Machine → Type 0} (v : Bytes) → Run P (try_failed env c v) (Answers c)
    unfolding try_failed
    try_failed-Triple v = bind-Triple (tried-Triple _) (after_failed-Triple kind v)

    after_pending-Triple :
        {P : Machine → Type 0} (v : Bytes) (f : Outcome LoadError Pending)
        → Run P (after_pending env c v f) (Answers c)
    unfolding after_pending
    after_pending-Triple v (ok p) = elim (Bool-cases (bytes_eq p.command_id c.id)) [
      | inl e ↦
          rw e (pure-Triple _ (λ s h. record { same_command = refl; restarts = inr (kind, refl) }))
      | inr ne ↦ rw ne (try_failed-Triple v)
    ]
    after_pending-Triple v (err not_exist) = try_failed-Triple v
    after_pending-Triple v (err unreadable) = answer _ refl

    agent_update-Triple :
        {P : Machine → Type 0} (v : Option Bytes) → Run P (execute_agent_update env c v) (Answers c)
    unfolding execute_agent_update
    agent_update-Triple none = answer _ refl
    agent_update-Triple (some v) = bind-Triple (tried-Triple _) (after_pending-Triple v)

  module _ {P : Machine → Type 0} where
    validate-Triple : (q : Option Request) → Run P (validate_payload env c q) Own
    unfolding validate_payload
    validate-Triple none = plain _ refl
    validate-Triple (some q) = asked _ (validation_result env c q) own
      where
        own : (r : _) → Own (validation_result env c q r)
        own (ok v) = refl
        own (err e) = refl

    apply_payload-Triple : (q : Option Request) → Run P (apply_payload env c q) Own
    unfolding apply_payload
    apply_payload-Triple none = plain _ refl
    apply_payload-Triple (some q) = asked _ (applied_result env c q) own
      where
        own : (r : Outcome ApplyError ApplyResult) → Own (applied_result env c q r)
        own (ok v) = refl
        own (err e) = refl

    config_apply-Triple : Run P (execute_config_apply env c) Own
    unfolding execute_config_apply
    config_apply-Triple = elim (Bool-cases (env.managed && env.config_env.enabled)) [
      | inl e ↦ rw e (apply_payload-Triple c.config_payload)
      | inr ne ↦ rw ne (plain _ refl)
    ]

    update_payload-Triple : (v : Option Bytes) → Run P (update_payload env c v) Own
    unfolding update_payload
    update_payload-Triple none = plain _ refl
    update_payload-Triple (some v) = asked _ (update_result env c v) own
      where
        own : (r : Outcome ApplyError UpdateResult) → Own (update_result env c v r)
        own (ok v) = refl
        own (err e) = refl

    xray_update-Triple : Run P (execute_xray_update env c) Own
    unfolding execute_xray_update
    xray_update-Triple = elim (Bool-cases env.managed) [
      | inl e ↦ rw e (update_payload-Triple c.version_payload)
      | inr ne ↦ rw ne (plain _ refl)
    ]

    dispatch-Triple : (k : CommandType) → c.kind ≡ k → Run P (dispatch env c k) (Answers c)
    unfolding dispatch
    dispatch-Triple agent_update e = agent_update-Triple e c.version_payload
    dispatch-Triple validate_config e = quiet (validate-Triple c.config_payload)
    dispatch-Triple apply_config e = quiet config_apply-Triple
    dispatch-Triple xray_update e = quiet xray_update-Triple
    dispatch-Triple other_command e = answer _ refl

  abbrev Complete : Machine → CommandResult × Bool → Machine → Type 0
  Complete s0 x s = Answered env c s0 x s

  abbrev IsRefusal : CommandResult → Type 0
  IsRefusal r = Own r × (r.success ≡ false)

  with_request-IsRefusal :
      (q : Option Request) (r : CommandResult) → IsRefusal r → IsRefusal (with_request q r)
  with_request-IsRefusal none r h = h
  with_request-IsRefusal (some q) r h = h

  with_version-IsRefusal :
      (v : Option Bytes) (r : CommandResult) → IsRefusal r → IsRefusal (with_version v r)
  with_version-IsRefusal none r h = h
  with_version-IsRefusal (some v) r h = h

  rejected_result-IsRefusal : (k : CommandType) → IsRefusal (rejected_result c k command_expired)
  unfolding rejected_result
  rejected_result-IsRefusal agent_update = (refl, refl)
  rejected_result-IsRefusal validate_config = with_request-IsRefusal c.config_payload _ (refl, refl)
  rejected_result-IsRefusal apply_config = with_request-IsRefusal c.config_payload _ (refl, refl)
  rejected_result-IsRefusal xray_update = with_version-IsRefusal c.version_payload _ (refl, refl)
  rejected_result-IsRefusal other_command = (refl, refl)

  refusal :
      (s0 : Machine) (r : CommandResult)
      → IsRefusal r
      → Triple {E = LoadError}
          (λ s. s ≡ s0)
          (pure (r, false))
          (Complete s0)
          (λ _ _. ⊥)
          (λ _. Unit {0})
  refusal s0 r h0 = pure-Triple _ (λ s h. record {
    answers = record { same_command = h0.0; restarts = inl refl };
    refused = inr (h0.1, h);
  })

  execute_command-Triple :
      (s0 : Machine)
      → Triple (λ s. s ≡ s0) (execute_command env c) (Complete s0) (λ _ _. ⊥) (λ _. Unit {0})
  unfolding execute_command
  execute_command-Triple s0 = elim (Bool-cases (length c.id == 0)) [
    | inl e ↦ rw e (refusal s0 _ (refl, refl))
    | inr named ↦ elim (Bool-cases (is_current env c)) [
      | inl e ↦
          rw (named, e)
            (consequence (dispatch-Triple c.kind refl) (λ s h. h)
              (λ x s h. record { answers = h; refused = inl (named, e) }) (λ _ s h. h) (λ s h. h))
      | inr ne ↦ rw (named, ne) (refusal s0 _ (rejected_result-IsRefusal c.kind))
    ]
  ]

-- Whatever the managers return: a command is answered by a result with its identifier and never by an
-- error, unless the process is killed; only an update of the agent that succeeded asks for a restart;
-- and a command without an identifier, or that is expired or not yet valid, has failed and changed
-- nothing.
pub execute_command-Answered :
    (env : Setting) (c : Command) (w : World Machine)
    → Meets
        (Answered env c w.state)
        (λ _ _. ⊥)
        (λ _. Unit {0})
        (execute_command env c w).0
        (execute_command env c w).1.state
execute_command-Answered env c w = (execute_command-Triple env c w.state).at w refl
