-- ===== src/Agent/Session.antt =====
-- `runSession` of internal/agent/client.go: heartbeats, their acknowledgements, and commands.
use xui_agent.Prelude.{
  ℕ, arith, ◌≡◌, ◌⊎◌, refl, Bool, true, false, ◌&&◌, ◌||◌, not, Option, none, some, List, [], ◌∷◌,
  All, ltb, if◌then◌else◌, Outcome, ok, err, inl, inr, Bool-cases,
}
use xui_agent.Spool.Bytes.{Bytes, bytes_eq}
use xui_agent.Update.Install.{confirm_version}
use xui_agent.Io.{
  Io, World, Meets, Triple, Either, ◌>>=◌, pure, attempt, LoadError, bind-Triple, consequence,
  pure-Triple, attempt-Triple, zoom-Triple, Result, done, failed, killed,
}
use xui_agent.Agent.Machine.{Machine, Setting, Command, CommandResult}
use xui_agent.Agent.Answers.{Answered, execute_command-Answered}
use xui_agent.Agent.Commands.{Execution, on_agent, execute_command}

pub data MessageType : Type 0 where
  hello_ack heartbeat_ack command_result_ack protocol_error other_message : MessageType

-- An envelope, and what its payload decodes to: as a hello, the heartbeat interval in seconds; as an
-- acknowledgement of a heartbeat, the message it is for and a command; and as one of a result, the
-- command it is for.
pub record Envelope : Type 0 where
  pub same_version : Bool
  pub kind : MessageType
  pub hello : Option ℕ
  pub ack : Option (Bytes × Option Command)
  pub result_ack : Option Bytes

-- What the connection does in one round of the loop: is the heartbeat sent, under which identifier; what
-- is read, if anything is; the same for the result of a command; and is the context cancelled while the
-- loop waits for the next round.
pub record Round : Type 0 where
  pub sent : Bool
  pub message_id : Bytes
  pub reply : Option Envelope
  pub result_sent : Bool
  pub result_reply : Option Envelope
  pub cancelled : Bool

pub data Reason : Type 0 where
  transport_failure incompatible_hello bad_interval incompatible_version : Reason
  heartbeat_rejected unexpected_message undecodable wrong_message : Reason
  unconfirmed_update result_not_acknowledged restart_required stopped : Reason

-- How a session ends. `is_stable` is its first result; `validates_update` is what it leaves of the field
-- validatePendingUpdate.
pub record Ending : Type 0 where
  pub is_stable : Bool
  pub validates_update : Bool
  pub reason : Reason

abbrev pub is_heartbeat_ack : MessageType → Option Reason
is_heartbeat_ack heartbeat_ack = none
is_heartbeat_ack protocol_error = some heartbeat_rejected
is_heartbeat_ack hello_ack = some unexpected_message
is_heartbeat_ack command_result_ack = some unexpected_message
is_heartbeat_ack other_message = some unexpected_message

-- The tests of an acknowledgement: its command, or why the session ends.
abbrev ack_of : Bytes → Option (Bytes × Option Command) → Outcome Reason (Option Command)
ack_of id none = err undecodable
ack_of id (some (m, c)) = if bytes_eq m id then ok c else err wrong_message

abbrev typed_reply : Bytes → Envelope → Option Reason → Outcome Reason (Option Command)
typed_reply id e (some r) = err r
typed_reply id e none = ack_of id e.ack

unfoldable pub read_ack : Bytes → Option Envelope → Outcome Reason (Option Command)
read_ack id none = err transport_failure
read_ack id (some e) =
    if e.same_version then typed_reply id e (is_heartbeat_ack e.kind) else err incompatible_version

abbrev is_result_ack : MessageType → Bool
is_result_ack command_result_ack = true
is_result_ack hello_ack = false
is_result_ack heartbeat_ack = false
is_result_ack protocol_error = false
is_result_ack other_message = false

abbrev for_command : Bytes → Option Bytes → Bool
for_command id none = false
for_command id (some i) = bytes_eq i id

-- writeCommandResult
unfoldable pub result_acknowledged : Bytes → Bool → Option Envelope → Bool
result_acknowledged id sent none = false
result_acknowledged id sent (some e) =
    sent && e.same_version && is_result_ack e.kind && for_command id e.result_ack

abbrev is_hello : MessageType → Bool
is_hello hello_ack = true
is_hello heartbeat_ack = false
is_hello command_result_ack = false
is_hello protocol_error = false
is_hello other_message = false

abbrev interval_of : Option ℕ → Outcome Reason ℕ
interval_of none = err undecodable
interval_of (some seconds) =
    if ltb seconds 5 || ltb 300 seconds then err bad_interval else ok seconds

-- The hello: a heartbeat interval from five seconds to five minutes.
unfoldable pub read_hello : Option Envelope → Outcome Reason ℕ
read_hello none = err transport_failure
read_hello (some e) =
    if e.same_version && is_hello e.kind then interval_of e.hello else err incompatible_hello

abbrev pub ending : Bool → Bool → Reason → Ending
ending stable validates reason = record {
  is_stable = stable;
  validates_update = validates;
  reason = reason;
}

-- What the rounds that are given lead to: the end of the session, or the next round of its loop, with
-- validatePendingUpdate and `stable` as they are then.
pub data Course : Type 0 where
  ended : Ending → Course
  goes_on : Bool → Bool → Course

abbrev pub Session : Type 0
Session = Execution Course

module _ (env : Setting) where
  -- The health of a pending update is confirmed with the first acknowledged heartbeat.
  unfoldable pub confirm_health : Bool → Execution (Outcome LoadError (Unit {0}))
  confirm_health false = pure (ok tt)
  confirm_health true = attempt (on_agent (confirm_version env.version))

  abbrev pub rest : Round → Session → Session
  rest r next = if r.cancelled then pure (ended (ending true false stopped)) else next

  -- Behind the result of a command.
  unfoldable pub after_result : Round → Session → CommandResult × Bool → Session
  unfolding result_acknowledged
  after_result r next (result, restart) =
      if not (result_acknowledged result.command_id r.result_sent r.result_reply)
      then pure (ended (ending true false result_not_acknowledged))
      else if restart
      then pure (ended (ending true false restart_required))
      else rest r next

  unfoldable pub answer_command : Round → Session → Option Command → Session
  unfolding after_result
  answer_command r next none = rest r next
  answer_command r next (some c) = do x ← execute_command env c; after_result r next x

  unfoldable pub after_confirm :
      Round → Session → Bool → Option Command → Outcome LoadError (Unit {0}) → Session
  unfolding answer_command
  after_confirm r next stable c (err e) = pure (ended (ending stable true unconfirmed_update))
  after_confirm r next stable c (ok _) = answer_command r next c

  unfoldable pub after_reply :
      Round → Session → Bool → Bool → Outcome Reason (Option Command) → Session
  unfolding after_confirm confirm_health
  after_reply r next validates stable (err reason) = pure (ended (ending stable validates reason))
  after_reply r next validates stable (ok c) = do
    x ← confirm_health validates
    after_confirm r next stable c x

  -- The first rounds of the loop, which has no other end than those of its body.
  unfoldable pub run_rounds : List Round → Bool → Bool → Session
  unfolding after_reply read_ack
  run_rounds [] validates stable = pure (goes_on validates stable)
  run_rounds (r ∷ rs) validates stable =
      let next = run_rounds rs false true in
      if r.sent
      then after_reply r next validates stable (read_ack r.message_id r.reply)
      else pure (ended (ending stable validates transport_failure))

  abbrev pub greeted : List Round → Bool → Outcome Reason ℕ → Session
  greeted rs validates (err reason) = pure (ended (ending false validates reason))
  greeted rs validates (ok seconds) = run_rounds rs validates false

  -- runSession, for what is read first and the first rounds of its loop.
  unfoldable pub run_session : Option Envelope → List Round → Bool → Session
  unfolding read_hello run_rounds
  run_session hello rs validates = greeted rs validates (read_hello hello)

-- A round whose heartbeat was sent and acknowledged.
abbrev pub Acknowledged : Round → Type 0
Acknowledged r = (r.sent ≡ true) × ((c : Option Command) × (read_ack r.message_id r.reply ≡ ok c))

-- An action on one of the directories, of which nothing is said.
trivial :
    {S E A : Type 0} (m : Io S E A)
    → Triple {S = S} {E = E} (λ _. Unit {0}) m (λ _ _. Unit {0}) (λ _ _. Unit {0}) (λ _. Unit {0})
trivial m = record { at = λ w h. meets (m w).0 (m w).1.state }
  where
    meets :
        {S E A : Type 0} (r : Result E A) (s : S)
        → Meets {S = S} (λ (_ : A) _. Unit {0}) (λ _ _. Unit {0}) (λ _. Unit {0}) r s
    meets (done a) s = tt
    meets (failed e) s = tt
    meets killed s = tt

module _ (env : Setting) (before : Machine) where
  -- The directories of the configuration and of the Xray binary are as before, and the agent's too, if it
  -- has no update to confirm.
  abbrev pub Same : Bool → Machine → Type 0
  Same validates s =
      (s.config ≡ before.config)
      × (s.binary ≡ before.binary)
      × (validates ≡ false → s.agent ≡ before.agent)

  pub record Quiet (validates : Bool) (e : Ending) (s : Machine) : Type 0 where
    pub same : (e.is_stable ≡ true) ⊎ Same validates s
    pub still_asked : (e.is_stable ≡ true) ⊎ (e.validates_update ≡ validates)

  -- What is said of a session that goes on is an argument.
  abbrev pub Ran : Type 0 → Bool → Course → Machine → Type 0
  Ran G validates (ended e) s = Quiet validates e s
  Ran G validates (goes_on v stable) s = G

  abbrev Calm : Type 0 → (Machine → Type 0) → Bool → Session → Type 0
  Calm G P validates m = Triple P m (Ran G validates) (λ _ _. ⊥) (λ _. Unit {0})

  abbrev Any : Machine → Type 0
  Any s = Unit {0}

  answered-Triple :
      (c : Command) → Triple Any (execute_command env c) (λ _. Any) (λ _ _. ⊥) (λ _. Unit {0})
  answered-Triple c = record {
    at = λ w h.
        meets w.state (execute_command env c w).0 (execute_command env c w).1.state
          (execute_command-Answered env c w);
  }
    where
      meets :
          (before : Machine) (r : Result LoadError (CommandResult × Bool)) (s : Machine)
          → Meets (Answered env c before) (λ _ _. ⊥) (λ _. Unit {0}) r s
          → Meets {S = Machine}
              (λ (_ : CommandResult × Bool) _. Unit {0})
              (λ _ _. ⊥)
              (λ _. Unit {0})
              r
              s
      meets before (done a) s h = tt
      meets before (failed e) s h = h
      meets before killed s h = tt

  module _ (G : Type 0) where
    stable-Triple :
        (v : Bool) (reason : Reason) → Calm G Any v (pure (ended (ending true false reason)))
    stable-Triple v reason =
        pure-Triple _ (λ s h. record { same = inl refl; still_asked = inl refl })

    early-Triple :
        (v : Bool) (reason : Reason) → Calm G (Same v) v (pure (ended (ending false v reason)))
    early-Triple v reason = pure-Triple _ (λ s h. record { same = inr h; still_asked = inr refl })

    module _ (v : Bool) (r : Round) (next : Session) (k : Calm G Any v next) where
      rest-Triple : Calm G Any v (rest env r next)
      rest-Triple = elim (Bool-cases r.cancelled) [
        | inl e ↦ rw e (stable-Triple v stopped)
        | inr ne ↦ rw ne k
      ]

      after_result-Triple : (x : CommandResult × Bool) → Calm G Any v (after_result env r next x)
      unfolding after_result
      after_result-Triple (result, restart) =
          elim (Bool-cases (result_acknowledged result.command_id r.result_sent r.result_reply)) [
            | inr ne ↦ rw ne (stable-Triple v result_not_acknowledged)
            | inl e ↦ rw e (elim (Bool-cases restart) [
              | inl f ↦ rw f (stable-Triple v restart_required)
              | inr nf ↦ rw nf rest-Triple
            ])
          ]

      answer_command-Triple : (c : Option Command) → Calm G Any v (answer_command env r next c)
      unfolding answer_command
      answer_command-Triple none = rest-Triple
      answer_command-Triple (some c) = bind-Triple (answered-Triple c) after_result-Triple

      no_health-Triple :
          (c : Option Command) (stable : Bool)
          → Calm G Any v (confirm_health env false >>= after_confirm env r next stable c)
      unfolding confirm_health after_confirm
      no_health-Triple c stable =
          bind-Triple (pure-Triple {Q = λ x _. x ≡ ok tt} (ok tt) (λ s h. refl)) acknowledged
        where
          acknowledged :
              (x : Outcome LoadError (Unit {0}))
              → Triple
                  (λ _. x ≡ ok tt)
                  (after_confirm env r next stable c x)
                  (Ran G v)
                  (λ _ _. ⊥)
                  (λ _. Unit {0})
          acknowledged (ok u) =
              consequence (answer_command-Triple c) (λ s h. tt) (λ _ s h. h) (λ _ s h. h) (λ s h. h)
          acknowledged (err e) = record { at = λ w h. absurd (ground (arith, h)) }

    module _ (r : Round) (next : Session) where
      health-Triple :
          (c : Option Command)
          → Calm G Any true next
          → Calm G (Same true) true (confirm_health env true >>= after_confirm env r next false c)
      unfolding confirm_health after_confirm
      health-Triple c k =
          bind-Triple
            (consequence
              (attempt-Triple (
                zoom-Triple (λ s. s.agent) (λ t s. record s { agent = t }) (λ t s. refl) (Same true)
                  (λ t s h. (h.0, h.1, λ e. absurd (ground (arith, e))))
                  (trivial (confirm_version env.version))))
              (λ s h. (tt, h)) still (λ _ s h. h) (λ s h. tt))
            confirmed
        where
          still :
              (x : Outcome LoadError (Unit {0})) (s : Machine)
              → Either (λ _ s'. Unit {0} × Same true s') (λ _ s'. Unit {0} × Same true s') x s
              → Same true s
          still (ok u) s (_, h) = h
          still (err e) s (_, h) = h

          confirmed :
              (x : Outcome LoadError (Unit {0}))
              → Calm G (Same true) true (after_confirm env r next false c x)
          confirmed (ok u) =
              consequence (answer_command-Triple true r next k c) (λ s h. tt) (λ _ s h. h)
                (λ _ s h. h) (λ s h. h)
          confirmed (err e) = early-Triple true unconfirmed_update

      first_reply-Triple :
          (v : Bool) (x : Outcome Reason (Option Command))
          → ((c : Option Command) → x ≡ ok c → Calm G Any v next)
          → Calm G (Same v) v (after_reply env r next v false x)
      unfolding after_reply
      first_reply-Triple v (err reason) k = early-Triple v reason
      first_reply-Triple true (ok c) k = health-Triple c (k c refl)
      first_reply-Triple false (ok c) k =
          consequence (no_health-Triple false r next (k c refl) c false) (λ s h. tt) (λ _ s h. h)
            (λ _ s h. h) (λ s h. h)

      stable_reply-Triple :
          (v : Bool) (x : Outcome Reason (Option Command))
          → ((c : Option Command) → x ≡ ok c → Calm G Any v next)
          → Calm G Any v (after_reply env r next false true x)
      unfolding after_reply
      stable_reply-Triple v (err reason) k = stable-Triple v reason
      stable_reply-Triple v (ok c) k = no_health-Triple v r next (k c refl) c true

  -- What goes on behind an acknowledged round has all rounds acknowledged.
  one_more :
      (v : Bool) (r : Round) (rs : List Round) (m : Session)
      → Acknowledged r
      → Calm (All Acknowledged rs) Any v m
      → Calm (All Acknowledged (r ∷ rs)) Any v m
  one_more v r rs m a k = consequence k (λ s h. h) more (λ _ s h. h) (λ s h. h)
    where
      more :
          (x : Course) (s : Machine)
          → Ran (All Acknowledged rs) v x s
          → Ran (All Acknowledged (r ∷ rs)) v x s
      more (ended e) s h = h
      more (goes_on w stable) s h = (a, h)

  if_sent-Triple :
      (G : Type 0) (P : Machine → Type 0) (v b : Bool) (sent_on unsent : Session)
      → (b ≡ true → Calm G P v sent_on)
      → Calm G P v unsent
      → Calm G P v (if b then sent_on else unsent)
  if_sent-Triple G P v true sent_on unsent k l = k refl
  if_sent-Triple G P v false sent_on unsent k l = l

  stable_rounds-Triple :
      (v : Bool) (rs : List Round) → Calm (All Acknowledged rs) Any v (run_rounds env rs false true)
  unfolding run_rounds
  stable_rounds-Triple v [] = pure-Triple _ (λ s h. tt)
  stable_rounds-Triple v (r ∷ rs) =
      if_sent-Triple (All Acknowledged (r ∷ rs)) Any v r.sent _ _
        (λ e.
          stable_reply-Triple (All Acknowledged (r ∷ rs)) r (run_rounds env rs false true) v
            (read_ack r.message_id r.reply)
            (λ c q.
              one_more v r rs (run_rounds env rs false true) (e, (c, q))
                (stable_rounds-Triple v rs)))
        (stable-Triple (All Acknowledged (r ∷ rs)) v transport_failure)

  rounds-Triple :
      (v : Bool) (rs : List Round)
      → Calm (All Acknowledged rs) (Same v) v (run_rounds env rs v false)
  unfolding run_rounds
  rounds-Triple v [] = pure-Triple _ (λ s h. tt)
  rounds-Triple v (r ∷ rs) =
      if_sent-Triple (All Acknowledged (r ∷ rs)) (Same v) v r.sent _ _
        (λ e.
          first_reply-Triple (All Acknowledged (r ∷ rs)) r (run_rounds env rs false true) v
            (read_ack r.message_id r.reply)
            (λ c q.
              one_more v r rs (run_rounds env rs false true) (e, (c, q))
                (stable_rounds-Triple v rs)))
        (early-Triple (All Acknowledged (r ∷ rs)) v transport_failure)

  greeted-Triple :
      (rs : List Round) (v : Bool) (x : Outcome Reason ℕ)
      → Calm (All Acknowledged rs) (Same v) v (greeted env rs v x)
  greeted-Triple rs v (err reason) = early-Triple (All Acknowledged rs) v reason
  greeted-Triple rs v (ok seconds) = rounds-Triple v rs

pub run_session-Quiet :
    (env : Setting) (hello : Option Envelope) (rs : List Round) (validates : Bool)
    (w : World Machine)
    → Meets
        (Ran env w.state (All Acknowledged rs) validates)
        (λ _ _. ⊥)
        (λ _. Unit {0})
        (run_session env hello rs validates w).0
        (run_session env hello rs validates w).1.state
unfolding run_session
run_session-Quiet env hello rs validates w =
    (greeted-Triple env w.state rs validates (read_hello hello)).at w (refl, refl, λ e. refl)
