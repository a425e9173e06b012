-- ===== src/Session/Ctl/Keeps.antt =====
-- Handling a command of the file "ctl" keeps what the callbacks keep.
use ollie_9p.Prelude.{Bytes, List, [], ◌∷◌, ◌++◌, codes, ◌∙◌}
use ollie_9p.Prelude.Keeps.{Keeps, Keeps-bind}
use ollie_9p.Prelude.Outcome.{Outcome, ok, err, panic, Act, lift, gets, modify}
use ollie_9p.Agent.{AgentCore}
use ollie_9p.Session.{Session, interrupt}
use ollie_9p.Session.Ctl.{
  SessionHelper, Command, stop, kill, rn, save, pass, unknown, command_of, run_command, rename_to,
  log_error, ctl_words, handle_ctl, slice_from,
}
use ollie_9p.Session.Events.{submit}
use ollie_9p.Session.Identity.{HasId, submit-id, interrupt-id}
use ollie_9p.Text.Space.{trim_space, fields}

module _ {C : AgentCore} {S : Type 0} (P : S → Type 0) (h : SessionHelper C S) where
  -- The callbacks keep the predicate; the session may be changed, but for its ID.
  pub record KeepsHelper : Type 1 where
    pub on_sess :
        {A : Type 0} (act : Act (Session C) A)
        → ((i : Bytes) → Keeps (HasId C i) act)
        → Keeps P (h.on_sess act)
    pub kills : Keeps P h.kill
    pub renames : (id : Bytes) → Keeps P (h.rename id)
    pub saves : (content : Bytes) → Keeps P (h.save_transcript content)

  module _ (k : KeepsHelper) where
    log_error-Keeps : (r : Outcome (Unit {0})) (s : S) → P s → P (log_error h (r, s)).1
    unfolding log_error
    log_error-Keeps (ok _) s p = p
    log_error-Keeps (err _) s p = p
    log_error-Keeps panic s p = p

    rename_to-Keeps : (name : Bytes) → Keeps P (rename_to h name)
    unfolding rename_to
    rename_to-Keeps [] s p = p
    rename_to-Keeps (c ∷ name) s p =
        let (r, s') = h.rename (c ∷ name) s in log_error-Keeps r s' (k.renames (c ∷ name) s p)

    run_command-Keeps :
        (cmd : Command) (word input : Bytes) → Keeps P (run_command h cmd word input)
    unfolding run_command
    run_command-Keeps stop word input =
        k.on_sess (modify interrupt) (λ i sess e. interrupt-id sess ∙ e)
    run_command-Keeps kill word input = k.kills
    run_command-Keeps rn word input =
        Keeps-bind P (lift (slice_from 3 input)) (λ rest. rename_to h (trim_space rest)) (λ s p. p)
          (λ _ _ rest _. rename_to-Keeps (trim_space rest))
    run_command-Keeps save word input =
        Keeps-bind P (h.on_sess (gets (λ sess. sess.log))) h.save_transcript
          (k.on_sess (gets (λ sess. sess.log)) (λ i sess e. e)) (λ _ _ content _. k.saves content)
    run_command-Keeps pass word input =
        k.on_sess (modify (submit (codes "/" ++ input)))
          (λ i sess e. submit-id (codes "/" ++ input) sess ∙ e)
    run_command-Keeps unknown word input = λ s p. p

    ctl_words-Keeps : (words : List Bytes) (input : Bytes) → Keeps P (ctl_words h words input)
    unfolding ctl_words
    ctl_words-Keeps [] input = λ s p. p
    ctl_words-Keeps (word ∷ words) input = run_command-Keeps (command_of word) word input

    pub handle_ctl-Keeps : (input : Bytes) → Keeps P (handle_ctl h input)
    unfolding handle_ctl
    handle_ctl-Keeps input = ctl_words-Keeps (fields input) input
