-- ===== src/Session/Ctl/Panics.antt =====
-- When a command of the file "ctl" makes the server panic.
use ollie_9p.Prelude.{
  Bytes, bytes_eq, bytes_beq, bytes_beq_iff, nat_eq, ltb, leb, ◌==◌, ◌&&◌, Bool, true, false, List,
  [], ◌∷◌, ◌++◌, codes, length, drop, ◌≡◌, refl, ap, sym, ◌∙◌, arith, Bool-cases, inl, inr,
}
use ollie_9p.Prelude.Keeps.{either}
use ollie_9p.Prelude.Outcome.{Outcome, ok, err, panic, Act, gets, modify, continue}
use ollie_9p.Agent.{AgentCore}
use ollie_9p.Session.{Session, interrupt}
use ollie_9p.Session.Ctl.{
  SessionHelper, Command, stop, kill, rn, save, pass, unknown, command_of, run_command, rename_to,
  log_error, ctl_words, handle_ctl, slice_from, passed_on, is_one_of,
}
use ollie_9p.Session.Events.{submit}
use ollie_9p.Text.Space.{trim_space, fields}

abbrev pub is_panic {ℓ} : {A : Type ℓ} → Outcome A → Bool
is_panic (ok _) = false
is_panic (err _) = false
is_panic panic = true

-- The first word is that of a rename.
abbrev pub asks_rename : List Bytes → Bool
asks_rename [] = false
asks_rename (word ∷ _) = word == codes "rn"

abbrev is_rn : Command → Bool
is_rn rn = true
is_rn _ = false

command_of-any :
    (P : Command → Type 0) (word : Bytes)
    → (word == codes "rn") ≡ false
    → P stop
    → P kill
    → P save
    → P pass
    → P unknown
    → P (command_of word)
unfolding command_of
command_of-any P word e s k v p u =
    rw (e, command_of)
      (either P (word == codes "stop") _ _ s (
        either P (word == codes "kill") _ _ k
          (either P (word == codes "save") _ _ v (either P (is_one_of word passed_on) _ _ p u))))

command_of-rn : (word : Bytes) → is_rn (command_of word) ≡ (word == codes "rn")
unfolding command_of bytes_beq
command_of-rn word = elim (Bool-cases (word == codes "rn")) [
  | inl e ↦ let same : word ≡ codes "rn" = (bytes_beq_iff word (codes "rn")).0 e in rw same refl
  | inr e ↦ command_of-any (λ c. is_rn c ≡ false) word e refl refl refl refl refl ∙ sym e
]

module _ {C : AgentCore} {S : Type 0} (h : SessionHelper C S) where
  -- The callbacks do not panic; an action of the session panics only if the action itself does.
  pub record NeverPanics : Type 1 where
    pub on_sess :
        {A : Type 0} (act : Act (Session C) A) (s : S)
        → ((sess : Session C) → is_panic (act sess).0 ≡ false)
        → is_panic (h.on_sess act s).0 ≡ false
    pub kills : (s : S) → is_panic (h.kill s).0 ≡ false
    pub renames : (id : Bytes) (s : S) → is_panic (h.rename id s).0 ≡ false
    pub saves : (content : Bytes) (s : S) → is_panic (h.save_transcript content s).0 ≡ false

  module _ (k : NeverPanics) where
    log_error-no_panic :
        (r : Outcome (Unit {0})) (s : S)
        → is_panic r ≡ false
        → is_panic (log_error h (r, s)).0 ≡ false
    unfolding log_error
    log_error-no_panic (ok _) s e = refl
    log_error-no_panic (err _) s e = refl
    log_error-no_panic panic s e = e

    rename_to-no_panic : (name : Bytes) (s : S) → is_panic (rename_to h name s).0 ≡ false
    unfolding rename_to
    rename_to-no_panic [] s = refl
    rename_to-no_panic (c ∷ name) s =
        let (r, s') = h.rename (c ∷ name) s in log_error-no_panic r s' (k.renames (c ∷ name) s)

    save-no_panic :
        (r : Outcome Bytes) (s : S)
        → is_panic r ≡ false
        → is_panic (continue r h.save_transcript s).0 ≡ false
    save-no_panic (ok content) s e = k.saves content s
    save-no_panic (err m) s e = refl
    save-no_panic panic s e = e

    run_command-panic :
        (cmd : Command) (word input : Bytes) (s : S)
        → is_panic (run_command h cmd word input s).0 ≡ (is_rn cmd && ltb (length input) 3)
    unfolding run_command slice_from
    run_command-panic stop word input s = k.on_sess (modify interrupt) s (λ sess. refl)
    run_command-panic kill word input s = k.kills s
    run_command-panic rn word input s = elim (Bool-cases (leb 3 (length input))) [
      | inl e ↦
          rw (e, run_command) (rename_to-no_panic (trim_space (drop 3 input)) s ∙ ground (arith, e))
      | inr e ↦ rw (e, run_command) (ground (arith, e))
    ]
    run_command-panic save word input s =
        let (r, s') = h.on_sess (gets (λ sess. sess.log)) s in
        save-no_panic r s' (k.on_sess (gets (λ sess. sess.log)) s (λ sess. refl))
    run_command-panic pass word input s =
        k.on_sess (modify (submit (codes "/" ++ input))) s (λ sess. refl)
    run_command-panic unknown word input s = refl

    ctl_words-panic :
        (words : List Bytes) (input : Bytes) (s : S)
        → is_panic (ctl_words h words input s).0 ≡ (asks_rename words && ltb (length input) 3)
    unfolding ctl_words
    ctl_words-panic [] input s = refl
    ctl_words-panic (word ∷ rest) input s =
        run_command-panic (command_of word) word input s
        ∙ ap (λ b. b && ltb (length input) 3) (command_of-rn word)

    -- If the callbacks do not panic, and an action of the session only where the action itself does,
    -- a command panics exactly if its first word is "rn" and it has fewer than three bytes, so that
    -- its argument is sliced from behind its end.
    pub handle_ctl-panic :
        (input : Bytes) (s : S)
        → is_panic (handle_ctl h input s).0 ≡ (asks_rename (fields input) && ltb (length input) 3)
    unfolding handle_ctl
    handle_ctl-panic input s = ctl_words-panic (fields input) input s
