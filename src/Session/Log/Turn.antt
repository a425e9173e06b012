-- ===== src/Session/Log/Turn.antt =====
-- The log after the goroutine of a prompt: Submit, then EnsureTrailingNewline.
use ollie_9p.Prelude.{Bytes, nat_eq, true, List, [], ◌∷◌, ◌++◌, if◌then◌else◌, ◌≡◌, refl, arith}
use ollie_9p.Agent.{AgentCore}
use ollie_9p.Session.{Session, ensure_trailing_newline, ends_line}
use ollie_9p.Session.Events.{submit, run_turn}
use ollie_9p.Session.Log.{log-submit, render, blocks_of}

ends_line-append : (s : Bytes) → ends_line (s ++ (b'\n' ∷ [])) ≡ true
unfolding ends_line
ends_line-append [] = refl
ends_line-append (c ∷ []) = refl
ends_line-append (c ∷ d ∷ s) = ends_line-append (d ∷ s)

-- A text with a newline behind it, if it has none
abbrev pub closed : Bytes → Bytes
closed s = if ends_line s then s else s ++ (b'\n' ∷ [])

ends_line-closed : (s : Bytes) → ends_line (closed s) ≡ true
ends_line-closed s = ground (arith, ends_line-append s)

module _ {C : AgentCore} where
  log-ensure_trailing_newline :
      (sess : Session C) → (ensure_trailing_newline sess).log ≡ closed sess.log
  unfolding ensure_trailing_newline
  log-ensure_trailing_newline sess = ground arith

  -- If a prompt waits, its turn leaves the log with the transcript of the turn behind it, closed by
  -- a newline whatever the events were.
  pub run_turn-closed :
      (sess : Session C) (input : Bytes) (turns : List Bytes)
      → sess.turns ≡ input ∷ turns
      → ((run_turn sess).log ≡ closed (sess.log ++ render (blocks_of (C.submit input sess.core).0)))
        × (ends_line (run_turn sess).log ≡ true)
  unfolding run_turn
  run_turn-closed sess input turns h =
      let next : Session C = record sess { turns = turns } in
      let log = log-ensure_trailing_newline (submit input next) in
      let e : (run_turn sess).log
          ≡ closed (sess.log ++ render (blocks_of (C.submit input sess.core).0)) =
        ground (arith, log, log-submit input next) in
      (
        e,
        ground (
          arith,
          e,
          ends_line-closed (sess.log ++ render (blocks_of (C.submit input sess.core).0)),
        ),
      )
