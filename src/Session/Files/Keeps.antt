-- ===== src/Session/Files/Keeps.antt =====
-- The files of a session keep what the callbacks keep.
use ollie_9p.Prelude.{
  ℕ, Bytes, bytes_eq, ◌==◌, Option, none, some, List, [], ◌∷◌, codes, map, ◌≡◌, refl, ◌∙◌,
  if◌then◌else◌, Bool, true, false, arith,
}
use ollie_9p.Prelude.Keeps.{Keeps, Keeps-if}
use ollie_9p.Prelude.Outcome.{Act, gets, modify}
use ollie_9p.Agent.{AgentCore}
use ollie_9p.Session.{Session}
use ollie_9p.Session.Cfg.{handle_cfg}
use ollie_9p.Session.Cfg.Keeps.{handle_cfg-Keeps}
use ollie_9p.Session.Ctl.{SessionHelper, handle_ctl}
use ollie_9p.Session.Ctl.Keeps.{KeepsHelper, handle_ctl-Keeps}
use ollie_9p.Session.Files.{
  session_file_list, content, pop_queue, wait_state, wait_result, read_of, size_of, write_of,
  wait_of, on_input, start_turn, file_spec, new_session_file_store,
}
use ollie_9p.Store.Keeps.{KeepsOpen}
use ollie_9p.Store.RunFile
use ollie_9p.Store.RunFile.{FileSpec, run_file_store}
use ollie_9p.Store.RunFile.Keeps.{KeepsSpec, KeepsSpecs, stat-Keeps, run_file_store-Keeps}
use ollie_9p.Text.Space.{trim_space}

module _ {C : AgentCore} where
  wait_result-id : (r : Option Bytes × C.K) (sess : Session C) → (wait_result r sess).1.id ≡ sess.id
  unfolding wait_result
  wait_result-id (none, core) sess = refl
  wait_result-id (some v, core) sess = refl

  wait_state-id : (base : Bytes) (sess : Session C) → (wait_state base sess).1.id ≡ sess.id
  unfolding wait_state
  wait_state-id [] sess = wait_result-id (C.wait_change (C.state sess.core) sess.core) sess
  wait_state-id (c ∷ base) sess = wait_result-id (C.wait_change (c ∷ base) sess.core) sess

  pop_queue-id : (sess : Session C) → (pop_queue sess).1.id ≡ sess.id
  unfolding pop_queue
  pop_queue-id sess = refl

module _ {C : AgentCore} {S : Type 0} (P : S → Type 0) (h : SessionHelper C S)
    (environ : List Bytes) (k : KeepsHelper P h) where
  -- An action that only reads the session
  gets-Keeps : {A : Type 0} (f : Session C → A) → Keeps P (h.on_sess (gets f))
  gets-Keeps f = k.on_sess (gets f) (λ i sess e. e)

  read_of-Keeps : (name : Bytes) → Keeps P (read_of h environ name)
  unfolding read_of
  read_of-Keeps name =
      let pops = k.on_sess pop_queue (λ i sess e. pop_queue-id sess ∙ e) in
      search (Keeps-if P, gets-Keeps, pops) depth 12

  on_input-Keeps :
      (act : Bytes → Act S (Unit {0})) (input : Bytes)
      → ((input : Bytes) → Keeps P (act input))
      → Keeps P (on_input h environ act input)
  unfolding on_input
  on_input-Keeps act [] ka s p = p
  on_input-Keeps act (c ∷ input) ka s p = ka (c ∷ input) s p

  KeepsSize : Option (Act S ℕ) → Type 0
  KeepsSize size = (act : Act S ℕ) → size ≡ some act → Keeps P act

  KeepsSize-if :
      (b : Bool) (x y : Option (Act S ℕ))
      → KeepsSize x
      → KeepsSize y
      → KeepsSize (if b then x else y)
  KeepsSize-if true x y kx ky = kx
  KeepsSize-if false x y kx ky = ky

  KeepsSize-gets : (f : Session C → ℕ) → KeepsSize (some (h.on_sess (gets f)))
  unfolding KeepsSize
  KeepsSize-gets f act e =
      let same : h.on_sess (gets f) ≡ act = ground (arith, e) in rw (← same) (gets-Keeps f)

  KeepsSize-none : KeepsSize none
  unfolding KeepsSize
  KeepsSize-none act e = absurd (ground arith)

  size_of-Keeps : (name : Bytes) → KeepsSize (size_of h environ name)
  unfolding size_of
  size_of-Keeps name = search (KeepsSize-if, KeepsSize-gets, KeepsSize-none) depth 8

  writes-if :
      (b : Bool) (x y : Option (Bytes → Act S (Unit {0}))) (name content : Bytes)
      → Keeps P (RunFile.write_of name x content)
      → Keeps P (RunFile.write_of name y content)
      → Keeps P (RunFile.write_of name (if b then x else y) content)
  writes-if true x y name content kx ky = kx
  writes-if false x y name content kx ky = ky

  modify-Keeps :
      (f : Session C → Session C)
      → ((sess : Session C) → (f sess).id ≡ sess.id)
      → Keeps P (h.on_sess (modify f))
  modify-Keeps f same = k.on_sess (modify f) (λ i sess e. same sess ∙ e)

  start_turn-id :
      (input : Bytes) (sess : Session C) → (start_turn h environ input sess).id ≡ sess.id
  unfolding start_turn
  start_turn-id input sess = refl

  write_of-Keeps :
      (name file content : Bytes)
      → Keeps P (RunFile.write_of file (write_of h environ name) content)
  unfolding write_of
  write_of-Keeps name file content =
      let plan = modify-Keeps (λ sess. record sess { plan = content }) (λ sess. refl) in
      let chat = on_input-Keeps h.save_transcript (trim_space content) k.saves in
      let prompt =
        on_input-Keeps (λ input. h.on_sess (modify (start_turn h environ input)))
          (trim_space content)
          (λ input. modify-Keeps (start_turn h environ input) (start_turn-id input)) in
      let fifo =
        on_input-Keeps
          (λ input. h.on_sess (modify (λ sess. record sess { core = C.queue input sess.core })))
          (trim_space content)
          (λ input.
            modify-Keeps (λ sess. record sess { core = C.queue input sess.core }) (λ sess. refl)) in
      let ctl = on_input-Keeps (handle_ctl h) (trim_space content) (handle_ctl-Keeps P h k) in
      let cfg =
        on_input-Keeps (λ input. h.on_sess (handle_cfg input)) (trim_space content)
          (λ input. k.on_sess (handle_cfg input) (λ i. handle_cfg-Keeps i input)) in
      search (writes-if, plan, chat, prompt, fifo, ctl, cfg) depth 16

  waits-if :
      (b : Bool) (x y : Option (Bytes → Act S Bytes)) (name base : Bytes)
      → Keeps P (RunFile.wait_of name x base)
      → Keeps P (RunFile.wait_of name y base)
      → Keeps P (RunFile.wait_of name (if b then x else y) base)
  waits-if true x y name base kx ky = kx
  waits-if false x y name base kx ky = ky

  wait_of-Keeps :
      (name file base : Bytes) → Keeps P (RunFile.wait_of file (wait_of h environ name) base)
  unfolding wait_of
  wait_of-Keeps name file base =
      waits-if (name == codes "statewait") _ none file base
        (k.on_sess (wait_state base) (λ i sess e. wait_state-id base sess ∙ e)) (λ s p. p)

  file_spec-Keeps : (name : Bytes) (mode : ℕ) → KeepsSpec P (file_spec h environ (name, mode))
  unfolding file_spec KeepsSize
  file_spec-Keeps name mode = record {
    reads = read_of-Keeps name;
    writes = write_of-Keeps name;
    waits = wait_of-Keeps name;
    sizes = size_of-Keeps name;
  }

  specs-keep : (files : List (Bytes × ℕ)) → KeepsSpecs P (map (file_spec h environ) files)
  specs-keep [] = tt
  specs-keep ((name, mode) ∷ files) = (file_spec-Keeps name mode, specs-keep files)

  pub session_files-keep : KeepsOpen P (run_file_store (new_session_file_store h environ)).open_fn
  unfolding new_session_file_store
  session_files-keep =
      run_file_store-Keeps P (map (file_spec h environ) session_file_list)
        (specs-keep session_file_list)

  pub session_file_stat-Keeps :
      (name : Bytes) → Keeps P (RunFile.stat (new_session_file_store h environ) name)
  unfolding new_session_file_store
  session_file_stat-Keeps name =
      stat-Keeps P (map (file_spec h environ) session_file_list) (specs-keep session_file_list) name
