-- ===== src/Server/Read/Bounds.antt =====
-- How much a read of a file returns.
use ollie_9p.Prelude.{
  ◌%◌, ◌^◌, ℕ, ◌+◌, ◌-◌, ◌≤◌, Bytes, bytes_eq, nat_eq, ltb, ◌==◌, ◌&&◌, false, some, List, [], ◌∷◌,
  ◌≡◌, ◌≢◌, nat_beq_iff, arith, codes, length, drop, length-take,
}
use ollie_9p.Prelude.Keeps.{either}
use ollie_9p.Prelude.Outcome.{Outcome, ok, err, panic, Outcome-cases, gives, fails, panics}
use ollie_9p.Agent.{AgentCore}
use ollie_9p.Server.{World, ServerConfig, Fid, Rmsg, rread, get_fid, session_config, qt_dir}
use ollie_9p.Server.Buffer.{read_slice}
use ollie_9p.Server.Read.{
  Race, raced, is_session_store_file, serve, to_rread, disk_read, wait_base_of, read_wait,
  read_session_file, read_session, read_file, read,
}
use ollie_9p.Server.Read
use ollie_9p.Server.Walk.{or_rerror}
use ollie_9p.SessionStore.Entries.{open_store}
use ollie_9p.Store.Flat.{store_read, store_blocking_read}
use ollie_9p.Store.RunFile.{RunFileStore, run_file_store}
use ollie_9p.Text.{has_suffix}

-- The answer, if it is one of a read, has at most `count` bytes of data.
pub data Fits (count : ℕ) (r : Outcome Rmsg) : Type 0 where
  fits : ((content : Bytes) → r ≡ ok (rread content) → length content ≤ count) → Fits count r

Fits-at :
    (count : ℕ) (r : Outcome Rmsg)
    → Fits count r
    → (content : Bytes) → r ≡ ok (rread content)
    → length content ≤ count
Fits-at count r (fits h) = h

wraps : (n : ℕ) → n % 2 ^ 64 ≤ n
wraps n = omega arith

read_slice-Fits :
    (offset count : ℕ) (content part : Bytes)
    → read_slice offset count content ≡ ok part
    → length part ≤ count
unfolding read_slice
read_slice-Fits offset count content part h = ground (
  arith,
  h,
  wraps (offset + count),
  length-take ((offset + count) % 2 ^ 64 - offset) (drop offset content),
  length-take (length content - offset) (drop offset content),
  length-take (offset + count - offset) (drop offset content),
)

slice-Fits :
    (offset count : ℕ) (content : Bytes) → Fits count (to_rread (read_slice offset count content))
slice-Fits offset count content = elim (Outcome-cases (read_slice offset count content)) [
  | gives part e ↦
      rw (e, to_rread)
        (fits (λ content' e'. ground (arith, e', read_slice-Fits offset count content part e)))
  | fails m e ↦ rw (e, to_rread) (fits (λ content' e'. absurd (ground (arith, e'))))
  | panics e ↦ rw (e, to_rread) (fits (λ content' e'. absurd (ground (arith, e'))))
]

-- Nothing is read.
nothing-Fits : (count : ℕ) → Fits count (ok (rread []))
nothing-Fits count = fits (λ content e. ground (arith, e))

or_rerror-Fits {ℓ} :
    {W : Type ℓ} {A : Type 0} (count : ℕ) (r : Outcome A × W) (k : A → W → Outcome Rmsg × W)
    → ((a : A) (w : W) → Fits count (k a w).0)
    → Fits count (or_rerror r k).0
or_rerror-Fits count (ok a, w) k h = h a w
or_rerror-Fits count (err e, w) k h = fits (λ content e'. absurd (ground (arith, e')))
or_rerror-Fits count (panic, w) k h = fits (λ content e'. absurd (ground (arith, e')))

serve-Fits {ℓ} :
    {W : Type ℓ} (offset count : ℕ) (r : Outcome Bytes × W) → Fits count (serve offset count r).0
serve-Fits offset count r = or_rerror-Fits count r _ (λ content w. slice-Fits offset count content)

module _ {C : AgentCore} {D : Type 0} (cfg : ServerConfig C D) (race : Race) (conn fid : ℕ) where
  -- The answer fits into a count.
  abbrev FitsIn : ℕ → Outcome Rmsg × World C D → Type 0
  FitsIn count r = Fits count r.0

  read_session_file-Fits :
      (files : RunFileStore (World C D)) (name : Bytes) (offset count : ℕ) (w : World C D)
      → Fits count (read_session_file cfg race conn fid files name offset count w).0
  unfolding read_session_file read_wait
  read_session_file-Fits files name offset count w =
      either (FitsIn count) (name == codes "fifo.out" && ltb 0 offset) _ _ (nothing-Fits count) (
        either (FitsIn count) (has_suffix name (codes "wait")) _ _
          (either (FitsIn count) (ltb 0 offset) _ _ (nothing-Fits count) (
            or_rerror-Fits count
              (store_blocking_read (run_file_store files) name
                (wait_base_of cfg (get_fid conn fid w)) w)
              _ (λ content w'. slice-Fits offset count content)))
          (serve-Fits offset count (raced race (store_read (run_file_store files) name w))))

  read_session-Fits :
      (parts : List Bytes) (offset count : ℕ) (w : World C D)
      → Fits count (read_session cfg race conn fid parts offset count w).0
  unfolding read_session
  read_session-Fits (root ∷ id ∷ name ∷ []) offset count w =
      elim (Outcome-cases (open_store (session_config cfg) id w)) [
        | gives files e ↦ rw (e, read_session) (read_session_file-Fits files name offset count w)
        | fails m e ↦ rw (e, read_session) (nothing-Fits count)
        | panics e ↦ rw (e, read_session) (fits (λ content e'. absurd (ground (arith, e'))))
      ]
  read_session-Fits _ offset count w = nothing-Fits count

  pub read_file-any :
      (P : Outcome Rmsg × World C D → Type 0) (path : Bytes) (offset count : ℕ) (w : World C D)
      → P (ok (rread []), w)
      → ((r : Outcome Bytes × World C D) → P (serve offset count r))
      → ((parts : List Bytes) → P (read_session cfg race conn fid parts offset count w))
      → P (read_file cfg race conn fid path offset count w)
  unfolding read_file
  read_file-any P path offset count w nothing served session = search (either P) depth 24

  read_a_file-Fits :
      (offset count : ℕ) (w : World C D) (f : Fid)
      → get_fid conn fid w ≡ some f
      → (f.qid.kind == qt_dir) ≡ false
      → Fits count (read cfg race conn fid offset count w).0
  unfolding read
  read_a_file-Fits offset count w f found file =
      rw (found, Read.read)
        (rw (file, Read.read)
          (read_file-any (FitsIn count) f.path offset count w (nothing-Fits count)
            (serve-Fits offset count) (λ parts. read_session-Fits parts offset count w)))

  -- A read of a fid that is not of a directory returns at most `count` bytes, whatever the file.
  pub read-bound :
      (offset count : ℕ) (w : World C D) (f : Fid) (content : Bytes)
      → get_fid conn fid w ≡ some f
      → f.qid.kind ≢ qt_dir
      → (read cfg race conn fid offset count w).0 ≡ ok (rread content)
      → length content ≤ count
  read-bound offset count w f content found file answer =
      let no_dir : (f.qid.kind == qt_dir) ≡ false =
        ground (arith, file, nat_beq_iff f.qid.kind qt_dir) in
      Fits-at count _ (read_a_file-Fits offset count w f found no_dir) content answer
