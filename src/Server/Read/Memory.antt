-- ===== src/Server/Read/Memory.antt =====
-- A Tread of a file below /m, down to the bytes of the store.
use ollie_9p.Prelude.{
  ℕ, nat_eq, ◌+◌, ◌^◌, ◌<◌, Bytes, bytes_eq, bytes_beq, ◌==◌, Bool, true, false, some, ◌++◌, ◌≡◌,
  ap, refl, ◌∙◌, codes, leb, if◌then◌else◌, length, take, drop,
}
use ollie_9p.Prelude.Outcome.{ok, panic}
use ollie_9p.Agent.{AgentCore}
use ollie_9p.Path.{slash}
use ollie_9p.Server.{Fid, World, ServerConfig, rread, tread, on_disk, get_fid, qt_dir}
use ollie_9p.Server.Buffer.Laws.{read_slice-either}
use ollie_9p.Server.Handle.{handle}
use ollie_9p.Server.Read.{
  finished, raced, serve, to_rread, read, read_file, disk_read, is_session_store_file,
}
use ollie_9p.Server.Upload.{base_mem}
use ollie_9p.Store.Flat.{store_read}
use ollie_9p.Text.{contains, has_prefix, cut_prefix}

to_rread-if :
    (b : Bool) (content : Bytes)
    → to_rread (if b then panic else ok content) ≡ (if b then panic else ok (rread content))
to_rread-if true content = refl
to_rread-if false content = refl

module _ {C : AgentCore} {D : Type 0} (cfg : ServerConfig C D) (conn fid : ℕ) where
  read_file-mem :
      (name : Bytes) (offset count : ℕ) (w : World C D)
      → contains name slash ≡ false
      → read_file cfg finished conn fid (codes "/m/" ++ name) offset count w
        ≡ serve offset count (raced finished (disk_read cfg cfg.mem_store name w))
  unfolding read_file is_session_store_file bytes_beq has_prefix cut_prefix
  read_file-mem name offset count w plain =
      ap (λ n. serve offset count (raced finished (disk_read cfg cfg.mem_store n w)))
        (base_mem name plain)

  -- A Tread of a file directly below /m that the store reads, in time, and whose length and the
  -- count together are below 2^63, is answered with the bytes of the file from the offset on, as
  -- many as are asked for or left, if the offset is below 2^63; otherwise the handler panics.
  pub handle-tread :
      (offset count : ℕ) (name content : Bytes) (f : Fid) (w w' : World C D)
      → get_fid conn fid w ≡ some f
      → f.path ≡ codes "/m/" ++ name
      → (f.qid.kind == qt_dir) ≡ false
      → contains name slash ≡ false
      → on_disk (store_read cfg.mem_store name) w ≡ (ok content, w')
      → length content + count < 2 ^ 63
      → handle cfg finished conn (tread fid offset count) w
        ≡ (if leb (2 ^ 63) offset then panic else ok (rread (take count (drop offset content))), w')
  unfolding handle read
  handle-tread offset count name content f w w' known path plain_file plain found small =
      rw (known, read)
        (rw plain_file (
          ap (λ p. read_file cfg finished conn fid p offset count w) path
          ∙ read_file-mem name offset count w plain
          ∙ ap (λ r. serve offset count (raced finished r)) found
          ∙ ap (λ r. (to_rread r, w')) (read_slice-either offset count content small)
          ∙ ap (λ r. (r, w'))
              (to_rread-if (leb (2 ^ 63) offset) (take count (drop offset content)))))
