-- ===== src/Server/Buffer.antt =====
-- readSlice, and the write buffer of a fid, of server.go. An offset is a uint64, and `int` has 64
-- bits: from 2 ^ 63 on an offset is a negative int.
pub mod Laws
use ollie_9p.Prelude.{
  ◌%◌, ◌||◌, Bool, false, ℕ, ◌+◌, ◌-◌, ◌^◌, Bytes, [], ◌++◌, ltb, leb, if◌then◌else◌, ◌&&◌, length,
  take, drop, replicate,
}
use ollie_9p.Prelude.Outcome.{Outcome, ok, panic}

-- `int(n)` of a uint64 is negative.
abbrev is_negative : ℕ → Bool
is_negative n = leb (2 ^ 63) n

-- `int(m) <= int(n)` and `int(m) < int(n)` for an m that is an int
abbrev int_leb : ℕ → ℕ → Bool
int_leb m n = if is_negative n then false else leb m n

abbrev int_ltb : ℕ → ℕ → Bool
int_ltb m n = if is_negative n then false else ltb m n

-- `content[off:end]`, whose bounds are ints: it panics unless they are in order and in range.
abbrev slice : Bytes → ℕ → ℕ → Outcome Bytes
slice content off end =
    if is_negative off || is_negative end || ltb end off || ltb (length content) end
    then panic
    else ok (take (end - off) (drop off content))

-- readSlice: the data of the answer
unfoldable pub read_slice : ℕ → ℕ → Bytes → Outcome Bytes
read_slice offset count content =
    let end = (offset + count) % 2 ^ 64 in
    if int_leb (length content) offset
    then ok []
    else if int_ltb (length content) end
    then slice content offset (length content)
    else slice content offset end

-- The most bytes that the run-time system allocates at once; `make` panics above it.
abbrev pub max_alloc : ℕ
max_alloc = 2 ^ 48

-- `copy(buf[offset:], data)` into a buffer that is long enough
abbrev overlay : ℕ → Bytes → Bytes → Bytes
overlay offset content buf = take offset buf ++ (content ++ drop (offset + length content) buf)

-- `grown := make([]byte, end); copy(grown, f.writeBuf)`, if the buffer is too short
abbrev grow : ℕ → Bytes → Bytes
grow end buf = buf ++ replicate (end - length buf) 0

-- The buffer after a write. It is never longer than `max_alloc`, so that a write which ends behind
-- that either makes too large a buffer or slices behind the end of the buffer.
unfoldable pub write_at : ℕ → Bytes → Bytes → Outcome Bytes
write_at offset content buf =
    if leb (offset + length content) max_alloc
    then ok (overlay offset content (grow (offset + length content) buf))
    else panic
