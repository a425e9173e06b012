-- ===== src/Server/Buffer/Laws.antt =====
-- Reading in chunks gives the content, and writing in chunks gives the buffer that was meant.
use Prim.Native.Nat.{min}
use ollie_9p.Prelude.{
  ℕ, zero, suc, ◌+◌, ◌-◌, ◌^◌, ◌≤◌, ◌<◌, Bytes, List, [], ◌∷◌, ◌++◌, ltb, leb, if◌then◌else◌,
  length, take, drop, replicate, ◌≡◌, refl, ap, ◌∙◌, ◌≢◌, sym, arith, Bool-cases, inl, inr,
  length-append, append_assoc, append-nil, Option, some, get_elem?, get_elem?-append,
  get_elem?-take, get_elem?-drop, get_elem?-replicate, get_elem?_of_le, length-take, length-drop,
  length-replicate, drop-drop, take-all, drop-all, take-append_length,
}
use ollie_9p.Prelude.Outcome.{Outcome, ok, err, panic}
use ollie_9p.Server.Buffer.{read_slice, write_at, max_alloc, grow, overlay}

-- The byte of a buffer at an index, 0 where a shorter buffer has been filled up.
abbrev pub filled : Bytes → ℕ → Option ℕ
filled buf i = if ltb i (length buf) then get_elem? buf i else some 0

-- The bytes of a buffer after a write: the data in its place, zeros up to it, the rest as it was.
abbrev pub written : ℕ → Bytes → Bytes → ℕ → Option ℕ
written offset content buf i =
    if ltb i offset
    then filled buf i
    else if ltb i (offset + length content)
    then get_elem? content (i - offset)
    else get_elem? buf i

get_elem?-grow :
    (end : ℕ) (buf : Bytes) (i : ℕ)
    → get_elem? (grow end buf) i ≡ (if ltb i end then filled buf i else get_elem? buf i)
get_elem?-grow end buf i = ground (
  arith,
  get_elem?-append buf (replicate (end - length buf) 0) i,
  get_elem?-replicate {A = ℕ} (end - length buf) 0 (i - length buf),
  get_elem?_of_le buf i,
)

length-grow : (end : ℕ) (buf : Bytes) → end ≤ length (grow end buf)
length-grow end buf = omega (
  arith,
  length-append buf (replicate (end - length buf) 0),
  length-replicate {A = ℕ} (end - length buf) 0,
)

get_elem?-overlay :
    (offset : ℕ) (content buf : Bytes) (i : ℕ)
    → offset ≤ length buf
    → get_elem? (overlay offset content buf) i ≡ (
        if ltb i offset
        then get_elem? buf i
        else if ltb i (offset + length content)
        then get_elem? content (i - offset)
        else get_elem? buf i)
get_elem?-overlay offset content buf i h =
    let tail : Bytes = drop (offset + length content) buf in
    ground (
      arith,
      get_elem?-append (take offset buf) (content ++ tail) i,
      length-take offset buf,
      get_elem?-take offset buf i,
      get_elem?-append content tail (i - offset),
      get_elem?-drop (offset + length content) buf (i - offset - length content),
    )

-- A write that ends within the allocation limit succeeds, and changes exactly the bytes in its
-- range, with zeros between the old end and the range.
pub write_at-written :
    (offset : ℕ) (content buf : Bytes)
    → offset + length content ≤ max_alloc
    → (buf' : Bytes) × (write_at offset content buf ≡ ok buf')
      × ((i : ℕ) → get_elem? buf' i ≡ written offset content buf i)
unfolding write_at
write_at-written offset content buf h = (
  overlay offset content (grow (offset + length content) buf),
  ground arith,
  λ i.
      get_elem?-overlay offset content (grow (offset + length content) buf) i
        (omega (arith, length-grow (offset + length content) buf))
      ∙ ground (arith, get_elem?-grow (offset + length content) buf i),
)

pub write_at_end :
    (content buf : Bytes)
    → length buf + length content ≤ max_alloc
    → write_at (length buf) content buf ≡ ok (buf ++ content)
unfolding write_at
write_at_end content buf h =
    let zeros : Bytes = replicate (length buf + length content - length buf) 0 in
    ground (
      arith,
      take-append_length buf zeros,
      length-append buf zeros,
      length-replicate {A = ℕ} (length buf + length content - length buf) 0,
      drop-all (length buf + length content) (buf ++ zeros),
      append-nil content,
    )

-- The writes of a client that sends its data in pieces, each behind the one before.
pub write_pieces : ℕ → List Bytes → Bytes → Outcome Bytes
write_pieces offset [] buf = ok buf
write_pieces offset (piece ∷ pieces) buf = elim (write_at offset piece buf) [
  | ok buf' ↦ write_pieces (offset + length piece) pieces buf'
  | err e ↦ err e
  | panic ↦ panic
]

abbrev pub joined : List Bytes → Bytes
joined [] = []
joined (piece ∷ pieces) = piece ++ joined pieces

write_pieces_from :
    (pieces : List Bytes) (buf : Bytes)
    → length buf + length (joined pieces) ≤ max_alloc
    → write_pieces (length buf) pieces buf ≡ ok (buf ++ joined pieces)
unfolding write_pieces
write_pieces_from [] buf h = ground (arith, append-nil buf)
write_pieces_from (piece ∷ pieces) buf h = ground (
  arith,
  length-append piece (joined pieces),
  write_at_end piece buf,
  length-append buf piece,
  write_pieces_from pieces (buf ++ piece),
  append_assoc buf piece (joined pieces),
)

-- Data within the allocation limit that is sent in pieces, one behind the other, leaves the
-- data in the buffer, however it was cut.
pub write_pieces-joined :
    (pieces : List Bytes)
    → length (joined pieces) ≤ max_alloc
    → write_pieces 0 pieces [] ≡ ok (joined pieces)
write_pieces-joined pieces h = write_pieces_from pieces [] (omega arith)

-- The reads of a client that asks for `count` bytes at a time until it gets none.
pub read_pieces : ℕ → ℕ → ℕ → Bytes → Outcome Bytes
read_pieces zero offset count content = err []
read_pieces (suc fuel) offset count content = elim (read_slice offset count content) [
  | ok [] ↦ ok []
  | ok (c ∷ piece) ↦ elim (read_pieces fuel (offset + length (c ∷ piece)) count content) [
    | ok rest ↦ ok ((c ∷ piece) ++ rest)
    | err e ↦ err e
    | panic ↦ panic
  ]
  | err e ↦ err e
  | panic ↦ panic
]

take-nil : (n : ℕ) → take {A = ℕ} n [] ≡ []
take-nil zero = refl
take-nil (suc n) = refl

take-append-drop-take : (n : ℕ) (xs : Bytes) → take n xs ++ drop (length (take n xs)) xs ≡ xs
take-append-drop-take zero xs = refl
take-append-drop-take (suc n) [] = refl
take-append-drop-take (suc n) (x ∷ xs) = ap (λ (l : Bytes). x ∷ l) (take-append-drop-take n xs)

-- A read at most at the end gives the next bytes, as many as are asked for or left. The bounds have
-- to be ints.
pub read_slice-take :
    (offset count : ℕ) (content : Bytes)
    → length content + count < 2 ^ 63
    → offset ≤ length content
    → read_slice offset count content ≡ ok (take count (drop offset content))
unfolding read_slice
read_slice-take offset count content h le = ground (
  arith,
  drop-all offset content,
  take-nil count,
  length-drop offset content,
  take-all (length content - offset) (drop offset content),
  take-all count (drop offset content),
)

read_pieces_step :
    (fuel offset count : ℕ) (content piece rest : Bytes)
    → piece ≢ []
    → read_slice offset count content ≡ ok piece
    → read_pieces fuel (offset + length piece) count content ≡ ok rest
    → read_pieces (suc fuel) offset count content ≡ ok (piece ++ rest)
unfolding read_pieces
read_pieces_step fuel offset count content [] rest h e r = absurd (h refl)
read_pieces_step fuel offset count content (c ∷ piece) rest h e r = ground arith

read_pieces_end :
    (fuel offset count : ℕ) (content : Bytes)
    → read_slice offset count content ≡ ok []
    → read_pieces (suc fuel) offset count content ≡ ok []
unfolding read_pieces
read_pieces_end fuel offset count content e = ground arith

take-ne-nil : (n : ℕ) (xs : Bytes) → 0 < n → 0 < length xs → take n xs ≢ []
take-ne-nil zero xs h k e = absurd (omega arith)
take-ne-nil (suc n) [] h k e = absurd (omega arith)
take-ne-nil (suc n) (x ∷ xs) h k e = cc

read_pieces_from :
    (fuel offset count : ℕ) (content : Bytes)
    → 0 < count
    → length content + count < 2 ^ 63
    → offset ≤ length content
    → length content - offset < fuel
    → read_pieces fuel offset count content ≡ ok (drop offset content)
read_pieces_from zero offset count content pos small le enough = absurd (omega arith)
read_pieces_from (suc fuel) offset count content pos small le enough =
    elim (Bool-cases (ltb offset (length content))) [
      | inl more ↦
          let piece : Bytes = take count (drop offset content) in
          let room : offset < length content = ground arith in
          let some_left : 0 < length (drop offset content) =
            omega (arith, length-drop offset content) in
          let size : length piece ≡ min count (length content - offset) =
            length-take count (drop offset content) ∙ rw (length-drop offset content) refl in
          read_pieces_step fuel offset count content piece
            (drop (length piece) (drop offset content))
            (take-ne-nil count (drop offset content) pos some_left)
            (read_slice-take offset count content small le)
            (read_pieces_from fuel (offset + length piece) count content pos small (omega arith)
                (omega arith)
              ∙ ap (λ (b : Bytes). ok b) (sym (drop-drop offset (length piece) content)))
          ∙ ap (λ (b : Bytes). ok b) (take-append-drop-take count (drop offset content))
      | inr done ↦
          let at_end : length content ≤ offset = ground arith in
          read_pieces_end fuel offset count content (
            read_slice-take offset count content small le
            ∙ rw (drop-all offset content at_end) (rw (take-nil count) refl))
          ∙ ap (λ (b : Bytes). ok b) (sym (drop-all offset content at_end))
    ]

-- A client that reads on, any positive number of bytes at a time, gets the whole content, if
-- its length and that number together are below 2^63; one request more than there are bytes is
-- enough.
pub read_pieces-content :
    (count : ℕ) (content : Bytes)
    → 0 < count
    → length content + count < 2 ^ 63
    → read_pieces (length content + 1) 0 count content ≡ ok content
read_pieces-content count content pos small =
    read_pieces_from (length content + 1) 0 count content pos small (omega arith) (omega arith)

-- A read gives the next bytes, as many as are asked for or left, if the offset is an int, and
-- panics if it is not.
pub read_slice-either :
    (offset count : ℕ) (content : Bytes)
    → length content + count < 2 ^ 63
    → read_slice offset count content
      ≡ (if leb (2 ^ 63) offset then panic else ok (take count (drop offset content)))
read_slice-either offset count content h = elim (Bool-cases (leb (2 ^ 63) offset)) [
  | inl large ↦ unfold read_slice in ground (arith, large)
  | inr small ↦ elim (Bool-cases (leb offset (length content))) [
    | inl le ↦ ground (arith, small, read_slice-take offset count content h (ground (arith, le)))
    | inr gt ↦
        unfold read_slice in
        ground (arith, small, gt, drop-all offset content (ground (arith, gt)), take-nil count)
  ]
]
