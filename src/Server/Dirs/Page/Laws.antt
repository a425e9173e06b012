-- ===== src/Server/Dirs/Page/Laws.antt =====
-- A directory that is read in pages is read whole.
use ollie_9p.Prelude.{
  ℕ, zero, suc, ◌+◌, ◌*◌, ◌%◌, ◌^◌, ◌≤◌, ◌<◌, Bytes, List, [], ◌∷◌, ◌++◌, ltb, if◌then◌else◌,
  length, ◌≡◌, refl, ◌∙◌, ap, sym, ◌≢◌, arith, length-append, length-take, length-drop, take, drop,
  append_assoc, take-append_length, drop-append_length, Bool-cases, inl, inr,
}
use ollie_9p.Server.Dirs.Page.{page_from, page_at}

-- What plan9 documents of the bytes of a Dir: the first two are the size of the rest, the lower
-- byte first.
abbrev pub IsEntry : Bytes → Type 0
IsEntry [] = ⊥
IsEntry (lo ∷ []) = ⊥
IsEntry (lo ∷ hi ∷ rest) = (lo < 256) × (hi < 256) × (length rest ≡ lo + hi * 256)

abbrev pub AllEntries : List Bytes → Type 0
AllEntries [] = Unit
AllEntries (e ∷ entries) = IsEntry e × AllEntries entries

abbrev pub flatten : List Bytes → Bytes
flatten [] = []
flatten (e ∷ entries) = e ++ flatten entries

-- The reference: the entries, from the first on, that fit into the count.
pub fitting : ℕ → ℕ → List Bytes → List Bytes
fitting sent count [] = []
fitting sent count (e ∷ entries) =
    let rest = fitting (sent + length e) count entries in
    if ltb count (sent + length e) then [] else e ∷ rest

entry_pos : (e : Bytes) → IsEntry e → 2 ≤ length e
entry_pos [] h = absurd h
entry_pos (lo ∷ []) h = absurd h
entry_pos (lo ∷ hi ∷ rest) h = omega arith

length-pos : (b : Bytes) → b ≢ [] → 0 < length b
length-pos [] h = absurd (h refl)
length-pos (c ∷ b) h = omega arith

page_from_entry :
    (fuel sent count : ℕ) (e rest : Bytes)
    → IsEntry e
    → page_from (suc fuel) sent count (e ++ rest) ≡ (
        if ltb count ((sent + length e) % 2 ^ 32)
        then []
        else e ++ page_from fuel (sent + length e) count rest)
unfolding page_from
page_from_entry fuel sent count [] rest h = absurd h
page_from_entry fuel sent count (lo ∷ []) rest h = absurd h
page_from_entry fuel sent count (lo ∷ hi ∷ more) rest h =
    let total : lo + hi * 256 + 2 ≡ length (lo ∷ hi ∷ more) = omega arith in
    rw total (
      rw (take-append_length more rest, drop-append_length more rest)
        (ground (arith, length-append more rest)))

-- The first page of entries is made of those that fit.
page_from-fitting :
    (fuel sent count : ℕ) (entries : List Bytes)
    → AllEntries entries
    → count < 2 ^ 32
    → sent + length (flatten entries) < 2 ^ 32
    → length (flatten entries) ≤ fuel
    → page_from fuel sent count (flatten entries) ≡ flatten (fitting sent count entries)
unfolding fitting
page_from-fitting zero sent count [] h small fits enough = unfold page_from in refl
page_from-fitting (suc fuel) sent count [] h small fits enough = unfold page_from in refl
page_from-fitting zero sent count ([] ∷ entries) h small fits enough = absurd h.0
page_from-fitting zero sent count ((c ∷ e) ∷ entries) h small fits enough = absurd (omega arith)
page_from-fitting (suc fuel) sent count (e ∷ entries) h small fits enough =
    let total : length (e ++ flatten entries) ≡ length e + length (flatten entries) =
      length-append e (flatten entries) in
    let whole : (sent + length e) % 2 ^ 32 ≡ sent + length e = omega arith in
    page_from_entry fuel sent count e (flatten entries) h.0
    ∙ ground (arith, entry_pos e, page_from-fitting fuel (sent + length e) count entries h.1)

-- The entries behind those.
unfit : ℕ → ℕ → List Bytes → List Bytes
unfit sent count [] = []
unfit sent count (e ∷ entries) =
    let rest = unfit (sent + length e) count entries in
    if ltb count (sent + length e) then e ∷ entries else rest

flatten-fitting :
    (sent count : ℕ) (entries : List Bytes)
    → flatten (fitting sent count entries) ++ flatten (unfit sent count entries) ≡ flatten entries
unfolding fitting unfit
flatten-fitting sent count [] = refl
flatten-fitting sent count (e ∷ entries) = ground (
  arith,
  flatten-fitting (sent + length e) count entries,
  append_assoc e (flatten (fitting (sent + length e) count entries))
      (flatten (unfit (sent + length e) count entries)),
)

-- Every entry fits into a page of its own.
abbrev pub AllWithin : ℕ → List Bytes → Type 0
AllWithin count [] = Unit
AllWithin count (e ∷ entries) = (length e ≤ count) × AllWithin count entries

unfit-AllEntries :
    (sent count : ℕ) (entries : List Bytes)
    → AllEntries entries
    → AllEntries (unfit sent count entries)
unfolding unfit
unfit-AllEntries sent count [] h = h
unfit-AllEntries sent count (e ∷ entries) h = elim (Bool-cases (ltb count (sent + length e))) [
  | inl over ↦ rw over h
  | inr fits ↦ rw fits (unfit-AllEntries (sent + length e) count entries h.1)
]

unfit-AllWithin :
    (bound sent count : ℕ) (entries : List Bytes)
    → AllWithin bound entries
    → AllWithin bound (unfit sent count entries)
unfolding unfit
unfit-AllWithin bound sent count [] h = h
unfit-AllWithin bound sent count (e ∷ entries) h = elim (Bool-cases (ltb count (sent + length e))) [
  | inl over ↦ rw over h
  | inr fits ↦ rw fits (unfit-AllWithin bound (sent + length e) count entries h.1)
]

-- The reads of a client that goes on behind what it got until it gets nothing.
pub read_pages : ℕ → ℕ → ℕ → Bytes → Bytes
read_pages zero offset count content = []
read_pages (suc fuel) offset count content = elim (page_at offset count content) [
  | [] ↦ []
  | c ∷ page ↦ (c ∷ page) ++ read_pages fuel (offset + length (c ∷ page)) count content
]

page_at-fitting :
    (pre : Bytes) (count : ℕ) (entries : List Bytes)
    → AllEntries entries
    → count < 2 ^ 32
    → length (pre ++ flatten entries) < 2 ^ 32
    → page_at (length pre) count (pre ++ flatten entries) ≡ flatten (fitting 0 count entries)
unfolding page_at fitting
page_at-fitting pre count [] h small fits = ground (arith, length-append pre [])
page_at-fitting pre count (e ∷ entries) h small fits =
    let b : Bytes = flatten (e ∷ entries) in
    let total : length (pre ++ b) ≡ length pre + length b = length-append pre b in
    let some_left : 2 ≤ length b = omega (arith, entry_pos e, length-append e (flatten entries)) in
    rw (drop-append_length pre b)
      (ground (arith, page_from-fitting (length (pre ++ b)) 0 count (e ∷ entries)))

read_pages_step :
    (fuel offset count : ℕ) (content page : Bytes)
    → page ≢ []
    → page_at offset count content ≡ page
    → read_pages (suc fuel) offset count content
      ≡ page ++ read_pages fuel (offset + length page) count content
unfolding read_pages
read_pages_step fuel offset count content [] h e = absurd (h refl)
read_pages_step fuel offset count content (c ∷ page) h e = ground arith

read_pages_end :
    (fuel offset count : ℕ) (content : Bytes)
    → page_at offset count content ≡ []
    → read_pages (suc fuel) offset count content ≡ []
unfolding read_pages
read_pages_end fuel offset count content e = ground arith

fitting-ne-nil :
    (count : ℕ) (e : Bytes) (entries : List Bytes)
    → IsEntry e
    → length e ≤ count
    → flatten (fitting 0 count (e ∷ entries)) ≢ []
unfolding fitting
fitting-ne-nil count [] entries h le eq = absurd h
fitting-ne-nil count (c ∷ e) entries h le eq = ground arith

read_pages_from :
    (fuel : ℕ) (pre : Bytes) (count : ℕ) (entries : List Bytes)
    → AllEntries entries
    → AllWithin count entries
    → count < 2 ^ 32
    → length (pre ++ flatten entries) < 2 ^ 32
    → length (flatten entries) < fuel
    → read_pages fuel (length pre) count (pre ++ flatten entries) ≡ flatten entries
read_pages_from zero pre count entries h within small fits enough = absurd (omega arith)
read_pages_from (suc fuel) pre count [] h within small fits enough =
    read_pages_end fuel (length pre) count (pre ++ [])
      (page_at-fitting pre count [] h small fits ∙ (unfold fitting in refl))
read_pages_from (suc fuel) pre count (e ∷ entries) h within small fits enough =
    let page : Bytes = flatten (fitting 0 count (e ∷ entries)) in
    let more : List Bytes = unfit 0 count (e ∷ entries) in
    let parts : page ++ flatten more ≡ flatten (e ∷ entries) =
      flatten-fitting 0 count (e ∷ entries) in
    let ne : page ≢ [] = fitting-ne-nil count e entries h.0 within.0 in
    let step =
      read_pages_step fuel (length pre) count (pre ++ flatten (e ∷ entries)) page ne
        (page_at-fitting pre count (e ∷ entries) h small fits) in
    let regroup : pre ++ flatten (e ∷ entries) ≡ (pre ++ page) ++ flatten more =
      ap (λ (b : Bytes). pre ++ b) (sym parts) ∙ sym (append_assoc pre page (flatten more)) in
    let rest =
      read_pages_from fuel (pre ++ page) count more (unfit-AllEntries 0 count (e ∷ entries) h)
        (unfit-AllWithin count 0 count (e ∷ entries) within) small (ground (arith, regroup))
        (omega (
          arith,
          ap (λ (b : Bytes). length b) parts,
          length-append page (flatten more),
          length-pos page ne,
        )) in
    step
    ∙ ap (λ (b : Bytes). page ++ b) (ground (arith, regroup, length-append pre page, rest))
    ∙ parts

-- Of a listing that is the same for each page, a client that asks for the pages one behind the
-- other, with a count that is enough for each entry, gets every entry once, in order and whole, if
-- the count and the length of the whole are below 2^32.
pub read_pages-entries :
    (count : ℕ) (entries : List Bytes)
    → AllEntries entries
    → AllWithin count entries
    → count < 2 ^ 32
    → length (flatten entries) < 2 ^ 32
    → read_pages (length (flatten entries) + 1) 0 count (flatten entries) ≡ flatten entries
read_pages-entries count entries h within small fits =
    read_pages_from (length (flatten entries) + 1) [] count entries h within small fits
      (omega arith)

-- A page holds at most as many bytes as are left of the count.
page_from-bound :
    (fuel sent count : ℕ) (content : Bytes)
    → sent + length content < 2 ^ 32
    → sent ≤ count
    → sent + length (page_from fuel sent count content) ≤ count
unfolding page_from
page_from-bound zero sent count content small room = ground arith
page_from-bound (suc fuel) sent count [] small room = ground arith
page_from-bound (suc fuel) sent count (lo ∷ []) small room = ground arith
page_from-bound (suc fuel) sent count (lo ∷ hi ∷ rest) small room =
    let total = lo + hi * 256 + 2 in
    let content : Bytes = lo ∷ hi ∷ rest in
    elim (Bool-cases (ltb (length content) total)) [
      | inl short ↦ ground arith
      | inr whole ↦
          let taken : length (take total content) ≡ total =
            ground (arith, length-take total content) in
          let left : total + length (drop total content) ≡ length content =
            ground (arith, length-drop total content) in
          ground (
            arith,
            length-append (take total content)
                (page_from fuel (sent + total) count (drop total content)),
            page_from-bound fuel (sent + total) count (drop total content),
          )
    ]

-- A page of a directory whose entries have fewer than 2^32 bytes has at most `count` bytes.
pub page_at-bound :
    (offset count : ℕ) (content : Bytes)
    → length content < 2 ^ 32
    → length (page_at offset count content) ≤ count
unfolding page_at
page_at-bound offset count content small = ground (
  arith,
  length-drop offset content,
  page_from-bound (length content) 0 count (drop offset content),
)
