-- ===== src/Server/Dirs/Page.antt =====
-- The last part of readDir: whole entries from an offset on, as many as fit into the count.
pub mod Laws
use ollie_9p.Prelude.{
  ℕ, zero, suc, ◌+◌, ◌*◌, ◌%◌, ◌^◌, Bytes, [], ◌∷◌, ◌++◌, ltb, leb, if◌then◌else◌, length, take,
  drop,
}

-- The fuel is the number of bytes left; every round takes at least two.
unfoldable pub page_from : ℕ → ℕ → ℕ → Bytes → Bytes
page_from zero sent count remaining = []
page_from (suc fuel) sent count [] = []
page_from (suc fuel) sent count (lo ∷ []) = []
page_from (suc fuel) sent count (lo ∷ hi ∷ rest) =
    let total = lo + hi * 256 + 2 in
    let more =
      take total (lo ∷ hi ∷ rest)
      ++ page_from fuel (sent + total) count (drop total (lo ∷ hi ∷ rest)) in
    if ltb (length (lo ∷ hi ∷ rest)) total
    then []
    else if ltb count ((sent + total) % 2 ^ 32)
    then []
    else more

unfoldable pub page_at : ℕ → ℕ → Bytes → Bytes
unfolding page_from
page_at offset count content =
    if leb (length content) offset
    then []
    else page_from (length content) 0 count (drop offset content)
