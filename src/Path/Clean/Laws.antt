-- ===== src/Path/Clean/Laws.antt =====
-- filepath.Join and Dir on absolute paths that are given by their elements.
use mathlib.Core.List.{reverse_aux, reverse-reverse, reverse, reverse_aux-append}
use ollie_9p.Prelude.{
  ℕ, Bytes, bytes_eq, bytes_beq, ◌==◌, true, false, List, [], ◌∷◌, ◌++◌, ◌≡◌, refl, ap, sym, ◌∙◌,
  codes, length, take, suc, append_assoc, append-nil,
}
use ollie_9p.Path.{slash}
use ollie_9p.Path.Clean.{clean_elements, clean, filepath_join, filepath_dir}
use ollie_9p.Text.{contains, join}
use ollie_9p.Text.Laws.{NoneContain, split-join, last_index-append}

-- A name that stands for an entry of a directory
pub record IsPlain (x : Bytes) : Type 0 where
  pub no_slash : contains x slash ≡ false
  pub some_bytes : (x == []) ≡ false
  pub not_dot : (x == codes ".") ≡ false
  pub not_up : (x == codes "..") ≡ false

abbrev pub AllPlain : List Bytes → Type 0
AllPlain [] = Unit
AllPlain (x ∷ xs) = IsPlain x × AllPlain xs

-- The absolute path with the given elements
abbrev pub rooted : List Bytes → Bytes
rooted xs = slash ∷ join xs (codes "/")

AllPlain-NoneContain :
    (xs ys : List Bytes) → AllPlain xs → NoneContain slash ys → NoneContain slash (xs ++ ys)
AllPlain-NoneContain [] ys h k = k
AllPlain-NoneContain (x ∷ xs) ys h k = (h.0.no_slash, AllPlain-NoneContain xs ys h.1 k)

clean_elements_plain :
    (xs rest kept : List Bytes)
    → AllPlain xs
    → clean_elements true kept (xs ++ rest) ≡ clean_elements true (reverse_aux xs kept) rest
unfolding clean_elements
clean_elements_plain [] rest kept h = refl
clean_elements_plain (x ∷ xs) rest kept h =
    rw (h.0.some_bytes, clean_elements)
      (rw (h.0.not_dot, clean_elements)
        (rw (h.0.not_up, clean_elements) (clean_elements_plain xs rest (x ∷ kept) h.1)))

join-append :
    (d : Bytes) (ds : List Bytes) (e : Bytes) (es : List Bytes)
    → join (d ∷ ds) (codes "/") ++ (codes "/" ++ join (e ∷ es) (codes "/"))
      ≡ join ((d ∷ ds) ++ e ∷ es) (codes "/")
unfolding join
join-append d [] e es = refl
join-append d (d' ∷ ds) e es =
    append_assoc d (codes "/" ++ join (d' ∷ ds) (codes "/")) _
    ∙ ap (λ t. d ++ (codes "/" ++ t)) (join-append d' ds e es)

clean-rooted :
    (x : Bytes) (xs : List Bytes)
    → NoneContain slash (x ∷ xs)
    → clean (rooted (x ∷ xs)) ≡ rooted (clean_elements true [] (x ∷ xs))
unfolding clean bytes_beq
clean-rooted x xs h = ap (λ ys. rooted (clean_elements true [] ys)) (split-join x xs slash h)

join-cons :
    (c : ℕ) (e : Bytes) (es : List Bytes)
    → join ((c ∷ e) ∷ es) (codes "/") ≡ c ∷ join (e ∷ es) (codes "/")
unfolding join
join-cons c e [] = refl
join-cons c e (e' ∷ es) = refl

-- filepath.Join of an absolute directory and a relative path that is not empty goes through the
-- elements of both.
pub filepath_join-rooted :
    (d : Bytes) (ds : List Bytes) (c : ℕ) (e : Bytes) (es : List Bytes)
    → NoneContain slash ((d ∷ ds) ++ (c ∷ e) ∷ es)
    → filepath_join (rooted (d ∷ ds)) (join ((c ∷ e) ∷ es) (codes "/"))
      ≡ rooted (clean_elements true [] ((d ∷ ds) ++ (c ∷ e) ∷ es))
unfolding filepath_join
filepath_join-rooted d ds c e es h =
    ap (filepath_join (rooted (d ∷ ds))) (join-cons c e es)
    ∙ ap (λ t. clean (rooted (d ∷ ds) ++ (codes "/" ++ t))) (sym (join-cons c e es))
    ∙ ap (λ t. clean (slash ∷ t)) (join-append d ds (c ∷ e) es)
    ∙ clean-rooted d (ds ++ (c ∷ e) ∷ es) h

AllPlain-append : (xs ys : List Bytes) → AllPlain xs → AllPlain ys → AllPlain (xs ++ ys)
AllPlain-append [] ys h k = k
AllPlain-append (x ∷ xs) ys h k = (h.0, AllPlain-append xs ys h.1 k)

clean_elements-plain : (xs : List Bytes) → AllPlain xs → clean_elements true [] xs ≡ xs
unfolding clean_elements
clean_elements-plain xs h =
    ap (clean_elements true []) (sym (append-nil xs))
    ∙ clean_elements_plain xs [] [] h
    ∙ reverse-reverse xs

-- The entry with a plain name of an absolute directory is directly below it.
pub filepath_join-plain :
    (d : Bytes) (ds : List Bytes) (name : Bytes)
    → AllPlain (d ∷ ds)
    → IsPlain name
    → filepath_join (rooted (d ∷ ds)) name ≡ rooted ((d ∷ ds) ++ name ∷ [])
unfolding join bytes_beq
filepath_join-plain d ds [] h k = absurd (cc k.some_bytes)
filepath_join-plain d ds (c ∷ e) h k =
    let all : AllPlain ((d ∷ ds) ++ (c ∷ e) ∷ []) =
      AllPlain-append (d ∷ ds) ((c ∷ e) ∷ []) h (k, tt) in
    filepath_join-rooted d ds c e []
      (AllPlain-NoneContain (d ∷ ds) ((c ∷ e) ∷ []) h (k.no_slash, tt))
    ∙ ap rooted (clean_elements-plain ((d ∷ ds) ++ (c ∷ e) ∷ []) all)

clean_elements-up :
    (xs : List Bytes) (last x : Bytes)
    → AllPlain xs
    → IsPlain last
    → IsPlain x
    → clean_elements true [] ((xs ++ last ∷ []) ++ codes ".." ∷ x ∷ []) ≡ xs ++ x ∷ []
unfolding clean_elements bytes_beq
clean_elements-up xs last x h k l =
    clean_elements_plain (xs ++ last ∷ []) (codes ".." ∷ x ∷ []) []
      (AllPlain-append xs (last ∷ []) h (k, tt))
    ∙ ap (λ kept. clean_elements true kept (codes ".." ∷ x ∷ []))
        (reverse_aux-append xs (last ∷ []) [])
    ∙ rw k.not_up (clean_elements_plain (x ∷ []) [] (reverse xs) (l, tt))
    ∙ ap reverse (sym (reverse_aux-append xs (x ∷ []) []))
    ∙ reverse-reverse (xs ++ x ∷ [])

-- "../x" leads from an absolute directory to x beside it.
pub filepath_join-up :
    (d : Bytes) (ds : List Bytes) (last x : Bytes)
    → AllPlain (d ∷ ds)
    → IsPlain last
    → IsPlain x
    → filepath_join (rooted ((d ∷ ds) ++ last ∷ [])) (codes "../" ++ x)
      ≡ rooted ((d ∷ ds) ++ x ∷ [])
unfolding join contains
filepath_join-up d ds last x h k l =
    filepath_join-rooted d (ds ++ last ∷ []) b'.' (codes ".") (x ∷ []) (
      AllPlain-NoneContain ((d ∷ ds) ++ last ∷ []) (codes ".." ∷ x ∷ [])
        (AllPlain-append (d ∷ ds) (last ∷ []) h (k, tt)) (refl, (l.no_slash, tt)))
    ∙ ap rooted (clean_elements-up (d ∷ ds) last x h k l)

take-suc-length : (s : Bytes) (c : ℕ) (t : Bytes) → take (suc (length s)) (s ++ c ∷ t) ≡ s ++ c ∷ []
take-suc-length [] c t = refl
take-suc-length (d ∷ s) c t = ap (λ r. d ∷ r) (take-suc-length s c t)

-- A slash at the end does not count.
clean-trailing :
    (d : Bytes) (ds : List Bytes)
    → AllPlain (d ∷ ds)
    → clean (rooted (d ∷ ds) ++ codes "/") ≡ rooted (d ∷ ds)
unfolding clean_elements bytes_beq join contains
clean-trailing d ds h =
    ap (λ t. clean (slash ∷ t)) (join-append d ds [] [])
    ∙ clean-rooted d (ds ++ [] ∷ []) (AllPlain-NoneContain (d ∷ ds) ([] ∷ []) h (refl, tt))
    ∙ ap rooted (clean_elements_plain (d ∷ ds) ([] ∷ []) [] h ∙ reverse-reverse (d ∷ ds))

-- filepath.Dir of an entry of an absolute directory is the directory.
pub filepath_dir-rooted :
    (d : Bytes) (ds : List Bytes) (x : Bytes)
    → AllPlain (d ∷ ds)
    → IsPlain x
    → filepath_dir (rooted ((d ∷ ds) ++ x ∷ [])) ≡ rooted (d ∷ ds)
unfolding filepath_dir join
filepath_dir-rooted d ds x h k =
    let p : Bytes = rooted (d ∷ ds) in
    ap (λ t. filepath_dir (slash ∷ t)) (sym (join-append d ds x []))
    ∙ rw (last_index-append p x slash k.no_slash, filepath_dir) refl
    ∙ ap clean (take-suc-length p slash x)
    ∙ clean-trailing d ds h
