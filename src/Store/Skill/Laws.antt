-- ===== src/Store/Skill/Laws.antt =====
-- The list of the skills is in the order of their names.
use ollie_9p.Prelude.{List, Option, ◌≡◌, arith, Bytes, []}
use ollie_9p.Prelude.Outcome.{Outcome-cases, gives, fails, panics, ok}
use ollie_9p.Store.Os.{Os}
use ollie_9p.Store.Skill.{Meta, list_skills, list_dirs}
use ollie_9p.Text.Order.{sort_by}
use ollie_9p.Text.Order.Laws.{IsSorted, sort_by-IsSorted}

module _ (os : Os) (parse : Bytes → Bytes → Bytes → Option Meta) (dirs : List Bytes) where
  -- The skills that are found, if the search does not panic, are in the order of their names.
  pub list_skills-IsSorted :
      (disk : os.Disk) (metas : List Meta)
      → (list_skills os parse dirs disk).0 ≡ ok metas
      → IsSorted (λ m. m.name) metas
  unfolding list_skills
  list_skills-IsSorted disk metas h =
      elim (Outcome-cases (list_dirs os parse dirs dirs ([], []) disk).0) [
        | fails m e ↦ absurd (ground arith)
        | panics e ↦ absurd (ground arith)
        | gives found e ↦
            let same : sort_by (λ m. m.name) found.1 ≡ metas = ground arith in
            rw (← same) (sort_by-IsSorted (λ m. m.name) found.1).0
      ]
