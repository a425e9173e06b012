-- ===== src/Tests/Text.antt =====
-- Runs of the functions of `Text` and of the path functions.
use ollie_9p.Prelude.{◌≡◌, refl, ◌∷◌, [], codes, bytes_beq}
use ollie_9p.Text.Space.{trim_space, fields}
use ollie_9p.Path.{path_parent, qid_path}
use ollie_9p.Path.Clean.{filepath_join}
use ollie_9p.Prelude.Outcome.{ok}

trim_space_run : trim_space (codes " \n a b\t ") ≡ codes "a b"
unfolding trim_space
trim_space_run = refl

fields_run : fields (codes " name=x  cwd=/tmp\n") ≡ codes "name=x" ∷ codes "cwd=/tmp" ∷ []
unfolding fields
fields_run = refl

qid_path_run : qid_path (codes "/a") ≡ 564752086074186029
unfolding qid_path bytes_beq
qid_path_run = refl

filepath_join_run : filepath_join (codes "/home/me") (codes "../x//./y") ≡ codes "/home/x/y"
unfolding filepath_join bytes_beq
filepath_join_run = refl

path_parent_run : path_parent (codes "/s/x") ≡ ok (codes "/s")
unfolding path_parent bytes_beq
path_parent_run = refl
