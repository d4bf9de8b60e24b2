-- ===== src/SkipList/Tests.antt =====
-- Runs of the skip list, and the examples of its theorems
use libqb.Prelude.{ℕ, ◌≡◌, refl, true, Option, none, some, List, [], ◌∷◌, ◌>>=◌}
use libqb.Map.Keys.{Key}
use libqb.Map.Run.{Request, put, get, rm, count, map_run, entries_run}
use libqb.SkipList.{SkipList, level_generate}
use libqb.SkipList.Putting.{Chance, list_put}
use libqb.SkipList.Removing.{list_rm}
use libqb.SkipList.Iterating.{iter_create, iter_next}
use libqb.SkipList.Creation.{create, destroy, skiplist_ops}
use libqb.SkipList.Refine.{skiplist_refines, create-Holds}

-- Nodes that are made with the levels 0, 1 and 3
abbrev low : Chance
low = record { malloc = true; randoms = 20000 ∷ [] }

abbrev middle : Chance
middle = record { malloc = true; randoms = 1 ∷ 20000 ∷ [] }

abbrev high : Chance
high = record { malloc = true; randoms = 1 ∷ 2 ∷ 3 ∷ 20000 ∷ [] }

abbrev one : Key
one = 97 ∷ []

abbrev two : Key
two = 98 ∷ []

abbrev three : Key
three = 99 ∷ []

abbrev requests : List (Request Chance)
requests = put middle two 2 ∷ put high three 3 ∷ put low one 1 ∷ rm one ∷ get two ∷ count ∷ []

skiplist_refines_example : map_run skiplist_ops create requests ≡ entries_run [] requests
unfolding level_generate
skiplist_refines_example =
    skiplist_refines create [] create-Holds requests
      ((refl, (2, refl)), ((refl, (4, refl)), ((refl, (1, refl)), tt)))

abbrev filled : Option SkipList
filled =
    list_put middle create two 2 >>= (λ s. list_put high s three 3) >>= (λ s. list_put low s one 1)

-- The list has four levels until its first node is removed, which has one.
abbrev levels : Option (ℕ × ℕ)
levels = filled >>= λ s. list_rm s one >>= λ r. some (s.level, r.1.level)

levels-lost : levels ≡ some (4, 1)
unfolding list_put list_rm create
levels-lost = refl

-- An iterator stands at the only node, which is removed, and goes on.
abbrev iterated : Option SkipList
iterated = do
  s ← list_put low create one 1
  (i, s1) ← iter_create s none
  (e, j, s2) ← iter_next i s1
  (r, s3) ← list_rm s2 one
  (e2, k, s4) ← iter_next j s3
  some s4

-- The array of the header is then freed: the next call to write it fails.
put-freed : (iterated >>= λ s. list_put low s one 1) ≡ none
unfolding list_put list_rm create iter_create iter_next
put-freed = refl

destroyed : ((filled >>= destroy) >>= λ s. s.nodes 0) ≡ none
unfolding list_put create destroy
destroyed = refl
