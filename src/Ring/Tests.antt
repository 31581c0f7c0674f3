-- ===== src/Ring/Tests.antt =====
-- A ring of three values.
use explorer_api_gql.Base.{ℕ, ◌≡◌, refl, none, some, List, [], ◌∷◌, take}
use explorer_api_gql.Ring.{Ring, new, add, reset, list}
use explorer_api_gql.Ring.Recent.{Op, push, clear, run, pushed, list-run}

abbrev fresh : Ring ℕ
fresh = record { nodes = none ∷ none ∷ none ∷ []; capacity = 3; head = 0; depth = 0 }

new-fresh : new {A = ℕ} 3 ≡ some fresh
unfolding new
new-fresh = refl

new_too_small : new {A = ℕ} 1 ≡ none
unfolding new
new_too_small = refl

abbrev ops : List (Op ℕ)
ops = push 1 ∷ push 2 ∷ clear ∷ push 3 ∷ push 4 ∷ push 5 ∷ push 6 ∷ []

newest_three : list 9 (run fresh ops) ≡ 6 ∷ 5 ∷ 4 ∷ []
unfolding list run add reset
newest_three = refl

list-run_example : list 2 (run fresh ops) ≡ take 2 (pushed [] ops)
list-run_example = list-run 3 new-fresh ops 2
