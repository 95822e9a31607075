-- ===== src/Ids/Examples.antt =====
-- Runs of the id generator.
use refault.Prelude.{◌≡◌, refl, ◌>>=◌, true, false, ok, [], ◌∷◌, arith, List}
use refault.Ids.{new_id, new_range, get}
use refault.Ids.Unique.{
  Request, one, many, requests, requests-consecutive, ids_from, to_vec, new_ids, new_range-to_vec,
  get-past_end,
}

first_id : new_id true 0 ≡ ok (1, 1)
unfolding new_id
first_id = refl

abbrev mixed : List Request
mixed = one ∷ many 3 ∷ one ∷ []

requests-consecutive_example : requests false mixed 10 ≡ ok (ids_from 11 5, 15)
requests-consecutive_example = requests-consecutive false mixed 10 (omega arith) (omega arith)

new_range-to_vec_example :
    (do (r, after) ← new_range true 3 10; ids ← to_vec r 0 3; ok (ids, after)) ≡ new_ids true 3 10
new_range-to_vec_example = new_range-to_vec true 3 10 (omega arith) (omega arith)

get-past_end_example :
    (do (r, after) ← new_range true 3 10; get r 3)
    ≡ (do (r, after) ← new_range true 3 10; (id, next) ← new_id true after; ok id)
get-past_end_example = get-past_end true 3 10 (omega arith) (omega arith)
