-- ===== src/Sort/Tests.antt =====
-- Sorting three numbers.
use john_os.Common.{ℕ, ◌^◌, ◌<◌, ◌≡◌, refl, arith, ◌==◌, if◌then◌else◌}
use john_os.Common.Store.{Store}
use john_os.Sort.{sort_array2, sort_loop, sort_step, search_down, move_up, zero_words}
use john_os.Sort.Sorted.{IsSorted, count, sort_array2-IsSorted}

abbrev numbers : Store
numbers i = if i == 0 then 30 else if i == 1 then 10 else 20

sorts : let t = sort_array2 (λ i. 7) numbers 3 in (t 0 ≡ 10) × (t 1 ≡ 20) × (t 2 ≡ 30) × (t 3 ≡ 7)
unfolding sort_array2 sort_loop sort_step search_down move_up zero_words
sorts = (refl, refl, refl, refl)

sort_array2-IsSorted_example :
    IsSorted (sort_array2 (λ i. 7) numbers 3) 3
    × (count 20 (sort_array2 (λ i. 7) numbers 3) 3 ≡ count 20 numbers 3)
sort_array2-IsSorted_example = sort_array2-IsSorted (λ i. 7) numbers 3 20 (omega arith) small
  where
    small : (k : ℕ) → k < 3 → numbers k < 2 ^ 16
    small k low = ground arith
