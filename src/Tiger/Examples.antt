-- ===== src/Tiger/Examples.antt =====
-- The theorems about the tree hash at concrete inputs: 3000 bytes, three leaves.
use mldonkey.Prelude.{
  ℕ, List, [], ◌∷◌, ◌≡◌, arith, length, replicate, length-replicate, take, drop, some, none,
}
use mldonkey.Tiger.{tigertree_unsafe_string, tigertree_unsafe64_fd}
use mldonkey.Tiger.Levels.{level, leaves}
use mldonkey.Tiger.Tree.{tigertree_unsafe_string-level}
use mldonkey.Tiger.Short.{tigertree_unsafe64_fd_short}
use mldonkey.Tiger.Stream.{tigertree_unsafe64_fd-tigertree_unsafe_string}

-- A stand-in for the digest.
abbrev first_two : List ℕ → List ℕ
first_two bytes = take 2 bytes

abbrev data_bytes : List ℕ
data_bytes = replicate 3000 7

data_length : length data_bytes ≡ 3000
data_length = length-replicate {A = ℕ} 3000 7

tigertree_unsafe_string-level_example :
    level first_two 2 (leaves first_two 4 data_bytes)
    ≡ tigertree_unsafe_string first_two data_bytes (length data_bytes) ∷ []
tigertree_unsafe_string-level_example =
    tigertree_unsafe_string-level first_two 2 data_bytes (omega (arith, data_length))
      (omega (arith, data_length))

tigertree_unsafe64_fd-tigertree_unsafe_string_example :
    tigertree_unsafe64_fd first_two data_bytes 500 2400
    ≡ some (tigertree_unsafe_string first_two (take 2400 (drop 500 data_bytes)) 2400)
tigertree_unsafe64_fd-tigertree_unsafe_string_example =
    tigertree_unsafe64_fd-tigertree_unsafe_string first_two data_bytes 500 2400
      (omega (arith, data_length)) (omega arith)

tigertree_unsafe64_fd_short_example : tigertree_unsafe64_fd first_two data_bytes 500 2600 ≡ none
tigertree_unsafe64_fd_short_example =
    tigertree_unsafe64_fd_short first_two data_bytes 500 2600 (omega arith)
      (omega (arith, data_length)) (omega arith)
