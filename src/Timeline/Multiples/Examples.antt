-- ===== src/Timeline/Multiples/Examples.antt =====
-- Concrete steps and moduli, and the theorems about the least numbers at them.
use isobmff_rs.Common.{◌≡◌, none, some, refl, arith}
use isobmff_rs.Timeline.Multiples.{first_multiple_in_range, first_in_range}
use isobmff_rs.Timeline.Multiples.Least.{Least}
use isobmff_rs.Timeline.Multiples.Search.{
  first_multiple_in_range-Least, LeastReach, first_in_range-LeastReach,
}

-- The multiples of 400 modulo 1001 begin 400, 800, 198, 598, 998.
found : first_multiple_in_range 400 1001 100 300 ≡ some 3
unfolding first_multiple_in_range
found = refl

missing : first_multiple_in_range 10 30 11 19 ≡ none
unfolding first_multiple_in_range
missing = refl

first_multiple_in_range-Least_example :
    Least 400 1001 100 300 (first_multiple_in_range 400 1001 100 300)
first_multiple_in_range-Least_example =
    first_multiple_in_range-Least 400 1001 100 300 (omega arith) (omega arith) (omega arith)
      (omega arith) (omega arith)

first_in_range-LeastReach_example : LeastReach 400 500 1001 1000 (first_in_range 400 500 1001 1000)
first_in_range-LeastReach_example =
    first_in_range-LeastReach 400 500 1001 1000 (omega arith) (omega arith) (omega arith)
      (omega arith)
