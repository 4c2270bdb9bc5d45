-- ===== src/Quicksort.antt =====
-- software/spmd/quicksort/main.c, and quicksort_by4/main.c, the same with less data. An `int` is an
-- integer, and the sum, the only arithmetic on the values, is checked for overflow. An array is a function from
-- indices; what stays within its bounds is stated where it matters. The barriers and the stores of
-- the result are not here: a tile works on its own copy of the data.
pub mod Data
pub mod Arrays
pub mod Partition
pub mod Copy
pub mod Split
pub mod Sort
pub mod Program
mod Tests
use no_cgbp_rtl.Base.{
  ℕ, zero, suc, ◌+◌, ◌-◌, Bool, true, false, not, ◌&&◌, Option, none, some, ltb, ◌^◌, List, [], ◌∷◌,
  ◌==◌, if◌then◌else◌,
}
use no_cgbp_rtl.Base.Int.{ℤ, pos, negsuc, ◌+ℤ◌, ltb_ℤ}

abbrev pub Array : Type 0
Array = ℕ → ℤ

unfoldable pub update : Array → ℕ → ℤ → Array
update a i v j = if i == j then v else a j

-- The loop that splits `lst` about `center`: `k` rounds are left, `i` is the index.
unfoldable pub partition :
    (lst : Array) (center : ℤ) (k i front back : ℕ) (local_lst : Array) → ℕ × ℕ × Array
partition lst center zero i front back local_lst = (front, back, local_lst)
partition lst center (suc k) i front back local_lst =
    let temp = lst i in
    elim (ltb_ℤ temp center) [
      | true ↦ partition lst center k (i + 1) (front + 1) back (update local_lst front temp)
      | false ↦ partition lst center k (i + 1) front (back - 1) (update local_lst back temp)
    ]

-- `lst[i] = local_lst[i]`, the array `lst` starting at `base` of the caller's
unfoldable pub copy : (base k i : ℕ) (lst local_lst : Array) → Array
copy base zero i lst local_lst = lst
copy base (suc k) i lst local_lst =
    copy base k (i + 1) (update lst (base + i) (local_lst i)) local_lst

-- The caller's array and `local_lst` after the call, or bsg_fail
pub data Outcome : Type 0 where
  done : (lst local_lst : Array) → Outcome
  failed : Outcome
  out_of_fuel : Outcome

infixl 5 ◌>>=◌
abbrev pub ◌>>=◌ : Outcome → (Array → Array → Outcome) → Outcome
Outcome.done lst local_lst >>= f = f lst local_lst
Outcome.failed >>= f = Outcome.failed
Outcome.out_of_fuel >>= f = Outcome.out_of_fuel

-- One call, `sort` being the calls that it makes. The array `lst` of the call starts at `base` of the
-- caller's. With no elements at all `back` is -1, which differs from `front`.
unfoldable pub sort_body :
    (sort : (base n : ℕ) (lst local_lst : Array) → Outcome)
    → (base n : ℕ) (lst local_lst : Array) → Outcome
sort_body sort base n lst local_lst =
    let center = lst base in
    let (front, back, parted) = partition lst center (n - 1) (base + 1) 0 (n - 1) local_lst in
    let placed = update parted back center in
    let copied = copy base n 0 lst placed in
    if n == 1
    then Outcome.done lst local_lst
    else if n == 0
    then Outcome.failed
    else if back == front
    then (if not (front == 0) then sort base front copied placed else Outcome.done copied placed)
      >>= (λ lst' local'.
          if not (back == n - 1)
          then sort (base + (back + 1)) (n - 1 - back) lst' local'
          else Outcome.done lst' local')
    else Outcome.failed

unfoldable pub quicksort : (fuel base n : ℕ) (lst local_lst : Array) → Outcome
quicksort zero base n lst local_lst = Outcome.out_of_fuel
quicksort (suc fuel) base n lst local_lst = sort_body (quicksort fuel) base n lst local_lst

-- Whether an integer is one of the type `int`
abbrev pub in_int : ℤ → Bool
in_int (pos n) = ltb n (2 ^ 31)
in_int (negsuc n) = ltb n (2 ^ 31)

-- The check of main: whether no element is out of order, where bsg_fail is called and does not return,
-- and the sum; `none` when the sum overflows, which has no meaning.
unfoldable pub checked_sum : (k i : ℕ) (sum : ℤ) → Array → Option (Bool × ℤ)
checked_sum zero i sum copied = some (true, sum)
checked_sum (suc k) i sum copied =
    let next = sum +ℤ copied (i + 1) in
    let rest = checked_sum k (i + 1) next copied in
    if in_int next
    then (if ltb_ℤ (copied (i + 1)) (copied i) then some (false, next) else rest)
    else none

-- `sum == ANSWER` and nothing out of order, or bsg_fail
abbrev pub verdict : (answer : ℤ) → Option (Bool × ℤ) → Option Bool
verdict answer none = none
verdict answer (some (in_order, sum)) =
    some (in_order && not (ltb_ℤ sum answer) && not (ltb_ℤ answer sum))

-- What main makes of the sorted copy
unfoldable pub judge : (num_data : ℕ) (answer : ℤ) → Outcome → Option Bool
judge num_data answer (Outcome.done sorted local_lst) =
    verdict answer (checked_sum (num_data - 1) 0 (sorted 0) sorted)
judge num_data answer Outcome.failed = some false
judge num_data answer Outcome.out_of_fuel = none

-- What a tile does between the barriers: it passes, or calls bsg_fail, or has no meaning.
unfoldable pub passes : (num_data : ℕ) (data_copy local_lst : Array) (answer : ℤ) → Option Bool
passes num_data data_copy local_lst answer =
    judge num_data answer (quicksort num_data 0 num_data data_copy local_lst)
