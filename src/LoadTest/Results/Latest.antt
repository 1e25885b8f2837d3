-- ===== src/LoadTest/Results/Latest.antt =====
-- A run writes its file of results, and the latest file is read back (scripts/load-test/).
use fincart_assissment.Common.{
  ◌≡◌, refl, ap, ◌⊎◌, inl, inr, false, Bool-cases, some, List, [], ◌∷◌, All, arith,
}
use mathlib.Core.Path.{subst}
use fincart_assissment.Common.Text.{Str}
use fincart_assissment.LoadTest.Results.{str_lt, insert_name, sort_names, last_name}

pub str_lt_irrefl : (s : Str) → str_lt s s ≡ false
unfolding str_lt
str_lt_irrefl [] = refl
str_lt_irrefl (c ∷ s) = ground (arith, str_lt_irrefl s)

str_lt_antisym : (s t : Str) → str_lt s t ≡ false → str_lt t s ≡ false → s ≡ t
unfolding str_lt
str_lt_antisym [] [] h k = refl
str_lt_antisym [] (d ∷ t) h k = absurd (cc)
str_lt_antisym (c ∷ s) [] h k = absurd (cc)
str_lt_antisym (c ∷ s) (d ∷ t) h k = ground (arith, str_lt_antisym s t)

-- None of the names comes after this one.
abbrev pub IsLatest : Str → List Str → Type 0
IsLatest n = All (λ m. str_lt n m ≡ false)

abbrev pub Occurs : Str → List Str → Type 0
Occurs n [] = ⊥
Occurs n (m ∷ ms) = (m ≡ n) ⊎ Occurs n ms

last_name-cons :
    (m n : Str) (names : List Str) → last_name names ≡ some n → last_name (m ∷ names) ≡ some n
last_name-cons m n [] h = absurd (cc)
last_name-cons m n (x ∷ xs) h = h

last_name-insert_latest :
    (n : Str) (names : List Str) → IsLatest n names → last_name (insert_name n names) ≡ some n
unfolding insert_name
last_name-insert_latest n [] h = refl
last_name-insert_latest n (m ∷ ms) (first, h) =
    rw first (last_name-cons m n (insert_name n ms) (last_name-insert_latest n ms h))

last_name-insert :
    (m n : Str) (names : List Str)
    → str_lt n m ≡ false
    → last_name names ≡ some n
    → last_name (insert_name m names) ≡ some n
unfolding insert_name
last_name-insert m n [] h k = absurd (cc)
last_name-insert m n (x ∷ []) h k = elim (Bool-cases (str_lt m x)) [
  | inl before ↦ rw before k
  | inr after ↦
      let same : x ≡ n = cc in
      rw after (ap some (str_lt_antisym m n (subst (λ y. str_lt m y ≡ false) same after) h))
]
last_name-insert m n (x ∷ y ∷ ys) h k = elim (Bool-cases (str_lt m x)) [
  | inl before ↦ rw before k
  | inr after ↦
      rw after (last_name-cons x n (insert_name m (y ∷ ys)) (last_name-insert m n (y ∷ ys) h k))
]

insert_name-IsLatest :
    (n m : Str) (names : List Str)
    → str_lt n m ≡ false
    → IsLatest n names
    → IsLatest n (insert_name m names)
unfolding insert_name
insert_name-IsLatest n m [] h k = (h, tt)
insert_name-IsLatest n m (x ∷ xs) h (first, k) = elim (Bool-cases (str_lt m x)) [
  | inl before ↦ rw before (h, (first, k))
  | inr after ↦ rw after (first, insert_name-IsLatest n m xs h k)
]

sort_names-IsLatest :
    (n : Str) (names : List Str) → IsLatest n names → IsLatest n (sort_names names)
unfolding sort_names
sort_names-IsLatest n [] h = tt
sort_names-IsLatest n (m ∷ ms) (first, h) =
    insert_name-IsLatest n m (sort_names ms) first (sort_names-IsLatest n ms h)

-- The last of the sorted names is the latest one.
pub last_name-sort_names :
    (n : Str) (names : List Str)
    → IsLatest n names
    → Occurs n names
    → last_name (sort_names names) ≡ some n
unfolding sort_names
last_name-sort_names n [] h o = absurd o
last_name-sort_names n (m ∷ ms) (first, h) (inl same) =
    rw same (last_name-insert_latest n (sort_names ms) (sort_names-IsLatest n ms h))
last_name-sort_names n (m ∷ ms) (first, h) (inr o) =
    last_name-insert m n (sort_names ms) first (last_name-sort_names n ms h o)
