-- ===== src/Storage/Index/Entries/Search.antt =====
-- `sort.Search` finds the first place where a monotone test holds.
use yuclase.Base.{
  ℕ, zero, suc, ◌+◌, ◌-◌, ◌/◌, ◌<◌, ◌≤◌, ◌≡◌, Bool, true, false, arith, ltb, Bool-cases, inl, inr,
}
use mathlib.Core.Path.{subst}
use yuclase.Storage.Index.Entries.{search_loop, sort_search}

-- Once true, true from there on.
abbrev pub IsMonotone : (ℕ → Bool) → ℕ → Type 0
IsMonotone f n = (i j : ℕ) → i ≤ j → j < n → f i ≡ true → f j ≡ true

-- `r` is the first place below `n` where `f` holds, or `n`.
abbrev pub IsFirst : (ℕ → Bool) → ℕ → ℕ → Type 0
IsFirst f n r = (r ≤ n) × ((i : ℕ) → i < r → f i ≡ false) × (r < n → f r ≡ true)

-- Below a place where the test fails it fails too.
not_before : (f : ℕ → Bool) (n m a : ℕ) → IsMonotone f n → m < n → a ≤ m → f m ≡ false → f a ≡ false
not_before f n m a mono hm ha miss = elim (Bool-cases (f a)) [
  | inl hit ↦ ground (arith, mono a m ha hm hit)
  | inr no' ↦ no'
]

ended :
    (f : ℕ → Bool) (n i j : ℕ)
    → ((a : ℕ) → a < i → f a ≡ false)
    → (j < n → f j ≡ true)
    → j ≤ i
    → i ≤ j
    → j ≤ n
    → IsFirst f n i
ended f n i j below above hji hij hjn =
    let e : j ≡ i = omega arith in
    subst (λ x. IsFirst f n x) e (hjn, λ a h. below a (omega arith), above)

search_loop-IsFirst :
    (f : ℕ → Bool) (n fuel i j : ℕ)
    → IsMonotone f n
    → j - i ≤ fuel
    → i ≤ j
    → j ≤ n
    → ((a : ℕ) → a < i → f a ≡ false)
    → (j < n → f j ≡ true)
    → IsFirst f n (search_loop fuel f i j)
unfolding search_loop
search_loop-IsFirst f n zero i j mono hf hij hjn below above =
    ended f n i j below above (omega arith) hij hjn
search_loop-IsFirst f n (suc fuel) i j mono hf hij hjn below above = elim (Bool-cases (ltb i j)) [
  | inl more ↦ elim (Bool-cases (f ((i + j) / 2))) [
    | inl hit ↦
        rw (more, hit)
          (search_loop-IsFirst f n fuel i ((i + j) / 2) mono (ground arith) (ground arith)
            (ground arith) below (λ _. hit))
    | inr miss ↦
        rw (more, miss)
          (search_loop-IsFirst f n fuel ((i + j) / 2 + 1) j mono (ground arith) (ground arith) hjn
            (λ a h. not_before f n ((i + j) / 2) a mono (ground arith) (omega arith) miss) above)
  ]
  | inr done ↦ rw done (ended f n i j below above (ground arith) hij hjn)
]

-- For a test that stays true once it is true, `sort.Search` returns the first place where it is
-- true, or the length where there is none.
pub sort_search-IsFirst : (f : ℕ → Bool) (n : ℕ) → IsMonotone f n → IsFirst f n (sort_search n f)
unfolding sort_search
sort_search-IsFirst f n mono =
    search_loop-IsFirst f n n 0 n mono (omega arith) (omega arith) (omega arith)
      (λ a h. absurd (omega arith)) (λ h. absurd (omega arith))
