-- ===== src/Storage/Catalog/Consumers/Extremes.antt =====
-- `GetMinOffset` and `GetMaxOffset` of pkg/storage/catalog.go.
use yuclase.Base.{
  ℕ, ◌≤◌, ◌≡◌, refl, sym, ap, ◌∙◌, some, List, [], ◌∷◌, if◌then◌else◌, Bool-cases, inl, inr, arith,
  ltb, ◌<◌, ◌⊎◌,
}
use yuclase.Base.Int64.{ℤ, pos, pos_part, negsuc, ltb_ℤ}
use yuclase.Storage.Document.{ConsumerOffset}
use yuclase.Storage.Catalog.Consumers.{
  Catalog, get_min_offset, min_loop, lower_to, get_max_offset, max_loop,
}

abbrev pub Consumers : Type 0
Consumers = List (List ℕ × ConsumerOffset)

-- Every consumer's offset is a natural number that `P` holds of.
abbrev pub EveryOffset : (ℕ → Type 0) → Consumers → Type 0
EveryOffset P [] = Unit
EveryOffset P (e ∷ m) = ((o : ℕ) × (e.1.offset ≡ pos o) × P o) × EveryOffset P m

abbrev pub SomeOffset : ℕ → Consumers → Type 0
SomeOffset n [] = ⊥
SomeOffset n (e ∷ m) = (e.1.offset ≡ pos n) ⊎ SomeOffset n m

-- The loop of `GetMinOffset` from `a`: the result is `a` or an offset, and none is less.
record Least (a n : ℕ) (m : Consumers) : Type 0 where
  at_most : n ≤ a
  lower : EveryOffset (λ o. n ≤ o) m
  attained : (n ≡ a) ⊎ SomeOffset n m

lower_to_less : (a o : ℕ) → o < a → lower_to (pos a) (pos o) ≡ pos o
lower_to_less a o h = ground arith

lower_to_more : (a o : ℕ) → a ≤ o → lower_to (pos a) (pos o) ≡ pos a
lower_to_more a o h = ground arith

less_or_more : (a o : ℕ) → (o < a) ⊎ (a ≤ o)
less_or_more a o = elim (Bool-cases (ltb o a)) [
  | inl less ↦ inl (ground arith)
  | inr more ↦ inr (ground arith)
]

-- The loop over `m` behind an offset `o`, from `a`, by the loop from the less of both.
module _ {a o n : ℕ} {e : List ℕ × ConsumerOffset} {m : Consumers} (q : e.1.offset ≡ pos o) where
  Least-less : o < a → Least o n m → Least a n (e ∷ m)
  Least-less less l = record {
    at_most = omega (arith, l.at_most);
    lower = ((o, q, l.at_most), l.lower);
    attained =
        inr (elim l.attained [ inl same ↦ inl (q ∙ ap pos (sym same)) | inr later ↦ inr later ]);
  }

  Least-more : a ≤ o → Least a n m → Least a n (e ∷ m)
  Least-more more l = record {
    at_most = l.at_most;
    lower = ((o, q, omega (arith, l.at_most)), l.lower);
    attained = elim l.attained [ inl same ↦ inl same | inr later ↦ inr (inr later) ];
  }

-- `m` is the rest of the loop and `a` what it has found.
min_loop_lem :
    (a : ℕ) (m : Consumers)
    → EveryOffset (λ o. Unit) m
    → (n : ℕ) × (min_loop (pos a) m ≡ pos n) × Least a n m
unfolding min_loop
min_loop_lem a [] h = (a, refl, record { at_most = omega arith; lower = tt; attained = inl refl })
min_loop_lem a ((id, c) ∷ m) ((o, q, _), h) = elim (less_or_more a o) [
  | inl less ↦
      let (n, r, l) = min_loop_lem o m h in
      (
        n,
        ap (λ z. min_loop (lower_to (pos a) z) m) q
            ∙ ap (λ z. min_loop z m) (lower_to_less a o less)
            ∙ r,
        Least-less q less l,
      )
  | inr more ↦
      let (n, r, l) = min_loop_lem a m h in
      (
        n,
        ap (λ z. min_loop (lower_to (pos a) z) m) q
            ∙ ap (λ z. min_loop z m) (lower_to_more a o more)
            ∙ r,
        Least-more q more l,
      )
]

-- `n` is the least of the offsets of `m`.
pub record IsLeast (n : ℕ) (m : Consumers) : Type 0 where
  pub lower : EveryOffset (λ o. n ≤ o) m
  pub attained : SomeOffset n m

-- When there are consumers and no offset is negative, `GetMinOffset` is the least of the offsets.
get_min_offset-IsLeast :
    (c : Catalog) (e : List ℕ × ConsumerOffset) (m : Consumers)
    → c.consumers ≡ some (e ∷ m)
    → EveryOffset (λ o. Unit) (e ∷ m)
    → (n : ℕ) × (get_min_offset c ≡ pos n) × IsLeast n (e ∷ m)
unfolding get_min_offset min_loop
get_min_offset-IsLeast c (id, x) m q ((o, p, _), h) =
    let (n, r, l) = min_loop_lem o m h in
    (
      n,
      rw (q) (ap (λ z. min_loop (lower_to (negsuc 0) z) m) p ∙ r),
      record {
        lower = ((o, p, l.at_most), l.lower);
        attained = elim l.attained [
          | inl same ↦ inl (p ∙ ap pos (sym same))
          | inr later ↦ inr later
        ];
      },
    )

-- The loop of `GetMaxOffset` from `a`.
record Most (a n : ℕ) (m : Consumers) : Type 0 where
  at_least : a ≤ n
  upper : EveryOffset (λ o. o ≤ n) m
  attained : (n ≡ a) ⊎ SomeOffset n m

abbrev raise_to : ℤ → ℤ → ℤ
raise_to m o = if ltb_ℤ m o then o else m

raise_to_more : (a o : ℕ) → a < o → raise_to (pos a) (pos o) ≡ pos o
raise_to_more a o h = ground arith

raise_to_less : (a o : ℕ) → o ≤ a → raise_to (pos a) (pos o) ≡ pos a
raise_to_less a o h = ground arith

module _ {a o n : ℕ} {e : List ℕ × ConsumerOffset} {m : Consumers} (q : e.1.offset ≡ pos o) where
  Most-more : a < o → Most o n m → Most a n (e ∷ m)
  Most-more more l = record {
    at_least = omega (arith, l.at_least);
    upper = ((o, q, l.at_least), l.upper);
    attained =
        inr (elim l.attained [ inl same ↦ inl (q ∙ ap pos (sym same)) | inr later ↦ inr later ]);
  }

  Most-less : o ≤ a → Most a n m → Most a n (e ∷ m)
  Most-less less l = record {
    at_least = l.at_least;
    upper = ((o, q, omega (arith, l.at_least)), l.upper);
    attained = elim l.attained [ inl same ↦ inl same | inr later ↦ inr (inr later) ];
  }

max_loop_lem :
    (a : ℕ) (m : Consumers)
    → EveryOffset (λ o. Unit) m
    → (n : ℕ) × (max_loop (pos a) m ≡ pos n) × Most a n m
unfolding max_loop
max_loop_lem a [] h = (a, refl, record { at_least = omega arith; upper = tt; attained = inl refl })
max_loop_lem a ((id, c) ∷ m) ((o, q, _), h) = elim (less_or_more o a) [
  | inl more ↦
      let (n, r, l) = max_loop_lem o m h in
      (
        n,
        ap (λ z. max_loop (raise_to (pos a) z) m) q
            ∙ ap (λ z. max_loop z m) (raise_to_more a o more)
            ∙ r,
        Most-more q more l,
      )
  | inr less ↦
      let (n, r, l) = max_loop_lem a m h in
      (
        n,
        ap (λ z. max_loop (raise_to (pos a) z) m) q
            ∙ ap (λ z. max_loop z m) (raise_to_less a o less)
            ∙ r,
        Most-less q less l,
      )
]

-- `n` is above the offsets of `m`, and one of them or 0.
pub record IsMost (n : ℕ) (m : Consumers) : Type 0 where
  pub upper : EveryOffset (λ o. o ≤ n) m
  pub attained : (n ≡ 0) ⊎ SomeOffset n m

-- When no offset is negative, `GetMaxOffset` is the greatest of the offsets, or 0 where all are 0
-- or there is no consumer.
get_max_offset-IsMost :
    (c : Catalog) (m : Consumers)
    → c.consumers ≡ some m
    → EveryOffset (λ o. Unit) m
    → (n : ℕ) × (get_max_offset c ≡ pos n) × IsMost n m
unfolding get_max_offset
get_max_offset-IsMost c m q h =
    let (n, r, l) = max_loop_lem 0 m h in
    (n, rw (q) r, record { upper = l.upper; attained = l.attained })

-- When there are consumers and no offset is negative, `GetMinOffset` is the least of the offsets,
-- `GetMaxOffset` is the greatest of them, or 0 where all are 0, and the first is at most the second.
pub get_min_offset-le-get_max_offset :
    (c : Catalog) (e : List ℕ × ConsumerOffset) (m : Consumers)
    → c.consumers ≡ some (e ∷ m)
    → EveryOffset (λ o. Unit) (e ∷ m)
    → (n k : ℕ) × (get_min_offset c ≡ pos n)
      × (get_max_offset c ≡ pos k)
      × IsLeast n (e ∷ m)
      × IsMost k (e ∷ m)
      × (n ≤ k)
get_min_offset-le-get_max_offset c e m q h =
    let (n, least, l) = get_min_offset-IsLeast c e m q h in
    let (k, most, u) = get_max_offset-IsMost c (e ∷ m) q h in
    let (o, p, above) = l.lower.0 in
    let (o', p', below) = u.upper.0 in
    let same : o ≡ o' = ap pos_part (sym p ∙ p') in (n, k, least, most, l, u, omega (arith, same))
