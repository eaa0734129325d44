-- ===== src/Base/Text/Words.antt =====
-- Words of printable ASCII: no white space is seen in them, and `strings.Fields` gives them back.
use Prim.Native.Nat.{ℕ, zero, suc, ◌+◌, ◌<◌}
use mathlib.Core.Path.{◌≡◌, refl, sym, ap, ◌∙◌, subst}
use mathlib.Core.Bool.{true, false}
use mathlib.Core.List.{
  List, [], ◌∷◌, ◌++◌, map, reverse, append-nil, append_assoc, reverse-append, reverse-reverse,
}
use native.Mathlib.Omega.{arith}
use yuclase.Base.Tests.{ltb, ◌==◌, bytes_eq}
use yuclase.Base.Lists.{length, length-append}
use yuclase.Base.Text.{
  is_space, drop_prefix, drop_space, trim_left, trim_space, wide_spaces, flush, fields, fields_loop,
  join,
}

-- A printable byte of ASCII that is no space.
abbrev pub IsPlain : ℕ → Type 0
IsPlain c = (32 < c) × (c < 127)

pub data IsWord : List ℕ → Type 0 where
  end : IsWord []
  byte : {c : ℕ} → {cs : List ℕ} → IsPlain c → IsWord cs → IsWord (c ∷ cs)

-- Words that are not empty.
pub data AreWords : List (List ℕ) → Type 0 where
  none : AreWords []
  word :
      {c : ℕ}
      → {cs : List ℕ} → {ws : List (List ℕ)} → IsWord (c ∷ cs)
      → AreWords ws
      → AreWords ((c ∷ cs) ∷ ws)

not_byte : (c k : ℕ) → c < 127 → 127 < k → (c == k) ≡ false
not_byte c k p q = ground arith

not_space : (c : ℕ) → 32 < c → is_space c ≡ false
unfolding is_space
not_space c p = ground arith

-- Sequences that begin with a byte beyond ASCII.
abbrev AreWide : List (List ℕ) → Type 0
AreWide [] = Unit {0}
AreWide ([] ∷ ps) = ⊥
AreWide ((k ∷ ks) ∷ ps) = (127 < k) × AreWide ps

drop_prefix-plain :
    (ps : List (List ℕ)) (c : ℕ) (cs : List ℕ)
    → AreWide ps
    → c < 127
    → drop_prefix ps (c ∷ cs) ≡ c ∷ cs
unfolding drop_prefix bytes_eq
drop_prefix-plain [] c cs h p = refl
drop_prefix-plain ([] ∷ ps) c cs h p = absurd h
drop_prefix-plain ((k ∷ ks) ∷ ps) c cs h p =
    rw (not_byte c k p h.0) (drop_prefix-plain ps c cs h.1 p)

drop_wide-plain :
    (wide : List (List ℕ)) (c : ℕ) (cs : List ℕ)
    → AreWide wide
    → IsPlain c
    → drop_space wide (c ∷ cs) ≡ c ∷ cs
unfolding drop_space
drop_wide-plain wide c cs h p = rw (not_space c p.0) (drop_prefix-plain wide c cs h p.1)

pub trim_left-plain :
    (n : ℕ) (wide : List (List ℕ)) (c : ℕ) (cs : List ℕ)
    → AreWide wide
    → IsPlain c
    → trim_left n wide (c ∷ cs) ≡ c ∷ cs
unfolding trim_left
trim_left-plain zero wide c cs h p = refl
trim_left-plain (suc n) wide c cs h p =
    ap (trim_left n wide) (drop_wide-plain wide c cs h p) ∙ trim_left-plain n wide c cs h p

pub wide_spaces-AreWide : AreWide wide_spaces
wide_spaces-AreWide = omega arith

reversed_AreWide : AreWide (map reverse wide_spaces)
reversed_AreWide = omega arith

drop_space-plain :
    (c : ℕ) (cs : List ℕ) → 32 < c → c < 127 → drop_space wide_spaces (c ∷ cs) ≡ c ∷ cs
drop_space-plain c cs p q = drop_wide-plain wide_spaces c cs wide_spaces-AreWide (p, q)

not_shorter : (n : ℕ) → ltb n n ≡ false
not_shorter n = ground arith

shorter : (n : ℕ) → ltb n (suc n) ≡ true
shorter n = ground arith

-- A byte of a word goes to the word that is being read.
fields_loop-plain :
    (n c : ℕ) (read cs : List ℕ)
    → 32 < c
    → c < 127
    → fields_loop (suc n) read (c ∷ cs) ≡ fields_loop n (read ++ c ∷ []) cs
unfolding fields_loop
fields_loop-plain n c read cs p q =
    rw (drop_space-plain c cs p q) rw (not_shorter (suc (length cs))) refl

fields_loop-space :
    (n : ℕ) (read cs : List ℕ)
    → fields_loop (suc n) read (32 ∷ cs) ≡ flush read (fields_loop n [] cs)
unfolding fields_loop drop_space is_space
fields_loop-space n read cs = rw (shorter (length cs)) refl

zero_add : (n : ℕ) → 0 + n ≡ n
zero_add n = omega arith

add_zero : (n : ℕ) → n + 0 ≡ n
add_zero n = omega arith

suc_add : (k n : ℕ) → suc k + n ≡ suc (k + n)
suc_add k n = omega arith

fields_loop-word :
    (n : ℕ) (read w rest : List ℕ)
    → IsWord w
    → fields_loop (length w + n) read (w ++ rest) ≡ fields_loop n (read ++ w) rest
fields_loop-word n read [] rest end =
    ap (λ k. fields_loop k read rest) (zero_add n)
    ∙ ap (λ r. fields_loop n r rest) (sym (append-nil read))
fields_loop-word n read (c ∷ cs) rest (byte p h) =
    ap (λ k. fields_loop k read (c ∷ cs ++ rest)) (suc_add (length cs) n)
    ∙ fields_loop-plain (length cs + n) c read (cs ++ rest) p.0 p.1
    ∙ fields_loop-word n (read ++ c ∷ []) cs rest h
    ∙ ap (λ r. fields_loop n r rest) (append_assoc read (c ∷ []) cs)

-- The length of the line is fuel enough.
pub fields-join : (ws : List (List ℕ)) → AreWords ws → fields (join ws) ≡ ws
unfolding fields fields_loop join
fields-join [] none = refl
fields-join ([] ∷ ws) h = elim h [ ]
fields-join ((c ∷ cs) ∷ []) (word h none) =
    ap (λ k. fields_loop k [] (c ∷ cs)) (sym (add_zero (length (c ∷ cs))))
    ∙ ap (fields_loop (length (c ∷ cs) + 0) []) (sym (append-nil (c ∷ cs)))
    ∙ fields_loop-word 0 [] (c ∷ cs) [] h
fields-join ((c ∷ cs) ∷ v ∷ ws) (word h hs) =
    let rest = join (v ∷ ws) in
    ap (λ k. fields_loop k [] (c ∷ cs ++ 32 ∷ rest)) (length-append (c ∷ cs) (32 ∷ rest))
    ∙ fields_loop-word (suc (length rest)) [] (c ∷ cs) (32 ∷ rest) h
    ∙ fields_loop-space (length rest) (c ∷ cs) rest
    ∙ ap (flush (c ∷ cs)) (fields-join (v ∷ ws) hs)

-- A text that ends with a byte that is no space.
abbrev EndsPlain : List ℕ → Type 0
EndsPlain s = (i : List ℕ) × (c : ℕ) × (IsPlain c) × (s ≡ i ++ c ∷ [])

word_EndsPlain : (c : ℕ) (cs : List ℕ) → IsWord (c ∷ cs) → EndsPlain (c ∷ cs)
word_EndsPlain c [] (byte p h) = ([], c, p, refl)
word_EndsPlain c (d ∷ ds) (byte p h) =
    let (i, e, q, same) = word_EndsPlain d ds h in (c ∷ i, e, q, ap (λ s. c ∷ s) same)

append-EndsPlain : (s t : List ℕ) → EndsPlain t → EndsPlain (s ++ t)
append-EndsPlain s t (i, c, p, same) =
    (s ++ i, c, p, ap (λ u. s ++ u) same ∙ sym (append_assoc s i (c ∷ [])))

join-EndsPlain : (w : List ℕ) (ws : List (List ℕ)) → AreWords (w ∷ ws) → EndsPlain (join (w ∷ ws))
unfolding join
join-EndsPlain [] ws h = elim h [ ]
join-EndsPlain (c ∷ cs) [] (word h none) = word_EndsPlain c cs h
join-EndsPlain (c ∷ cs) (v ∷ ws) (word h hs) =
    append-EndsPlain (c ∷ cs) (32 ∷ join (v ∷ ws))
      (append-EndsPlain (32 ∷ []) (join (v ∷ ws)) (join-EndsPlain v ws hs))

trim_end :
    (t : List ℕ)
    → EndsPlain t
    → reverse (trim_left (length t) (map reverse wide_spaces) (reverse t)) ≡ t
trim_end t (i, c, p, same) =
    let back = reverse-append i (c ∷ []) in
    ap (λ u. reverse (trim_left (length t) (map reverse wide_spaces) (reverse u))) same
    ∙ ap (λ u. reverse (trim_left (length t) (map reverse wide_spaces) u)) back
    ∙ ap reverse
        (trim_left-plain (length t) (map reverse wide_spaces) c (reverse i) reversed_AreWide p)
    ∙ ap reverse (sym back)
    ∙ reverse-reverse (i ++ c ∷ [])
    ∙ sym same

trimmed_lem : (c : ℕ) (cs : List ℕ) → IsPlain c → EndsPlain (c ∷ cs) → trim_space (c ∷ cs) ≡ c ∷ cs
unfolding trim_space
trimmed_lem c cs p h =
    rw (trim_left-plain (length (c ∷ cs)) wide_spaces c cs wide_spaces-AreWide p)
      (trim_end (c ∷ cs) h)

-- What a line of words begins with.
pub join_first :
    (c : ℕ) (cs : List ℕ) (ws : List (List ℕ)) → (t : List ℕ) × (join ((c ∷ cs) ∷ ws) ≡ c ∷ t)
unfolding join
join_first c cs [] = (cs, refl)
join_first c cs (v ∷ ws) = (cs ++ 32 ∷ join (v ∷ ws), refl)

pub trim_space-join :
    (w : List ℕ) (ws : List (List ℕ))
    → AreWords (w ∷ ws)
    → trim_space (join (w ∷ ws)) ≡ join (w ∷ ws)
trim_space-join [] ws h = elim h [ ]
trim_space-join (c ∷ cs) ws (word (byte p h) hs) =
    let (t, first) = join_first c cs ws in
    ap trim_space first
    ∙ trimmed_lem c t p (subst EndsPlain first (join-EndsPlain (c ∷ cs) ws (word (byte p h) hs)))
    ∙ sym first
