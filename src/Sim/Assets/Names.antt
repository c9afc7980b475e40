-- ===== src/Sim/Assets/Names.antt =====
-- sim/ports/sim_mmap_assets.c: `_name_cmp`, by which the staged files are sorted.
use micro_tech.Prelude.{
  false, ℕ, zero, suc, ◌≡◌, refl, ap, ap₂, ◌∙◌, sym, Option, none, some, List, [], ◌∷◌, ◌++◌,
  length, ltb, ◌==◌, if◌then◌else◌, arith, Bool-cases, inl, inr, ==_iff,
}

-- A result of `strcmp`, `memcmp` or `_name_cmp`: below 0, 0, or above 0.
pub data Order : Type 0 where
  less same more : Order

-- `strcmp` of two names
unfoldable pub str_cmp : List ℕ → List ℕ → Order
str_cmp [] [] = same
str_cmp [] (b ∷ t) = less
str_cmp (a ∷ s) [] = more
str_cmp (a ∷ s) (b ∷ t) =
    let rest = str_cmp s t in if a == b then rest else if ltb a b then less else more

-- `memcmp` of the first `n` bytes, which both names have
unfoldable pub mem_cmp : ℕ → List ℕ → List ℕ → Order
mem_cmp zero s t = same
mem_cmp (suc n) [] t = same
mem_cmp (suc n) (a ∷ s) [] = same
mem_cmp (suc n) (a ∷ s) (b ∷ t) =
    let rest = mem_cmp n s t in if a == b then rest else if ltb a b then less else more

-- `strrchr(name, '.')`: what stands before the last dot, and the rest from the dot on.
unfoldable pub last_dot : List ℕ → Option (List ℕ × List ℕ)
last_dot [] = none
last_dot (c ∷ name) = elim (last_dot name) [
  | some (base, ext) ↦ some (c ∷ base, ext)
  | none ↦ if c == 46 then some ([], c ∷ name) else none
]

abbrev pub common : ℕ → ℕ → ℕ
common lb rb = if ltb lb rb then lb else rb

-- The end of `_name_cmp`, with the result of `memcmp`.
abbrev pub after_mem : Order → ℕ → ℕ → Order
after_mem same lb rb = if ltb lb rb then less else if ltb rb lb then more else same
after_mem less lb rb = less
after_mem more lb rb = more

-- The same from the comparison of the extensions on.
abbrev pub after_ext : Order → List ℕ → List ℕ → ℕ → ℕ → Order
after_ext same left right lb rb = after_mem (mem_cmp (common lb rb) left right) lb rb
after_ext less left right lb rb = less
after_ext more left right lb rb = more

-- The same, with what `strrchr` has found in the two names; `none` is NULL.
abbrev pub compare_parts :
    Option (List ℕ × List ℕ) → Option (List ℕ × List ℕ) → List ℕ → List ℕ → Order
compare_parts none right_dot left right = str_cmp left right
compare_parts (some left_dot) none left right = str_cmp left right
compare_parts (some (lb, la)) (some (rb, ra)) left right =
    after_ext (str_cmp la ra) left right (length lb) (length rb)

-- `_name_cmp`
unfoldable pub name_cmp : List ℕ → List ℕ → Order
name_cmp left right = compare_parts (last_dot left) (last_dot right) left right

-- The first of two comparisons that tells the two apart.
abbrev pub then_by : Order → Order → Order
then_by same o = o
then_by less o = less
then_by more o = more

common-suc : (m n : ℕ) → common (suc m) (suc n) ≡ suc (common m n)
common-suc m n = ground arith

after_mem-suc : (o : Order) (m n : ℕ) → after_mem o (suc m) (suc n) ≡ after_mem o m n
after_mem-suc o m n = ground arith

-- One byte more on both sides.
after_mem_pick :
    (x y : ℕ) (o : Order) (m n : ℕ)
    → after_mem (if x == y then o else if ltb x y then less else more) (suc m) (suc n)
      ≡ (if x == y then after_mem o m n else if ltb x y then less else more)
after_mem_pick x y o m n = elim (Bool-cases (x == y)) [
  | inl e ↦ rw (e, if◌then◌else◌) (after_mem-suc o m n)
  | inr e ↦
      rw (e, if◌then◌else◌)
        (elim (Bool-cases (ltb x y)) [
          | inl l ↦ rw (l, if◌then◌else◌) refl
          | inr l ↦ rw (l, if◌then◌else◌) refl
        ])
]

mem_cmp-suc :
    (n x y : ℕ) (s t : List ℕ)
    → mem_cmp (suc n) (x ∷ s) (y ∷ t)
      ≡ (if x == y then mem_cmp n s t else if ltb x y then less else more)
unfolding mem_cmp
mem_cmp-suc n x y s t = refl

-- Two parts of two names, each with what follows it.
mem_cmp-append :
    (xs ys s t : List ℕ)
    → after_mem
        (mem_cmp (common (length xs) (length ys)) (xs ++ s) (ys ++ t))
        (length xs)
        (length ys)
      ≡ str_cmp xs ys
mem_cmp-append [] [] s t = unfold mem_cmp str_cmp in refl
mem_cmp-append [] (y ∷ ys) s t = unfold mem_cmp str_cmp in ground arith
mem_cmp-append (x ∷ xs) [] s t = unfold mem_cmp str_cmp in ground (arith)
mem_cmp-append (x ∷ xs) (y ∷ ys) s t =
    let m = length xs in
    let n = length ys in
    ap (λ (k : ℕ). after_mem (mem_cmp k (x ∷ (xs ++ s)) (y ∷ (ys ++ t))) (suc m) (suc n))
      (common-suc m n)
    ∙ ap (λ (o : Order). after_mem o (suc m) (suc n))
        (mem_cmp-suc (common m n) x y (xs ++ s) (ys ++ t))
    ∙ after_mem_pick x y (mem_cmp (common m n) (xs ++ s) (ys ++ t)) m n
    ∙ ap (λ (o : Order). if x == y then o else if ltb x y then less else more)
        (mem_cmp-append xs ys s t)
    ∙ (unfold str_cmp in refl)

last_dot-append : (name base ext : List ℕ) → last_dot name ≡ some (base, ext) → name ≡ base ++ ext
unfolding last_dot
last_dot-append [] base ext h = ground arith
last_dot-append (c ∷ name) base ext h = go (last_dot-append name) (last_dot name) refl h
  where
    go :
        ((b e : List ℕ) → last_dot name ≡ some (b, e) → name ≡ b ++ e)
        → (d : Option (List ℕ × List ℕ)) → last_dot name ≡ d
        → let found : Option (List ℕ × List ℕ) = elim d [
          | some (b, e) ↦ some (c ∷ b, e)
          | none ↦ if c == 46 then some ([], c ∷ name) else none
        ] in
          found ≡ some (base, ext) → c ∷ name ≡ base ++ ext
    go before none q h = ground arith
    go before (some (b, e)) q h = ground (arith, before b e q)

after_ext_lem :
    (o : Order) (lb la rb ra : List ℕ)
    → after_ext o (lb ++ la) (rb ++ ra) (length lb) (length rb) ≡ then_by o (str_cmp lb rb)
after_ext_lem same lb la rb ra = mem_cmp-append lb rb la ra
after_ext_lem less lb la rb ra = refl
after_ext_lem more lb la rb ra = refl

name_cmp_parts :
    (left right : List ℕ) (d e : Option (List ℕ × List ℕ))
    → last_dot left ≡ d
    → last_dot right ≡ e
    → name_cmp left right ≡ compare_parts d e left right
unfolding name_cmp
name_cmp_parts left right d e p q =
    ap₂ (λ (d e : Option (List ℕ × List ℕ)). compare_parts d e left right) p q

name_cmp_split :
    (left right lb la rb ra : List ℕ)
    → last_dot left ≡ some (lb, la)
    → last_dot right ≡ some (rb, ra)
    → name_cmp left right ≡ then_by (str_cmp la ra) (str_cmp lb rb)
name_cmp_split left right lb la rb ra dl dr =
    let parts : name_cmp left right ≡ after_ext (str_cmp la ra) left right (length lb) (length rb) =
      name_cmp_parts left right (some (lb, la)) (some (rb, ra)) dl dr in
    parts
    ∙ ap₂ (λ (l r : List ℕ). after_ext (str_cmp la ra) l r (length lb) (length rb))
        (last_dot-append left lb la dl) (last_dot-append right rb ra dr)
    ∙ after_ext_lem (str_cmp la ra) lb la rb ra

str_cmp-same : (s t : List ℕ) → str_cmp s t ≡ same → s ≡ t
unfolding str_cmp
str_cmp-same [] [] h = refl
str_cmp-same [] (b ∷ t) h = ground arith
str_cmp-same (a ∷ s) [] h = ground arith
str_cmp-same (a ∷ s) (b ∷ t) h = ground (arith, str_cmp-same s t, ==_iff a b)

abbrev pub flip : Order → Order
flip less = more
flip same = same
flip more = less

str_cmp-flip : (s t : List ℕ) → str_cmp t s ≡ flip (str_cmp s t)
unfolding str_cmp
str_cmp-flip [] [] = refl
str_cmp-flip [] (b ∷ t) = refl
str_cmp-flip (a ∷ s) [] = refl
str_cmp-flip (a ∷ s) (b ∷ t) = ground (arith, str_cmp-flip s t, ==_iff a b, ==_iff b a)

then_by-flip : (o p : Order) → then_by (flip o) (flip p) ≡ flip (then_by o p)
then_by-flip o p = ground arith

then_by-same : (o p : Order) → then_by o p ≡ same → (o ≡ same) × (p ≡ same)
then_by-same o p h = ground arith

-- The comparison of two names the other way round has the opposite result, and only a name and itself
-- compare as 0: two files of one directory do not depend on what `qsort` does with equal items.
pub name_cmp_result :
    (left right : List ℕ)
    → (name_cmp right left ≡ flip (name_cmp left right))
      × (name_cmp left right ≡ same → left ≡ right)
name_cmp_result left right = go (last_dot left) (last_dot right) refl refl
  where
    plain :
        name_cmp left right ≡ str_cmp left right
        → name_cmp right left ≡ str_cmp right left
        → (name_cmp right left ≡ flip (name_cmp left right))
          × (name_cmp left right ≡ same → left ≡ right)
    plain p q =
        (q ∙ str_cmp-flip left right ∙ ap flip (sym p), λ h. str_cmp-same left right (sym p ∙ h))

    go :
        (d e : Option (List ℕ × List ℕ))
        → last_dot left ≡ d
        → last_dot right ≡ e
        → (name_cmp right left ≡ flip (name_cmp left right))
          × (name_cmp left right ≡ same → left ≡ right)
    go none none p q =
        plain (name_cmp_parts left right none none p q) (name_cmp_parts right left none none q p)
    go none (some r) p q =
        plain (name_cmp_parts left right none (some r) p q)
          (name_cmp_parts right left (some r) none q p)
    go (some l) none p q =
        plain (name_cmp_parts left right (some l) none p q)
          (name_cmp_parts right left none (some l) q p)
    go (some (lb, la)) (some (rb, ra)) p q =
        let there = name_cmp_split left right lb la rb ra p q in
        let back = name_cmp_split right left rb ra lb la q p in
        (
          back
              ∙ ap₂ then_by (str_cmp-flip la ra) (str_cmp-flip lb rb)
              ∙ then_by-flip (str_cmp la ra) (str_cmp lb rb)
              ∙ ap flip (sym there),
          λ h.
              let (x, b) = then_by-same (str_cmp la ra) (str_cmp lb rb) (sym there ∙ h) in
              last_dot-append left lb la p
              ∙ ap₂ ◌++◌ (str_cmp-same lb rb b) (str_cmp-same la ra x)
              ∙ sym (last_dot-append right rb ra q),
        )

-- No byte of the text is a dot.
abbrev pub IsDotless : List ℕ → Type 0
IsDotless [] = Unit
IsDotless (c ∷ text) = ((c == b'.') ≡ false) × IsDotless text

last_dot-dotless : (text : List ℕ) → IsDotless text → last_dot text ≡ none
unfolding last_dot
last_dot-dotless [] d = refl
last_dot-dotless (c ∷ text) (h, d) = ground (arith, h, last_dot-dotless text d)

last_dot-ext :
    (base ext : List ℕ) → IsDotless ext → last_dot (base ++ (b'.' ∷ ext)) ≡ some (base, b'.' ∷ ext)
unfolding last_dot
last_dot-ext [] ext d = ground (arith, last_dot-dotless ext d)
last_dot-ext (c ∷ base) ext d = ground (arith, last_dot-ext base ext d)

str_cmp-cons : (c : ℕ) (s t : List ℕ) → str_cmp (c ∷ s) (c ∷ t) ≡ str_cmp s t
unfolding str_cmp
str_cmp-cons c s t = ground arith

-- Two names that have a dot each are sorted by what follows the last dot, and then by what stands
-- before it, where a dot may stand too.
pub name_cmp_dotted :
    (left_base left_ext right_base right_ext : List ℕ)
    → IsDotless left_ext
    → IsDotless right_ext
    → name_cmp (left_base ++ (b'.' ∷ left_ext)) (right_base ++ (b'.' ∷ right_ext))
      ≡ then_by (str_cmp left_ext right_ext) (str_cmp left_base right_base)
name_cmp_dotted left_base left_ext right_base right_ext dl dr =
    name_cmp_split (left_base ++ (b'.' ∷ left_ext)) (right_base ++ (b'.' ∷ right_ext)) left_base
      (b'.' ∷ left_ext) right_base (b'.' ∷ right_ext) (last_dot-ext left_base left_ext dl)
      (last_dot-ext right_base right_ext dr)
    ∙ ap (λ (o : Order). then_by o (str_cmp left_base right_base))
        (str_cmp-cons b'.' left_ext right_ext)
