-- ===== src/Api/Common/Order.antt =====
-- A list of ids that `check_permutation` accepts, and the list that a comprehension makes of it.
use mathlib.Core.HLevel.{⊥_prop}
use mathlib.Core.List.{
  Mem, Nodup, Nodup-nil, Nodup-cons, Perm, not-mem-nil, mem-cons, mem-cons_self, mem-cons_of_mem,
  filter_map, filter_map-cons-some, perm_ext_iff_of_Nodup,
}
use mathlib.Core.List.Perm
use mathlib.Core.Logic.Or
use mathlib.Core.Path.{subst}
use librsswitch.Base.{
  ◌≤◌, ◌≡◌, ◌↔◌, refl, sym, ap, ◌∙◌, true, Bool-cases, Option-cases, List, [], ◌∷◌, Option, none,
  some, inl, inr, map, All, length, arith,
}
use librsswitch.Base.Result.{Result-cases, ok, ◌>>=◌}
use librsswitch.Base.Text.{Text, ◌==◌, contains, eq_iff, eq_refl}
use librsswitch.Model.Valid.{mem_of_contains, not-mem_of_contains, contains_of_not-mem}
use librsswitch.Api.Common.{set_of, all_in, is_permutation, by_id, pick}

length-set_of-le : (xs : List Text) → length (set_of xs) ≤ length xs
unfolding set_of
length-set_of-le [] = omega arith
length-set_of-le (x ∷ xs) = ground (arith, length-set_of-le xs)

Nodup-of_set_of : (xs : List Text) → length xs ≡ length (set_of xs) → Nodup xs
unfolding set_of
Nodup-of_set_of [] h = Nodup-nil
Nodup-of_set_of (x ∷ xs) h = elim (Bool-cases (contains x xs)) [
  | inl e ↦ absurd (ground (arith, length-set_of-le xs))
  | inr e ↦ Nodup-cons.1 (not-mem_of_contains x xs e, Nodup-of_set_of xs (ground arith))
]

set_of_of_Nodup : (xs : List Text) → Nodup xs → set_of xs ≡ xs
unfolding set_of
set_of_of_Nodup [] h = refl
set_of_of_Nodup (x ∷ xs) h =
    rw (contains_of_not-mem x xs (Nodup-cons.0 h).0)
      (ap (◌∷◌ x) (set_of_of_Nodup xs (Nodup-cons.0 h).1))

mem_of_all_in : (xs ys : List Text) (x : Text) → all_in xs ys ≡ true → Mem x xs → Mem x ys
unfolding all_in
mem_of_all_in [] ys x h m = absurd (not-mem-nil m)
mem_of_all_in (y ∷ xs) ys x h m =
    Or.elim squash₁ (mem-cons.0 m)
      (λ e. subst (λ z. Mem z ys) (sym e) (mem_of_contains y ys (ground arith)))
      (mem_of_all_in xs ys x (ground arith))

all_in_of_mem : (xs ys : List Text) → ((x : Text) → Mem x xs → Mem x ys) → all_in xs ys ≡ true
unfolding all_in
all_in_of_mem [] ys h = refl
all_in_of_mem (x ∷ xs) ys h = elim (Bool-cases (contains x ys)) [
  | inl e ↦ rw e (all_in_of_mem xs ys (λ y m. h y (mem-cons_of_mem x m)))
  | inr e ↦ absurd (not-mem_of_contains x ys e (h x mem-cons_self))
]

-- `check_permutation` passes exactly for a rearrangement of the current ids, which are all different.
pub is_permutation_iff_Perm :
    (ids current : List Text)
    → Nodup current
    → (is_permutation ids current ≡ true) ↔ Perm ids current
unfolding is_permutation
is_permutation_iff_Perm ids current d = (
  (λ h. (perm_ext_iff_of_Nodup (Nodup-of_set_of ids (ground arith)) d).1 (λ a.
      (mem_of_all_in ids current a (ground arith), mem_of_all_in current ids a (ground arith)))),
  (λ p.
      let same : set_of ids ≡ ids = set_of_of_Nodup ids (Perm.nodup (Perm.symm p) d) in
      ground (
        arith,
        same,
        all_in_of_mem ids current (λ x. (Perm.mem_iff p).0),
        all_in_of_mem current ids (λ x. (Perm.mem_iff p).1),
      )),
)

filter_map-nil : {A B : Type 0} (f : A → Option B) → filter_map f [] ≡ []
unfolding filter_map
filter_map-nil f = refl

module _ {A : Type 0} (id_of : A → Text) where
  by_id-none : (xs : List A) (i : Text) → ¬ Mem i (map id_of xs) → by_id id_of xs i ≡ none
  unfolding by_id
  by_id-none [] i h = refl
  by_id-none (x ∷ xs) i h = elim (Bool-cases (id_of x == i)) [
    | inl e ↦
        absurd
          (h (subst (λ z. Mem z (id_of x ∷ map id_of xs)) ((eq_iff (id_of x) i).0 e) mem-cons_self))
    | inr e ↦ ground (arith, by_id-none xs i (λ m. h (mem-cons_of_mem (id_of x) m)))
  ]

  abbrev Finds : List A → A → Type 0
  Finds xs x = by_id id_of xs (id_of x) ≡ some x

  Finds-cons : (x : A) (xs ys : List A) → All (Finds xs) ys → All (Finds (x ∷ xs)) ys
  unfolding by_id
  Finds-cons x xs [] h = tt
  Finds-cons x xs (y ∷ ys) h = (ground (arith, h.0), Finds-cons x xs ys h.1)

  Finds-self : (xs : List A) → Nodup (map id_of xs) → All (Finds xs) xs
  unfolding by_id
  Finds-self [] d = tt
  Finds-self (x ∷ xs) d = (
    ground (arith, by_id-none xs (id_of x) (Nodup-cons.0 d).0, eq_refl (id_of x)),
    Finds-cons x xs xs (Finds-self xs (Nodup-cons.0 d).1),
  )

  filter_map-by_id :
      (xs ys : List A) → All (Finds xs) ys → filter_map (by_id id_of xs) (map id_of ys) ≡ ys
  unfolding filter_map
  filter_map-by_id xs [] h = refl
  filter_map-by_id xs (y ∷ ys) h =
      filter_map-cons-some (by_id id_of xs) (id_of y) (map id_of ys) h.0
      ∙ ap (◌∷◌ y) (filter_map-by_id xs ys h.1)

  filter_map_of_pick :
      (xs : List A) (ids : List Text) (ys : List A)
      → pick id_of xs ids ≡ ok ys
      → ys ≡ filter_map (by_id id_of xs) ids
  unfolding pick ◌>>=◌
  filter_map_of_pick xs [] ys h = ground (arith, filter_map-nil {B = A} (by_id id_of xs))
  filter_map_of_pick xs (i ∷ ids) ys h = elim (Option-cases (by_id id_of xs i)) [
    | inl e ↦ absurd (ground arith)
    | inr (x, e) ↦ elim (Result-cases (pick id_of xs ids)) [
      | inl (rest, e') ↦
          ground (
            arith,
            filter_map_of_pick xs ids rest e',
            filter_map-cons-some (by_id id_of xs) i ids e,
          )
      | inr (f, e') ↦ absurd (ground arith)
    ]
  ]

  -- Picking the entries by a rearrangement of their ids rearranges the entries.
  pub pick-Perm :
      (xs : List A) (ids : List Text) (ys : List A)
      → Nodup (map id_of xs)
      → Perm ids (map id_of xs)
      → pick id_of xs ids ≡ ok ys
      → Perm ys xs
  pick-Perm xs ids ys d p h =
      subst (λ z. Perm z xs) (sym (filter_map_of_pick xs ids ys h))
        (subst (Perm (filter_map (by_id id_of xs) ids)) (filter_map-by_id xs xs (Finds-self xs d))
          (Perm.filter_map (by_id id_of xs) p))

  id_of-by_id : (xs : List A) (i : Text) (x : A) → by_id id_of xs i ≡ some x → id_of x ≡ i
  unfolding by_id
  id_of-by_id [] i x h = cc
  id_of-by_id (y ∷ xs) i x h = ground (arith, id_of-by_id xs i x, eq_iff (id_of y) i)

  -- The entries come in the order of the ids.
  pub ids_of_pick :
      (xs : List A) (ids : List Text) (ys : List A) → pick id_of xs ids ≡ ok ys → map id_of ys ≡ ids
  unfolding pick ◌>>=◌
  ids_of_pick xs [] ys h = ground arith
  ids_of_pick xs (i ∷ ids) ys h = elim (Option-cases (by_id id_of xs i)) [
    | inl e ↦ absurd (ground arith)
    | inr (x, e) ↦ elim (Result-cases (pick id_of xs ids)) [
      | inl (rest, e') ↦ ground (arith, ids_of_pick xs ids rest e', id_of-by_id xs i x e)
      | inr (f, e') ↦ absurd (ground arith)
    ]
  ]

  not-mem_of_by_id : (xs : List A) (i : Text) → by_id id_of xs i ≡ none → ¬ Mem i (map id_of xs)
  unfolding by_id
  not-mem_of_by_id [] i h m = not-mem-nil m
  not-mem_of_by_id (x ∷ xs) i h m =
      Or.elim ⊥_prop (mem-cons.0 m) (λ e. ground (arith, eq_iff (id_of x) i))
        (not-mem_of_by_id xs i (ground arith))

  -- No subscript fails where every id is one of the entries.
  pub pick-ok :
      (xs : List A) (ids : List Text)
      → ((i : Text) → Mem i ids → Mem i (map id_of xs))
      → (ys : List A) × (pick id_of xs ids ≡ ok ys)
  unfolding pick ◌>>=◌
  pick-ok xs [] h = ([], refl)
  pick-ok xs (i ∷ ids) h = elim (Option-cases (by_id id_of xs i)) [
    | inl e ↦ absurd (not-mem_of_by_id xs i e (h i mem-cons_self))
    | inr (x, e) ↦
        let (rest, e') = pick-ok xs ids (λ j m. h j (mem-cons_of_mem i m)) in
        (x ∷ rest, ground arith)
  ]

  by_id-All :
      (P : A → Type 0) (xs : List A) (i : Text) (x : A) → All P xs → by_id id_of xs i ≡ some x → P x
  unfolding by_id
  by_id-All P [] i x h e = cc
  by_id-All P (y ∷ xs) i x h e = elim (Option-cases (by_id id_of xs i)) [
    | inl missing ↦ subst P (ground arith) h.0
    | inr (z, found) ↦ by_id-All P xs i x h.1 (ground arith)
  ]

  pub pick-All :
      (P : A → Type 0) (xs : List A) (ids : List Text) (ys : List A)
      → All P xs
      → pick id_of xs ids ≡ ok ys
      → All P ys
  unfolding pick ◌>>=◌
  pick-All P xs [] ys h e =
      let same : ◌≡◌ {A = List A} [] ys = ground arith in subst (All P) same tt
  pick-All P xs (i ∷ ids) ys h e = elim (Option-cases (by_id id_of xs i)) [
    | inl missing ↦ absurd (ground arith)
    | inr (x, found) ↦ elim (Result-cases (pick id_of xs ids)) [
      | inl (rest, e') ↦
          let whole : x ∷ rest ≡ ys = ground arith in
          subst (All P) whole (by_id-All P xs i x h found, pick-All P xs ids rest h e')
      | inr (f, e') ↦ absurd (ground arith)
    ]
  ]
