-- ===== src/Model/Valid.antt =====
-- What every stored document satisfies, and how a set of seen ids grows along a list.
use mathlib.Core.HLevel.{⊥_prop}
use mathlib.Core.List.{
  Mem, Nodup, Nodup-nil, Nodup-cons, not-mem-nil, mem-cons, mem-cons_self, mem-cons_of_mem,
}
use mathlib.Core.Logic.Or
use mathlib.Core.Path.{subst}
use librsswitch.Base.{
  ◌<◌, ◌≡◌, refl, true, false, Bool-cases, List, [], ◌∷◌, ◌++◌, map, All, inl, inr, arith,
}
use librsswitch.Base.Text.{Text, ◌==◌, contains, eq_iff}
use librsswitch.Model.Types.{format_version, socket_types, Socket, Room, Document}
use librsswitch.Model.Check.{matches_id_pattern}

abbrev pub socket_ids : List Socket → List Text
socket_ids = map (λ s. s.id)

abbrev pub room_ids : List Room → List Text
room_ids = map (λ r. r.id)

-- The ids of all rooms and sockets, in the order in which `check_document` meets them.
abbrev pub ids_of : List Room → List Text
ids_of [] = []
ids_of (r ∷ rs) = r.id ∷ (socket_ids r.sockets ++ ids_of rs)

pub record IsValidSocket (s : Socket) : Type 0 where
  pub id : matches_id_pattern s.id ≡ true
  pub group : s.group < (socket_types s.kind).groups
  pub number : s.number < (socket_types s.kind).sockets

pub record IsValidRoom (r : Room) : Type 0 where
  pub id : matches_id_pattern r.id ≡ true
  pub sockets : All IsValidSocket r.sockets

-- Well-formed ids, each used once in the whole document, and every address within the limits
-- of its type.
pub record IsValid (d : Document) : Type 0 where
  pub version : d.version ≡ format_version
  pub rooms : All IsValidRoom d.rooms
  pub distinct : Nodup (ids_of d.rooms)

-- `seen` after the ids `xs` have been added to it.
abbrev pub push : List Text → List Text → List Text
push seen [] = seen
push seen (x ∷ xs) = push (x ∷ seen) xs

-- No id of `xs` is in `seen` when its turn comes.
abbrev pub Fresh : List Text → List Text → Type 0
Fresh seen [] = Unit
Fresh seen (x ∷ xs) = (contains x seen ≡ false) × Fresh (x ∷ seen) xs

pub push-append : (seen xs ys : List Text) → push seen (xs ++ ys) ≡ push (push seen xs) ys
push-append seen [] ys = refl
push-append seen (x ∷ xs) ys = push-append (x ∷ seen) xs ys

pub Fresh-append :
    (seen xs ys : List Text) → Fresh seen xs → Fresh (push seen xs) ys → Fresh seen (xs ++ ys)
Fresh-append seen [] ys hx hy = hy
Fresh-append seen (x ∷ xs) ys hx hy = (hx.0, Fresh-append (x ∷ seen) xs ys hx.1 hy)

pub Fresh-split :
    (seen xs ys : List Text) → Fresh seen (xs ++ ys) → Fresh seen xs × Fresh (push seen xs) ys
Fresh-split seen [] ys h = (tt, h)
Fresh-split seen (x ∷ xs) ys h = let r = Fresh-split (x ∷ seen) xs ys h.1 in ((h.0, r.0), r.1)

pub mem_of_contains : (x : Text) (ys : List Text) → contains x ys ≡ true → Mem x ys
unfolding contains
mem_of_contains x [] h = absurd (ground arith)
mem_of_contains x (y ∷ ys) h = elim (Bool-cases (x == y)) [
  | inl e ↦ mem-cons.1 (Or.inl ((eq_iff x y).0 e))
  | inr e ↦ mem-cons_of_mem y (mem_of_contains x ys (ground arith))
]

pub not-mem_of_contains : (x : Text) (ys : List Text) → contains x ys ≡ false → ¬ Mem x ys
unfolding contains
not-mem_of_contains x [] h m = not-mem-nil m
not-mem_of_contains x (y ∷ ys) h m =
    Or.elim ⊥_prop (mem-cons.0 m) (λ e. ground (arith, eq_iff x y))
      (not-mem_of_contains x ys (ground arith))

pub contains_of_not-mem : (x : Text) (ys : List Text) → ¬ Mem x ys → contains x ys ≡ false
contains_of_not-mem x ys h = elim (Bool-cases (contains x ys)) [
  | inl e ↦ absurd (h (mem_of_contains x ys e))
  | inr e ↦ e
]

Fresh-not-mem : (x : Text) (seen xs : List Text) → Fresh seen xs → Mem x seen → ¬ Mem x xs
Fresh-not-mem x seen [] h m n = not-mem-nil n
Fresh-not-mem x seen (y ∷ ys) h m n =
    Or.elim ⊥_prop (mem-cons.0 n)
      (λ e. not-mem_of_contains y seen h.0 (subst (λ z. Mem z seen) e m))
      (Fresh-not-mem x (y ∷ seen) ys h.1 (mem-cons_of_mem y m))

-- An id is fresh along the whole list exactly when the list has no id twice.
pub Nodup-of_Fresh : (seen xs : List Text) → Fresh seen xs → Nodup xs
Nodup-of_Fresh seen [] h = Nodup-nil
Nodup-of_Fresh seen (x ∷ xs) h =
    Nodup-cons.1 (Fresh-not-mem x (x ∷ seen) xs h.1 mem-cons_self, Nodup-of_Fresh (x ∷ seen) xs h.1)

pub Fresh-of_Nodup :
    (seen xs : List Text) → Nodup xs → ((x : Text) → Mem x xs → ¬ Mem x seen) → Fresh seen xs
Fresh-of_Nodup seen [] d h = tt
Fresh-of_Nodup seen (x ∷ xs) d h = (
  contains_of_not-mem x seen (h x mem-cons_self),
  Fresh-of_Nodup (x ∷ seen) xs (Nodup-cons.0 d).1 (λ y m n.
      Or.elim ⊥_prop (mem-cons.0 n) (λ e. (Nodup-cons.0 d).0 (subst (λ z. Mem z xs) e m))
        (h y (mem-cons_of_mem x m))),
)
