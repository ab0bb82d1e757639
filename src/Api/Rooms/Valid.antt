-- ===== src/Api/Rooms/Valid.antt =====
-- The room routes keep the invariant of the document.
use mathlib.Core.List.{Nodup, Nodup-cons, Perm, Sublist, perm_append_comm, sublist-append_right}
use mathlib.Core.List.{append_assoc, nil-sublist, Permᴰ, Perm-prop}
use mathlib.Core.List.Nodup
use mathlib.Core.List.Perm
use mathlib.Core.List.Sublist
use mathlib.Core.Logic.{∥∥₁_elim}
use mathlib.Core.Path.{subst, subst₂}
use librsswitch.Base.{
  ◌≡◌, refl, sym, ap, ◌∙◌, Bool-cases, List, [], ◌∷◌, ◌++◌, inl, inr, All, All-append,
}
use librsswitch.Base.Result.{ok, >>=-eq-ok}
use librsswitch.Base.Text.{Text, text, ◌==◌}
use librsswitch.Json.{Value, Fields}
use librsswitch.Errors.{Handled}
use librsswitch.Model.Types.{Room, Document}
use librsswitch.Model.Valid.{socket_ids, ids_of, IsValidRoom, IsValid}
use librsswitch.Store.Find.Ids.{swap_blocks, ids_of-update_room, update_room-All}
use librsswitch.Validation.{Unicode}
use librsswitch.Api.Common.NewId.{IsToken, new_id-fresh, room_prefix}
use librsswitch.Api.Rooms.{remove_room, create, edit, delete}

-- A block that ends in a value has that value.
pub ok_eq : {A : Type 0} {a b : A} → ◌≡◌ {A = Handled A} (ok a) (ok b) → a ≡ b
ok_eq h = cc

pub document_eq :
    {A : Type 0} {a b : A} {d d' : Document} → ◌≡◌ {A = A × Document} (a, d) (b, d') → d ≡ d'
document_eq h = ap (λ p. p.1) h

ids_of-append : (rs qs : List Room) → ids_of (rs ++ qs) ≡ ids_of rs ++ ids_of qs
ids_of-append [] qs = refl
ids_of-append (r ∷ rs) qs = ap (◌∷◌ r.id) (
    ap (◌++◌ (socket_ids r.sockets)) (ids_of-append rs qs)
    ∙ sym (append_assoc (socket_ids r.sockets) (ids_of rs) (ids_of qs)))

-- The ids after an empty room has been appended.
ids_of-append_room :
    (rs : List Room) (id name : Text)
    → Perm (id ∷ ids_of rs) (ids_of (rs ++ (record { id = id; name = name; sockets = [] }) ∷ []))
ids_of-append_room rs id name = rw (ids_of-append rs) (perm_append_comm (id ∷ []) (ids_of rs))

-- Adding a room to a document with the invariant leaves one with the invariant, where the tokens have
-- the form that `token_hex` gives them.
pub create_room-IsValid :
    (u : Unicode) (body : Fields) (tokens : List Text) (d d' : Document) (v : Value)
    → All IsToken tokens
    → IsValid d
    → create u body tokens d ≡ ok (v, d')
    → IsValid d'
unfolding create
create_room-IsValid u body tokens d d' v ht h e =
    let (name, _, e1) = >>=-eq-ok _ _ e in
    let (_, _, e2) = >>=-eq-ok _ _ e1 in
    let (id, made, e3) = >>=-eq-ok _ _ e2 in
    let same = document_eq (ok_eq e3) in
    let (form, fresh) = new_id-fresh (text "r_") (ids_of d.rooms) tokens id room_prefix ht made in
    let room : Room = record { id = id; name = name; sockets = [] } in
    subst IsValid same (record {
      version = h.version;
      rooms =
          All-append IsValidRoom d.rooms (room ∷ []) h.rooms
            (record { id = form; sockets = tt }, tt);
      distinct = Perm.nodup (ids_of-append_room d.rooms id name) (Nodup-cons.1 (fresh, h.distinct));
    })

-- Editing a room of a document with the invariant leaves a document with the invariant.
pub edit_room-IsValid :
    (u : Unicode) (rid : Text) (body : Fields) (d d' : Document) (v : Value)
    → IsValid d
    → edit u rid body d ≡ ok (v, d')
    → IsValid d'
unfolding edit
edit_room-IsValid u rid body d d' v h e =
    let (room, _, e1) = >>=-eq-ok _ _ e in
    let (_, _, e2) = >>=-eq-ok _ _ e1 in
    let (name, _, e3) = >>=-eq-ok _ _ e2 in
    let f : Room → Room = λ r. record r { name = name } in
    subst IsValid (document_eq (ok_eq e3)) (record {
      version = h.version;
      rooms =
          update_room-All f d.rooms rid (λ r hr. record { id = hr.id; sockets = hr.sockets })
            h.rooms;
      distinct =
          subst Nodup (sym (ids_of-update_room f (λ r. refl) (λ r. refl) d.rooms rid)) h.distinct;
    })

ids_of-remove_room :
    (rid : Text) (rs : List Room) → Sublist (ids_of (remove_room rid rs)) (ids_of rs)
unfolding remove_room
ids_of-remove_room rid [] = nil-sublist []
ids_of-remove_room rid (r ∷ rs) = elim (Bool-cases (r.id == rid)) [
  | inl e ↦ rw e (sublist-append_right (r.id ∷ socket_ids r.sockets) (ids_of rs))
  | inr e ↦ rw e (
      Sublist.cons-cons r.id
        (Sublist.append (Sublist.refl (socket_ids r.sockets)) (ids_of-remove_room rid rs)))
]

remove_room-All :
    (rid : Text) (rs : List Room) → All IsValidRoom rs → All IsValidRoom (remove_room rid rs)
unfolding remove_room
remove_room-All rid [] h = tt
remove_room-All rid (r ∷ rs) h = elim (Bool-cases (r.id == rid)) [
  | inl e ↦ rw e h.1
  | inr e ↦ rw e (h.0, remove_room-All rid rs h.1)
]

-- Deleting a room of a document with the invariant leaves a document with the invariant.
pub delete_room-IsValid :
    (rid : Text) (d d' : Document) → IsValid d → delete rid d ≡ ok (tt, d') → IsValid d'
unfolding delete
delete_room-IsValid rid d d' h e =
    let (_, _, e1) = >>=-eq-ok _ _ e in
    let (_, _, e2) = >>=-eq-ok _ _ e1 in
    subst IsValid (document_eq (ok_eq e2)) (record {
      version = h.version;
      rooms = remove_room-All rid d.rooms h.rooms;
      distinct = Nodup.sublist (ids_of-remove_room rid d.rooms) h.distinct;
    })

ids_of-Permᴰ : {rs qs : List Room} → Permᴰ rs qs → Perm (ids_of rs) (ids_of qs)
ids_of-Permᴰ Permᴰ.nil = Perm.refl []
ids_of-Permᴰ (Permᴰ.cons {a = a} {b = b} {l₁ = l} {l₂ = m} e p) =
    subst (λ (z : Room). Perm (ids_of (a ∷ l)) (ids_of (z ∷ m))) e
      (Perm.append_left (a.id ∷ socket_ids a.sockets) (ids_of-Permᴰ p))
ids_of-Permᴰ (Permᴰ.swap {a = a} {b = b} {a' = a'} {b' = b'} {l = l} e f) =
    subst₂ (λ (y z : Room). Perm (ids_of (a ∷ b ∷ l)) (ids_of (z ∷ y ∷ l))) e f
      (swap_blocks (a.id ∷ socket_ids a.sockets) (b.id ∷ socket_ids b.sockets) (ids_of l))
ids_of-Permᴰ (Permᴰ.trans p q) = Perm.trans (ids_of-Permᴰ p) (ids_of-Permᴰ q)

pub ids_of-Perm : (rs qs : List Room) → Perm rs qs → Perm (ids_of rs) (ids_of qs)
ids_of-Perm rs qs p = ∥∥₁_elim p Perm-prop ids_of-Permᴰ
