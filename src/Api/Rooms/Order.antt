-- ===== src/Api/Rooms/Order.antt =====
-- The order of the rooms: order_rooms of examples/web/rsswitch_web/api/rooms.py.
use mathlib.Core.List.{Perm}
use mathlib.Core.List.Perm
use mathlib.Core.Path.{subst}
use librsswitch.Base.{◌≡◌, refl, true, Bool-cases, List, inl, inr, arith}
use librsswitch.Base.{◌⊎◌}
use librsswitch.Base.Result.{ok, err, ◌>>=◌, >>=-eq-ok}
use librsswitch.Base.Text.{Text, text}
use librsswitch.Json.{Value, arr}
use librsswitch.Errors.{Handled, failure}
use librsswitch.Model.Types.{Room, Document}
use librsswitch.Model.Valid.{room_ids, IsValidRoom, IsValid}
use librsswitch.Store.Find.Ids.{room_ids-Nodup}
use librsswitch.Api.Json.{texts_json}
use librsswitch.Api.Common.{is_permutation, check_permutation, pick}
use librsswitch.Api.Common.Order.{
  is_permutation_iff_Perm, pick-Perm, ids_of_pick, pick-ok, pick-All,
}
use librsswitch.Api.Rooms.{Change, with_rooms, order}
use librsswitch.Api.Rooms.Valid.{ids_of-Perm, ok_eq, document_eq}

-- A check that passed.
pub check_permutation_passed :
    (ids current : List Text)
    → check_permutation ids current ≡ ok tt
    → is_permutation ids current ≡ true
unfolding check_permutation
check_permutation_passed ids current h = elim (Bool-cases (is_permutation ids current)) [
  | inl e ↦ e
  | inr e ↦ absurd (ground arith)
]

-- What an accepted order leaves, and the list that made it.
abbrev pub Ordered : List Text → Document → Document → Type 0
Ordered ids d d' = (room_ids d'.rooms ≡ ids) × Perm d'.rooms d.rooms

-- The routes refuse a list of ids with this answer.
abbrev pub order_mismatch : {A : Type 0} → Handled A
order_mismatch = err (
    failure 409 (text "order_mismatch")
      (text "the list is not the current set of ids; reload and try again"))

order_ok :
    (ids : List Text) (d d' : Document) (v : Value)
    → IsValid d
    → order ids d ≡ ok (v, d')
    → (rooms : List Room) × ((pick (λ r. r.id) d.rooms ids ≡ ok rooms)
        × ((with_rooms d rooms ≡ d') × Perm ids (room_ids d.rooms)))
unfolding order
order_ok ids d d' v h e =
    let (_, passed, e1) = >>=-eq-ok _ _ e in
    let (rooms, picked, e2) = >>=-eq-ok _ _ e1 in
    let current = room_ids d.rooms in
    let same = is_permutation_iff_Perm ids current (room_ids-Nodup d.rooms h.distinct) in
    (
      rooms,
      (picked, (document_eq (ok_eq e2), same.0 (check_permutation_passed ids current passed))),
    )

-- An accepted order of the rooms of a document with the invariant leaves one with the invariant.
pub order_rooms-IsValid :
    (ids : List Text) (d d' : Document) (v : Value)
    → IsValid d
    → order ids d ≡ ok (v, d')
    → IsValid d'
order_rooms-IsValid ids d d' v h e =
    let (rooms, (picked, (same, p))) = order_ok ids d d' v h e in
    let moved =
      pick-Perm (λ r. r.id) d.rooms ids rooms (room_ids-Nodup d.rooms h.distinct) p picked in
    subst IsValid same (record {
      version = h.version;
      rooms = pick-All (λ r. r.id) IsValidRoom d.rooms ids rooms h.rooms picked;
      distinct = Perm.nodup (Perm.symm (ids_of-Perm rooms d.rooms moved)) h.distinct;
    })

-- An accepted order of a valid document puts the rooms in the order of the ids of the request, and
-- leaves each room with its sockets as it was.
pub order-Ordered :
    (ids : List Text) (d d' : Document) (v : Value)
    → IsValid d
    → order ids d ≡ ok (v, d')
    → Ordered ids d d'
order-Ordered ids d d' v h e =
    let (rooms, (picked, (same, p))) = order_ok ids d d' v h e in
    subst (Ordered ids d) same (
      ids_of_pick (λ r. r.id) d.rooms ids rooms picked,
      pick-Perm (λ r. r.id) d.rooms ids rooms (room_ids-Nodup d.rooms h.distinct) p picked,
    )

-- On a valid document the order is accepted where the ids are a rearrangement of the ids of the
-- rooms, and no subscript fails; every other list of ids is answered with order_mismatch.
pub order_decides :
    (ids : List Text) (d : Document)
    → IsValid d
    → (Perm ids (room_ids d.rooms) × (c : Change) × (order ids d ≡ ok c))
      ⊎ ((¬ Perm ids (room_ids d.rooms)) × (order ids d ≡ order_mismatch))
unfolding order check_permutation ◌>>=◌
order_decides ids d h =
    let same = is_permutation_iff_Perm ids (room_ids d.rooms) (room_ids-Nodup d.rooms h.distinct) in
    elim (Bool-cases (is_permutation ids (room_ids d.rooms))) [
      | inl e ↦
          let p = same.0 e in
          let (rooms, picked) = pick-ok (λ r. r.id) d.rooms ids (λ i. (Perm.mem_iff p).0) in
          inl (p, (arr (texts_json ids), with_rooms d rooms), rw e (rw picked refl))
      | inr e ↦ inr ((λ p. ground (arith, same.1 p)), rw e refl)
    ]
