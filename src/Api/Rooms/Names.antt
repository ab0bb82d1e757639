-- ===== src/Api/Rooms/Names.antt =====
-- No two rooms have the same name: check_room_name of examples/web/rsswitch_web/api/rooms.py.
use mathlib.Core.List.{
  Mem, Nodup, Nodup-nil, Nodup-cons, not-mem-nil, mem-cons, mem-cons_self, mem-cons_of_mem,
  perm_append_comm,
}
use mathlib.Core.HLevel.{⊥_prop}
use mathlib.Core.List.Perm
use mathlib.Core.Logic.Or
use mathlib.Core.Path.{subst}
use librsswitch.Base.{
  ◌≡◌, refl, sym, ap, ◌∙◌, false, Bool-cases, List, [], ◌∷◌, ◌++◌, Option, none, some, inl, inr,
  map, arith,
}
use librsswitch.Base.Result.{ok, >>=-eq-ok}
use librsswitch.Base.Text.{Text, text, ◌==◌, eq_refl, eq_iff}
use librsswitch.Json.{Value, Fields, get}
use librsswitch.Model.Types.{Room, Document}
use librsswitch.Model.Valid.{room_ids, IsValid}
use librsswitch.Store.Find.{find_room, update_room}
use librsswitch.Store.Find.Ids.{room_ids-Nodup}
use librsswitch.Validation.{Unicode, name_key}
use librsswitch.Validation.Names.{raise_if_passed}
use librsswitch.Api.Common.{is_own, is_taken, room_names, check_room_name}
use librsswitch.Store.Find.Laws.{id_of_find_room}
use librsswitch.Api.Sockets.Valid.{get_room_found}
use librsswitch.Api.Rooms.{new_name, create, edit}
use librsswitch.Api.Rooms.Valid.{ok_eq, document_eq}

module _ (u : Unicode) where
  -- The keys by which names are compared.
  abbrev pub keys : List Room → List Text
  keys = map (λ r. name_key u r.name)

  -- No two rooms of the document have the same name, case and composition apart.
  abbrev pub HasDistinctNames : Document → Type 0
  HasDistinctNames d = Nodup (keys d.rooms)

  not-mem_of_not-taken :
      (key : Text) (rs : List Room)
      → is_taken u key none (room_names u rs) ≡ false
      → ¬ Mem key (keys rs)
  unfolding is_taken is_own
  not-mem_of_not-taken key [] h m = not-mem-nil m
  not-mem_of_not-taken key (r ∷ rs) h m =
      Or.elim ⊥_prop (mem-cons.0 m) (λ e. ground (arith, eq_refl (name_key u r.name), e))
        (not-mem_of_not-taken key rs (ground arith))

  check_passed :
      (rs : List Room) (name : Text) (own : Option Text)
      → check_room_name u rs name own ≡ ok tt
      → is_taken u (name_key u name) own (room_names u rs) ≡ false
  unfolding check_room_name
  check_passed rs name own h = raise_if_passed u _ _ h

  keys-append :
      (rs : List Room) (r : Room) → keys (rs ++ r ∷ []) ≡ keys rs ++ name_key u r.name ∷ []
  keys-append [] r = refl
  keys-append (q ∷ rs) r = ap (◌∷◌ (name_key u q.name)) (keys-append rs r)

  -- Where no two rooms have the same name, case and composition apart, that stays so when a room is
  -- added.
  pub create_room-HasDistinctNames :
      (body : Fields) (tokens : List Text) (d d' : Document) (v : Value)
      → HasDistinctNames d
      → create u body tokens d ≡ ok (v, d')
      → HasDistinctNames d'
  unfolding create
  create_room-HasDistinctNames body tokens d d' v h e =
      let (name, _, e1) = >>=-eq-ok _ _ e in
      let (_, checked, e2) = >>=-eq-ok _ _ e1 in
      let (id, _, e3) = >>=-eq-ok _ _ e2 in
      let room : Room = record { id = id; name = name; sockets = [] } in
      let fresh =
        not-mem_of_not-taken (name_key u name) d.rooms (check_passed d.rooms name none checked) in
      subst HasDistinctNames (document_eq (ok_eq e3)) (
        subst Nodup (sym (keys-append d.rooms room)) (
          Perm.nodup (perm_append_comm (name_key u name ∷ []) (keys d.rooms))
            (Nodup-cons.1 (fresh, h))))

  -- No other room has the key.
  abbrev Only : Text → Text → List Room → Type 0
  Only rid key rs = is_taken u key (some rid) (room_names u rs) ≡ false

  keys_of_other :
      (rs : List Room) (rid key : Text) (f : Room → Room) (k : Text)
      → ¬ Mem k (keys rs)
      → ((r : Room) → name_key u (f r).name ≡ key)
      → ¬ (k ≡ key)
      → ¬ Mem k (keys (update_room rid f rs))
  unfolding update_room
  keys_of_other [] rid key f k h same different = not-mem-nil
  keys_of_other (r ∷ rs) rid key f k h same different = elim (Bool-cases (r.id == rid)) [
    | inl e ↦ rw e (λ m.
        Or.elim ⊥_prop (mem-cons.0 m) (λ e'. different (e' ∙ same r))
          (λ m'. h (mem-cons_of_mem _ m')))
    | inr e ↦ rw e (λ m.
        Or.elim ⊥_prop (mem-cons.0 m)
          (λ e'. h (subst (λ z. Mem z (keys (r ∷ rs))) (sym e') mem-cons_self))
          (keys_of_other rs rid key f k (λ m'. h (mem-cons_of_mem _ m')) same different))
  ]

  not-mem_of_Only :
      (rs : List Room) (rid key : Text)
      → ¬ Mem rid (room_ids rs)
      → Only rid key rs
      → ¬ Mem key (keys rs)
  unfolding is_taken is_own
  not-mem_of_Only [] rid key h only = not-mem-nil
  not-mem_of_Only (r ∷ rs) rid key h only =
      let other : ¬ (r.id ≡ rid) =
        λ e. h (subst (λ z. Mem z (room_ids (r ∷ rs))) e mem-cons_self) in
      λ m.
        Or.elim ⊥_prop (mem-cons.0 m)
          (λ e. ground (arith, eq_refl (name_key u r.name), e, eq_iff r.id rid, other))
          (not-mem_of_Only rs rid key (λ m'. h (mem-cons_of_mem _ m')) (ground arith))

  -- Renaming a room to a name that no other room has.
  keys-update_room :
      (rs : List Room) (rid key : Text) (f : Room → Room)
      → Nodup (room_ids rs)
      → Nodup (keys rs)
      → Only rid key rs
      → ((r : Room) → name_key u (f r).name ≡ key)
      → Nodup (keys (update_room rid f rs))
  unfolding update_room is_taken is_own
  keys-update_room [] rid key f di dk only same = Nodup-nil
  keys-update_room (r ∷ rs) rid key f di dk only same = elim (Bool-cases (r.id == rid)) [
    | inl e ↦
        let absent =
          subst (λ z. ¬ Mem z (room_ids rs)) ((eq_iff r.id rid).0 e) (Nodup-cons.0 di).0 in
        rw e (
          Nodup-cons.1 (
            subst (λ z. ¬ Mem z (keys rs)) (sym (same r))
                (not-mem_of_Only rs rid key absent (ground arith)),
            (Nodup-cons.0 dk).1,
          ))
    | inr e ↦
        let different : ¬ (name_key u r.name ≡ key) =
          λ e'. ground (arith, eq_iff (name_key u r.name) key) in
        rw e (
          Nodup-cons.1 (
            keys_of_other rs rid key f (name_key u r.name) (Nodup-cons.0 dk).0 same different,
            keys-update_room rs rid key f (Nodup-cons.0 di).1 (Nodup-cons.0 dk).1 (ground arith)
                same,
          ))
  ]

  keys_same :
      (rs : List Room) (rid : Text) (r : Room)
      → find_room rs rid ≡ some r
      → keys (update_room rid (λ q. record q { name = r.name }) rs) ≡ keys rs
  unfolding find_room update_room
  keys_same [] rid r h = refl
  keys_same (q ∷ rs) rid r h = ground (arith, keys_same rs rid r)

  renamed :
      (o : Option Value) (d : Document) (rid name : Text) (room : Room)
      → IsValid d
      → HasDistinctNames d
      → find_room d.rooms rid ≡ some room
      → room.id ≡ rid
      → new_name u o room d ≡ ok name
      → Nodup (keys (update_room rid (λ r. record r { name = name }) d.rooms))
  unfolding new_name
  renamed none d rid name room valid h found own e =
      subst (λ z. Nodup (keys (update_room rid (λ r. record r { name = z }) d.rooms))) (ok_eq e)
        (subst Nodup (sym (keys_same d.rooms rid room found)) h)
  renamed (some value) d rid name room valid h found own e =
      let (name', _, e1) = >>=-eq-ok _ _ e in
      let (_, checked, e2) = >>=-eq-ok _ _ e1 in
      let only = check_passed d.rooms name' (some room.id) checked in
      let change : Text → Type 0 =
        λ z. Nodup (keys (update_room rid (λ r. record r { name = z }) d.rooms)) in
      subst change (ok_eq e2) (
        keys-update_room d.rooms rid (name_key u name') (λ r. record r { name = name' })
          (room_ids-Nodup d.rooms valid.distinct) h
          (subst (λ z. Only z (name_key u name') d.rooms) own only) (λ r. refl))

  -- Where no two rooms have the same name, case and composition apart, that stays so when a room of a
  -- document with the invariant is edited.
  pub edit_room-HasDistinctNames :
      (rid : Text) (body : Fields) (d d' : Document) (v : Value)
      → IsValid d
      → HasDistinctNames d
      → edit u rid body d ≡ ok (v, d')
      → HasDistinctNames d'
  unfolding edit
  edit_room-HasDistinctNames rid body d d' v valid h e =
      let (room, got, e1) = >>=-eq-ok _ _ e in
      let (_, _, e2) = >>=-eq-ok _ _ e1 in
      let (name, named, e3) = >>=-eq-ok _ _ e2 in
      let found = get_room_found d.rooms rid room got in
      subst HasDistinctNames (document_eq (ok_eq e3)) (
        renamed (get (text "name") body) d rid name room valid h found
          (id_of_find_room d.rooms rid room found) named)
