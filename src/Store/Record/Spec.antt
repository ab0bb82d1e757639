-- ===== src/Store/Record/Spec.antt =====
-- Which sockets the loop of `record_last_sent` changes, and how.
use librsswitch.Base.{
  ℕ, ◌+◌, ◌≤◌, ◌<◌, ◌≡◌, ◌≢◌, ◌⊎◌, refl, ap, Bool, true, false, ◌&&◌, Bool-cases, Option-cases,
  List, Option, none, some, inl, inr, ltb, leb, arith,
}
use librsswitch.Base.Text.{Text, contains}
use librsswitch.Model.Types.{State, LastSent, Socket, Room, Kind, rev_008345, pollin_2605}
use librsswitch.Store.Find.Laws.{socket_at}
use librsswitch.Store.Record.{
  Address, address_of, same_kind, same_address, stamp, seconds_ahead, is_newer, is_recordable,
  record_ids,
}
use librsswitch.Store.Record.Laws.{stamped, takes, socket_at-record_ids, contains-record_ids}
use librsswitch.Store.Record.One.{same_address_eq}

same_kind_refl : (k : Kind) → same_kind k k ≡ true
unfolding same_kind
same_kind_refl rev_008345 = refl
same_kind_refl pollin_2605 = refl

same_address_of_eq : (a b : Address) → a ≡ b → same_address a b ≡ true
unfolding same_address
same_address_of_eq a b h =
    let kind : a.kind ≡ b.kind = ap (λ (c : Address). c.kind) h in
    let group : a.group ≡ b.group = ap (λ (c : Address). c.group) h in
    let number : a.number ≡ b.number = ap (λ (c : Address). c.number) h in
    ground (arith, same_kind_refl b.kind)

module _ (parse_time : Text → Option ℕ) (address : Address) (state : State) (at : Text) where
  -- The time stored with the socket is later than that of the command, by two seconds at most.
  abbrev pub IsAhead : Socket → Type 0
  IsAhead s =
      (l : LastSent) × (t u : ℕ) × (s.last_sent ≡ some l)
      × (parse_time l.at ≡ some t)
      × (parse_time at ≡ some u)
      × (u < t)
      × (t ≤ u + 2000000)

  -- A socket of a listed id before and after, and whether its id is returned: it is as before where it
  -- has another address now or a later command was confirmed first, else it has the command as its
  -- last_sent.
  abbrev pub RecordSpec : Bool → Socket → Socket → Type 0
  RecordSpec written s s' =
      ((written ≡ false) × (s' ≡ s) × ((address_of s ≢ address) ⊎ IsAhead s))
      ⊎ ((written ≡ true)
          × (s' ≡ record s { last_sent = some (record { state = state; at = at }) })
          × (address_of s ≡ address)
          × (¬ IsAhead s))

  times-IsAhead :
      (s : Socket) (l : LastSent) (t u : ℕ)
      → s.last_sent ≡ some l
      → parse_time l.at ≡ some t
      → parse_time at ≡ some u
      → ((is_newer parse_time s.last_sent at ≡ true) × IsAhead s)
        ⊎ ((is_newer parse_time s.last_sent at ≡ false) × (¬ IsAhead s))
  unfolding is_newer seconds_ahead
  times-IsAhead s l t u e et eu = elim (Bool-cases (ltb u t && leb t (u + 2000000))) [
    | inl h ↦ inl (ground arith, (l, t, u, e, et, eu, ground arith, ground arith))
    | inr h ↦ inr (ground arith, λ (l', t', u', e', et', eu', later, soon). ground arith)
  ]

  is_newer-IsAhead :
      (s : Socket)
      → ((is_newer parse_time s.last_sent at ≡ true) × IsAhead s)
        ⊎ ((is_newer parse_time s.last_sent at ≡ false) × (¬ IsAhead s))
  unfolding is_newer seconds_ahead
  is_newer-IsAhead s = elim (Option-cases s.last_sent) [
    | inl e ↦ inr (rw e refl, λ (l', t', u', e', et', eu', later, soon). ground arith)
    | inr (l, e) ↦ elim (Option-cases (parse_time l.at)) [
      | inl et ↦ inr (ground arith, λ (l', t', u', e', et', eu', later, soon). ground arith)
      | inr (t, et) ↦ elim (Option-cases (parse_time at)) [
        | inl eu ↦ inr (ground arith, λ (l', t', u', e', et', eu', later, soon). ground arith)
        | inr (u, eu) ↦ times-IsAhead s l t u e et eu
      ]
    ]
  ]

  stamped-RecordSpec :
      (s : Socket)
      → RecordSpec (is_recordable parse_time address at s) s (stamped parse_time address state at s)
  unfolding is_recordable stamped stamp
  stamped-RecordSpec s = elim (Bool-cases (same_address (address_of s) address)) [
    | inr other ↦
        let differs : address_of s ≢ address =
          λ h. ground (arith, same_address_of_eq (address_of s) address h) in
        inl (rw other refl, rw other refl, inl differs)
    | inl same ↦
        let equal = same_address_eq (address_of s) address same in
        elim (is_newer-IsAhead s) [
          | inl (newer, ahead) ↦ inl (rw same (rw newer refl), rw same (rw newer refl), inr ahead)
          | inr (newer, not_ahead) ↦
              inr (rw same (rw newer refl), rw same (rw newer refl), equal, not_ahead)
        ]
  ]

  -- Any id in the document, before and after the loop over the ids of a confirmed command. An id that
  -- is not listed is not returned, and its socket is as before; a listed id with no socket is not
  -- returned either. The socket of any other listed id stays as it is, and its id is not returned,
  -- exactly where it has another address than the command was sent to, or a last_sent whose time is
  -- later than that of the command by two seconds at most. Else the id is returned, and the socket
  -- changed in last_sent only, which is the command.
  pub record_ids-RecordSpec :
      (ids : List Text) (rooms : List Room) (j : Text)
      → ((contains j ids ≡ false)
          × (contains j (record_ids parse_time ids address state at rooms).0 ≡ false)
          × (socket_at (record_ids parse_time ids address state at rooms).1 j ≡ socket_at rooms j))
        ⊎ ((socket_at rooms j ≡ none)
            × (contains j (record_ids parse_time ids address state at rooms).0 ≡ false)
            × (socket_at (record_ids parse_time ids address state at rooms).1 j ≡ none))
        ⊎ ((s s' : Socket) × (contains j ids ≡ true)
            × (socket_at rooms j ≡ some s)
            × (socket_at (record_ids parse_time ids address state at rooms).1 j ≡ some s')
            × RecordSpec (contains j (record_ids parse_time ids address state at rooms).0) s s')
  unfolding takes
  record_ids-RecordSpec ids rooms j =
      let after = socket_at-record_ids parse_time address state at ids rooms j in
      let written = contains-record_ids parse_time address state at ids rooms j in
      elim (Bool-cases (contains j ids)) [
        | inr out ↦ inl (out, ground arith, ground arith)
        | inl listed ↦ elim (Option-cases (socket_at rooms j)) [
          | inl e ↦ inr (inl (e, ground arith, ground arith))
          | inr (s, e) ↦
              let flag : contains j (record_ids parse_time ids address state at rooms).0
                  ≡ is_recordable parse_time address at s =
                ground arith in
              inr (
                inr (
                  s,
                  stamped parse_time address state at s,
                  listed,
                  e,
                  ground arith,
                  rw flag (stamped-RecordSpec s),
                ))
        ]
      ]
