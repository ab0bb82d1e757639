-- ===== src/Tests/Codec.antt =====
-- A standard library that reads back every document: texts end in 0, lists start with their length.
use librsswitch.Base.{
  ℕ, zero, suc, ◌≡◌, refl, ap, List, [], ◌∷◌, ◌++◌, none, some, length, Option, ◌∙◌, arith,
}
use librsswitch.Base.Text.{Text, text}
use librsswitch.Base.Result.{ok}
use librsswitch.Tests.Data.{entity_too_large}
use librsswitch.Jsonutil.{Stdlib, loaded, strict_loads, as_result}
use librsswitch.Model.Types.{
  Document, empty_document, Room, Socket, LastSent, State, on, off, Kind, rev_008345, pollin_2605,
}
use librsswitch.Model.Encode.{document_value}
use librsswitch.Model.View.{document_of}
use librsswitch.Model.Complete.{document_of-document_value}
use librsswitch.Store.File.{text_of_file}
use librsswitch.Store.File.Write.{Codec}

-- What a parser returns: its result and what is left.
abbrev Parsed : Type 0 → Type 0
Parsed A = A × List ℕ

abbrev put_text : Text → List ℕ → List ℕ
put_text [] rest = 0 ∷ rest
put_text (c ∷ s) rest = suc c ∷ put_text s rest

abbrev get_text : List ℕ → Parsed Text
get_text [] = ([], [])
get_text (zero ∷ rest) = ([], rest)
get_text (suc c ∷ rest) = let (s, left) = get_text rest in (c ∷ s, left)

get_text-put_text : (t : Text) (rest : List ℕ) → get_text (put_text t rest) ≡ (t, rest)
get_text-put_text [] rest = refl
get_text-put_text (c ∷ s) rest = ap (λ (p : Parsed Text). (c ∷ p.0, p.1)) (get_text-put_text s rest)

abbrev state_code : State → ℕ
state_code on = 0
state_code off = 1

abbrev code_state : ℕ → State
code_state zero = on
code_state (suc n) = off

code_state-state_code : (s : State) → code_state (state_code s) ≡ s
code_state-state_code on = refl
code_state-state_code off = refl

abbrev put_last : Option LastSent → List ℕ → List ℕ
put_last none rest = 0 ∷ rest
put_last (some l) rest = suc (state_code l.state) ∷ put_text l.at rest

abbrev get_last : List ℕ → Parsed (Option LastSent)
get_last [] = (none, [])
get_last (zero ∷ rest) = (none, rest)
get_last (suc n ∷ rest) =
    let (t, left) = get_text rest in (some (record { state = code_state n; at = t }), left)

get_last-put_last : (l : Option LastSent) (rest : List ℕ) → get_last (put_last l rest) ≡ (l, rest)
get_last-put_last none rest = refl
get_last-put_last (some l) rest = simp (get_text-put_text, code_state-state_code)

abbrev kind_code : Kind → ℕ
kind_code rev_008345 = 0
kind_code pollin_2605 = 1

abbrev code_kind : ℕ → Kind
code_kind zero = rev_008345
code_kind (suc n) = pollin_2605

code_kind-kind_code : (k : Kind) → code_kind (kind_code k) ≡ k
code_kind-kind_code rev_008345 = refl
code_kind-kind_code pollin_2605 = refl

unfoldable pub put_socket : Socket → List ℕ → List ℕ
put_socket s rest =
    put_text s.id
      (put_text s.name (kind_code s.kind ∷ s.group ∷ s.number ∷ put_last s.last_sent rest))

abbrev get_address : List ℕ → Parsed (Kind × ℕ × ℕ)
get_address (k ∷ g ∷ n ∷ rest) = ((code_kind k, g, n), rest)
get_address _ = ((rev_008345, 0, 0), [])

unfoldable pub get_socket : List ℕ → Parsed Socket
get_socket l =
    let (id, l1) = get_text l in
    let (name, l2) = get_text l1 in
    let ((kind, group, number), l3) = get_address l2 in
    let (last_sent, left) = get_last l3 in
    (
      record {
        id = id;
        name = name;
        kind = kind;
        group = group;
        number = number;
        last_sent = last_sent;
      },
      left,
    )

get_socket-put_socket : (s : Socket) (rest : List ℕ) → get_socket (put_socket s rest) ≡ (s, rest)
unfolding get_socket put_socket
get_socket-put_socket s rest = simp (get_text-put_text, get_last-put_last, code_kind-kind_code)

abbrev put_sockets : List Socket → List ℕ → List ℕ
put_sockets [] rest = rest
put_sockets (s ∷ ss) rest = put_socket s (put_sockets ss rest)

abbrev get_sockets : ℕ → List ℕ → Parsed (List Socket)
get_sockets zero l = ([], l)
get_sockets (suc n) l =
    let (s, l1) = get_socket l in let (ss, left) = get_sockets n l1 in (s ∷ ss, left)

get_sockets-put_sockets :
    (ss : List Socket) (rest : List ℕ) → get_sockets (length ss) (put_sockets ss rest) ≡ (ss, rest)
get_sockets-put_sockets [] rest = refl
get_sockets-put_sockets (s ∷ ss) rest =
    simp (get_socket-put_socket, get_sockets-put_sockets ss rest)

unfoldable pub put_room : Room → List ℕ → List ℕ
put_room r rest = put_text r.id (put_text r.name (length r.sockets ∷ put_sockets r.sockets rest))

abbrev get_counted : List ℕ → Parsed (List Socket)
get_counted [] = ([], [])
get_counted (n ∷ l) = get_sockets n l

unfoldable pub get_room : List ℕ → Parsed Room
get_room l =
    let (id, l1) = get_text l in
    let (name, l2) = get_text l1 in
    let (sockets, left) = get_counted l2 in
    (record { id = id; name = name; sockets = sockets }, left)

get_room-put_room : (r : Room) (rest : List ℕ) → get_room (put_room r rest) ≡ (r, rest)
unfolding get_room put_room
get_room-put_room r rest = simp (get_text-put_text, get_sockets-put_sockets)

abbrev put_rooms : List Room → List ℕ → List ℕ
put_rooms [] rest = rest
put_rooms (r ∷ rs) rest = put_room r (put_rooms rs rest)

abbrev get_rooms : ℕ → List ℕ → Parsed (List Room)
get_rooms zero l = ([], l)
get_rooms (suc n) l = let (r, l1) = get_room l in let (rs, left) = get_rooms n l1 in (r ∷ rs, left)

get_rooms-put_rooms :
    (rs : List Room) (rest : List ℕ) → get_rooms (length rs) (put_rooms rs rest) ≡ (rs, rest)
get_rooms-put_rooms [] rest = refl
get_rooms-put_rooms (r ∷ rs) rest = simp (get_room-put_room, get_rooms-put_rooms rs rest)

unfoldable pub put_document : Option Document → List ℕ
put_document none = []
put_document (some d) = d.version ∷ length d.rooms ∷ put_rooms d.rooms []

unfoldable pub get_document : List ℕ → Document
get_document (v ∷ n ∷ l) = record { version = v; rooms = (get_rooms n l).0 }
get_document _ = empty_document

get_document-put_document : (d : Document) → get_document (put_document (some d)) ≡ d
unfolding get_document put_document
get_document-put_document d =
    ap (λ (p : Parsed (List Room)). record { version = d.version; rooms = p.0 })
      (get_rooms-put_rooms d.rooms [])

-- The text without the newline that `_write` adds.
abbrev pub without_last : Text → Text
without_last [] = []
without_last (c ∷ []) = []
without_last (c ∷ d ∷ s) = c ∷ without_last (d ∷ s)

without_last-append : (t : Text) (c : ℕ) → without_last (t ++ c ∷ []) ≡ t
without_last-append [] c = refl
without_last-append (d ∷ []) c = refl
without_last-append (d ∷ e ∷ t) c = ap (◌∷◌ d) (without_last-append (e ∷ t) c)

abbrev pub counted : Stdlib
counted = record {
  decode = some;
  encode = λ t. some (without_last t);
  json_loads = λ refuse t. loaded (document_value (get_document t));
  json_dumps = λ v. put_document (document_of v);
  too_large = entity_too_large;
}

pub counted-Codec : Codec counted
unfolding strict_loads as_result text_of_file text
counted-Codec d valid payload encoded =
    let printed : List ℕ = put_document (document_of (document_value d)) in
    let same : payload ≡ printed = ground (arith, without_last-append printed b'\n') in
    let parsed : get_document printed ≡ d =
      ap (λ o. get_document (put_document o)) (document_of-document_value d)
      ∙ get_document-put_document d in
    ap (λ x. ok (document_value x)) (ap get_document same ∙ parsed)
