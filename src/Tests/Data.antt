-- ===== src/Tests/Data.antt =====
-- A household with two rooms and two sockets, and stand-ins for what is not in the repository.

use librsswitch.Base.{refl, ◌==◌, [], ◌∷◌, none, some, All, arith}
use librsswitch.Base.Text.{Text, ◌==◌ as text_eq, contains}
use librsswitch.Http.{HttpError}
use librsswitch.Jsonutil.{Stdlib, loaded}
use librsswitch.Model.Types.{rev_008345, pollin_2605, Socket, Room, Document}
use librsswitch.Model.Check.{matches_id_pattern, all_id_chars, is_id_char}
use librsswitch.Model.Valid.{ids_of, Nodup-of_Fresh, IsValid}
use librsswitch.Model.Encode.{document_value}
use librsswitch.Validation.{Unicode, other}
use librsswitch.Api.Common.NewId.{IsToken}

abbrev pub lamp : Socket
lamp = record {
  id = b's' ∷ b'1' ∷ [];
  name = b'L' ∷ [];
  kind = rev_008345;
  group = 1;
  number = 2;
  last_sent = none;
}

abbrev pub heater : Socket
heater = record {
  id = b's' ∷ b'2' ∷ [];
  name = b'H' ∷ [];
  kind = pollin_2605;
  group = 20;
  number = 4;
  last_sent = none;
}

abbrev pub kitchen : Room
kitchen = record { id = b'r' ∷ b'1' ∷ []; name = b'K' ∷ []; sockets = lamp ∷ heater ∷ [] }

abbrev pub hall : Room
hall = record { id = b'r' ∷ b'2' ∷ []; name = b'F' ∷ []; sockets = [] }

abbrev pub home : Document
home = record { version = 1; rooms = kitchen ∷ hall ∷ [] }

pub home-IsValid : IsValid home
unfolding matches_id_pattern all_id_chars is_id_char contains text_eq
home-IsValid = record {
  version = refl;
  rooms = (
    record {
      id = refl;
      sockets = (
        record { id = refl; group = omega arith; number = omega arith },
        (record { id = refl; group = omega arith; number = omega arith }, tt),
      );
    },
    (record { id = refl; sockets = tt }, tt),
  );
  distinct = Nodup-of_Fresh [] (ids_of home.rooms) (refl, (refl, (refl, (refl, tt))));
}

abbrev pub entity_too_large : HttpError
entity_too_large = record {
  code = 413;
  name = b'T' ∷ [];
  description = [];
  headers = [];
  valid_methods = [];
}

-- A standard library that reads and writes one document.
abbrev pub one_document : Stdlib
one_document = record {
  decode = some;
  encode = some;
  json_loads = λ refuse t. loaded (document_value home);
  json_dumps = λ v. b'{' ∷ b'}' ∷ [];
  too_large = entity_too_large;
}

-- Characters as in ASCII, the space apart.
abbrev pub ascii : Unicode
ascii = record { nfc = λ t. t; casefold = λ t. t; is_space = λ c. c == 32; category = λ c. other }

-- "000000000001"
abbrev pub token : Text
token = b'0' ∷ b'0' ∷ b'0' ∷ b'0' ∷ b'0' ∷ b'0' ∷ b'0' ∷ b'0' ∷ b'0' ∷ b'0' ∷ b'0' ∷ b'1' ∷ []

pub token-IsToken : All IsToken (token ∷ [])
unfolding all_id_chars is_id_char
token-IsToken = (record { length_12 = refl; chars = refl }, tt)
