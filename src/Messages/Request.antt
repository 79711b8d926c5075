-- ===== src/Messages/Request.antt =====
-- Requests and responses of pkg/queue/controller/message.go. A body is `none` where `ReadEntity`
-- fails. The text of an error, which quotes the error below it, is left out of its entity.
use open_cidn.Base.{
  ℕ, ◌+◌, ◌-◌, ◌*◌, ◌^◌, Bool, ◌&&◌, ◌||◌, ◌==◌, ltb, leb, if◌then◌else◌, ℤ, pos, negsuc, Bytes,
  bytes, str_eq, Option, none, some, List, [], ◌∷◌,
}
use open_cidn.Messages.Model.{MessageAttr}
use open_cidn.Messages.Watch.{MessageResponse}
use open_cidn.Messages.World.{Exec, pure, raise}

pub record MessageRequest : Type 0 where
  pub content : Bytes
  pub priority : ℤ
  pub attr : MessageAttr

-- ConsumeRequest, CompletedRequest and CancelRequest.
pub record LeaseRequest : Type 0 where
  pub lease : Bytes

-- HeartbeatRequest and FailedRequest.
pub record AttrRequest : Type 0 where
  pub lease : Bytes
  pub attr : MessageAttr

pub data Body : Type 0 where
  no_body : Body
  error_code : Bytes → Body
  one : MessageResponse → Body
  many : List MessageResponse → Body

pub record Response : Type 0 where
  pub code : ℕ
  pub body : Body

abbrev pub fails : ℕ → Bytes → Response
fails code name = record { code = code; body = error_code name }

abbrev pub entity : ℕ → MessageResponse → Response
entity code m = record { code = code; body = one m }

abbrev pub no_content : Response
no_content = record { code = 204; body = no_body }

digits : ℕ → Bytes → Option ℕ
digits n [] = some n
digits n (c ∷ cs) =
    let rest = digits (n * 10 + (c - b'0')) cs in if leb b'0' c && leb c b'9' then rest else none

number : Bytes → Option ℕ
unfolding digits
number [] = none
number (c ∷ cs) = digits 0 (c ∷ cs)

-- `n` up to 2^63 - 1.
positive : Option ℕ → Option ℤ
positive none = none
positive (some n) = if ltb n (2 ^ 63) then some (pos n) else none

-- `-n` down to -2^63.
negative : Option ℕ → Option ℤ
negative none = none
negative (some n) =
    if n == 0 then some (pos 0) else if leb n (2 ^ 63) then some (negsuc (n - 1)) else none

-- strconv.ParseInt(s, 10, 64).
unfoldable pub parse_int : Bytes → Option ℤ
unfolding number positive negative
parse_int [] = none
parse_int (c ∷ cs) =
    if c == b'-'
    then negative (number cs)
    else if c == b'+'
    then positive (number cs)
    else positive (number (c ∷ cs))

-- strconv.ParseBool, false on an error.
unfoldable pub parse_bool : Bytes → Bool
parse_bool s =
    str_eq s (bytes "1")
    || str_eq s (bytes "t")
    || str_eq s (bytes "T")
    || str_eq s (bytes "true")
    || str_eq s (bytes "TRUE")
    || str_eq s (bytes "True")

abbrev pub id_or_fail : Option ℤ → Exec Response ℤ
id_or_fail none = raise (fails 400 (bytes "InvalidIDError"))
id_or_fail (some id) = pure id

unfoldable pub path_id : Bytes → Exec Response ℤ
path_id text = id_or_fail (parse_int text)

-- `ReadEntity`, with the code of the error.
unfoldable pub read_entity : {A : Type 0} → Option A → Bytes → Exec Response A
read_entity none name = raise (fails 400 name)
read_entity (some a) name = pure a

-- `if request.Lease == "" { ... return }`.
unfoldable pub require_lease : Bytes → Exec Response (Unit {0})
require_lease [] = raise (fails 400 (bytes "CompletedRequestError"))
require_lease (c ∷ cs) = pure tt
