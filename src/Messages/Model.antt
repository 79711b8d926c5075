-- ===== src/Messages/Model.antt =====
-- The status codes and the attributes of a message: pkg/queue/model/message.go.
use open_cidn.Base.{
  ℕ, Bool, false, ◌&&◌, ℤ, pos, int_eq, Bytes, [], str_eq, bool_eq, ◌≡◌, true, str_eq_refl,
  int_eq_refl, bool_eq_refl,
}

-- MessageStatus, a uint64 with five named values.
abbrev pub status_pending : ℕ
status_pending = 0

abbrev pub status_processing : ℕ
status_processing = 10

abbrev pub status_completed : ℕ
status_completed = 20

abbrev pub status_failed : ℕ
status_failed = 30

abbrev pub status_cleanup : ℕ
status_cleanup = 90

pub record MessageAttr : Type 0 where
  pub kind : Bytes
  pub error : Bytes
  pub host : Bytes
  pub image : Bytes
  pub progress : ℤ
  pub size : ℤ
  pub deep : Bool

-- Whether the stored JSON would be the same.
unfoldable pub attr_eq : MessageAttr → MessageAttr → Bool
attr_eq a b =
    str_eq a.kind b.kind
    && str_eq a.error b.error
    && str_eq a.host b.host
    && str_eq a.image b.image
    && int_eq a.progress b.progress
    && int_eq a.size b.size
    && bool_eq a.deep b.deep

pub attr_eq_refl : (a : MessageAttr) → attr_eq a a ≡ true
unfolding attr_eq
attr_eq_refl a = simp (str_eq_refl, int_eq_refl, bool_eq_refl)

-- A row as the queries return it: the `Message` of Go. Queries that do not select the lease leave
-- it empty.
pub record Message : Type 0 where
  pub message_id : ℤ
  pub content : Bytes
  pub lease : Bytes
  pub priority : ℤ
  pub status : ℕ
  pub attr : MessageAttr
  pub last_heartbeat : ℕ

-- The zero value of `MessageAttr`.
abbrev pub zero_attr : MessageAttr
zero_attr = record {
  kind = [];
  error = [];
  host = [];
  image = [];
  progress = pos 0;
  size = pos 0;
  deep = false;
}
