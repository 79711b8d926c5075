-- ===== src/Messages/Watch.antt =====
-- The watch channels of pkg/queue/controller/message.go: for each message a set of channels that
-- hold 2 notices, and one set of channels that hold 8 for the list. A channel is named by a number
-- in place of its address. `reads` names the channels from which a reader takes a notice between
-- the two passes of an append.
use open_cidn.Base.{
  ℕ, suc, Bool, true, false, ◌||◌, not, ◌==◌, ltb, if◌then◌else◌, ℤ, int_eq, Bytes, List, [], ◌∷◌,
  ◌++◌, length, filter,
}
use open_cidn.Messages.Model.{MessageAttr, Message}

pub record MessageResponse : Type 0 where
  pub message_id : ℤ
  pub content : Bytes
  pub priority : ℤ
  pub status : ℕ
  pub attr : MessageAttr
  pub last_heartbeat : ℕ

abbrev pub response_of : Message → MessageResponse
response_of m = record {
  message_id = m.message_id;
  content = m.content;
  priority = m.priority;
  status = m.status;
  attr = m.attr;
  last_heartbeat = m.last_heartbeat;
}

pub record Channel : Type 0 where
  pub name : ℕ
  pub buffer : List MessageResponse

pub record Watch : Type 0 where
  pub by_message : List (ℤ × List Channel)
  pub list : List Channel
  pub next : ℕ
  pub reads : List ℕ

abbrev pub message_cap : ℕ
message_cap = 2

abbrev pub list_cap : ℕ
list_cap = 8

abbrev pub contains : ℕ → List ℕ → Bool
contains n [] = false
contains n (m ∷ ms) = n == m || contains n ms

-- A non-blocking send.
unfoldable pub try_send : ℕ → MessageResponse → Channel → Channel
try_send cap mr c =
    if ltb (length c.buffer) cap then record c { buffer = c.buffer ++ mr ∷ [] } else c

abbrev pub rest_of : List MessageResponse → List MessageResponse
rest_of [] = []
rest_of (m ∷ ms) = ms

-- What a reader leaves.
unfoldable pub after_reads : List ℕ → Channel → Channel
after_reads reads c = if contains c.name reads then record c { buffer = rest_of c.buffer } else c

-- The two passes over one channel: those that are full are tried once more.
unfoldable pub offer : ℕ → List ℕ → MessageResponse → Channel → Channel
unfolding try_send after_reads
offer cap reads mr c =
    if ltb (length c.buffer) cap then try_send cap mr c else try_send cap mr (after_reads reads c)

unfoldable pub offer_all : ℕ → List ℕ → MessageResponse → List Channel → List Channel
offer_all cap reads mr [] = []
offer_all cap reads mr (c ∷ cs) = offer cap reads mr c ∷ offer_all cap reads mr cs

-- `watchChannels[id]`, empty where the key is missing.
unfoldable pub channels_of : ℤ → List (ℤ × List Channel) → List Channel
channels_of id [] = []
channels_of id ((k, cs) ∷ m) = if int_eq k id then cs else channels_of id m

-- `watchChannels[id] = cs`.
unfoldable pub put : ℤ → List Channel → List (ℤ × List Channel) → List (ℤ × List Channel)
put id cs [] = (id, cs) ∷ []
put id cs ((k, ds) ∷ m) = if int_eq k id then (k, cs) ∷ m else (k, ds) ∷ put id cs m

-- `delete(watchChannels, id)`.
unfoldable pub delete : ℤ → List (ℤ × List Channel) → List (ℤ × List Channel)
delete id [] = []
delete id ((k, ds) ∷ m) = if int_eq k id then m else (k, ds) ∷ delete id m

unfoldable pub offer_entry :
    ℤ → List ℕ → MessageResponse → List (ℤ × List Channel) → List (ℤ × List Channel)
offer_entry id reads mr [] = []
offer_entry id reads mr ((k, cs) ∷ m) =
    if int_eq k id
    then (k, offer_all message_cap reads mr cs) ∷ m
    else (k, cs) ∷ offer_entry id reads mr m

-- Channels are shared references, so a send to those of `id` is seen under their key.
unfoldable pub append_watch_channel : ℤ → MessageResponse → Watch → Watch
unfolding offer_entry
append_watch_channel id mr w = record w { by_message = offer_entry id w.reads mr w.by_message }

unfoldable pub append_watch_list_channels : MessageResponse → Watch → Watch
append_watch_list_channels mr w = record w { list = offer_all list_cap w.reads mr w.list }

-- A new channel for a message, by its name.
unfoldable pub get_watch_channel : ℤ → Watch → ℕ × Watch
get_watch_channel id w = (
  w.next,
  record w {
    by_message =
        put id (channels_of id w.by_message ++ record { name = w.next; buffer = [] } ∷ [])
          w.by_message;
    next = suc w.next;
  },
)

abbrev pub without : ℕ → List Channel → List Channel
without name cs = filter (λ c. not (c.name == name)) cs

abbrev pub is_empty : List Channel → Bool
is_empty [] = true
is_empty (c ∷ cs) = false

-- The function that `getWatchChannel` returns.
unfoldable pub cancel_watch_channel : ℤ → ℕ → Watch → Watch
cancel_watch_channel id name w =
    let left = without name (channels_of id w.by_message) in
    record w {
      by_message = if is_empty left then delete id w.by_message else put id left w.by_message;
    }

unfoldable pub get_watch_list_channel : Watch → ℕ × Watch
get_watch_list_channel w = (
  w.next,
  record w { list = w.list ++ record { name = w.next; buffer = [] } ∷ []; next = suc w.next },
)

unfoldable pub cancel_watch_list_channel : ℕ → Watch → Watch
cancel_watch_list_channel name w = record w { list = without name w.list }
