-- ===== src/Examples/Watching.antt =====
-- The theorems on the watch channels, where a channel watches message 1.
use open_cidn.Base.{pos, bytes, [], ◌∷◌, arith}
use open_cidn.Messages.Table.{message_of}
use open_cidn.Messages.Watch.{MessageResponse, Watch, response_of, append_watch_channel}
use open_cidn.Messages.Leases.{leased}
use open_cidn.Messages.Channels.Tidy.{IsTidy, appends, act-IsTidy}
use open_cidn.Examples.Data.{waiting_row}

abbrev watched : Watch
watched = record {
  by_message = (pos 1, record { name = 0; buffer = [] } ∷ []) ∷ [];
  list = [];
  next = 1;
  reads = [];
}

watched-IsTidy : IsTidy watched
watched-IsTidy = record {
  keys = (
    record { present = tt; fit = (record { within = omega arith; named = omega arith }, tt) },
    tt,
  );
  listed = tt;
}

abbrev started : MessageResponse
started = response_of (message_of (leased (bytes "w") waiting_row))

act-IsTidy_example : IsTidy (append_watch_channel (pos 1) started watched)
act-IsTidy_example = act-IsTidy (appends (pos 1) started) watched watched-IsTidy
