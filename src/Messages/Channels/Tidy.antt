-- ===== src/Messages/Channels/Tidy.antt =====
-- What keeps the watch channels in order, whatever is done to them (pkg/queue/controller/message.go).
use open_cidn.Base.{
  ℕ, suc, ◌≤◌, ◌<◌, ◌≡◌, inl, inr, false, not, ◌==◌, Bool-cases, ℤ, int_eq, List, [], ◌∷◌, ◌++◌,
  All, All-append, All-filter, All-mono, length, length-append, arith,
}
use open_cidn.Messages.Watch.{
  MessageResponse, Channel, Watch, message_cap, list_cap, offer, offer_all, channels_of, put,
  delete, offer_entry, append_watch_channel, append_watch_list_channels, get_watch_channel,
  cancel_watch_channel, get_watch_list_channel, cancel_watch_list_channel, without, rest_of,
  is_empty,
}

-- A channel holds no more than its capacity, and has a name that was given out.
pub record Fits (cap next : ℕ) (c : Channel) : Type 0 where
  pub within : length c.buffer ≤ cap
  pub named : c.name < next

abbrev pub Present : List Channel → Type 0
Present [] = ⊥
Present (c ∷ cs) = Unit

-- Every set under a key is filled, and its channels fit.
pub record IsFilled (next : ℕ) (entry : ℤ × List Channel) : Type 0 where
  pub present : Present entry.1
  pub fit : All (Fits message_cap next) entry.1

pub record IsTidy (w : Watch) : Type 0 where
  pub keys : All (IsFilled w.next) w.by_message
  pub listed : All (Fits list_cap w.next) w.list

length-rest_of : (ms : List MessageResponse) → length (rest_of ms) ≤ length ms
length-rest_of [] = omega arith
length-rest_of (m ∷ ms) = omega arith

offer-Fits :
    (cap next : ℕ) (reads : List ℕ) (mr : MessageResponse) (c : Channel)
    → Fits cap next c
    → Fits cap next (offer cap reads mr c)
unfolding offer
offer-Fits cap next reads mr c f = ground (
  arith,
  length-append c.buffer (mr ∷ []),
  length-append (rest_of c.buffer) (mr ∷ []),
  length-rest_of c.buffer,
)

offer_all-Fits :
    (cap next : ℕ) (reads : List ℕ) (mr : MessageResponse) (cs : List Channel)
    → All (Fits cap next) cs
    → All (Fits cap next) (offer_all cap reads mr cs)
unfolding offer_all
offer_all-Fits cap next reads mr [] f = tt
offer_all-Fits cap next reads mr (c ∷ cs) f =
    (offer-Fits cap next reads mr c f.0, offer_all-Fits cap next reads mr cs f.1)

offer_all-Present :
    (cap : ℕ) (reads : List ℕ) (mr : MessageResponse) (cs : List Channel)
    → Present cs
    → Present (offer_all cap reads mr cs)
unfolding offer_all
offer_all-Present cap reads mr (c ∷ cs) p = tt
offer_all-Present cap reads mr [] p = p

offer_entry-IsFilled :
    (next : ℕ) (id : ℤ) (reads : List ℕ) (mr : MessageResponse) (m : List (ℤ × List Channel))
    → All (IsFilled next) m
    → All (IsFilled next) (offer_entry id reads mr m)
unfolding offer_entry
offer_entry-IsFilled next id reads mr [] f = tt
offer_entry-IsFilled next id reads mr ((k, cs) ∷ m) f = elim (Bool-cases (int_eq k id)) [
  | inl hit ↦ rw hit (
    record {
      present = offer_all-Present message_cap reads mr cs f.0.present;
      fit = offer_all-Fits message_cap next reads mr cs f.0.fit;
    },
    f.1,
  )
  | inr miss ↦ rw miss (f.0, offer_entry-IsFilled next id reads mr m f.1)
]

put-IsFilled :
    (next : ℕ) (id : ℤ) (cs : List Channel) (m : List (ℤ × List Channel))
    → IsFilled next (id, cs)
    → All (IsFilled next) m
    → All (IsFilled next) (put id cs m)
unfolding put
put-IsFilled next id cs [] g f = (g, tt)
put-IsFilled next id cs ((k, ds) ∷ m) g f = elim (Bool-cases (int_eq k id)) [
  | inl hit ↦ rw hit (record { present = g.present; fit = g.fit }, f.1)
  | inr miss ↦ rw miss (f.0, put-IsFilled next id cs m g f.1)
]

delete-IsFilled :
    (next : ℕ) (id : ℤ) (m : List (ℤ × List Channel))
    → All (IsFilled next) m
    → All (IsFilled next) (delete id m)
unfolding delete
delete-IsFilled next id [] f = tt
delete-IsFilled next id ((k, ds) ∷ m) f = elim (Bool-cases (int_eq k id)) [
  | inl hit ↦ rw hit f.1
  | inr miss ↦ rw miss (f.0, delete-IsFilled next id m f.1)
]

pub channels_of-Fits :
    (next : ℕ) (id : ℤ) (m : List (ℤ × List Channel))
    → All (IsFilled next) m
    → All (Fits message_cap next) (channels_of id m)
unfolding channels_of
channels_of-Fits next id [] f = tt
channels_of-Fits next id ((k, cs) ∷ m) f = elim (Bool-cases (int_eq k id)) [
  | inl hit ↦ rw hit f.0.fit
  | inr miss ↦ rw miss (channels_of-Fits next id m f.1)
]

Fits-mono : (cap n m : ℕ) → n ≤ m → (c : Channel) → Fits cap n c → Fits cap m c
Fits-mono cap n m h c f = record { within = f.within; named = omega arith }

IsFilled-mono : (n m : ℕ) → n ≤ m → (e : ℤ × List Channel) → IsFilled n e → IsFilled m e
IsFilled-mono n m h e f = record {
  present = f.present;
  fit = All-mono _ (Fits message_cap m) (Fits-mono message_cap n m h) e.1 f.fit;
}

Present-append : (cs : List Channel) (c : Channel) → Present (cs ++ c ∷ [])
Present-append [] c = tt
Present-append (x ∷ xs) c = tt

not_empty : (cs : List Channel) → is_empty cs ≡ false → Present cs
not_empty [] h = cc
not_empty (c ∷ cs) h = tt

without-Fits :
    (cap next name : ℕ) (cs : List Channel)
    → All (Fits cap next) cs
    → All (Fits cap next) (without name cs)
without-Fits cap next name cs f = All-filter _ (λ c. not (c.name == name)) cs f

-- The operations on the channels.
pub data Act : Type 0 where
  appends : ℤ → MessageResponse → Act
  appends_list : MessageResponse → Act
  gets : ℤ → Act
  cancels : ℤ → ℕ → Act
  gets_list : Act
  cancels_list : ℕ → Act

abbrev pub act : Act → Watch → Watch
act (appends id mr) w = append_watch_channel id mr w
act (appends_list mr) w = append_watch_list_channels mr w
act (gets id) w = (get_watch_channel id w).1
act (cancels id name) w = cancel_watch_channel id name w
act gets_list w = (get_watch_list_channel w).1
act (cancels_list name) w = cancel_watch_list_channel name w

abbrev pub empty_channel : ℕ → Channel
empty_channel n = record { name = n; buffer = [] }

gets-IsTidy : (id : ℤ) (w : Watch) → IsTidy w → IsTidy (get_watch_channel id w).1
unfolding get_watch_channel
gets-IsTidy id w t =
    let wider =
      All-mono _ (IsFilled (suc w.next)) (IsFilled-mono w.next (suc w.next) (omega arith))
        w.by_message t.keys in
    record {
      keys =
          put-IsFilled (suc w.next) id _ w.by_message
            (record {
              present = Present-append (channels_of id w.by_message) (empty_channel w.next);
              fit =
                  All-append _ (channels_of id w.by_message) _
                    (channels_of-Fits (suc w.next) id w.by_message wider)
                    (record { within = omega arith; named = omega arith }, tt);
            })
            wider;
      listed =
          All-mono _ (Fits list_cap (suc w.next))
            (Fits-mono list_cap w.next (suc w.next) (omega arith)) w.list t.listed;
    }

cancels-IsTidy :
    (id : ℤ) (name : ℕ) (w : Watch) → IsTidy w → IsTidy (cancel_watch_channel id name w)
unfolding cancel_watch_channel
cancels-IsTidy id name w t =
    elim (Bool-cases (is_empty (without name (channels_of id w.by_message)))) [
      | inl e ↦
          rw e (record { keys = delete-IsFilled w.next id w.by_message t.keys; listed = t.listed })
      | inr e ↦ rw e (record {
        keys =
            put-IsFilled w.next id _ w.by_message
              (record {
                present = not_empty _ e;
                fit =
                    without-Fits message_cap w.next name _
                      (channels_of-Fits w.next id w.by_message t.keys);
              })
              t.keys;
        listed = t.listed;
      })
    ]

-- Every operation on the channels, whatever readers take meanwhile, keeps them tidy if they were:
-- no channel holds more than its capacity (2 for a message, 8 for the list), names are those given
-- out, and a key that is there has at least one channel.
pub act-IsTidy : (a : Act) (w : Watch) → IsTidy w → IsTidy (act a w)
unfolding append_watch_channel append_watch_list_channels get_watch_list_channel
    cancel_watch_list_channel
act-IsTidy (appends id mr) w t = record {
  keys = offer_entry-IsFilled w.next id w.reads mr w.by_message t.keys;
  listed = t.listed;
}
act-IsTidy (appends_list mr) w t = record {
  keys = t.keys;
  listed = offer_all-Fits list_cap w.next w.reads mr w.list t.listed;
}
act-IsTidy (gets id) w t = gets-IsTidy id w t
act-IsTidy (cancels id name) w t = cancels-IsTidy id name w t
act-IsTidy gets_list w t = record {
  keys =
      All-mono _ (IsFilled (suc w.next)) (IsFilled-mono w.next (suc w.next) (omega arith))
        w.by_message t.keys;
  listed =
      All-append _ w.list _
        (All-mono _ (Fits list_cap (suc w.next))
          (Fits-mono list_cap w.next (suc w.next) (omega arith)) w.list t.listed)
        (record { within = omega arith; named = omega arith }, tt);
}
act-IsTidy (cancels_list name) w t = record {
  keys = t.keys;
  listed = without-Fits list_cap w.next name w.list t.listed;
}
