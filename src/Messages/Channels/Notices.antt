-- ===== src/Messages/Channels/Notices.antt =====
-- Who is told of a change (pkg/queue/controller/message.go).
use open_cidn.Base.{
  ℕ, ◌≤◌, ◌≡◌, refl, ◌∙◌, subst, ◌⊎◌, inl, inr, true, false, ltb, if◌then◌else◌, Bool-cases, ℤ,
  int_eq, int_eq_refl, int_eq_iff, int_eq_comm, List, [], ◌∷◌, ◌++◌, All, length, arith,
}
use open_cidn.Messages.Watch.{
  MessageResponse, Channel, Watch, message_cap, after_reads, offer, offer_all, channels_of,
  offer_entry, append_watch_channel,
}
use open_cidn.Messages.Controller.{watch_loop, in_progress}

channels_of-offer_entry :
    (id other : ℤ) (reads : List ℕ) (mr : MessageResponse) (m : List (ℤ × List Channel))
    → channels_of other (offer_entry id reads mr m) ≡ (
        if int_eq id other
        then offer_all message_cap reads mr (channels_of other m)
        else channels_of other m)
unfolding channels_of offer_entry offer_all
channels_of-offer_entry id other reads mr [] = ground arith
channels_of-offer_entry id other reads mr ((k, cs) ∷ m) = elim (Bool-cases (int_eq k id)) [
  | inl hit ↦
      rw (hit, (int_eq_iff k id).0 hit)
        (elim (Bool-cases (int_eq id other)) [ inl e ↦ rw e | inr e ↦ rw e ])
  | inr miss ↦ rw miss (elim (Bool-cases (int_eq k other)) [
    | inl e ↦
        let apart : int_eq id other ≡ false =
          int_eq_comm id other
          ∙ subst (λ (z : ℤ). int_eq z id ≡ false) ((int_eq_iff k other).0 e) miss in
        rw (e, apart)
    | inr e ↦ rw e (channels_of-offer_entry id other reads mr m)
  ])
]

-- The notice stands at the end of what the channel holds, or the channel is full.
abbrev pub Told : ℕ → MessageResponse → Channel → Type 0
Told cap mr c =
    ((before : List MessageResponse) × (c.buffer ≡ before ++ mr ∷ [])) ⊎ (cap ≤ length c.buffer)

offer-Told :
    (cap : ℕ) (reads : List ℕ) (mr : MessageResponse) (c : Channel)
    → Told cap mr (offer cap reads mr c)
unfolding offer
offer-Told cap reads mr c = elim (Bool-cases (ltb (length c.buffer) cap)) [
  | inl room ↦ rw room (inl (c.buffer, refl))
  | inr full ↦
      let c' = after_reads reads c in
      rw full (elim (Bool-cases (ltb (length c'.buffer) cap)) [
        | inl room ↦ rw room (inl (c'.buffer, refl))
        | inr full' ↦ rw full' (inr (ground arith))
      ])
]

offer_all-Told :
    (cap : ℕ) (reads : List ℕ) (mr : MessageResponse) (cs : List Channel)
    → All (Told cap mr) (offer_all cap reads mr cs)
unfolding offer_all
offer_all-Told cap reads mr [] = tt
offer_all-Told cap reads mr (c ∷ cs) = (offer-Told cap reads mr c, offer_all-Told cap reads mr cs)

-- An append to a message reaches each channel that watches it: the notice stands at the end of what
-- the channel holds, or the channel is full even after what its reader took. The channels of every
-- other message, and those of the list, are as before.
pub append_watch_channel-Told :
    (id other : ℤ) (mr : MessageResponse) (w : Watch)
    → int_eq id other ≡ false
    → All (Told message_cap mr) (channels_of id (append_watch_channel id mr w).by_message)
      × (channels_of other (append_watch_channel id mr w).by_message
          ≡ channels_of other w.by_message)
      × ((append_watch_channel id mr w).list ≡ w.list)
unfolding append_watch_channel
append_watch_channel-Told id other mr w e = (
  rw (channels_of-offer_entry id id w.reads mr w.by_message, int_eq_refl id)
      (offer_all-Told message_cap w.reads mr (channels_of id w.by_message)),
  (rw e at (channels_of-offer_entry id other w.reads mr w.by_message)),
  refl,
)

-- What `Get` writes from its channel: everything while the message is pending or processing, and
-- then the first notice with another status, after which it writes nothing more.
pub watch_loop_lem :
    (before after : List MessageResponse) (mr : MessageResponse)
    → All (λ m. in_progress m.status ≡ true) before
    → in_progress mr.status ≡ false
    → (watch_loop before ≡ before) × (watch_loop (before ++ mr ∷ after) ≡ before ++ mr ∷ [])
unfolding watch_loop
watch_loop_lem [] after mr h e = (refl, rw e)
watch_loop_lem (m ∷ ms) after mr h e =
    let (all, until) = watch_loop_lem ms after mr h.1 e in (rw (h.0, all), rw (h.0, until))
