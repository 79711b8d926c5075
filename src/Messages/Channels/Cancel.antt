-- ===== src/Messages/Channels/Cancel.antt =====
-- Registering a watch and cancelling it (pkg/queue/controller/message.go).
use open_cidn.Base.{
  ℕ, suc, ◌≡◌, ◌∙◌, ap, inl, inr, true, false, ◌==◌, if◌then◌else◌, Bool-cases, ℤ, int_eq,
  int_eq_refl, List, [], ◌∷◌, ◌++◌, All, arith,
}
use open_cidn.Messages.Watch.{
  Channel, Watch, message_cap, channels_of, put, delete, get_watch_channel, cancel_watch_channel,
  without, is_empty,
}
use open_cidn.Messages.Channels.Tidy.{
  Fits, Present, IsFilled, IsTidy, channels_of-Fits, empty_channel,
}

without_new :
    (cap next : ℕ) (cs : List Channel)
    → All (Fits cap next) cs
    → without next (cs ++ empty_channel next ∷ []) ≡ cs
without_new cap next [] f = let e : (next == next) ≡ true = ground arith in rw e
without_new cap next (c ∷ cs) f =
    let n = f.0.named in
    let e : (c.name == next) ≡ false = ground arith in rw (e, without_new cap next cs f.1)

channels_of-put :
    (id : ℤ) (cs : List Channel) (m : List (ℤ × List Channel)) → channels_of id (put id cs m) ≡ cs
unfolding channels_of put
channels_of-put id cs [] = rw int_eq_refl
channels_of-put id cs ((k, ds) ∷ m) = elim (Bool-cases (int_eq k id)) [
  | inl hit ↦ rw (hit, hit)
  | inr miss ↦ rw (miss, miss) (channels_of-put id cs m)
]

abbrev restore : ℤ → List Channel → List (ℤ × List Channel) → List (ℤ × List Channel)
restore id old m = if is_empty old then delete id m else put id old m

restore-cons :
    (id k : ℤ) (old ds : List Channel) (m : List (ℤ × List Channel))
    → int_eq k id ≡ false
    → restore id old ((k, ds) ∷ m) ≡ (k, ds) ∷ restore id old m
unfolding put delete
restore-cons id k [] ds m h = rw h
restore-cons id k (c ∷ cs) ds m h = rw h

put_back :
    (id k : ℤ)
    → int_eq k id ≡ true
    → (ds cs : List Channel) (m : List (ℤ × List Channel)) → Present ds
    → restore id ds ((k, cs) ∷ m) ≡ (k, ds) ∷ m
unfolding put
put_back id k hit [] cs m p = absurd p
put_back id k hit (d ∷ ds) cs m p = rw hit

restore-put :
    (next : ℕ) (id : ℤ) (cs : List Channel) (m : List (ℤ × List Channel))
    → All (IsFilled next) m
    → restore id (channels_of id m) (put id cs m) ≡ m
unfolding channels_of put delete
restore-put next id cs [] f = rw int_eq_refl
restore-put next id cs ((k, ds) ∷ m) f = elim (Bool-cases (int_eq k id)) [
  | inl hit ↦ rw hit (put_back id k hit ds cs m f.0.present)
  | inr miss ↦ rw miss (
      restore-cons id k (channels_of id m) ds (put id cs m) miss
      ∙ ap (λ (l : List (ℤ × List Channel)). (k, ds) ∷ l) (restore-put next id cs m f.1))
]

-- Where the channels are tidy, cancelling a watch that was just registered leaves them as they
-- were: only the counter of names has moved on. So a watch that ends leaves nothing behind, not
-- even an empty set.
pub cancel-get :
    (id : ℤ) (w : Watch)
    → IsTidy w
    → cancel_watch_channel id (get_watch_channel id w).0 (get_watch_channel id w).1
      ≡ record w { next = suc w.next }
unfolding cancel_watch_channel get_watch_channel
cancel-get id w t =
    let gone : without w.next (
          channels_of id
            (put id (channels_of id w.by_message ++ empty_channel w.next ∷ []) w.by_message))
        ≡ channels_of id w.by_message =
      rw
        (channels_of-put id (channels_of id w.by_message ++ empty_channel w.next ∷ []) w.by_message)
        (without_new message_cap w.next (channels_of id w.by_message)
          (channels_of-Fits w.next id w.by_message t.keys)) in
    rw gone (
      ap (λ (m : List (ℤ × List Channel)). record w { by_message = m; next = suc w.next })
        (restore-put w.next id _ w.by_message t.keys))
