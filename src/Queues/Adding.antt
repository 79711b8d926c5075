-- ===== src/Queues/Adding.antt =====
-- What `AddWeight` does (internal/queue/weight_queue.go): an item that is new, one that waits with a
-- lower weight, and the entry that is not brought up to date.
use open_cidn.Base.{
  ◌≡◌, refl, ◌∙◌, ap, subst, inl, inr, Bool, true, false, not, ◌&&◌, if◌then◌else◌, Bool-cases, ℤ,
  int_eq, int_lt, int_eq_iff, int_eq_comm, int_lt_apart, int_eq_refl, none, some, List, [], ◌∷◌,
  ◌++◌, Eq,
}
use open_cidn.Maps.{get_key, get_key-set_key, beq_refl}
use open_cidn.Queues.Fifo.{Queue, add, remove}
use open_cidn.Queues.Contents.{items, erase, IsIndexed, items-add}
use open_cidn.Queues.Removal.{remove_lem}
use open_cidn.Queues.Weighted.{
  Entry, WeightQueue, queue_of, add_weight_to, remove_from, effective, insert_new, raise_old,
  add_known, add_weight,
}
use open_cidn.Queues.Moves.{queue_of-set_key_self, queue_of-set_key_other}

module _ {ℓ} {A : Type ℓ} where
  -- The items that wait with a weight.
  abbrev pub at : ℤ → WeightQueue A → List A
  at w q = items (queue_of w q.queues)

module _ {ℓ} {A : Type ℓ} (eq : Eq A) where
  add_weight_to_lem :
      (a : A) (w v : ℤ) (m : List (ℤ × Queue A))
      → queue_of v (add_weight_to eq a w m)
        ≡ (if int_eq w v then add eq a (queue_of v m) else queue_of v m)
  unfolding add_weight_to
  add_weight_to_lem a w v m = elim (Bool-cases (int_eq w v)) [
    | inl h ↦
        let same : w ≡ v = (int_eq_iff w v).0 h in
        rw (h, same) (queue_of-set_key_self v (add eq a (queue_of v m)) m)
    | inr h ↦ rw h (queue_of-set_key_other w v (add eq a (queue_of w m)) m h)
  ]

  remove_from_lem :
      (a : A) (w v : ℤ) (m : List (ℤ × Queue A))
      → queue_of v (remove_from eq a w m)
        ≡ (if int_eq w v then (remove eq a (queue_of v m)).1 else queue_of v m)
  unfolding remove_from
  remove_from_lem a w v m = elim (Bool-cases (int_eq w v)) [
    | inl h ↦
        let same : w ≡ v = (int_eq_iff w v).0 h in
        rw (h, same) (queue_of-set_key_self v (remove eq a (queue_of v m)).1 m)
    | inr h ↦ rw h (queue_of-set_key_other w v (remove eq a (queue_of w m)).1 m h)
  ]

  items_if :
      (b : Bool) (a : A) (p q : Queue A) (xs : List A)
      → items q ≡ xs
      → items (if b then add eq a p else q) ≡ (if b then items p ++ a ∷ [] else xs)
  items_if true a p q xs e = items-add eq a p
  items_if false a p q xs e = e

  -- Adding an item that has no entry, with a weight that counts as `effective w` (a weight of 0
  -- counts as 1), puts it at the end of the queue of that weight, leaves the other queues alone, and
  -- makes an entry with that weight and a new done channel, which is returned.
  pub add_weight-new :
      (a : A) (w v : ℤ) (q : WeightQueue A)
      → get_key eq a q.index ≡ none
      → let w' = effective w in
        let (c, q') = add_weight eq a w q in
        (at v q' ≡ (if int_eq w' v then at v q ++ a ∷ [] else at v q))
        × (get_key eq a q'.index
            ≡ some (record { done_channel = q.next_channel; weight = w'; soon = false }))
        × (c ≡ q.next_channel)
  unfolding add_weight add_known insert_new
  add_weight-new a w v q h =
      let w' = effective w in
      rw h (
        ap items (add_weight_to_lem a w' v q.queues)
            ∙ items_if (int_eq w' v) a (queue_of v q.queues) (queue_of v q.queues) (at v q) refl,
        get_key-set_key eq a a _ q.index ∙ rw (beq_refl eq a) refl,
        refl,
      )

  raised :
      (a : A) (w v : ℤ) (q : WeightQueue A) (ch : Entry)
      → get_key eq a q.index ≡ some ch
      → ch.soon ≡ false
      → int_lt ch.weight (effective w) ≡ true
      → let (c, q') = add_weight eq a w q in
        (c ≡ ch.done_channel)
        × (q'.index ≡ q.index)
        × (queue_of v q'.queues ≡ (
            if int_eq (effective w) v
            then add eq a (queue_of v (remove_from eq a ch.weight q.queues))
            else queue_of v (remove_from eq a ch.weight q.queues)))
  unfolding add_weight add_known raise_old
  raised a w v q ch h soon lt = rw h (
    refl,
    refl,
    rw (soon, lt) (add_weight_to_lem a (effective w) v (remove_from eq a ch.weight q.queues)),
  )

  items_removed :
      (a : A) (w v : ℤ) (m : List (ℤ × Queue A))
      → IsIndexed eq (queue_of w m)
      → items (queue_of v (remove_from eq a w m))
        ≡ (if int_eq w v then erase eq a (items (queue_of v m)) else items (queue_of v m))
  items_removed a w v m i = elim (Bool-cases (int_eq w v)) [
    | inl h ↦
        let same : w ≡ v = (int_eq_iff w v).0 h in
        let j = subst (λ (x : ℤ). IsIndexed eq (queue_of x m)) same i in
        rw h (ap items (rw h at (remove_from_lem a w v m)) ∙ (remove_lem eq a (queue_of v m) j).1)
    | inr h ↦ rw h (ap items (rw h at (remove_from_lem a w v m)))
  ]

  raised_elsewhere :
      (a : A) (w v : ℤ) (q : WeightQueue A) (ch : Entry)
      → get_key eq a q.index ≡ some ch
      → ch.soon ≡ false
      → int_lt ch.weight (effective w) ≡ true
      → int_eq ch.weight v ≡ false
      → at v (add_weight eq a w q).1 ≡ (if int_eq (effective w) v then at v q ++ a ∷ [] else at v q)
  raised_elsewhere a w v q ch h soon lt other =
      let m = (raised a w v q ch h soon lt).2 in
      let e = rw other at (remove_from_lem a ch.weight v q.queues) in
      ap items (rw e at m)
      ∙ items_if (int_eq (effective w) v) a (queue_of v q.queues) (queue_of v q.queues) (at v q)
          refl

  -- Adding an item that waits with a lower weight, in a queue whose index is right, returns the done
  -- channel of its entry and takes the item from the queue of the entry's weight to the end of that of the
  -- new weight. The other queues stay as they are, and so do the entries.
  pub add_weight-raised :
      (a : A) (w v : ℤ) (q : WeightQueue A) (ch : Entry)
      → get_key eq a q.index ≡ some ch
      → ch.soon ≡ false
      → int_lt ch.weight (effective w) ≡ true
      → IsIndexed eq (queue_of ch.weight q.queues)
      → let w' = effective w in
        let (c, q') = add_weight eq a w q in
        (c ≡ ch.done_channel)
        × (q'.index ≡ q.index)
        × (at v q' ≡ (
            if int_eq w' v
            then at v q ++ a ∷ []
            else if int_eq ch.weight v
            then erase eq a (at v q)
            else at v q))
  add_weight-raised a w v q ch h soon lt i =
      let (c, same, m) = raised a w v q ch h soon lt in (c, same, ap items m ∙ moved)
    where
      moved :
          items (
            if int_eq (effective w) v
            then add eq a (queue_of v (remove_from eq a ch.weight q.queues))
            else queue_of v (remove_from eq a ch.weight q.queues))
          ≡ (if int_eq (effective w) v
              then at v q ++ a ∷ []
              else if int_eq ch.weight v
              then erase eq a (at v q)
              else at v q)
      moved = elim (Bool-cases (int_eq (effective w) v)) [
        | inl hit ↦
            let same = (int_eq_iff (effective w) v).0 hit in
            let apart =
              int_lt_apart ch.weight v (subst (λ (x : ℤ). int_lt ch.weight x ≡ true) same lt) in
            rw hit (
              items-add eq a (queue_of v (remove_from eq a ch.weight q.queues))
              ∙ ap (λ (xs : List A). xs ++ a ∷ [])
                  (rw apart at (items_removed a ch.weight v q.queues i)))
        | inr miss ↦ rw miss (items_removed a ch.weight v q.queues i)
      ]

  -- Adding an item that has an entry whose weight is not lower, or which is ready, returns the done
  -- channel of its entry and changes nothing but the signal.
  pub add_weight-kept :
      (a : A) (w : ℤ) (q : WeightQueue A) (ch : Entry)
      → get_key eq a q.index ≡ some ch
      → (not ch.soon && int_lt ch.weight (effective w)) ≡ false
      → add_weight eq a w q ≡ (ch.done_channel, record q { signal = true })
  unfolding add_weight add_known raise_old
  add_weight-kept a w q ch h b = rw (h, b) refl

  -- An item that is new, and is then added with a second and with a third weight, both above the first and
  -- different, is in the queues of the second and of the third weight: it will be handed out twice. The
  -- second call takes it out of the queue of the first weight and leaves that weight in its entry,
  -- so the third takes it out of the wrong queue.
  pub add_weight-twice :
      (a : A) (u v w : ℤ) (q : WeightQueue A)
      → get_key eq a q.index ≡ none
      → int_lt (effective u) (effective v) ≡ true
      → int_lt (effective u) (effective w) ≡ true
      → int_eq (effective w) (effective v) ≡ false
      → let q' = (add_weight eq a w (add_weight eq a v (add_weight eq a u q).1).1).1 in
        (at (effective v) q' ≡ at (effective v) q ++ a ∷ [])
        × (at (effective w) q' ≡ at (effective w) q ++ a ∷ [])
  add_weight-twice a u v w q h lt lt' apart =
      let eu = effective u in
      let ev = effective v in
      let ew = effective w in
      let q1 = (add_weight eq a u q).1 in
      let q2 = (add_weight eq a v q1).1 in
      let ch : Entry = record { done_channel = q.next_channel; weight = eu; soon = false } in
      let first = add_weight-new a u ev q h in
      let first' = (add_weight-new a u ew q h).0 in
      let got = first.1 in
      let got2 = ap (get_key eq a) (raised a v ev q1 ch got refl lt).1 ∙ got in
      let far = int_lt_apart eu ev lt in
      let far' = int_lt_apart eu ew lt' in
      let apart' = int_eq_comm ev ew ∙ apart in
      (
        (rw apart at (raised_elsewhere a w ev q2 ch got2 refl lt' far))
            ∙ (rw (int_eq_refl ev) at (raised_elsewhere a v ev q1 ch got refl lt far))
            ∙ ap (λ (xs : List A). xs ++ a ∷ []) (rw far at (first.0)),
        (rw (int_eq_refl ew) at (raised_elsewhere a w ew q2 ch got2 refl lt' far'))
            ∙ ap (λ (xs : List A). xs ++ a ∷ [])
                ((rw apart' at (raised_elsewhere a v ew q1 ch got refl lt far'))
                  ∙ (rw far' at first')),
      )
