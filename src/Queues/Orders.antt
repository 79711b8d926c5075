-- ===== src/Queues/Orders.antt =====
-- The order in which `step` serves the weights (internal/queue/weight_queue.go).
use open_cidn.Base.{
  suc, ◌≡◌, refl, sym, ◌∙◌, ap, inl, inr, Bool, true, false, not, ◌&&◌, ◌==◌, Bool-cases, ℤ, int_lt,
  Option, none, some, Option-cases, List, [], ◌∷◌, ◌++◌, reverse, length, length-append, Eq, arith,
}
use mathlib.Core.List.{append-nil}
use open_cidn.Maps.{get_key, set_key}
use open_cidn.Queues.Fifo.{Queue, get}
use open_cidn.Queues.Contents.{items}
use open_cidn.Queues.Weighted.{
  WeightQueue, int_key, sort_ints, new_weight_queue, Sweep, sweep_one, sweep, add_weight, add_known,
  insert_new, raise_old, with_weight, after_step, or_step, add_weight_to, remove_from, effective,
  current_orders, step, take_ready, get_weighted, finish,
}
use open_cidn.Queues.Moves.{DistinctInts, shares, sweep-items}
use open_cidn.Queues.Sorted.{
  keys, Extends, Extends-refl, Extends-trans, Extends-set_key, DistinctInts-set_key,
  DistinctInts-reverse, DistinctInts-sort_ints, length-sort_ints,
}

no_extra : (known extra : List ℤ) → length (known ++ extra) ≡ length known → known ≡ known ++ extra
no_extra known [] e = sym (append-nil known)
no_extra known (x ∷ xs) e = absurd (omega (arith, length-append known (x ∷ xs)))

module _ {ℓ} {A : Type ℓ} where
  -- The weights are distinct, and `orders` is what sorting gave for those that were there when it
  -- was computed; queues are only ever added to the map.
  pub record IsOrdered (q : WeightQueue A) : Type ℓ where
    pub distinct : DistinctInts (keys q.queues)
    pub known : List ℤ
    pub extends : Extends known (keys q.queues)
    pub sorted : q.orders ≡ sort_ints known

  -- What every operation does to the weights that have a queue.
  abbrev pub Grows : List (ℤ × Queue A) → List (ℤ × Queue A) → Type 0
  Grows m n = (DistinctInts (keys m) → DistinctInts (keys n)) × Extends (keys m) (keys n)

  Grows-refl : (m : List (ℤ × Queue A)) → Grows m m
  Grows-refl m = (λ d. d, Extends-refl (keys m))

  Grows-set_key : (w : ℤ) (q : Queue A) (m : List (ℤ × Queue A)) → Grows m (set_key int_key w q m)
  Grows-set_key w q m = (DistinctInts-set_key w q m, Extends-set_key w q m)

  Grows-trans : (m n p : List (ℤ × Queue A)) → Grows m n → Grows n p → Grows m p
  Grows-trans m n p (d, e) (f, g) = (λ h. f (d h), Extends-trans (keys m) (keys n) (keys p) e g)

  Grows-IsOrdered :
      (q : WeightQueue A) (q' : WeightQueue A)
      → Grows q.queues q'.queues
      → q'.orders ≡ q.orders
      → IsOrdered q
      → IsOrdered q'
  Grows-IsOrdered q q' (d, e) same i = record {
    distinct = d i.distinct;
    known = i.known;
    extends = Extends-trans i.known (keys q.queues) (keys q'.queues) i.extends e;
    sorted = same ∙ i.sorted;
  }

  length-keys : (m : List (ℤ × Queue A)) → length (keys m) ≡ length m
  length-keys [] = refl
  length-keys (x ∷ m) = ap suc (length-keys m)

module _ {ℓ} {A : Type ℓ} (eq : Eq A) where
  -- `orders` is right whenever the loop uses it, though only its length is looked at.
  current_orders_lem :
      (q : WeightQueue A) → IsOrdered q → current_orders q ≡ sort_ints (keys q.queues)
  unfolding current_orders
  current_orders_lem q i = elim (Bool-cases (length q.orders == length q.queues)) [
    | inl h ↦
        let (extra, e) = i.extends in
        let n1 : length q.orders ≡ length i.known = ap length i.sorted ∙ length-sort_ints i.known in
        let n2 : length (i.known ++ extra) ≡ length q.queues =
          ap length (sym e) ∙ length-keys q.queues in
        let same : length (i.known ++ extra) ≡ length i.known = ground arith in
        rw h (i.sorted ∙ ap sort_ints (no_extra i.known extra same ∙ sym e))
    | inr h ↦ rw h
  ]

  Grows-sweep : (ws : List ℤ) (s : Sweep A) → Grows s.queues (sweep eq ws s).queues
  unfolding sweep sweep_one
  Grows-sweep [] s = Grows-refl s.queues
  Grows-sweep (w ∷ ws) s =
      Grows-trans s.queues (sweep_one eq w s).queues (sweep eq ws (sweep_one eq w s)).queues
        (Grows-set_key w _ s.queues) (Grows-sweep ws (sweep_one eq w s))

  step-IsOrdered : (q : WeightQueue A) → IsOrdered q → IsOrdered (step eq q).1
  unfolding step
  step-IsOrdered q i =
      let (d, e) =
        Grows-sweep (reverse (current_orders q))
          (record { queues = q.queues; ready = q.queue; entries = q.index; added = false }) in
      record {
        distinct = d i.distinct;
        known = keys q.queues;
        extends = e;
        sorted = current_orders_lem q i;
      }

  add_weight-IsOrdered :
      (a : A) (w : ℤ) (q : WeightQueue A) → IsOrdered q → IsOrdered (add_weight eq a w q).1
  unfolding add_weight add_known insert_new raise_old add_weight_to remove_from
  add_weight-IsOrdered a w q i = elim (Option-cases (get_key eq a q.index)) [
    | inl h ↦ rw h (Grows-IsOrdered q _ (Grows-set_key _ _ q.queues) refl i)
    | inr (ch, h) ↦ rw h (elim (Bool-cases (not ch.soon && int_lt ch.weight (effective w))) [
      | inl b ↦
          Grows-IsOrdered q _
            (rw b (
              Grows-trans q.queues (remove_from eq a ch.weight q.queues) _
                (Grows-set_key _ _ q.queues) (Grows-set_key _ _ _)))
            refl i
      | inr b ↦ Grows-IsOrdered q _ (rw b (Grows-refl q.queues)) refl i
    ])
  ]

  take_ready-IsOrdered : (q : WeightQueue A) → IsOrdered q → IsOrdered (take_ready eq q).1
  unfolding take_ready with_weight
  take_ready-IsOrdered q i = go (get eq q.queue)
    where
      go : (r : Option A × Queue A) → IsOrdered (with_weight eq r.0 (record q { queue = r.1 })).1
      go (none, p) = Grows-IsOrdered q _ (Grows-refl q.queues) refl i
      go (some x, p) = Grows-IsOrdered q _ (Grows-refl q.queues) refl i

  get_weighted-IsOrdered : (q : WeightQueue A) → IsOrdered q → IsOrdered (get_weighted eq q).1
  unfolding get_weighted or_step after_step
  get_weighted-IsOrdered q i = go (take_ready eq q) (take_ready-IsOrdered q i)
    where
      go : (r : Option (A × ℤ) × WeightQueue A) → IsOrdered r.1 → IsOrdered (or_step eq r).1
      go (some x, p) j = j
      go (none, p) j = stepped (step eq p) (step-IsOrdered p j)
        where
          stepped : (r : Bool × WeightQueue A) → IsOrdered r.1 → IsOrdered (after_step eq r).1
          stepped (false, p) j = j
          stepped (true, p) j = take_ready-IsOrdered p j

  finish-IsOrdered : (a : A) (q : WeightQueue A) → IsOrdered q → IsOrdered (finish eq a q)
  unfolding finish
  finish-IsOrdered a q i = elim (Option-cases (get_key eq a q.index)) [
    | inl h ↦ rw (finish, h) i
    | inr (ch, h) ↦ rw (finish, h) (Grows-IsOrdered q _ (Grows-refl q.queues) refl i)
  ]

-- A use of the queue.
pub data Use {ℓ} (A : Type ℓ) : Type ℓ where
  weighs : A → ℤ → Use A
  takes : Use A
  finishes : A → Use A

module _ {ℓ} {A : Type ℓ} (eq : Eq A) where
  unfoldable pub perform : List (Use A) → WeightQueue A → WeightQueue A
  perform [] q = q
  perform (weighs a w ∷ us) q = perform us (add_weight eq a w q).1
  perform (takes ∷ us) q = perform us (get_weighted eq q).1
  perform (finishes a ∷ us) q = perform us (finish eq a q)

  perform-IsOrdered :
      (us : List (Use A)) (q : WeightQueue A) → IsOrdered q → IsOrdered (perform us q)
  unfolding perform
  perform-IsOrdered [] q i = i
  perform-IsOrdered (weighs a w ∷ us) q i = perform-IsOrdered us _ (add_weight-IsOrdered eq a w q i)
  perform-IsOrdered (takes ∷ us) q i = perform-IsOrdered us _ (get_weighted-IsOrdered eq q i)
  perform-IsOrdered (finishes a ∷ us) q i = perform-IsOrdered us _ (finish-IsOrdered eq a q i)

  new-IsOrdered : IsOrdered {A = A} new_weight_queue
  unfolding new_weight_queue sort_ints
  new-IsOrdered = record { distinct = tt; known = []; extends = ([], refl); sorted = refl }

  -- Whatever calls the queue has had since it was made, `step` puts behind what is ready the share
  -- of every weight, the highest weight first: a weight's share is as many of its oldest items as
  -- the weight says, or all of them where it is below 0.
  pub step-items :
      (us : List (Use A))
      → let q = perform us new_weight_queue in
        items (step eq q).1.queue
        ≡ items q.queue ++ shares (reverse (sort_ints (keys q.queues))) q.queues
  unfolding step
  step-items us =
      let q = perform us new_weight_queue in
      let i = perform-IsOrdered us new_weight_queue new-IsOrdered in
      let e = current_orders_lem eq q i in
      sweep-items eq (reverse (current_orders q))
        (record { queues = q.queues; ready = q.queue; entries = q.index; added = false })
        (DistinctInts-reverse (current_orders q)
          (rw e (DistinctInts-sort_ints (keys q.queues) i.distinct)))
      ∙ ap (λ (ws : List ℤ). items q.queue ++ shares (reverse ws) q.queues) e
