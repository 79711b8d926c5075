-- ===== src/Queues/Weighted.antt =====
-- internal/queue/weight_queue.go. A done channel is named by a number, and `closed` lists those that
-- were closed. The order in which Go ranges over the map of queues does not matter: its keys are
-- sorted.
use open_cidn.Base.{
  ℕ, zero, suc, ◌+◌, Bool, true, false, not, ◌&&◌, ◌==◌, if◌then◌else◌, ℤ, pos, negsuc, int_eq,
  int_lt, int_eq_iff, Option, none, some, List, [], ◌∷◌, map, reverse, length, Eq,
}
use open_cidn.Maps.{get_key, set_key, delete_key}
use open_cidn.Queues.Fifo.{Queue, new_queue, add, get, remove, len}

-- The struct `index`.
pub record Entry : Type 0 where
  pub done_channel : ℕ
  pub weight : ℤ
  pub soon : Bool

pub record WeightQueue {ℓ} (A : Type ℓ) : Type ℓ where
  pub queue : Queue A
  pub queues : List (ℤ × Queue A)
  pub orders : List ℤ
  pub index : List (A × Entry)
  pub signal : Bool
  pub next_channel : ℕ
  pub closed : List ℕ

abbrev pub int_key : Eq ℤ
int_key = record { beq = int_eq; beq_iff = int_eq_iff }

-- `sort.Ints`.
unfoldable pub insert_sorted : ℤ → List ℤ → List ℤ
insert_sorted k [] = k ∷ []
insert_sorted k (x ∷ xs) = if int_lt x k then x ∷ insert_sorted k xs else k ∷ x ∷ xs

unfoldable pub sort_ints : List ℤ → List ℤ
sort_ints [] = []
sort_ints (k ∷ ks) = insert_sorted k (sort_ints ks)

module _ {ℓ} {A : Type ℓ} where
  unfoldable pub new_weight_queue : WeightQueue A
  new_weight_queue = record {
    queue = new_queue;
    queues = [];
    orders = [];
    index = [];
    signal = false;
    next_channel = 0;
    closed = [];
  }

  abbrev pub or_new : Option (Queue A) → Queue A
  or_new none = new_queue
  or_new (some q) = q

  -- `queues[w]`; one that is not there is made where it is first used.
  abbrev pub queue_of : ℤ → List (ℤ × Queue A) → Queue A
  queue_of w m = or_new (get_key int_key w m)

  -- `for j := 0; j != times; j++`: a negative `times` is not met before the queue is empty, which
  -- takes one turn for each item and one for the `break`.
  unfoldable pub turns : ℤ → Queue A → ℕ
  turns (pos n) q = n
  turns (negsuc n) q = suc (len q)

  -- `orders` is computed anew where its length is not that of the map.
  unfoldable pub current_orders : WeightQueue A → List ℤ
  current_orders q =
      if length q.orders == length q.queues
      then q.orders
      else sort_ints (map (λ (e : ℤ × Queue A). e.0) q.queues)

-- A weight of 0 counts as 1.
abbrev pub effective : ℤ → ℤ
effective w = if int_eq w (pos 0) then pos 1 else w

-- The state of the loops of `step`: a weight's queue, the queue of what is ready, the index, and
-- whether anything was added.
pub record Moving {ℓ} (A : Type ℓ) : Type ℓ where
  pub from : Queue A
  pub ready : Queue A
  pub entries : List (A × Entry)
  pub added : Bool

pub record Sweep {ℓ} (A : Type ℓ) : Type ℓ where
  pub queues : List (ℤ × Queue A)
  pub ready : Queue A
  pub entries : List (A × Entry)
  pub added : Bool

module _ {ℓ} {A : Type ℓ} (eq : Eq A) where
  -- `addWeight`: a queue that is not there is made.
  unfoldable pub add_weight_to : A → ℤ → List (ℤ × Queue A) → List (ℤ × Queue A)
  add_weight_to a w m = set_key int_key w (add eq a (queue_of w m)) m

  unfoldable pub remove_from : A → ℤ → List (ℤ × Queue A) → List (ℤ × Queue A)
  remove_from a w m = set_key int_key w (remove eq a (queue_of w m)).1 m

  unfoldable pub insert_new : A → ℤ → WeightQueue A → ℕ × WeightQueue A
  insert_new a w q = (
    q.next_channel,
    record q {
      index =
          set_key eq a (record { done_channel = q.next_channel; weight = w; soon = false }) q.index;
      queues = add_weight_to a w q.queues;
      next_channel = suc q.next_channel;
      signal = true;
    },
  )

  -- An item that waits with a lower weight is moved; its entry keeps the old weight.
  unfoldable pub raise_old : A → ℤ → Entry → WeightQueue A → ℕ × WeightQueue A
  raise_old a w ch q = (
    ch.done_channel,
    record q {
      queues =
          if not ch.soon && int_lt ch.weight w
          then add_weight_to a w (remove_from a ch.weight q.queues)
          else q.queues;
      signal = true;
    },
  )

  unfoldable pub add_known : A → ℤ → Option Entry → WeightQueue A → ℕ × WeightQueue A
  unfolding insert_new raise_old
  add_known a w none q = insert_new a w q
  add_known a w (some ch) q = raise_old a w ch q

  unfoldable pub add_weight : A → ℤ → WeightQueue A → ℕ × WeightQueue A
  unfolding add_known
  add_weight a w q = add_known a (effective w) (get_key eq a q.index) q

  -- `index.soon = true` where the item has an entry.
  unfoldable pub mark_soon : A → List (A × Entry) → List (A × Entry)
  mark_soon a m = elim (get_key eq a m) [
    | none ↦ m
    | some ch ↦ set_key eq a (record ch { soon = true }) m
  ]

  unfoldable pub move_got : Option A × Queue A → Moving A → Option (Moving A)
  move_got (none, q) s = none
  move_got (some t, q) s =
      some (record {
        from = q;
        ready = add eq t s.ready;
        entries = mark_soon t s.entries;
        added = true;
      })

  -- One turn of the inner loop; `none` is its `break`.
  unfoldable pub move_one : Moving A → Option (Moving A)
  unfolding move_got
  move_one s = move_got (get eq s.from) s

  -- At most so many turns.
  unfoldable pub move : ℕ → Moving A → Moving A
  move zero s = s
  move (suc n) s = elim (move_one s) [ none ↦ s | some s' ↦ move n s' ]

  -- The inner loop for one weight.
  unfoldable pub sweep_one : ℤ → Sweep A → Sweep A
  sweep_one w s =
      let q = queue_of w s.queues in
      let moved =
        move (turns w q)
          (record { from = q; ready = s.ready; entries = s.entries; added = s.added }) in
      record {
        queues = set_key int_key w moved.from s.queues;
        ready = moved.ready;
        entries = moved.entries;
        added = moved.added;
      }

  -- The outer loop, given the weights from the last of `orders` to the first.
  unfoldable pub sweep : List ℤ → Sweep A → Sweep A
  sweep [] s = s
  sweep (w ∷ ws) s = sweep ws (sweep_one w s)

  unfoldable pub step : WeightQueue A → Bool × WeightQueue A
  step q =
      let orders = current_orders q in
      let s =
        sweep (reverse orders)
          (record { queues = q.queues; ready = q.queue; entries = q.index; added = false }) in
      (s.added, record q { orders = orders; queues = s.queues; queue = s.ready; index = s.entries })

  -- `q.index[t].weight`, 0 where there is no entry.
  abbrev weight_of : A → List (A × Entry) → ℤ
  weight_of a m = elim (get_key eq a m) [ none ↦ pos 0 | some ch ↦ ch.weight ]

  unfoldable pub with_weight : Option A → WeightQueue A → Option (A × ℤ) × WeightQueue A
  with_weight none q = (none, q)
  with_weight (some t) q = (some (t, weight_of t q.index), q)

  unfoldable pub take_ready : WeightQueue A → Option (A × ℤ) × WeightQueue A
  unfolding with_weight
  take_ready q = let (o, queue) = get eq q.queue in with_weight o (record q { queue = queue })

  unfoldable pub after_step : Bool × WeightQueue A → Option (A × ℤ) × WeightQueue A
  after_step (false, q) = (none, q)
  after_step (true, q) = take_ready q

  unfoldable pub or_step : Option (A × ℤ) × WeightQueue A → Option (A × ℤ) × WeightQueue A
  unfolding after_step
  or_step (some r, q) = (some r, q)
  or_step (none, q) = after_step (step q)

  -- `get`, and `Get` without the function that it returns.
  unfoldable pub get_weighted : WeightQueue A → Option (A × ℤ) × WeightQueue A
  unfolding or_step take_ready
  get_weighted q = or_step (take_ready q)

  -- The function that `Get` returns with an item.
  unfoldable pub finish : A → WeightQueue A → WeightQueue A
  finish a q = elim (get_key eq a q.index) [
    | none ↦ q
    | some ch ↦ record q { closed = ch.done_channel ∷ q.closed; index = delete_key eq a q.index }
  ]

module _ {ℓ} {A : Type ℓ} where
  abbrev pub waiting : List (ℤ × Queue A) → ℕ
  waiting [] = 0
  waiting ((w, q) ∷ m) = len q + waiting m

  unfoldable pub total_len : WeightQueue A → ℕ
  total_len q = len q.queue + waiting q.queues
