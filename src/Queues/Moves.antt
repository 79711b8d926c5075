-- ===== src/Queues/Moves.antt =====
-- What one round of `step` moves from the queues of the weights to the queue of what is ready.
use open_cidn.Base.{
  ℕ, zero, suc, ◌≡◌, refl, sym, ◌∙◌, ap, Bool, true, false, if◌then◌else◌, ℤ, int_eq, int_eq_refl,
  Option, none, some, List, [], ◌∷◌, ◌++◌, All, length, take, drop, Eq,
}
use mathlib.Core.Path.{ap₂}
use mathlib.Core.List.{append-nil, append_assoc}
use open_cidn.Maps.{get_key, set_key, get_key-set_key}
use open_cidn.Queues.Fifo.{Element, Queue, add, get, len}
use open_cidn.Queues.Contents.{items_of, items, Gets, items-add, get-Gets}
use open_cidn.Queues.Weighted.{
  int_key, or_new, queue_of, Moving, move_got, move_one, mark_soon, move, turns, Sweep, sweep_one,
  sweep,
}

abbrev pub Unlike : ℤ → List ℤ → Type 0
Unlike w ws = All (λ v. int_eq w v ≡ false) ws

abbrev pub DistinctInts : List ℤ → Type 0
DistinctInts [] = Unit
DistinctInts (w ∷ ws) = Unlike w ws × DistinctInts ws

module _ {ℓ} {A : Type ℓ} where
  length-items_of : (es : List (Element A)) → length (items_of es) ≡ length es
  length-items_of [] = refl
  length-items_of (e ∷ es) = ap suc (length-items_of es)

  pub len-items : (q : Queue A) → len q ≡ length (items q)
  unfolding len
  len-items q = sym (length-items_of q.base)

  pub queue_of-set_key_self :
      (w : ℤ) (q : Queue A) (m : List (ℤ × Queue A)) → queue_of w (set_key int_key w q m) ≡ q
  queue_of-set_key_self w q m = ap or_new (
      get_key-set_key int_key w w q m
      ∙ ap (λ (b : Bool). if b then some q else get_key int_key w m) (int_eq_refl w))

  pub queue_of-set_key_other :
      (w v : ℤ) (q : Queue A) (m : List (ℤ × Queue A))
      → int_eq w v ≡ false
      → queue_of v (set_key int_key w q m) ≡ queue_of v m
  queue_of-set_key_other w v q m e = ap or_new (
      get_key-set_key int_key w v q m
      ∙ ap (λ (b : Bool). if b then some q else get_key int_key v m) e)

  -- What a weight's queue gives up in a round: as many items as its weight, or all for a weight
  -- below 0; and what it keeps.
  abbrev pub share : ℤ → Queue A → List A
  share w q = take (turns w q) (items q)

  abbrev pub kept : ℤ → Queue A → List A
  kept w q = drop (turns w q) (items q)

  abbrev pub shares : List ℤ → List (ℤ × Queue A) → List A
  shares [] m = []
  shares (w ∷ ws) m = share w (queue_of w m) ++ shares ws m

module _ {ℓ} {A : Type ℓ} (eq : Eq A) where
  move_split :
      (n : ℕ) (s : Moving A) (xs : List A) (r : Option A × Queue A)
      → get eq s.from ≡ r
      → items s.from ≡ xs
      → Gets eq xs r
      → ((s' : Moving A)
          → (items (move eq n s').ready ≡ items s'.ready ++ take n (items s'.from))
            × (items (move eq n s').from ≡ drop n (items s'.from)))
      → (items (move eq (suc n) s).ready ≡ items s.ready ++ take (suc n) xs)
        × (items (move eq (suc n) s).from ≡ drop (suc n) xs)
  unfolding move move_one move_got
  move_split n s [] (none, q) e f g ih = rw (e, move) (sym (append-nil (items s.ready)), f)
  move_split n s [] (some t, q) e f g ih = cc (g.0)
  move_split n s (x ∷ xs) (none, q) e f g ih = cc (g.0)
  move_split n s (x ∷ xs) (some t, q) e f g ih =
      let s' : Moving A = record {
        from = q;
        ready = add eq t s.ready;
        entries = mark_soon eq t s.entries;
        added = true;
      } in
      let same : t ≡ x = cc (g.0) in
      let (ready, from) = ih s' in
      rw (e, move)
        (
          ready
              ∙ ap₂ (λ (a b : List A). a ++ take n b) (items-add eq t s.ready) g.1
              ∙ append_assoc (items s.ready) (t ∷ []) (take n xs)
              ∙ ap (λ (y : A). items s.ready ++ y ∷ take n xs) same,
          from ∙ ap (drop n) g.1,
        )

  -- The inner loop moves the oldest items, as many as it has turns, and keeps their order.
  pub move-items :
      (n : ℕ) (s : Moving A)
      → (items (move eq n s).ready ≡ items s.ready ++ take n (items s.from))
        × (items (move eq n s).from ≡ drop n (items s.from))
  unfolding move
  move-items zero s = (sym (append-nil (items s.ready)), refl)
  move-items (suc n) s =
      move_split n s (items s.from) (get eq s.from) refl refl (get-Gets eq s.from) (move-items n)

  -- One weight.
  pub sweep_one-items :
      (w : ℤ) (s : Sweep A)
      → (items (sweep_one eq w s).ready ≡ items s.ready ++ share w (queue_of w s.queues))
        × (items (queue_of w (sweep_one eq w s).queues) ≡ kept w (queue_of w s.queues))
        × ((v : ℤ)
            → int_eq w v ≡ false
            → queue_of v (sweep_one eq w s).queues ≡ queue_of v s.queues)
  unfolding sweep_one
  sweep_one-items w s =
      let q = queue_of w s.queues in
      let m =
        move-items (turns w q)
          (record { from = q; ready = s.ready; entries = s.entries; added = s.added }) in
      (
        m.0,
        ap items (queue_of-set_key_self w _ s.queues) ∙ m.1,
        λ v e. queue_of-set_key_other w v _ s.queues e,
      )

  shares-sweep_one :
      (w : ℤ) (s : Sweep A) (ws : List ℤ)
      → Unlike w ws
      → shares ws (sweep_one eq w s).queues ≡ shares ws s.queues
  shares-sweep_one w s [] u = refl
  shares-sweep_one w s (v ∷ ws) u = rw ((sweep_one-items w s).2 v u.0, shares-sweep_one w s ws u.1)

  -- All weights in turn: what is ready grows by the share of each, in the order of the weights.
  pub sweep-items :
      (ws : List ℤ) (s : Sweep A)
      → DistinctInts ws
      → items (sweep eq ws s).ready ≡ items s.ready ++ shares ws s.queues
  unfolding sweep
  sweep-items [] s d = sym (append-nil (items s.ready))
  sweep-items (w ∷ ws) s d =
      sweep-items ws (sweep_one eq w s) d.1
      ∙ ap₂ (λ (a b : List A). a ++ b) ((sweep_one-items w s).0) (shares-sweep_one w s ws d.0)
      ∙ append_assoc (items s.ready) (share w (queue_of w s.queues)) (shares ws s.queues)
