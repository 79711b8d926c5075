-- ===== src/Blobs/Workers.antt =====
-- The end of `NewBlobs` in pkg/blobs/blobs.go: which queue each download worker is started on. A
-- queue is named by the order of its creation.
use open_cidn.Base.{
  ℕ, zero, suc, ◌+◌, ◌*◌, ◌/◌, ◌≡◌, refl, ◌∙◌, true, false, ltb, ◌==◌, List, [], ◌∷◌, length, count,
  arith, Bool-cases, inl, inr, All,
}

-- The queue of every worker, the last started first, and the array `groupQueue`.
pub record Wiring : Type 0 where
  pub created : ℕ
  pub workers : List ℕ
  pub group_queue : List ℕ

abbrev set_at : ℕ → ℕ → List ℕ → List ℕ
set_at n q [] = []
set_at zero q (x ∷ xs) = q ∷ xs
set_at (suc n) q (x ∷ xs) = x ∷ set_at n q xs

-- One round of a loop: a new queue takes the place in the array, and gets a worker.
unfoldable pub start_worker : ℕ → Wiring → Wiring
start_worker slot w = record {
  created = suc w.created;
  workers = w.created ∷ w.workers;
  group_queue = set_at slot w.created w.group_queue;
}

unfoldable pub start_workers : ℕ → ℕ → Wiring → Wiring
start_workers zero slot w = w
start_workers (suc n) slot w = start_workers n slot (start_worker slot w)

-- Four queues; then `concurrency * 8 / 10 + 1` rounds for the first place and
-- `concurrency * 1 / 10 + 1` for the second. Before the first loop the array holds no queue.
unfoldable pub new_blobs : ℕ → Wiring
new_blobs concurrency =
    let none_yet : Wiring = record {
      created = 0;
      workers = [];
      group_queue = 0 ∷ 0 ∷ 0 ∷ 0 ∷ [];
    } in
    let four = start_worker 3 (start_worker 2 (start_worker 1 (start_worker 0 none_yet))) in
    start_workers (suc (concurrency * 1 / 10)) 1 (start_workers (suc (concurrency * 8 / 10)) 0 four)

-- Queues below `n`, in the order in which workers stand for them.
abbrev countdown : ℕ → List ℕ
countdown zero = []
countdown (suc n) = n ∷ countdown n

count_above : (n q : ℕ) → ltb q n ≡ false → count (λ (x : ℕ). x == q) (countdown n) ≡ 0
count_above zero q h = refl
count_above (suc n) q h =
    let far : (n == q) ≡ false = ground (arith, h) in
    let rest : ltb q n ≡ false = ground (arith, h) in rw far (count_above n q rest)

count_below : (n q : ℕ) → ltb q n ≡ true → count (λ (x : ℕ). x == q) (countdown n) ≡ 1
count_below zero q h = ground (arith, h)
count_below (suc n) q h = elim (Bool-cases (n == q)) [
  | inl e ↦
      let above : ltb q n ≡ false = ground (arith, e) in
      rw e (ground (arith, count_above n q above))
  | inr e ↦ let rest : ltb q n ≡ true = ground (arith, h, e) in rw e (count_below n q rest)
]

abbrev IsWired : Wiring → Type 0
IsWired w =
    (w.workers ≡ countdown w.created) × All (λ (q : ℕ). ltb q w.created ≡ true) w.group_queue

set_at-All :
    (slot n : ℕ) (xs : List ℕ)
    → All (λ (q : ℕ). ltb q n ≡ true) xs
    → All (λ (q : ℕ). ltb q (suc n) ≡ true) (set_at slot n xs)
set_at-All slot n [] h = tt
set_at-All zero n (x ∷ xs) h = (ground arith, later xs h.1)
  where
    later :
        (ys : List ℕ)
        → All (λ (q : ℕ). ltb q n ≡ true) ys
        → All (λ (q : ℕ). ltb q (suc n) ≡ true) ys
    later [] k = tt
    later (y ∷ ys) k = (ground (arith, k.0), later ys k.1)
set_at-All (suc slot) n (x ∷ xs) h = (ground (arith, h.0), set_at-All slot n xs h.1)

start_worker-IsWired : (slot : ℕ) (w : Wiring) → IsWired w → IsWired (start_worker slot w)
unfolding start_worker
start_worker-IsWired slot w h = (rw h.0 refl, set_at-All slot w.created w.group_queue h.1)

start_workers-IsWired : (n slot : ℕ) (w : Wiring) → IsWired w → IsWired (start_workers n slot w)
unfolding start_workers
start_workers-IsWired zero slot w h = h
start_workers-IsWired (suc n) slot w h =
    start_workers-IsWired n slot (start_worker slot w) (start_worker-IsWired slot w h)

created_lem : (n slot : ℕ) (w : Wiring) → (start_workers n slot w).created ≡ n + w.created
unfolding start_workers start_worker
created_lem zero slot w = omega arith
created_lem (suc n) slot w = omega (arith, created_lem n slot (start_worker slot w))

served_once :
    (n : ℕ) (xs : List ℕ)
    → All (λ (q : ℕ). ltb q n ≡ true) xs
    → All (λ (q : ℕ). count (λ (x : ℕ). x == q) (countdown n) ≡ 1) xs
served_once n [] h = tt
served_once n (x ∷ xs) h = (count_below n x h.0, served_once n xs h.1)

length-countdown : (n : ℕ) → length (countdown n) ≡ n
length-countdown zero = refl
length-countdown (suc n) = omega (arith, length-countdown n)

-- However many download workers are started, of each queue that is in use in the end just one of
-- them takes; so all but four of the workers wait on queues that nothing is ever put into.
pub new_blobs_lem :
    (concurrency : ℕ)
    → let w = new_blobs concurrency in
      All (λ (q : ℕ). count (λ (x : ℕ). x == q) w.workers ≡ 1) w.group_queue
      × (length w.workers ≡ 6 + (concurrency * 8 / 10 + concurrency * 1 / 10))
unfolding new_blobs start_worker
new_blobs_lem concurrency =
    let eight = concurrency * 8 / 10 in
    let one = concurrency * 1 / 10 in
    let four : Wiring = record {
      created = 4;
      workers = 3 ∷ 2 ∷ 1 ∷ 0 ∷ [];
      group_queue = 0 ∷ 1 ∷ 2 ∷ 3 ∷ [];
    } in
    let more = start_workers (suc eight) 0 four in
    let wired =
      start_workers-IsWired (suc one) 1 more
        (start_workers-IsWired (suc eight) 0 four (refl, (refl, (refl, (refl, (refl, tt)))))) in
    let last = start_workers (suc one) 1 more in
    (
      rw wired.0 (served_once last.created last.group_queue wired.1),
      rw wired.0 (
          length-countdown last.created
          ∙ omega (arith, created_lem (suc one) 1 more, created_lem (suc eight) 0 four)),
    )
