-- ===== src/Queues/Fifo.antt =====
-- internal/queue/queue.go: a linked list with an index from the item to its element. An element is
-- named by a number in place of its address; `signal` is whether the channel of capacity 1 holds a
-- token. The mutex makes each method one step.
use open_cidn.Base.{
  ℕ, suc, Bool, true, false, ◌==◌, if◌then◌else◌, Option, none, some, List, [], ◌∷◌, ◌++◌, length,
  Eq,
}
use open_cidn.Maps.{get_key, set_key, delete_key}

pub record Element {ℓ} (A : Type ℓ) : Type ℓ where
  pub mark : ℕ
  pub item : A

pub record Queue {ℓ} (A : Type ℓ) : Type ℓ where
  pub base : List (Element A)
  pub index : List (A × ℕ)
  pub next : ℕ
  pub signal : Bool

module _ {ℓ} {A : Type ℓ} where
  unfoldable pub new_queue : Queue A
  new_queue = record { base = []; index = []; next = 0; signal = false }

  -- `list.Remove`.
  unfoldable pub remove_mark : ℕ → List (Element A) → List (Element A)
  remove_mark m [] = []
  remove_mark m (e ∷ es) = if e.mark == m then es else e ∷ remove_mark m es

  unfoldable pub len : Queue A → ℕ
  len q = length q.base

module _ {ℓ} {A : Type ℓ} (eq : Eq A) where
  unfoldable pub add : A → Queue A → Queue A
  add a q = record {
    base = q.base ++ record { mark = q.next; item = a } ∷ [];
    index = set_key eq a q.next q.index;
    next = suc q.next;
    signal = true;
  }

  unfoldable pub take_front : List (Element A) → Queue A → Option A × Queue A
  take_front [] q = (none, q)
  take_front (e ∷ es) q =
      (some e.item, record q { base = es; index = delete_key eq e.item q.index })

  unfoldable pub get : Queue A → Option A × Queue A
  unfolding take_front
  get q = take_front q.base q

  unfoldable pub take_out : A → Option ℕ → Queue A → Bool × Queue A
  take_out a none q = (false, q)
  take_out a (some m) q =
      (true, record q { base = remove_mark m q.base; index = delete_key eq a q.index })

  unfoldable pub remove : A → Queue A → Bool × Queue A
  unfolding take_out
  remove a q = take_out a (get_key eq a q.index) q
