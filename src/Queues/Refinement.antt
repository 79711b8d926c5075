-- ===== src/Queues/Refinement.antt =====
-- The queue against its specification: a list without duplicates.
use open_cidn.Base.{◌≡◌, refl, ap, Bool, Option, none, some, List, [], ◌∷◌, ◌++◌, Eq}
use open_cidn.Queues.Fifo.{Queue, add, get, remove}
use open_cidn.Queues.Contents.{
  items, Absent, erase, Gets, IsIndexed, items-add, add-IsIndexed, get-Gets, get-IsIndexed,
}
use open_cidn.Queues.Removal.{contains, remove_lem}

pub data Op {ℓ} (A : Type ℓ) : Type ℓ where
  adds : A → Op A
  gets : Op A
  removes : A → Op A

pub data Reply {ℓ} (A : Type ℓ) : Type ℓ where
  added : Reply A
  got : Option A → Reply A
  removed : Bool → Reply A

module _ {ℓ} {A : Type ℓ} (eq : Eq A) where
  -- The methods.
  abbrev pub step : Op A → Queue A → Reply A × Queue A
  step (adds a) q = (added, add eq a q)
  step gets q = let (o, q') = get eq q in (got o, q')
  step (removes a) q = let (b, q') = remove eq a q in (removed b, q')

  abbrev head_of : List A → Option A
  head_of [] = none
  head_of (x ∷ xs) = some x

  abbrev tail_of : List A → List A
  tail_of [] = []
  tail_of (x ∷ xs) = xs

  -- What they are to do to a list.
  abbrev pub spec : Op A → List A → Reply A × List A
  spec (adds a) xs = (added, xs ++ a ∷ [])
  spec gets xs = (got (head_of xs), tail_of xs)
  spec (removes a) xs = (removed (contains eq a xs), erase eq a xs)

  -- An item is added only where it is not queued.
  abbrev pub IsFresh : List (Op A) → List A → Type 0
  IsFresh [] xs = Unit
  IsFresh (adds a ∷ ops) xs = Absent eq a xs × IsFresh ops (xs ++ a ∷ [])
  IsFresh (gets ∷ ops) xs = IsFresh ops (tail_of xs)
  IsFresh (removes a ∷ ops) xs = IsFresh ops (erase eq a xs)

  unfoldable pub run : List (Op A) → Queue A → List (Reply A) × Queue A
  run [] q = ([], q)
  run (op ∷ ops) q = let (r, q') = step op q in let (rs, q'') = run ops q' in (r ∷ rs, q'')

  unfoldable pub run_spec : List (Op A) → List A → List (Reply A) × List A
  run_spec [] xs = ([], xs)
  run_spec (op ∷ ops) xs =
      let (r, xs') = spec op xs in let (rs, xs'') = run_spec ops xs' in (r ∷ rs, xs'')

  Gets_lem :
      (xs : List A) (r : Option A × Queue A)
      → Gets eq xs r
      → (r.0 ≡ head_of xs) × (items r.1 ≡ tail_of xs)
  Gets_lem [] r g = g
  Gets_lem (x ∷ xs) r g = g

  -- Every sequence of methods, started on a queue whose index is right and adding an item only
  -- where it is not queued, gives the replies of the specification and leaves its list, and the
  -- index is right at the end.
  pub run-spec :
      (ops : List (Op A)) (q : Queue A)
      → IsIndexed eq q
      → IsFresh ops (items q)
      → ((run ops q).0 ≡ (run_spec ops (items q)).0)
        × (items (run ops q).1 ≡ (run_spec ops (items q)).1)
        × IsIndexed eq (run ops q).1
  unfolding run run_spec
  run-spec [] q i f = (refl, refl, i)
  run-spec (adds a ∷ ops) q i f =
      let e = items-add eq a q in
      let (rs, ys, i') = run-spec ops (add eq a q) (add-IsIndexed eq a q f.0 i) (rw e f.1) in
      (rw (← e) (ap (◌∷◌ added) rs), rw (← e) ys, i')
  run-spec (gets ∷ ops) q i f =
      let (o, e) = Gets_lem (items q) (get eq q) (get-Gets eq q) in
      let (rs, ys, i') = run-spec ops (get eq q).1 (get-IsIndexed eq q i) (rw e f) in
      (rw (← e, o) (ap (◌∷◌ (got (head_of (items q)))) rs), rw (← e) ys, i')
  run-spec (removes a ∷ ops) q i f =
      let (b, e, i0) = remove_lem eq a q i in
      let (rs, ys, i') = run-spec ops (remove eq a q).1 i0 (rw e f) in
      (rw (← e, b) (ap (◌∷◌ (removed (contains eq a (items q)))) rs), rw (← e) ys, i')
