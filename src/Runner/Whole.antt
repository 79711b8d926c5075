-- ===== src/Runner/Whole.antt =====
-- pkg/runner/runner_blob.go: a blob that is continued is whole in the end.
use open_cidn.Base.{
  ℕ, zero, suc, ◌+◌, ◌-◌, ◌≤◌, ◌≡◌, refl, ◌∙◌, ap, subst, inl, inr, Bool, true, false, Bool-cases,
  ltb, ◌==◌, if◌then◌else◌, Bytes, Option, none, some, List, [], ◌∷◌, ◌++◌, Result, ok, length,
  length-append, length-drop, ==_iff, drop, take, map, All, All-mono, arith,
}
use open_cidn.Runner.Resume.{
  Failure, Way, direct, skipping, ways, max_int, min, offset_from, sized, copy_from, resume,
}
use open_cidn.Runner.Copied.{concat, IsAhead, copy-IsAhead}

-- The start of a text that is longer than `n`, cut at `n`.
cut_lem {ℓ} :
    {A : Type ℓ} (n : ℕ) (c t : List A)
    → n ≤ length c
    → (c ≡ take n (c ++ t) ++ drop n c) × (drop n c ++ t ≡ drop n (c ++ t))
cut_lem zero c t h = (refl, refl)
cut_lem (suc n) [] t h = absurd (omega arith)
cut_lem (suc n) (x ∷ xs) t h =
    let (here, rest) = cut_lem n xs t (omega arith) in (ap (λ l. x ∷ l) here, rest)

take-drop {ℓ} : {A : Type ℓ} (n : ℕ) (xs : List A) → take n xs ++ drop n xs ≡ xs
take-drop zero xs = refl
take-drop (suc n) [] = refl
take-drop (suc n) (x ∷ xs) = ap (λ l. x ∷ l) (take-drop n xs)

-- A start that is as long as the text is the text.
all_lem {ℓ} : {A : Type ℓ} (c t : List A) → length (c ++ t) ≤ length c → c ≡ c ++ t
all_lem [] [] h = refl
all_lem [] (x ∷ t) h = absurd (omega arith)
all_lem (x ∷ c) t h = ap (λ l. x ∷ l) (all_lem c t (omega arith))

offset_from_le : (n : ℕ) (ws : List (Bool × ℕ)) → offset_from n ws ≤ n
unfolding offset_from
offset_from_le n [] = omega arith
offset_from_le n ((true, k) ∷ ws) =
    let rest = offset_from_le (if n == 0 then n else min n k) ws in ground (arith, rest)
offset_from_le n ((false, k) ∷ ws) = let rest = offset_from_le 0 ws in omega (arith, rest)

offset_from_all : (n : ℕ) (ws : List (Bool × ℕ)) → All (λ w. offset_from n ws ≤ w.1) ws
unfolding offset_from
offset_from_all n [] = tt
offset_from_all n ((true, k) ∷ ws) =
    let next = if n == 0 then n else min n k in
    let here : offset_from next ws ≤ next = offset_from_le next ws in
    let less : next ≤ k = ground arith in (omega (arith, here, less), offset_from_all next ws)
offset_from_all n ((false, k) ∷ ws) =
    let here : offset_from 0 ws ≤ 0 = offset_from_le 0 ws in
    (omega (arith, here), offset_from_all 0 ws)

module _ (S : Type 0) (write : Bytes → S → ℕ × Option Bytes × S) (content : S → Bytes)
    (appends : (p : Bytes) (s : S)
      → (s' : S) × ((write p s ≡ (length p, none, s')) × (content s' ≡ content s ++ p)))
    (blob : Bytes) where
  -- The writer holds a start of the blob.
  unfoldable pub IsStarted : Bool × S → Type 0
  IsStarted w = (t : Bytes) × (content w.1 ++ t ≡ blob)

  abbrev Reaches : ℕ → Bool × S → Type 0
  Reaches n w = n ≤ length (content w.1)

  All-sized :
      (n : ℕ) (ws : List (Bool × S))
      → All (λ w. n ≤ w.1) (map (sized S write (λ t. length (content t))) ws)
      → All (Reaches n) ws
  All-sized n [] h = tt
  All-sized n (w ∷ ws) h = (h.0, All-sized n ws h.1)

  ways-IsAhead :
      (n : ℕ) (ws : List (Bool × S))
      → All IsStarted ws
      → All (Reaches n) ws
      → (ws' : List (Way × S)) × ((ways S write (λ t. length (content t)) n ws ≡ some ws')
          × All (IsAhead S write content appends (take n blob) (drop n blob)) ws'
          × (length ws' ≡ length ws))
  unfolding IsAhead IsStarted ways
  ways-IsAhead n [] h r = ([], (refl, tt, refl))
  ways-IsAhead n ((c, s) ∷ ws) ((t, held), others) (far, further) =
      let (ws', (done, there, long)) = ways-IsAhead n ws others further in
      let (start, rest) = cut_lem n (content s) t far in
      let start' : content s ≡ take n blob ++ drop n (content s) =
        subst (λ (b : Bytes). content s ≡ take n b ++ drop n (content s)) held start in
      let rest' : drop n (content s) ++ t ≡ drop n blob =
        subst (λ (b : Bytes). drop n (content s) ++ t ≡ drop n b) held rest in
      let total = length-drop n (content s) far in
      elim (Bool-cases (length (content s) == n)) [
        | inl at ↦ (
          (direct, s) ∷ ws',
          (
            rw at (rw done refl),
            ((drop n (content s), (t, (rest', start', ground (arith, at, total)))), there),
            ap suc long,
          ),
        )
        | inr off ↦
            let more : ltb n (length (content s)) ≡ true = ground (arith, off) in
            (
              (skipping (record { offset = length (content s) - n; skipped = 0 }), s) ∷ ws',
              (
                rw off (rw more (rw done refl)),
                ((drop n (content s), (t, (rest', start', omega (arith, total)))), there),
                ap suc long,
              ),
            )
      ]

  -- What a step leaves when it ends well: as many writers as there were, each with the blob.
  abbrev IsWhole : List (Bool × S) → Result Failure (List S) → Type 0
  IsWhole ws result =
      (done : List S) × ((result ≡ ok done)
        × All (λ s. content s ≡ blob) done
        × (length done ≡ length ws))

  All-map :
      (ws : List (Way × S))
      → All (λ w. content w.1 ≡ blob) ws
      → All (λ s. content s ≡ blob) (map (λ w. w.1) ws)
  All-map [] h = tt
  All-map (w ∷ ws) h = (h.0, All-map ws h.1)

  length-map : (ws : List (Way × S)) → length (map (λ w. w.1) ws) ≡ length ws
  length-map [] = refl
  length-map (w ∷ ws) = ap suc (length-map ws)

  copy_from-IsWhole :
      (n : ℕ) (read : ℕ → Result Bytes (List Bytes × Option Bytes)) (ws : List (Bool × S))
      → n ≤ length blob
      → ((ps : List Bytes) × ((read n ≡ ok (ps, none)) × (concat ps ≡ drop n blob)))
      → All IsStarted ws
      → All (Reaches n) ws
      → IsWhole ws (copy_from S write (λ t. length (content t)) n (length blob) read ws)
  unfolding copy_from
  copy_from-IsWhole n read ws less (ps, (reads, parts)) h r =
      let (ws1, (begun, ahead, long)) = ways-IsAhead n ws h r in
      let (ws', (done, there, same)) =
        copy-IsAhead S write content appends (take n blob) ps 0 ws1 (rw parts ahead) in
      let whole : take n blob ++ concat ps ≡ blob = rw parts (take-drop n blob) in
      let sum : n + length (concat ps) ≡ length blob = rw parts (length-drop n blob less) in
      let right : (n + (0 + length (concat ps)) == length blob) ≡ true =
        (==_iff (n + (0 + length (concat ps))) (length blob)).1 (omega (arith, sum)) in
      (
        map (λ w. w.1) ws',
        (
          rw (copy_from, begun) (rw reads (rw done (rw right refl))),
          All-map ws' (
              All-mono (λ w. content w.1 ≡ take n blob ++ concat ps) (λ w. content w.1 ≡ blob)
                (λ w held. held ∙ whole) ws' there),
          length-map ws' ∙ same ∙ long,
        ),
      )

  already :
      (ws : List (Bool × S))
      → All IsStarted ws
      → All (Reaches (length blob)) ws
      → All (λ s. content s ≡ blob) (map (λ w. w.1) ws)
        × (length (map {B = S} (λ w. w.1) ws) ≡ length ws)
  unfolding IsStarted
  already [] h r = (tt, refl)
  already (w ∷ ws) ((t, held), others) (far, further) =
      let (rest, long) = already ws others further in
      ((all_lem (content w.1) t (rw held far) ∙ held, rest), ap suc long)

  -- A blob that is continued is whole in every storage: each writer held a start of it, perhaps an
  -- empty one, the writers append, and what is read from an offset on is the rest of the blob.
  pub resume-IsWhole :
      (read : ℕ → Result Bytes (List Bytes × Option Bytes)) (w : Bool × S) (ws : List (Bool × S))
      → ((n : ℕ)
          → n ≤ length blob
          → (ps : List Bytes) × ((read n ≡ ok (ps, none)) × (concat ps ≡ drop n blob)))
      → All IsStarted (w ∷ ws)
      → (done : List S) × ((resume S write (λ s. length (content s)) (length blob) read (w ∷ ws)
            ≡ ok done)
          × All (λ s. content s ≡ blob) done
          × (length done ≡ length (w ∷ ws)))
  unfolding resume IsStarted
  resume-IsWhole read w ws reads h =
      let size = λ (s : S). length (content s) in
      let n = offset_from max_int (map (sized S write size) (w ∷ ws)) in
      let r = All-sized n (w ∷ ws) (offset_from_all max_int (map (sized S write size) (w ∷ ws))) in
      let total = length-append (content w.1) h.0.0 in
      let less : n ≤ length blob =
        subst (λ (b : Bytes). n ≤ length b) h.0.1 (omega (arith, total, r.0)) in
      let under : ltb (length blob) n ≡ false = ground (arith, less) in
      elim (Bool-cases (n == length blob)) [
        | inl all ↦
            let same : n ≡ length blob = (==_iff n (length blob)).0 all in
            let (there, long) =
              already (w ∷ ws) h (subst (λ (m : ℕ). All (Reaches m) (w ∷ ws)) same r) in
            (map (λ x. x.1) (w ∷ ws), (rw under (rw all refl), there, long))
        | inr part ↦
            let (done, (ends, there, long)) =
              copy_from-IsWhole n read (w ∷ ws) less (reads n less) h r in
            (done, (rw under (rw part ends), there, long))
      ]
