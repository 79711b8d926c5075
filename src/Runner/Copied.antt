-- ===== src/Runner/Copied.antt =====
-- pkg/runner/runner_blob.go: what the writers hold after they were continued.
use mathlib.Core.List.{append_assoc, append-nil}
use open_cidn.Base.{
  ℕ, suc, ◌+◌, ◌-◌, ◌≤◌, ◌≡◌, refl, sym, ◌∙◌, ap, inl, inr, Bool-cases, leb, Bytes, Option, none,
  List, [], ◌∷◌, ◌++◌, ok, length, length-append, length-drop, take_all, drop, ==_iff, All-mono,
  All, arith,
}
use open_cidn.Runner.Resume.{
  Way, direct, skipping, skip_write, way_write, multi_write, copy, after_write,
}

-- What a writer has ahead of the text that is read, when a chunk is read and all but what is ahead
-- is written.
ahead_lem {ℓ} :
    {A : Type ℓ} (ahead tail p b : List A)
    → ahead ++ tail ≡ p ++ b
    → (more : List A) × ((tail' : List A) × ((ahead ++ drop (length ahead) p ≡ p ++ more)
          × (more ++ tail' ≡ b)
          × (length more ≡ length ahead - length p)))
ahead_lem [] tail p b h = ([], (b, (sym (append-nil p), refl, omega arith)))
ahead_lem (x ∷ xs) tail [] b h = (x ∷ xs, (tail, (ap (λ l. x ∷ l) (append-nil xs), h, omega arith)))
ahead_lem (x ∷ xs) tail (y ∷ ys) b h =
    let heads : x ≡ y = cc in
    let tails : xs ++ tail ≡ ys ++ b = cc in
    let (more, (tail', (here, rest, long))) = ahead_lem xs tail ys b tails in
    (more, (tail', (ap (λ l. x ∷ l) here ∙ cc, rest, omega (arith, long))))

abbrev pub concat : List Bytes → Bytes
concat [] = []
concat (p ∷ ps) = p ++ concat ps

-- How much of what comes is not written.
abbrev pub to_skip : Way → ℕ
to_skip direct = 0
to_skip (skipping w) = w.offset - w.skipped

module _ (S : Type 0) (write : Bytes → S → ℕ × Option Bytes × S) (content : S → Bytes)
    (appends : (p : Bytes) (s : S)
      → (s' : S) × ((write p s ≡ (length p, none, s')) × (content s' ≡ content s ++ p))) where
  way_write_lem :
      (y : Way) (s : S) (p : Bytes)
      → (y' : Way) × ((s' : S) × ((way_write S write (λ t. length (content t)) y s p
              ≡ (length p, none, y', s'))
            × (content s' ≡ content s ++ drop (to_skip y) p)
            × (to_skip y' ≡ to_skip y - length p)))
  unfolding way_write skip_write
  way_write_lem direct s p =
      let (s', (done, more)) = appends p s in (direct, (s', (rw done refl, more, omega arith)))
  way_write_lem (skipping w) s p = elim (Bool-cases (leb w.offset w.skipped)) [
    | inl through ↦
        let (s', (done, more)) = appends p s in
        let nothing : w.offset - w.skipped ≡ 0 = ground arith in
        (skipping w, (s', (rw through (rw done refl), rw nothing more, omega (arith, nothing))))
    | inr ahead ↦ elim (Bool-cases (leb (length p) (w.offset - w.skipped))) [
      | inl short ↦
          let all : drop (w.offset - w.skipped) p ≡ [] =
            (take_all (w.offset - w.skipped) p (ground arith)).1 in
          (
            skipping (record w { skipped = w.skipped + length p }),
            (s, (rw ahead (rw short refl), rw all (sym (append-nil (content s))), omega arith)),
          )
      | inr long ↦
          let (s', (done, more)) = appends (drop (w.offset - w.skipped) p) s in
          let less : w.offset - w.skipped ≤ length p = ground arith in
          let total = length-drop (w.offset - w.skipped) p less in
          (
            skipping (record w { skipped = w.offset }),
            (s', (rw ahead (rw long (rw done (rw total refl))), more, ground arith)),
          )
    ]
  ]

  -- The writer holds what was read of the text, and of the rest what it passes over.
  unfoldable pub IsAhead : Bytes → Bytes → Way × S → Type 0
  IsAhead read rest w =
      (ahead : Bytes) × ((tail : Bytes) × ((ahead ++ tail ≡ rest)
          × (content w.1 ≡ read ++ ahead)
          × (to_skip w.0 ≡ length ahead)))

  way_write-IsAhead :
      (read p rest : Bytes) (y : Way) (s : S)
      → IsAhead read (p ++ rest) (y, s)
      → (w : Way × S) × ((way_write S write (λ t. length (content t)) y s p
            ≡ (length p, none, w.0, w.1))
          × IsAhead (read ++ p) rest w)
  unfolding IsAhead
  way_write-IsAhead read p rest y s (ahead, (tail, (here, held, skip))) =
      let (y', (s', (done, more, left))) = way_write_lem y s p in
      let (ahead', (tail', (now, rest', long))) = ahead_lem ahead tail p rest here in
      let held' : content s' ≡ (read ++ p) ++ ahead' =
        more
        ∙ rw (held, skip)
            (append_assoc read ahead (drop (length ahead) p)
              ∙ ap (λ (l : Bytes). read ++ l) now
              ∙ sym (append_assoc read p ahead')) in
      ((y', s'), (done, (ahead', (tail', (rest', held', left ∙ omega (arith, skip, long))))))

  multi_write-IsAhead :
      (read p rest : Bytes) (ws : List (Way × S))
      → All (IsAhead read (p ++ rest)) ws
      → (ws' : List (Way × S)) × ((multi_write S write (λ t. length (content t)) ws p ≡ (none, ws'))
          × All (IsAhead (read ++ p) rest) ws'
          × (length ws' ≡ length ws))
  unfolding multi_write
  multi_write-IsAhead read p rest [] h = ([], (refl, tt, refl))
  multi_write-IsAhead read p rest ((y, s) ∷ ws) (first, others) =
      let (w', (done, here)) = way_write-IsAhead read p rest y s first in
      let (ws', (rest_done, there, long)) = multi_write-IsAhead read p rest ws others in
      (
        w' ∷ ws',
        (
          rw done (rw rest_done (rw ((==_iff (length p) (length p)).1 refl) refl)),
          (here, there),
          ap suc long,
        ),
      )

  at_the_end : (read : Bytes) (w : Way × S) → IsAhead read [] w → content w.1 ≡ read ++ []
  unfolding IsAhead
  at_the_end read w ([], (tail, (here, held, skip))) = held
  at_the_end read w (x ∷ xs, (tail, (here, held, skip))) = cc

  pub copy-IsAhead :
      (read : Bytes) (ps : List Bytes) (n : ℕ) (ws : List (Way × S))
      → All (IsAhead read (concat ps)) ws
      → (ws' : List (Way × S)) × ((copy S write (λ t. length (content t)) ps none n ws
            ≡ ok (n + length (concat ps), ws'))
          × All (λ w. content w.1 ≡ read ++ concat ps) ws'
          × (length ws' ≡ length ws))
  unfolding copy
  copy-IsAhead read [] n ws h = (
    ws,
    (
      ap (λ (m : ℕ). ok (m, ws)) (omega arith),
      All-mono (IsAhead read []) (λ w. content w.1 ≡ read ++ []) (at_the_end read) ws h,
      refl,
    ),
  )
  copy-IsAhead read (p ∷ ps) n ws h =
      let (ws1, (done, here, long)) = multi_write-IsAhead read p (concat ps) ws h in
      let (ws', (rest_done, there, same)) = copy-IsAhead (read ++ p) ps (n + length p) ws1 here in
      (
        ws',
        (
          ap
                (λ o.
                  after_write S write (λ t. length (content t)) o
                    (λ ws2. copy S write (λ t. length (content t)) ps none (n + length p) ws2))
                done
              ∙ (rest_done
                  ∙ ap (λ (m : ℕ). ok (m, ws')) (omega (arith, length-append p (concat ps)))),
          All-mono (λ w. content w.1 ≡ (read ++ p) ++ concat ps)
              (λ w. content w.1 ≡ read ++ (p ++ concat ps))
              (λ w h. h ∙ append_assoc read p (concat ps)) ws' there,
          same ∙ long,
        ),
      )
