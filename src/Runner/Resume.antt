-- ===== src/Runner/Resume.antt =====
-- pkg/runner/runner_blob.go: a blob that is too large to start again is continued where the writers
-- of the storages stopped.
use open_cidn.Base.{
  ℕ, ◌+◌, ◌-◌, ◌^◌, Bool, true, false, if◌then◌else◌, ltb, leb, ◌==◌, Bytes, bytes, Option, none,
  some, List, [], ◌∷◌, Result, ok, err, length, drop, map,
}

-- Why the copying fails.
pub data Failure : Type 0 where
  beyond : ℕ → Failure
  panicked : Failure
  not_sought : Bytes → Failure
  not_copied : Bytes → Failure
  wrong_size : ℕ → Failure

pub record SkipWriter : Type 0 where
  pub offset : ℕ
  pub skipped : ℕ

-- A writer as it is, or behind a `SkipWriter`.
pub data Way : Type 0 where
  direct : Way
  skipping : SkipWriter → Way

abbrev pub max_int : ℕ
max_int = 2 ^ 63 - 1

abbrev pub min : ℕ → ℕ → ℕ
min m n = if ltb n m then n else m

-- Where to continue: the least size of the writers, 0 if one of them starts afresh.
unfoldable pub offset_from : ℕ → List (Bool × ℕ) → ℕ
offset_from offset [] = offset
offset_from offset ((true, n) ∷ ws) = offset_from (if offset == 0 then offset else min offset n) ws
offset_from offset ((false, n) ∷ ws) = offset_from 0 ws

-- `write` is the method of the writers, with how many bytes it took and its error, and `size` theirs.
module _ (S : Type 0) (write : Bytes → S → ℕ × Option Bytes × S) (size : S → ℕ) where
  abbrev kept : Way → ℕ × Option Bytes × S → ℕ × Option Bytes × Way × S
  kept w (n, e, s) = (n, e, w, s)

  abbrev behind : ℕ → Way → ℕ × Option Bytes × S → ℕ × Option Bytes × Way × S
  behind remaining w (n, e, s) = (remaining + n, e, w, s)

  unfoldable pub skip_write : SkipWriter → S → Bytes → ℕ × Option Bytes × Way × S
  skip_write w s p =
      if leb w.offset w.skipped
      then kept (skipping w) (write p s)
      else if leb (length p) (w.offset - w.skipped)
      then (length p, none, skipping (record w { skipped = w.skipped + length p }), s)
      else behind (w.offset - w.skipped) (skipping (record w { skipped = w.offset }))
          (write (drop (w.offset - w.skipped) p) s)

  unfoldable pub way_write : Way → S → Bytes → ℕ × Option Bytes × Way × S
  way_write direct s p = kept direct (write p s)
  way_write (skipping w) s p = skip_write w s p

  abbrev onto : Way × S → Option Bytes × List (Way × S) → Option Bytes × List (Way × S)
  onto w (e, ws) = (e, w ∷ ws)

  abbrev pub all_of :
      ℕ × Option Bytes × Way × S
      → ℕ
      → List (Way × S)
      → Option Bytes × List (Way × S)
      → Option Bytes × List (Way × S)
  all_of (n, some e, w, s) len ws rest = (some e, (w, s) ∷ ws)
  all_of (n, none, w, s) len ws rest =
      if n == len then onto (w, s) rest else (some (bytes "short write"), (w, s) ∷ ws)

  -- `io.MultiWriter`: one after the other, up to the first that does not take everything.
  unfoldable pub multi_write : List (Way × S) → Bytes → Option Bytes × List (Way × S)
  multi_write [] p = (none, [])
  multi_write ((w, s) ∷ ws) p = all_of (way_write w s p) (length p) ws (multi_write ws p)

  abbrev pub after_write :
      Option Bytes × List (Way × S)
      → (List (Way × S) → Result Bytes (ℕ × List (Way × S)))
      → Result Bytes (ℕ × List (Way × S))
  after_write (some e, ws) next = err e
  after_write (none, ws) next = next ws

  -- `io.Copy` of the chunks that are read, and of the error behind them, if there is one.
  unfoldable pub copy :
      List Bytes → Option Bytes → ℕ → List (Way × S) → Result Bytes (ℕ × List (Way × S))
  copy [] (some e) n ws = err e
  copy [] none n ws = ok (n, ws)
  copy (p ∷ ps) last n ws = after_write (multi_write ws p) (λ ws'. copy ps last (n + length p) ws')

  abbrev before : Way × S → Option (List (Way × S)) → Option (List (Way × S))
  before w none = none
  before w (some ws) = some (w ∷ ws)

  -- The writers from `offset` on; a writer that has less is a panic.
  unfoldable pub ways : ℕ → List (Bool × S) → Option (List (Way × S))
  ways offset [] = some []
  ways offset ((c, s) ∷ ws) =
      if size s == offset
      then before (direct, s) (ways offset ws)
      else if ltb offset (size s)
      then before (skipping (record { offset = size s - offset; skipped = 0 }), s) (ways offset ws)
      else none

  abbrev pub sized : Bool × S → Bool × ℕ
  sized (c, s) = (c, size s)

  abbrev pub copied : ℕ → ℕ → Result Bytes (ℕ × List (Way × S)) → Result Failure (List S)
  copied offset total (err e) = err (not_copied e)
  copied offset total (ok (n, ws)) =
      if offset + n == total then ok (map (λ w. w.1) ws) else err (wrong_size n)

  -- `read` is what is read from an offset on: an error of `Seek`, or chunks and what ends them.
  unfoldable pub copy_from :
      ℕ
      → ℕ
      → (ℕ → Result Bytes (List Bytes × Option Bytes))
      → List (Bool × S)
      → Result Failure (List S)
  copy_from offset total read ws = elim (ways offset ws) [
    | none ↦ err panicked
    | some ws' ↦ elim (read offset) [
      | err e ↦ err (not_sought e)
      | ok chunks ↦ copied offset total (copy chunks.0 chunks.1 0 ws')
    ]
  ]

  -- The writers as they are before they are committed; `true` stands at one that continues.
  unfoldable pub resume :
      ℕ → (ℕ → Result Bytes (List Bytes × Option Bytes)) → List (Bool × S) → Result Failure (List S)
  resume total read ws =
      let offset = offset_from max_int (map sized ws) in
      if ltb total offset
      then err (beyond offset)
      else if offset == total
      then ok (map (λ w. w.1) ws)
      else copy_from offset total read ws
