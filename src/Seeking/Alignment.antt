-- ===== src/Seeking/Alignment.antt =====
-- Reading and seeking keep the reader in use at the offset (internal/seeker/seeker.go).
use open_cidn.Base.{
  ℕ, ◌+◌, ◌≤◌, ◌≡◌, refl, inl, inr, subst, false, ◌==◌, ltb, leb, if◌then◌else◌, Bool-cases, ℤ, pos,
  negsuc, Bytes, Option, none, some, Option-cases, List, [], ◌∷◌, length, take, drop, arith,
}
use open_cidn.Seeking.Source.{ReadError, fine, eof, failed, Source}
use open_cidn.Seeking.Seeker.{
  Whence, seek_start, seek_current, seek_end, other_whence, Seeker, new_read_seek_closer,
  after_read, read_with, reader_of, read, move_to, seek_to, seek, close,
}

pub data Op : Type 0 where
  reads : ℕ → Op
  seeks : ℤ → Whence → Op
  closes : Op

module _ (source : Source) where
  -- The reader, if there is one, stands at the offset.
  abbrev pub At : Option source.Reader → ℕ → Type 0
  At none n = Unit
  At (some r) n = source.position r ≡ n

  abbrev pub IsAligned : Seeker source → Type 0
  IsAligned s = At s.current s.offset

  abbrev pub perform : Op → Seeker source → Seeker source
  perform (reads n) s = (read source n s).1
  perform (seeks offset whence) s = (seek source offset whence s).1
  perform closes s = close source s

  unfoldable pub run : List Op → Seeker source → Seeker source
  run [] s = s
  run (op ∷ ops) s = run ops (perform op s)

  -- What a `Read` is to do: the bytes are those of the content at the offset, which moves past them.
  abbrev Reads : Seeker source → (Bytes × ReadError) × Seeker source → Type 0
  Reads s ((data_read, error), s') =
      (data_read ≡ take (length data_read) (drop s.offset source.content))
      × (s'.offset ≡ s.offset + length data_read)
      × IsAligned s'

  after_read_lem :
      (n : ℕ) (r : source.Reader) (s : Seeker source)
      → source.position r ≡ s.offset
      → Reads s (after_read source (source.read n r) s)
  unfolding after_read
  after_read_lem n r s p = go (source.read n r).error refl
    where
      data_at :
          (source.read n r).data_read
          ≡ take (length (source.read n r).data_read) (drop s.offset source.content)
      data_at = rw p at (source.read-data n r)

      go :
          (e : ReadError)
          → (source.read n r).error ≡ e
          → Reads s (after_read source (source.read n r) s)
      go fine e = rw e (data_at, refl, rw p at (source.position-read n r))
      go eof e = rw e (data_at, refl, tt)
      go failed e = rw e (data_at, refl, rw p at (source.position-read n r))

  At-reader_of :
      (o : Option source.Reader) (offset : ℕ) → At o offset → At (reader_of source o offset) offset
  At-reader_of none offset a = elim (Option-cases (source.open_at offset)) [
    | inl e ↦ rw e tt
    | inr (r, e) ↦ rw e (source.position-open_at offset r e)
  ]
  At-reader_of (some r) offset a = a

  read_with_lem :
      (n : ℕ) (o : Option source.Reader) (s : Seeker source)
      → IsAligned s
      → At o s.offset
      → Reads s (read_with source n o s)
  read_with_lem n none s a b = (refl, omega arith, a)
  read_with_lem n (some r) s a b = after_read_lem n r s b

  read_lem : (n : ℕ) (s : Seeker source) → IsAligned s → Reads s (read source n s)
  unfolding read
  read_lem n s a = elim (Bool-cases (leb s.size s.offset)) [
    | inl e ↦ rw e (refl, omega arith, a)
    | inr e ↦ rw e (
        read_with_lem n (reader_of source s.current s.offset) s a
          (At-reader_of s.current s.offset a))
  ]

  move_to-IsAligned : (n : ℕ) (s : Seeker source) → IsAligned s → IsAligned (move_to source n s).1
  move_to-IsAligned n s a = kept (if ltb s.size n then s.size else n)
    where
      kept : (offset : ℕ) → At (if offset == s.offset then s.current else none) offset
      kept offset = elim (Bool-cases (offset == s.offset)) [
        | inl e ↦
            let same : s.offset ≡ offset = ground arith in
            rw e (subst (λ (x : ℕ). At s.current x) same a)
        | inr e ↦ rw e tt
      ]

  seek_to-IsAligned : (o : ℤ) (s : Seeker source) → IsAligned s → IsAligned (seek_to source o s).1
  seek_to-IsAligned (pos n) s a = move_to-IsAligned n s a
  seek_to-IsAligned (negsuc n) s a = a

  seek-IsAligned :
      (offset : ℤ) (whence : Whence) (s : Seeker source)
      → IsAligned s
      → IsAligned (seek source offset whence s).1
  unfolding seek
  seek-IsAligned offset seek_start s a = seek_to-IsAligned offset s a
  seek-IsAligned offset seek_current s a = seek_to-IsAligned _ s a
  seek-IsAligned offset seek_end s a = seek_to-IsAligned _ s a
  seek-IsAligned offset other_whence s a = a

  run-IsAligned : (ops : List Op) (s : Seeker source) → IsAligned s → IsAligned (run ops s)
  unfolding run close
  run-IsAligned [] s a = a
  run-IsAligned (reads n ∷ ops) s a = run-IsAligned ops _ (read_lem n s a).2
  run-IsAligned (seeks offset whence ∷ ops) s a =
      run-IsAligned ops _ (seek-IsAligned offset whence s a)
  run-IsAligned (closes ∷ ops) s a = run-IsAligned ops _ tt

  -- After any reads, seeks and closings, a read gives the bytes of the content that stand at the
  -- offset, and moves the offset past them.
  pub read_anywhere :
      (ops : List Op) (size n : ℕ)
      → let s = run ops (new_read_seek_closer source size) in
        let ((data_read, error), s') = read source n s in
        (data_read ≡ take (length data_read) (drop s.offset source.content))
        × (s'.offset ≡ s.offset + length data_read)
  unfolding new_read_seek_closer
  read_anywhere ops size n =
      let s = run ops (new_read_seek_closer source size) in
      let (data_read, offset, aligned) =
        read_lem n s (run-IsAligned ops (new_read_seek_closer source size) tt) in
      (data_read, offset)

  -- Seeking to an offset from the start that is within the size, with a reader that stands at the
  -- offset or none, and then reading gives the bytes of the content from there on.
  pub seek-read :
      (s : Seeker source) (target n : ℕ)
      → IsAligned s
      → target ≤ s.size
      → let (result, s') = seek source (pos target) seek_start s in
        let data_read = (read source n s').0.0 in
        (result ≡ some target) × (data_read ≡ take (length data_read) (drop target source.content))
  unfolding seek
  seek-read s target n a h =
      let e : ltb s.size target ≡ false = ground arith in
      let aligned = rw e at (move_to-IsAligned target s a) in
      let s' : Seeker source = record s {
        offset = target;
        current = if target == s.offset then s.current else none;
      } in
      rw e (refl, (read_lem n s' aligned).0)

  read_with_eof :
      (n : ℕ) (o : Option source.Reader) (s : Seeker source)
      → (read_with source n o s).0.1 ≡ eof
      → s.size ≤ (read_with source n o s).1.offset
  unfolding after_read
  read_with_eof n none s h = cc
  read_with_eof n (some r) s h = go (source.read n r).error refl h
    where
      go :
          (e : ReadError)
          → (source.read n r).error ≡ e
          → (read_with source n (some r) s).0.1 ≡ eof
          → s.size ≤ (read_with source n (some r) s).1.offset
      go fine e k = cc (rw e at k)
      go failed e k = cc (rw e at k)
      go eof e k = elim (Bool-cases (leb s.size (s.offset + length (source.read n r).data_read))) [
        | inl b ↦ rw e (ground arith)
        | inr b ↦ cc (rw (e, b) at k)
      ]

  -- A read reports the end of the file only where the offset has come to the size: a reader that
  -- ends before it is replaced without a word.
  pub read_eof :
      (n : ℕ) (s : Seeker source)
      → (read source n s).0.1 ≡ eof
      → s.size ≤ (read source n s).1.offset
  unfolding read
  read_eof n s h = elim (Bool-cases (leb s.size s.offset)) [
    | inl e ↦ rw e (ground arith)
    | inr e ↦ rw e (read_with_eof n (reader_of source s.current s.offset) s (rw e at h))
  ]
