-- ===== src/Seeking/Seeker.antt =====
-- internal/seeker/seeker.go, for a size that is not negative. Closing a reader is dropping it; what
-- `Close` returns is not modelled.
use open_cidn.Base.{
  ℕ, suc, ◌+◌, ◌-◌, ◌==◌, ltb, leb, if◌then◌else◌, ℤ, pos, negsuc, Bytes, Option, none, some, [],
  length,
}
use open_cidn.Seeking.Source.{ReadError, fine, eof, failed, Chunk, Source}

pub data Whence : Type 0 where
  seek_start seek_current seek_end other_whence : Whence

-- `base + offset`.
unfoldable pub plus : ℕ → ℤ → ℤ
plus base (pos n) = pos (base + n)
plus base (negsuc n) = if ltb n base then pos (base - suc n) else negsuc (n - base)

module _ (source : Source) where
  pub record Seeker : Type 0 where
    pub size : ℕ
    pub offset : ℕ
    pub current : Option source.Reader

  unfoldable pub new_read_seek_closer : ℕ → Seeker
  new_read_seek_closer size = record { size = size; offset = 0; current = none }

  -- What `Read` makes of a chunk: an end of the reader is an end of the file only at the size.
  unfoldable pub after_read : Chunk source.Reader → Seeker → (Bytes × ReadError) × Seeker
  after_read c s =
      let offset = s.offset + length c.data_read in
      elim c.error [
        | fine ↦ ((c.data_read, fine), record s { offset = offset; current = some c.next })
        | eof ↦ (
          (c.data_read, if leb s.size offset then eof else fine),
          record s { offset = offset; current = none },
        )
        | failed ↦ ((c.data_read, failed), record s { offset = offset; current = some c.next })
      ]

  abbrev pub read_with : ℕ → Option source.Reader → Seeker → (Bytes × ReadError) × Seeker
  read_with n none s = (([], failed), s)
  read_with n (some r) s = after_read (source.read n r) s

  -- The reader in use, or one that is opened.
  abbrev pub reader_of : Option source.Reader → ℕ → Option source.Reader
  reader_of none offset = source.open_at offset
  reader_of (some r) offset = some r

  -- `Read` into a buffer of `n` bytes.
  unfoldable pub read : ℕ → Seeker → (Bytes × ReadError) × Seeker
  read n s =
      if leb s.size s.offset then (([], eof), s) else read_with n (reader_of s.current s.offset) s

  abbrev pub move_to : ℕ → Seeker → Option ℕ × Seeker
  move_to n s =
      let offset = if ltb s.size n then s.size else n in
      (
        some offset,
        record s { offset = offset; current = if offset == s.offset then s.current else none },
      )

  abbrev pub seek_to : ℤ → Seeker → Option ℕ × Seeker
  seek_to (pos n) s = move_to n s
  seek_to (negsuc n) s = (none, s)

  -- `Seek`; an error is `none`.
  unfoldable pub seek : ℤ → Whence → Seeker → Option ℕ × Seeker
  unfolding plus
  seek offset seek_start s = seek_to offset s
  seek offset seek_current s = seek_to (plus s.offset offset) s
  seek offset seek_end s = seek_to (plus s.size offset) s
  seek offset other_whence s = (none, s)

  unfoldable pub close : Seeker → Seeker
  close s = record s { current = none }
