-- ===== src/Examples/Data.antt =====
-- A table with a pending, a processing and a completed message, and a queue of numbers.
use open_cidn.Base.{
  ℕ, ◌≡◌, refl, ◌≢◌, inl, inr, true, false, ℤ, pos, int_eq, Bytes, bytes, str_eq, some, none, [],
  ◌∷◌, arith,
}
use open_cidn.Messages.Model.{zero_attr, status_pending, status_processing, status_completed}
use open_cidn.Messages.Table.{Row, Table}
use open_cidn.Messages.Watch.{Watch}
use open_cidn.Messages.World.{World, sql, passes, answered, lost}
use open_cidn.Messages.Table.{insert}
use open_cidn.Messages.Request.{parse_int, MessageRequest}
use open_cidn.Messages.Edges.{row_at}
use open_cidn.Messages.WellFormed.{IsWellFormed}

abbrev pub waiting_row : Row
waiting_row = record {
  id = pos 1;
  content = bytes "a";
  lease = [];
  priority = pos 1;
  status = status_pending;
  attr = zero_attr;
  last_heartbeat = 0;
  delete_at = none;
}

abbrev pub held_row : Row
held_row = record {
  id = pos 2;
  content = bytes "b";
  lease = bytes "w";
  priority = pos 1;
  status = status_processing;
  attr = zero_attr;
  last_heartbeat = 90;
  delete_at = none;
}

abbrev pub done_row : Row
done_row = record {
  id = pos 3;
  content = bytes "c";
  lease = [];
  priority = pos 1;
  status = status_completed;
  attr = zero_attr;
  last_heartbeat = 50;
  delete_at = none;
}

abbrev pub jobs : Table
jobs = record {
  rows = waiting_row ∷ held_row ∷ done_row ∷ [];
  next_id = 4;
  now = 100;
  collates = str_eq;
  found_rows = false;
}

abbrev pub no_watch : Watch
no_watch = record { by_message = []; list = []; next = 0; reads = [] }

pub not_empty : (c : ℕ) (cs : Bytes) → (c ∷ cs) ≢ []
not_empty c cs e = cc

pub jobs-IsWellFormed : IsWellFormed jobs
unfolding int_eq
jobs-IsWellFormed = record {
  sound = (
    record { assigned = omega arith; beaten = omega arith; status = inl (refl, refl) },
    (
      record {
        assigned = omega arith;
        beaten = omega arith;
        status = inr (inl (refl, not_empty _ _));
      },
      (
        record {
          assigned = omega arith;
          beaten = omega arith;
          status = inr (inr (inl (refl, refl)));
        },
        tt,
      ),
    ),
  );
  distinct = ((refl, (refl, tt)), ((refl, tt), (tt, tt)));
}

pub id_1 : parse_int (bytes "1") ≡ some (pos 1)
unfolding parse_int
id_1 = refl

pub id_2 : parse_int (bytes "2") ≡ some (pos 2)
unfolding parse_int
id_2 = refl

pub row_1 : row_at (pos 1) jobs.rows ≡ some waiting_row
unfolding row_at int_eq
row_1 = refl

pub row_2 : row_at (pos 2) jobs.rows ≡ some held_row
unfolding row_at int_eq
row_2 = refl

pub row_3 : row_at (pos 3) jobs.rows ≡ some done_row
unfolding row_at int_eq
row_3 = refl

pub blank : jobs.collates [] [] ≡ true
unfolding str_eq
blank = refl

-- Another server adds a message before the first statement, and the answer to the second is lost.
abbrev pub busy : World
busy = record {
  table = jobs;
  turns =
      record {
        before = sql (insert (bytes "d") [] (pos 0) status_pending zero_attr) ∷ passes 5 ∷ [];
        outcome = answered;
      }
      ∷ record { before = []; outcome = lost }
      ∷ [];
  watch = no_watch;
}

abbrev pub asks : Bytes → ℤ → MessageRequest
asks content priority = record { content = content; priority = priority; attr = zero_attr }

-- The table at the second of the last heartbeat.
abbrev pub same_second : Table
same_second = record jobs { now = 90 }

pub same_second-IsWellFormed : IsWellFormed same_second
unfolding int_eq
same_second-IsWellFormed = record {
  sound = (
    record { assigned = omega arith; beaten = omega arith; status = inl (refl, refl) },
    (
      record {
        assigned = omega arith;
        beaten = omega arith;
        status = inr (inl (refl, not_empty _ _));
      },
      (
        record {
          assigned = omega arith;
          beaten = omega arith;
          status = inr (inr (inl (refl, refl)));
        },
        tt,
      ),
    ),
  );
  distinct = jobs-IsWellFormed.distinct;
}
