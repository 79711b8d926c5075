-- ===== src/Messages/Table.antt =====
-- The `messages` table and the statements that pkg/queue/dao/messgae.go sends to it. Times are
-- seconds, the precision of a TIMESTAMP. The columns `create_at` and `update_at`, which nothing
-- reads, are left out. Two choices of the server are parameters, kept beside the rows: how its
-- collation compares texts, and whether it counts the rows that an UPDATE finds or those that it
-- changes (the driver's `clientFoundRows`).
use open_cidn.Base.{
  ℕ, suc, ◌+◌, Bool, true, false, ◌&&◌, ◌||◌, not, ◌==◌, ltb, if◌then◌else◌, ℤ, pos, int_eq, int_lt,
  Bytes, str_eq, Option, none, some, List, [], ◌∷◌, ◌++◌, filter, count, ◌≡◌, refl, arith,
  str_eq_refl, int_eq_refl,
}
use open_cidn.Messages.Model.{MessageAttr, attr_eq, attr_eq_refl, Message}

pub record Row : Type 0 where
  pub id : ℤ
  pub content : Bytes
  pub lease : Bytes
  pub priority : ℤ
  pub status : ℕ
  pub attr : MessageAttr
  pub last_heartbeat : ℕ
  pub delete_at : Option ℕ

pub record Table : Type 0 where
  pub rows : List Row
  pub next_id : ℕ
  pub now : ℕ
  pub collates : Bytes → Bytes → Bool
  pub found_rows : Bool

-- `delete_at IS NULL`.
abbrev pub alive : Row → Bool
alive r = elim r.delete_at [ none ↦ true | some t ↦ false ]

-- The UPDATE statements, with their arguments in the order of the placeholders.
pub data Update : Type 0 where
  update_message : Bytes → Bytes → ℤ → ℕ → MessageAttr → ℤ → Update
  update_priority : ℤ → ℤ → ℤ → Update
  delete_message : ℤ → Update
  consume : ℕ → Bytes → ℤ → ℕ → Bytes → Update
  heartbeat : MessageAttr → ℤ → Bytes → ℕ → Update
  completed : ℕ → Bytes → ℤ → Bytes → ℕ → Update
  set_failed : ℕ → Bytes → MessageAttr → ℤ → Bytes → ℕ → Update
  cancel : Bytes → ℕ → ℤ → Bytes → ℕ → Update
  reset_to_pending : ℕ → Bytes → ℤ → ℕ → Update

-- The WHERE clause of each.
unfoldable pub guard : (Bytes → Bytes → Bool) → Update → Row → Bool
guard same (update_message content lease priority status attr id) r = int_eq r.id id && alive r
guard same (update_priority priority id bound) r =
    int_eq r.id id && (int_lt r.priority bound && alive r)
guard same (delete_message id) r = int_eq r.id id && alive r
guard same (consume status lease id old_status old_lease) r =
    int_eq r.id id && (r.status == old_status && (same r.lease old_lease && alive r))
guard same (heartbeat attr id lease status) r =
    int_eq r.id id && (same r.lease lease && (r.status == status && alive r))
guard same (completed status lease id old_lease old_status) r =
    int_eq r.id id && (same r.lease old_lease && (r.status == old_status && alive r))
guard same (set_failed status lease attr id old_lease old_status) r =
    int_eq r.id id && (same r.lease old_lease && (r.status == old_status && alive r))
guard same (cancel lease status id old_lease old_status) r =
    int_eq r.id id && (same r.lease old_lease && (r.status == old_status && alive r))
guard same (reset_to_pending status lease id old_status) r =
    int_eq r.id id && (r.status == old_status && alive r)

-- The SET clause of each.
unfoldable pub assign : ℕ → Update → Row → Row
assign now (update_message content lease priority status attr id) r = record r {
  content = content;
  lease = lease;
  priority = priority;
  status = status;
  attr = attr;
}
assign now (update_priority priority id bound) r = record r { priority = priority }
assign now (delete_message id) r = record r { delete_at = some now }
assign now (consume status lease id old_status old_lease) r = record r {
  status = status;
  lease = lease;
}
assign now (heartbeat attr id lease status) r = record r { last_heartbeat = now; attr = attr }
assign now (completed status lease id old_lease old_status) r = record r {
  status = status;
  lease = lease;
}
assign now (set_failed status lease attr id old_lease old_status) r = record r {
  status = status;
  lease = lease;
  attr = attr;
}
assign now (cancel lease status id old_lease old_status) r = record r {
  lease = lease;
  status = status;
}
assign now (reset_to_pending status lease id old_status) r = record r {
  status = status;
  lease = lease;
}

abbrev option_eq : Option ℕ → Option ℕ → Bool
option_eq none none = true
option_eq none (some b) = false
option_eq (some a) none = false
option_eq (some a) (some b) = a == b

-- Whether an assignment changes no column.
unfoldable pub row_eq : Row → Row → Bool
row_eq r s =
    r.status == s.status
    && (r.last_heartbeat == s.last_heartbeat
        && (str_eq r.lease s.lease
            && (option_eq r.delete_at s.delete_at
                && (str_eq r.content s.content
                    && (int_eq r.priority s.priority && attr_eq r.attr s.attr)))))

==_refl : (n : ℕ) → (n == n) ≡ true
==_refl n = ground arith

option_eq_refl : (o : Option ℕ) → option_eq o o ≡ true
option_eq_refl none = refl
option_eq_refl (some n) = ==_refl n

pub row_eq_refl : (r : Row) → row_eq r r ≡ true
unfolding row_eq
row_eq_refl r = rw (
  ==_refl r.status,
  ==_refl r.last_heartbeat,
  str_eq_refl r.lease,
  option_eq_refl r.delete_at,
  str_eq_refl r.content,
  int_eq_refl r.priority,
  attr_eq_refl r.attr,
)

unfoldable pub update_rows : (Row → Bool) → (Row → Row) → List Row → List Row
update_rows p f [] = []
update_rows p f (r ∷ rs) = (if p r then f r else r) ∷ update_rows p f rs

-- RowsAffected.
unfoldable pub affected : Bool → (Row → Bool) → (Row → Row) → List Row → ℕ
affected found p f rs = count (λ r. p r && (found || not (row_eq r (f r)))) rs

pub data Statement : Type 0 where
  insert : Bytes → Bytes → ℤ → ℕ → MessageAttr → Statement
  update : Update → Statement
  clean_up : Statement

-- `delete_at IS NOT NULL AND delete_at < NOW() - INTERVAL 8 HOUR`.
abbrev pub purged : ℕ → Row → Bool
purged now r = elim r.delete_at [ none ↦ false | some t ↦ ltb (t + 28800) now ]

abbrev pub new_row : Table → Bytes → Bytes → ℤ → ℕ → MessageAttr → Row
new_row t content lease priority status attr = record {
  id = pos t.next_id;
  content = content;
  lease = lease;
  priority = priority;
  status = status;
  attr = attr;
  last_heartbeat = t.now;
  delete_at = none;
}

-- The table after a statement.
unfoldable pub run : Statement → Table → Table
run (insert content lease priority status attr) t = record t {
  rows = t.rows ++ new_row t content lease priority status attr ∷ [];
  next_id = suc t.next_id;
}
run (update u) t = record t { rows = update_rows (guard t.collates u) (assign t.now u) t.rows }
run clean_up t = record t { rows = filter (λ r. not (purged t.now r)) t.rows }

-- What the statement reports: the new id of an INSERT, the affected rows of the others.
unfoldable pub report : Statement → Table → ℕ
report (insert content lease priority status attr) t = t.next_id
report (update u) t = affected t.found_rows (guard t.collates u) (assign t.now u) t.rows
report clean_up t = count (purged t.now) t.rows

-- Columns of a row, as the queries that select the lease return them.
abbrev pub message_of : Row → Message
message_of r = record {
  message_id = r.id;
  content = r.content;
  lease = r.lease;
  priority = r.priority;
  status = r.status;
  attr = r.attr;
  last_heartbeat = r.last_heartbeat;
}

-- The same where the lease is not selected.
abbrev pub unleased : Row → Message
unleased r = record {
  message_id = r.id;
  content = r.content;
  lease = [];
  priority = r.priority;
  status = r.status;
  attr = r.attr;
  last_heartbeat = r.last_heartbeat;
}

unfoldable pub by_id : ℤ → Row → Bool
by_id id r = int_eq r.id id && alive r

unfoldable pub by_content : (Bytes → Bytes → Bool) → Bytes → Row → Bool
by_content same content r = same r.content content && alive r

-- `status = StatusProcessing AND last_heartbeat < NOW() - INTERVAL 1 MINUTE`.
unfoldable pub is_stale : ℕ → ℕ → Row → Bool
is_stale status now r = r.status == status && (ltb (r.last_heartbeat + 60) now && alive r)

-- `(status = ? OR status = ?) AND last_heartbeat < NOW() - INTERVAL 1 HOUR`.
unfoldable pub is_finished : ℕ → ℕ → ℕ → Row → Bool
is_finished s1 s2 now r =
    (r.status == s1 || r.status == s2) && (ltb (r.last_heartbeat + 3600) now && alive r)
