-- ===== src/Logger/Writer.antt =====
-- supervisor-lib/src/logger/log_writer.cpp: the size-rotated log file.
-- The file system is the part that the writer touches: the log file and its numbered backups.
-- What each call of it answers is the argument `Io`. The mutex has no counterpart: a call is one
-- step. `size_t` sums wrap at 2 ^ 64.
pub mod Lines
pub mod Rotation
pub mod Bounds
pub mod WholeLines
use supervisorcpp.Prelude.{
  ℕ, zero, suc, ◌+◌, ◌-◌, ◌%◌, ◌^◌, Bool, true, false, not, ◌&&◌, List, [], ◌∷◌, ◌++◌, Option, none,
  some, ℤ, pos, pos_part, minus_one, ltb, leb, ◌==◌, if◌then◌else◌, length, take, drop, Bytes,
}

-- `logfile` and `logfile.i`; `none` where there is no such file.
pub record Disk : Type 0 where
  pub logfile : Option Bytes
  pub backup : ℕ → Option Bytes

-- The answers of the file system during one call.
pub record Io : Type 0 where
  -- `file_.open` succeeds.
  pub open_ok : Bool
  -- `file_size` does not throw.
  pub size_ok : Bool
  -- `file_.write` leaves the stream good.
  pub write_ok : Bool
  -- `remove` of the oldest backup does not throw.
  pub remove_ok : Bool
  -- `rename` of `logfile.i` does not throw; 0 stands for the log file itself.
  pub rename_ok : ℕ → Bool

pub record LogWriter : Type 0 where
  pub max_bytes : ℕ
  pub backups : ℤ
  pub is_open : Bool
  pub current_size : ℕ
  pub pending_buffer : Bytes
  pub disk : Disk

abbrev pub size_mod : ℕ
size_mod = 2 ^ 64

-- `a + b` on `size_t`.
abbrev pub add_size : ℕ → ℕ → ℕ
add_size a b = (a + b) % size_mod

-- `data.rfind(c)`.
unfoldable pub rfind : ℕ → Bytes → Option ℕ
rfind c [] = none
rfind c (x ∷ xs) = elim (rfind c xs) [
  | some i ↦ some (suc i)
  | none ↦ if x == c then some 0 else none
]

-- `constexpr size_t MAX_PENDING_BUFFER = 64 * 1024`.
abbrev pub max_pending_buffer : ℕ
max_pending_buffer = 65536

abbrev pub or_empty : Option Bytes → Bytes
or_empty none = []
or_empty (some b) = b

-- Opening in append mode creates the file where it is missing.
unfoldable pub open_nl : Io → LogWriter → LogWriter × Bool
open_nl io w =
    if io.open_ok
    then (
      record w {
        is_open = true;
        disk = record w.disk { logfile = some (or_empty w.disk.logfile) };
        current_size = if io.size_ok then length (or_empty w.disk.logfile) else 0;
      },
      true,
    )
    else (record w { is_open = false }, false)

abbrev pub update : (ℕ → Option Bytes) → ℕ → Option Bytes → ℕ → Option Bytes
update f i v j = if j == i then v else f j

-- One round of the loop over the backups; `false` where `rename` throws.
unfoldable pub rename_backup : (ℕ → Bool) → ℕ → Disk → Disk × Bool
rename_backup ok i d = elim (d.backup i) [
  | none ↦ (d, true)
  | some b ↦
      if ok i
      then (record d { backup = update (update d.backup (suc i) (some b)) i none }, true)
      else (d, false)
]

-- `for (int i = backups_ - 1; i >= 1; --i)`; an exception leaves the loop.
unfoldable pub rename_backups : (ℕ → Bool) → ℕ → Disk → Disk × Bool
unfolding rename_backup
rename_backups ok zero d = (d, true)
rename_backups ok (suc i) d =
    let (d', good) = rename_backup ok (suc i) d in
    elim good [ true ↦ rename_backups ok i d' | false ↦ (d', false) ]

unfoldable pub remove_oldest : Io → ℕ → Disk → Disk × Bool
remove_oldest io zero d = (d, true)
remove_oldest io (suc n) d = elim (d.backup (suc n)) [
  | none ↦ (d, true)
  | some _ ↦
      if io.remove_ok
      then (record d { backup = update d.backup (suc n) none }, true)
      else (d, false)
]

unfoldable pub rename_logfile : Io → Disk → Disk
rename_logfile io d = elim d.logfile [
  | none ↦ d
  | some b ↦
      if io.rename_ok 0 then record { logfile = none; backup = update d.backup 1 (some b) } else d
]

-- The `try` block of `rotateNL_`.
unfoldable pub rotate_files : Io → ℕ → Disk → Disk
unfolding remove_oldest rename_backups rename_logfile
rotate_files io n d =
    let (d₁, removed) = remove_oldest io n d in
    elim removed [
      | false ↦ d₁
      | true ↦
          let (d₂, renamed) = rename_backups io.rename_ok (n - 1) d₁ in
          elim renamed [ false ↦ d₂ | true ↦ rename_logfile io d₂ ]
    ]

unfoldable pub rotate_nl : Io → LogWriter → LogWriter
unfolding open_nl rotate_files
rotate_nl io w =
    (open_nl io (record w {
      is_open = false;
      disk = rotate_files io (pos_part w.backups) w.disk;
      current_size = 0;
    })).0

abbrev pub append_disk : Disk → Bytes → Disk
append_disk d str = record d { logfile = some (or_empty d.logfile ++ str) }

-- The rotation at the head of `writeNL_`.
unfoldable pub make_room : Io → LogWriter → Bytes → LogWriter
make_room io w str =
    if ltb 0 w.max_bytes && ltb w.max_bytes (add_size w.current_size (length str))
    then rotate_nl io w
    else w

unfoldable pub append_nl : Io → LogWriter → Bytes → LogWriter × ℤ
append_nl io w str =
    if w.is_open && io.write_ok
    then (
      record w {
        disk = append_disk w.disk str;
        current_size = add_size w.current_size (length str);
      },
      pos (length str),
    )
    else (w, minus_one)

unfoldable pub write_nl : Io → LogWriter → Bytes → LogWriter × ℤ
write_nl io w str = append_nl io (make_room io w str) str

-- How much of the pending buffer goes out when `data` arrives behind `pending`.
unfoldable pub flush_end : Bytes → Bytes → ℕ
flush_end pending chunk = elim (rfind b'\n' chunk) [
  | some i ↦ length pending + i + 1
  | none ↦
      if leb max_pending_buffer (length (pending ++ chunk)) then length (pending ++ chunk) else 0
]

-- `write` behind its checks: the file is open and the data is not empty.
unfoldable pub write_open : Io → LogWriter → Bytes → LogWriter × ℤ
write_open io w chunk =
    let whole = w.pending_buffer ++ chunk in
    let cut = flush_end w.pending_buffer chunk in
    if cut == 0
    then (record w { pending_buffer = whole }, pos 0)
    else (let (w', res) = write_nl io (record w { pending_buffer = whole }) (take cut whole) in
        (record w' { pending_buffer = drop cut whole }, res))

abbrev pub is_empty : Bytes → Bool
is_empty [] = true
is_empty (_ ∷ _) = false

unfoldable pub write : Io → LogWriter → Bytes → LogWriter × ℤ
write io w chunk =
    if is_empty chunk
    then (w, pos 0)
    else if w.is_open
    then write_open io w chunk
    else (let (w', opened) = open_nl io w in
        if opened then write_open io w' chunk else (w', minus_one))

-- `data.empty() || data.back() != '\n'`.
unfoldable pub needs_newline : Bytes → Bool
needs_newline [] = true
needs_newline (x ∷ []) = not (x == b'\n')
needs_newline (x ∷ y ∷ r) = needs_newline (y ∷ r)

unfoldable pub write_line : Io → LogWriter → Bytes → LogWriter × ℤ
write_line io w line = write io w (if needs_newline line then line ++ b'\n' ∷ [] else line)

-- `file_.write` of the pending buffer with no check of the result, in `flush` and `closeNL_`.
unfoldable pub write_pending : Io → LogWriter → LogWriter
write_pending io w = record w {
  disk = if io.write_ok then append_disk w.disk w.pending_buffer else w.disk;
  current_size = add_size w.current_size (length w.pending_buffer);
  pending_buffer = [];
}

unfoldable pub flush : Io → LogWriter → LogWriter
flush io w = if not (is_empty w.pending_buffer) && w.is_open then write_pending io w else w

unfoldable pub close_nl : Io → LogWriter → LogWriter
close_nl io w =
    if not w.is_open
    then w
    else if not (is_empty w.pending_buffer)
    then record (write_pending io w) { is_open = false }
    else record w { is_open = false }

-- The constructor; the directory is made by `ensure_directory_`, whose failure shows in `open_ok`.
unfoldable pub create : Io → ℕ → ℤ → Disk → LogWriter
create io max_bytes backups d =
    (open_nl io (record {
      max_bytes = max_bytes;
      backups = backups;
      is_open = false;
      current_size = 0;
      pending_buffer = [];
      disk = d;
    })).0
