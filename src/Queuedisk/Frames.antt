-- ===== src/Queuedisk/Frames.antt =====
-- The log file that `BackupLog` writes is parsed by `ParseLogFile` (queuedisk/queue_disk.go).
use go_phat.Prelude.{
  ℕ, zero, suc, ◌%◌, ◌^◌, ◌≤◌, ◌<◌, ◌≡◌, refl, sym, ap, ◌∙◌, some, List, [], ◌∷◌, ◌++◌, true, leb,
  length, length-append, take, arith,
}
use mathlib.Core.Path.{subst}
use mathlib.Core.List.{append_assoc, append-nil}
use go_phat.Vr.Snapshot.{put_uint, get_uint}
use go_phat.Vr.Snapshot.RoundTrip.{get_uint-put_uint}
use go_phat.Queuedisk.{
  LogEntry, DiskQueue, append_frame, Codec, split_at, drop, next_entry, parse_log, parse_log_file,
  frame, backup_log,
}

-- An entry that gob encodes and decodes, to a length that four bytes can hold.
pub record IsWritten (codec : Codec) (e : LogEntry) : Type 0 where
  pub written : List ℕ
  pub encoded : codec.encode_entry e ≡ some written
  pub short : length written < 2 ^ 32
  pub decoded : codec.decode_entry written ≡ e

-- The log file with these entries, one behind the other.
pub data IsLog (codec : Codec) : List ℕ → List LogEntry → Type 0 where
  empty : IsLog codec [] []
  entry :
      (e : LogEntry) (w : IsWritten codec e) (log : List ℕ) (es : List LogEntry)
      → IsLog codec log es
      → IsLog codec (frame w.written ++ log) (e ∷ es)

drop-append : (xs ys : List ℕ) → drop (length xs) (xs ++ ys) ≡ ys
drop-append [] ys = refl
drop-append (x ∷ xs) ys = drop-append xs ys

take-all : (xs ys : List ℕ) → take (length xs) (xs ++ ys) ≡ xs
take-all [] ys = refl
take-all (x ∷ xs) ys = ap (λ r. x ∷ r) (take-all xs ys)

split_at-append : (xs ys : List ℕ) → split_at (length xs) (xs ++ ys) ≡ some (xs, ys)
unfolding split_at
split_at-append xs ys =
    let inside : leb (length xs) (length (xs ++ ys)) ≡ true = ground (arith, length-append xs ys) in
    rw (inside, take-all xs ys, drop-append xs ys) refl

append_assoc-frame :
    (bs log : List ℕ) → frame bs ++ log ≡ put_uint 4 (length bs % 2 ^ 32) ++ (bs ++ log)
unfolding frame
append_assoc-frame bs log = append_assoc (put_uint 4 (length bs % 2 ^ 32)) bs log

length-frame : (bs log : List ℕ) → length log < length (frame bs ++ log)
unfolding frame put_uint
length-frame bs log = omega (arith, length-append bs log)

next_entry-frame :
    (bs log : List ℕ) → length bs < 2 ^ 32 → next_entry (frame bs ++ log) ≡ some (bs, log)
unfolding next_entry
next_entry-frame bs log lt =
    let whole : length bs % 2 ^ 32 ≡ length bs = omega arith in
    let size : get_uint 4 (frame bs ++ log) ≡ some (length bs, bs ++ log) =
      rw (append_assoc-frame bs log, whole) (get_uint-put_uint 4 (length bs) (bs ++ log) lt) in
    rw (size, split_at-append bs log, next_entry) refl

parse_log-next :
    (codec : Codec) (fuel : ℕ) (buffer body behind : List ℕ) (entries : List LogEntry)
    → 0 < length buffer
    → next_entry buffer ≡ some (body, behind)
    → parse_log codec fuel behind ≡ some entries
    → parse_log codec (suc fuel) buffer ≡ some (codec.decode_entry body ∷ entries)
unfolding parse_log
parse_log-next codec fuel [] body behind entries lt split rest = absurd (omega arith)
parse_log-next codec fuel (b ∷ bs) body behind entries lt split rest =
    rw (split, rest, parse_log) refl

parse_log-IsLog :
    (codec : Codec) (log : List ℕ) (es : List LogEntry) (fuel : ℕ)
    → IsLog codec log es
    → length log ≤ fuel
    → parse_log codec fuel log ≡ some es
parse_log-IsLog codec _ _ fuel IsLog.empty le = unfold parse_log in refl
parse_log-IsLog codec _ _ zero (IsLog.entry e w log es h) le =
    absurd (omega (arith, length-frame w.written log))
parse_log-IsLog codec _ _ (suc fuel) (IsLog.entry e w log es h) le =
    let longer = length-frame w.written log in
    parse_log-next codec fuel (frame w.written ++ log) w.written log es (omega arith)
      (next_entry-frame w.written log w.short) (parse_log-IsLog codec log es fuel h (omega arith))
    ∙ ap (λ d. some (d ∷ es)) w.decoded

pub parse_log_file-IsLog :
    (codec : Codec) (log : List ℕ) (es : List LogEntry)
    → IsLog codec log es
    → parse_log_file codec log ≡ some es
unfolding parse_log_file
parse_log_file-IsLog codec log es h = parse_log-IsLog codec log es (length log) h (omega arith)

IsLog-snoc :
    (codec : Codec) (log : List ℕ) (es : List LogEntry) (e : LogEntry) (w : IsWritten codec e)
    → IsLog codec log es
    → IsLog codec (log ++ frame w.written) (es ++ e ∷ [])
IsLog-snoc codec _ _ e w IsLog.empty =
    subst (λ l. IsLog codec l (e ∷ [])) (append-nil (frame w.written))
      (IsLog.entry e w [] [] IsLog.empty)
IsLog-snoc codec _ _ e w (IsLog.entry d v log es h) =
    subst (λ l. IsLog codec l (d ∷ es ++ e ∷ []))
      (sym (append_assoc (frame v.written) log (frame w.written)))
      (IsLog.entry d v (log ++ frame w.written) (es ++ e ∷ []) (IsLog-snoc codec log es e w h))

-- `BackupLog` keeps the log file a log.
pub backup_log-IsLog :
    (codec : Codec) (e : LogEntry) (w : IsWritten codec e) (q : DiskQueue) (es : List LogEntry)
    → IsLog codec q.log_file es
    → IsLog codec (backup_log codec e q).log_file (es ++ e ∷ [])
unfolding backup_log append_frame
backup_log-IsLog codec e w q es h =
    rw (w.encoded, append_frame) (IsLog-snoc codec q.log_file es e w h)

abbrev pub backup_all : Codec → List LogEntry → DiskQueue → DiskQueue
backup_all codec [] q = q
backup_all codec (e ∷ es) q = backup_all codec es (backup_log codec e q)

abbrev pub AreWritten : Codec → List LogEntry → Type 0
AreWritten codec [] = Unit {0}
AreWritten codec (e ∷ es) = IsWritten codec e × AreWritten codec es

backup_all-IsLog :
    (codec : Codec) (ds es : List LogEntry) (q : DiskQueue)
    → AreWritten codec es
    → IsLog codec q.log_file ds
    → IsLog codec (backup_all codec es q).log_file (ds ++ es)
backup_all-IsLog codec ds [] q w h = subst (λ l. IsLog codec q.log_file l) (sym (append-nil ds)) h
backup_all-IsLog codec ds (e ∷ es) q (w, ws) h =
    subst (λ l. IsLog codec (backup_all codec es (backup_log codec e q)).log_file l)
      (append_assoc ds (e ∷ []) es)
      (backup_all-IsLog codec (ds ++ e ∷ []) es (backup_log codec e q) ws
        (backup_log-IsLog codec e w q ds h))

-- What `BackupLog` writes to an empty log file, entry by entry, `ParseLogFile` reads: these entries,
-- in their order, if gob encodes each of them to fewer than 2^32 bytes and decodes these to it.
pub parse_log_file-backup_all :
    (codec : Codec) (es : List LogEntry) (q : DiskQueue)
    → AreWritten codec es
    → q.log_file ≡ []
    → parse_log_file codec (backup_all codec es q).log_file ≡ some es
parse_log_file-backup_all codec es q w e =
    let none_yet : IsLog codec q.log_file [] = rw e IsLog.empty in
    parse_log_file-IsLog codec (backup_all codec es q).log_file es
      (backup_all-IsLog codec [] es q w none_yet)
