-- ===== src/Phatqueue.antt =====
-- The message queue (phatqueue/queue.go). A value is an `interface{}` and opaque to the queue. Ids
-- are 64-bit integers in two's complement. The gob codec is in Phatqueue/Server.
pub mod Server
pub mod Stack
pub mod CopyOnWrite
pub mod Turns
pub mod Numbers
pub mod Reachable
pub mod Tests
use Prim.Native.Char.{Char, char}
use go_phat.Prelude.{
  ℕ, zero, suc, ◌+◌, ◌-◌, ◌/◌, ◌%◌, ◌^◌, String, Option, none, some, List, [], ◌∷◌, ◌++◌, ltb, ◌==◌,
  if◌then◌else◌, u64, u64_mod, length, string_eq,
}
use go_phat.Prelude.Assoc.{erase}

digit : ℕ → Char
digit n =
    if n == 0
    then char 48 tt
    else if n == 1
    then char 49 tt
    else if n == 2
    then char 50 tt
    else if n == 3
    then char 51 tt
    else if n == 4
    then char 52 tt
    else if n == 5
    then char 53 tt
    else if n == 6
    then char 54 tt
    else if n == 7
    then char 55 tt
    else if n == 8
    then char 56 tt
    else char 57 tt

-- The decimal digits of a number, in front of the text; a 64-bit number has at most 20.
decimal : (digits n : ℕ) → String → String
unfolding digit
decimal zero n s = s
decimal (suc digits) n s =
    let s' = String.◌∷◌ (digit (n % 10)) s in if n / 10 == 0 then s' else decimal digits (n / 10) s'

-- `strconv.Itoa`
unfoldable pub itoa : ℕ → String
unfolding decimal
itoa n =
    if ltb n (2 ^ 63)
    then decimal 20 n ""
    else String.◌∷◌ (char 45 tt) (decimal 20 (u64_mod - n) "")

pub record QMessage (V : Type 0) : Type 0 where
  pub message_id : String
  pub value : V

pub record MessageQueue (V : Type 0) : Type 0 where
  pub queue : List (QMessage V)
  pub in_progress : List (String × QMessage V)
  pub id : ℕ

-- Go's `copy(dst, src)`: as many elements as both slices have.
unfoldable pub copy_slice {ℓ} : {A : Type ℓ} → List A → List A → List A
copy_slice [] src = []
copy_slice (d ∷ dst) [] = d ∷ dst
copy_slice (d ∷ dst) (s ∷ src) = s ∷ copy_slice dst src

module _ {V : Type 0} where
  -- `new(MessageQueue)` and `Init`
  abbrev pub new_queue : MessageQueue V
  new_queue = record { queue = []; in_progress = []; id = 0 }

  unfoldable pub next_id : MessageQueue V → MessageQueue V
  next_id mq = record mq { id = u64 (mq.id + 1) }

  -- The map is copied entry by entry.
  unfoldable pub copy : MessageQueue V → MessageQueue V
  unfolding copy_slice
  copy mq = record { queue = copy_slice [] mq.queue; in_progress = mq.in_progress; id = mq.id }

  unfoldable pub push : V → MessageQueue V → MessageQueue V
  unfolding next_id
  push v mq =
      let mq' = next_id mq in
      record mq' { queue = mq'.queue ++ record { message_id = itoa mq'.id; value = v } ∷ [] }

  -- The last message of a slice, and those in front of it; `none` on no message.
  unfoldable pub last_and_front : List (QMessage V) → Option (QMessage V × List (QMessage V))
  last_and_front [] = none
  last_and_front (m ∷ ms) = elim (last_and_front ms) [
    | none ↦ some (m, [])
    | some (last, front) ↦ some (last, m ∷ front)
  ]

  -- The message, or nil, and the queue afterwards.
  unfoldable pub pop : MessageQueue V → Option (QMessage V) × MessageQueue V
  unfolding last_and_front
  pop mq = elim (last_and_front mq.queue) [
    | none ↦ (none, mq)
    | some (last, front) ↦ (some last, record mq { queue = front })
  ]

  unfoldable pub done : String → MessageQueue V → MessageQueue V
  done m_id mq = record mq { in_progress = erase m_id mq.in_progress }

  unfoldable pub len : MessageQueue V → ℕ
  len mq = length mq.queue

  unfoldable pub len_in_progress : MessageQueue V → ℕ
  len_in_progress mq = length mq.in_progress
