-- ===== src/Bqueue.antt =====
-- The linked queue (bqueue/queue/queue.go) on a heap of nodes. An address is a number, nil is `none`;
-- `fresh` is the address of the next node. A `reply` that is not written is `none`. `count` is a
-- 64-bit integer in two's complement.
pub mod Fifo
pub mod Tests
use go_phat.Prelude.{
  ℕ, ◌+◌, ◌-◌, String, Option, none, some, Bool, true, false, str_eq, ◌==◌, if◌then◌else◌, u64,
  u64_mod,
}

pub record Node : Type 0 where
  pub value : String
  pub next : Option ℕ

pub record Queue : Type 0 where
  pub head : Option ℕ
  pub tail : Option ℕ
  pub count : ℕ

pub record Store : Type 0 where
  pub nodes : ℕ → Option Node
  pub fresh : ℕ
  pub queue : Queue

abbrev pub new_store : Store
new_store = record {
  nodes = λ a. none;
  fresh = 0;
  queue = record { head = none; tail = none; count = 0 };
}

unfoldable pub write : (ℕ → Option Node) → ℕ → Node → ℕ → Option Node
write nodes a n b = if b == a then some n else nodes b

-- q.tail.next = n
with_next : ℕ → Option Node → Option Node
with_next n none = none
with_next n (some node) = some (record node { next = some n })

unfoldable pub link : (ℕ → Option Node) → ℕ → ℕ → ℕ → Option Node
unfolding with_next
link nodes t n b = if b == t then with_next n (nodes b) else nodes b

unfoldable pub count_reply : Store → ℕ
count_reply s = s.queue.count

push_node : String → Store → ℕ → Option Node
unfolding write
push_node value s = write s.nodes s.fresh (record { value = value; next = none })

push_to : String → Store → Option ℕ → Store
unfolding push_node link
push_to value s none = record {
  nodes = push_node value s;
  fresh = s.fresh + 1;
  queue = record { head = some s.fresh; tail = some s.fresh; count = u64 (s.queue.count + 1) };
}
push_to value s (some t) = record {
  nodes = link (push_node value s) t s.fresh;
  fresh = s.fresh + 1;
  queue = record { head = s.queue.head; tail = some s.fresh; count = u64 (s.queue.count + 1) };
}

unfoldable pub push_value : String → Store → Store
unfolding push_to
push_value value s = push_to value s s.queue.tail

-- The node that a pointer points to; a pointer of the queue always points to one.
unfoldable pub deref : (ℕ → Option Node) → Option ℕ → Option Node
deref nodes none = none
deref nodes (some a) = nodes a

pop_node : Store → Option Node → Option String × Store
pop_node s none = (none, s)
pop_node s (some n) = (
  some n.value,
  record s {
    queue = record {
      head = n.next;
      tail = elim n.next [ none ↦ none | some a ↦ s.queue.tail ];
      count = u64 (s.queue.count + (u64_mod - 1));
    };
  },
)

unfoldable pub pop_value : Store → Option String × Store
unfolding pop_node deref
pop_value s = pop_node s (deref s.nodes s.queue.head)

peek_node : Option Node → Option String
peek_node none = none
peek_node (some n) = if str_eq n.value "" then none else some n.value

-- An empty value is not written to the reply.
unfoldable pub peek : Store → Option String
unfolding peek_node deref
peek s = peek_node (deref s.nodes s.queue.head)
