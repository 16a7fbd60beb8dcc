-- ===== src/Bqueue/Fifo.antt =====
-- The linked queue is first in, first out (bqueue/queue/queue.go).
use go_phat.Prelude.{
  ℕ, suc, ◌+◌, ◌<◌, ◌≡◌, refl, sym, ap, ◌∙◌, String, Option, none, some, List, [], ◌∷◌, ◌++◌, true,
  false, ◌==◌, u64_mod, length, length-append, Bool-cases, inl, inr, arith,
}
use go_phat.Bqueue.{
  Node, Store, write, link, push_value, push_to, push_node, pop_value, pop_node, count_reply, deref,
  with_next,
}

-- From `a` the links lead through these values to the node at `t`, the last one.
abbrev pub IsChain : (ℕ → Option Node) → ℕ → ℕ → String → List String → ℕ → Type 0
IsChain nodes fresh a x [] t =
    (a ≡ t) × (a < fresh) × (nodes a ≡ some (record { value = x; next = none }))
IsChain nodes fresh a x (y ∷ ys) t =
    (b : ℕ) × (a < fresh)
    × (nodes a ≡ some (record { value = x; next = some b }))
    × IsChain nodes fresh b y ys t

-- The queue holds these values, the oldest one first.
abbrev pub IsQueue : Store → List String → Type 0
IsQueue s [] = (s.queue.head ≡ none) × (s.queue.tail ≡ none) × (s.queue.count ≡ 0)
IsQueue s (x ∷ xs) =
    (a : ℕ) × (t : ℕ) × (s.queue.head ≡ some a)
    × (s.queue.tail ≡ some t)
    × (s.queue.count ≡ suc (length xs))
    × IsChain s.nodes s.fresh a x xs t

abbrev next_of : Option Node → Option ℕ
next_of none = none
next_of (some n) = n.next

chain-last :
    (nodes : ℕ → Option Node) (fresh a t : ℕ) (x : String) (xs : List String)
    → IsChain nodes fresh a x xs t
    → (v : String) × (t < fresh) × (nodes t ≡ some (record { value = v; next = none }))
chain-last nodes fresh a t x [] (at, lt, here) = (x, rw at at lt, rw at at here)
chain-last nodes fresh a t x (y ∷ ys) (b, lt, here, rest) = chain-last nodes fresh b t y ys rest

push_nodes : (ℕ → Option Node) → ℕ → String → ℕ → ℕ → Option Node
push_nodes nodes fresh d t = link (write nodes fresh (record { value = d; next = none })) t fresh

not_last :
    (nodes : ℕ → Option Node) (a t b : ℕ) (x v : String)
    → nodes a ≡ some (record { value = x; next = some b })
    → nodes t ≡ some (record { value = v; next = none })
    → (a == t) ≡ false
not_last nodes a t b x v linked last = elim (Bool-cases (a == t)) [
  | inr other ↦ other
  | inl e ↦
      let same : a ≡ t = ground arith in
      let here : nodes t ≡ some (record { value = x; next = some b }) = rw same at linked in
      let no : some b ≡ none = ap next_of (sym here ∙ last) in absurd (ground arith)
]

-- A link is not the last node, so that a push leaves it.
push-IsChain :
    (nodes : ℕ → Option Node) (fresh a t : ℕ) (x d : String) (xs : List String)
    → IsChain nodes fresh a x xs t
    → IsChain (push_nodes nodes fresh d t) (fresh + 1) a x (xs ++ d ∷ []) fresh
unfolding push_nodes link write with_next
push-IsChain nodes fresh a t x d [] (at, lt, here) =
    let is_t : (a == t) ≡ true = ground arith in
    let old : (a == fresh) ≡ false = ground arith in
    let self : (fresh == fresh) ≡ true = ground arith in
    let not_t : (fresh == t) ≡ false = ground arith in
    (fresh, omega arith, rw (is_t, old, here) refl, (refl, omega arith, rw (not_t, self) refl))
push-IsChain nodes fresh a t x d (y ∷ ys) (b, lt, here, rest) =
    let (v, t_lt, last) = chain-last nodes fresh b t y ys rest in
    let other : (a == t) ≡ false = not_last nodes a t b x v here last in
    let old : (a == fresh) ≡ false = ground arith in
    (b, omega arith, rw (other, old) here, push-IsChain nodes fresh b t y d ys rest)

-- `Push` puts the value behind the others, if they are fewer than 2^64 - 1.
pub push_value-IsQueue :
    (s : Store) (xs : List String) (d : String)
    → suc (length xs) < u64_mod
    → IsQueue s xs
    → IsQueue (push_value d s) (xs ++ d ∷ [])
unfolding push_value push_to push_node push_nodes
push_value-IsQueue s [] d lt (head, tail, count) =
    let self : (s.fresh == s.fresh) ≡ true = ground arith in
    let new : push_node d s s.fresh ≡ some (record { value = d; next = none }) =
      unfold write in rw self refl in
    rw (tail, push_value) (s.fresh, s.fresh, refl, refl, omega arith, (refl, omega arith, new))
push_value-IsQueue s (x ∷ xs) d lt (a, t, head, tail, count, chain) =
    let longer : length (xs ++ d ∷ []) ≡ suc (length xs) =
      omega (arith, length-append xs (d ∷ [])) in
    rw (tail, push_value)
      (a, s.fresh, head, refl, omega arith, push-IsChain s.nodes s.fresh a t x d xs chain)

popped :
    (s : Store) (a : ℕ) (n : Node)
    → s.queue.head ≡ some a
    → s.nodes a ≡ some n
    → pop_value s ≡ pop_node s (some n)
unfolding pop_value deref
popped s a n head here = rw (head, here, pop_value) refl

-- `Pop` takes the first value.
pub pop_value-IsQueue :
    (s : Store) (x : String) (xs : List String)
    → suc (length xs) < u64_mod
    → IsQueue s (x ∷ xs)
    → ((pop_value s).0 ≡ some x) × IsQueue (pop_value s).1 xs
unfolding pop_node
pop_value-IsQueue s x [] lt (a, t, head, tail, count, (at, a_lt, here)) =
    rw (popped s a (record { value = x; next = none }) head here) (refl, (refl, refl, omega arith))
pop_value-IsQueue s x (y ∷ ys) lt (a, t, head, tail, count, (b, a_lt, here, chain)) =
    rw (popped s a (record { value = x; next = some b }) head here)
      (refl, (b, t, refl, tail, omega arith, chain))

-- On an empty queue `Pop` writes no reply and changes nothing.
pub pop_value-empty : (s : Store) → IsQueue s [] → pop_value s ≡ (none, s)
unfolding pop_value pop_node deref
pop_value-empty s (head, tail, count) = rw (head, pop_value) refl

pub data Op : Type 0 where
  push_op : String → Op
  pop_op len_op : Op

pub data Answer : Type 0 where
  no_answer : Answer
  value_answer : String → Answer
  len_answer : ℕ → Answer

abbrev pop_answer : Option String → Answer
pop_answer none = no_answer
pop_answer (some x) = value_answer x

-- The answers of the linked queue to operations one after the other.
abbrev pub run : List Op → Store → List Answer
run [] s = []
run (push_op d ∷ ops) s = no_answer ∷ run ops (push_value d s)
run (pop_op ∷ ops) s = let (reply, s') = pop_value s in pop_answer reply ∷ run ops s'
run (len_op ∷ ops) s = len_answer (count_reply s) ∷ run ops s

-- The answers of a list of values, the oldest one first.
abbrev pub run_list : List Op → List String → List Answer
run_list [] xs = []
run_list (push_op d ∷ ops) xs = no_answer ∷ run_list ops (xs ++ d ∷ [])
run_list (pop_op ∷ ops) [] = no_answer ∷ run_list ops []
run_list (pop_op ∷ ops) (x ∷ xs) = value_answer x ∷ run_list ops xs
run_list (len_op ∷ ops) xs = len_answer (length xs) ∷ run_list ops xs

count-length : (s : Store) (xs : List String) → IsQueue s xs → count_reply s ≡ length xs
unfolding count_reply
count-length s [] (head, tail, count) = count
count-length s (x ∷ xs) (a, t, head, tail, count, chain) = count

-- The linked queue answers pushes, pops and lengths as a list does that grows at its end and is
-- taken from at its beginning, as long as there are fewer than 2^64 values and operations together.
pub run-run_list :
    (ops : List Op) (s : Store) (xs : List String)
    → length xs + length ops < u64_mod
    → IsQueue s xs
    → run ops s ≡ run_list ops xs
run-run_list [] s xs lt q = refl
run-run_list (push_op d ∷ ops) s xs lt q =
    let longer : length (xs ++ d ∷ []) ≡ suc (length xs) =
      omega (arith, length-append xs (d ∷ [])) in
    ap (λ rest. no_answer ∷ rest)
      (run-run_list ops (push_value d s) (xs ++ d ∷ []) (omega arith)
        (push_value-IsQueue s xs d (omega arith) q))
run-run_list (pop_op ∷ ops) s [] lt q =
    rw (pop_value-empty s q) (ap (λ rest. no_answer ∷ rest) (run-run_list ops s [] (omega arith) q))
run-run_list (pop_op ∷ ops) s (x ∷ xs) lt q =
    let (got, rest) = pop_value-IsQueue s x xs (omega arith) q in
    rw got
      (ap (λ rest. value_answer x ∷ rest) (run-run_list ops (pop_value s).1 xs (omega arith) rest))
run-run_list (len_op ∷ ops) s xs lt q =
    rw (count-length s xs q)
      (ap (λ rest. len_answer (length xs) ∷ rest) (run-run_list ops s xs (omega arith) q))
