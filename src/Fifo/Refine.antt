-- ===== src/Fifo/Refine.antt =====
-- The ring of 32 words against a bounded queue.
use mathlib.Core.Path.{ap₂}
use rv32_emu.Base.{
  ℕ, suc, ◌+◌, ◌-◌, ◌%◌, ◌≢◌, ◌≤◌, ◌<◌, ◌≡◌, refl, ap, ◌∙◌, true, false, none, some, List, [], ◌∷◌,
  ◌++◌, arith, ltb, leb, ◌==◌, update, length, u32, Bool-cases, Option-cases, inl, inr,
}
use rv32_emu.Base.Ring.{window, length-window, window-push}
use rv32_emu.Base.Queue
use rv32_emu.Base.Queue.{Op, put, get, Reply, item, empty, put_reply, enqueue, dequeue}
use rv32_emu.Fifo.Defs.{Fifo, fifo_size, init, push, pop}

-- The indices stay inside the array, and `tail` is where the next word goes.
pub record IsValid (f : Fifo) : Type 0 where
  pub head_lt : f.head < fifo_size
  pub tail_lt : f.tail < fifo_size
  pub count_le : f.count ≤ fifo_size
  pub tail_eq : f.tail ≡ (f.head + f.count) % fifo_size

-- The words in the FIFO, oldest first.
unfoldable pub view : Fifo → List ℕ
view f = window fifo_size f.count f.head f.buffer

pub init-IsValid : IsValid init
unfolding init
init-IsValid = omega arith

-- A push keeps the indices of a valid FIFO inside the buffer, its count at most 32, and the tail
-- behind the words held.
pub push-IsValid : (f : Fifo) (x : ℕ) → IsValid f → IsValid (push f x).0
unfolding push
push-IsValid f x v = ground arith

pub pop-IsValid : (f g : Fifo) (x : ℕ) → IsValid f → pop f ≡ some (x, g) → IsValid g
unfolding pop
pop-IsValid f g x v e = ground arith

pub length-view : (f : Fifo) → length (view f) ≡ f.count
unfolding view
length-view f = length-window fifo_size f.count f.head f.buffer

view-push :
    (f : Fifo) (x : ℕ)
    → IsValid f
    → f.count < fifo_size
    → window fifo_size (u32 (f.count + 1)) f.head (update f.buffer f.tail x) ≡ view f ++ (x ∷ [])
unfolding view
view-push f x v h =
    ap (λ (n : ℕ). window fifo_size n f.head (update f.buffer f.tail x)) (omega arith)
    ∙ window-push fifo_size f.count f.head f.tail f.buffer x v.head_lt h v.tail_eq

-- A push is an enqueue on the words held.
pub push-enqueue :
    (f : Fifo) (x : ℕ)
    → IsValid f
    → (view (push f x).0 ≡ (enqueue fifo_size (view f) x).0)
      × ((push f x).1 ≡ (enqueue fifo_size (view f) x).1)
unfolding push enqueue
push-enqueue f x v = elim (Bool-cases (leb fifo_size f.count)) [
  | inl full ↦
      let closed : ltb f.count fifo_size ≡ false = ground arith in
      rw (full, length-view f, closed) (refl, refl)
  | inr room ↦
      let open_slot : ltb f.count fifo_size ≡ true = ground arith in
      rw (room, length-view f, open_slot) (view_eq room, refl)
]
  where
    view_eq :
        leb fifo_size f.count ≡ false
        → view (record f {
          buffer = update f.buffer f.tail x;
          tail = u32 (f.tail + 1) % fifo_size;
          count = u32 (f.count + 1);
        })
          ≡ view f ++ (x ∷ [])
    view_eq h = unfold view in view-push f x v (ground arith)

view-zero : (f : Fifo) → f.count ≡ 0 → view f ≡ []
unfolding view window
view-zero f e = rw e refl

view-suc :
    (f : Fifo)
    → f.count ≢ 0
    → f.count ≤ fifo_size
    → f.head < fifo_size
    → view f
      ≡ f.buffer f.head
        ∷ view (record f { head = u32 (f.head + 1) % fifo_size; count = f.count - 1 })
unfolding view window
view-suc f ne h k =
    let e : f.count ≡ suc (f.count - 1) = omega arith in
    let wrap : u32 (f.head + 1) ≡ f.head + 1 = omega arith in
    let one_less : suc (f.count - 1) - 1 ≡ f.count - 1 = omega arith in rw (e, wrap, one_less) refl

-- A pop is a dequeue of the words held: both fail on an empty queue alone.
pub pop-dequeue :
    (f : Fifo)
    → IsValid f
    → dequeue (view f) ≡ elim (pop f) [ none ↦ none | some (x, g) ↦ some (x, view g) ]
unfolding pop dequeue
pop-dequeue f v = elim (Bool-cases (f.count == 0)) [
  | inl none_left ↦ rw (none_left, view-zero f (ground arith)) refl
  | inr some_left ↦ rw (some_left, view-suc f (ground arith) v.count_le v.head_lt) refl
]

-- A client's calls in order, with what each returns.
unfoldable pub run : Fifo → List Op → List Reply
run f [] = []
run f (put x ∷ ops) = let (f', ok) = push f x in put_reply ok ∷ run f' ops
run f (get ∷ ops) = elim (pop f) [ none ↦ empty ∷ run f ops | some (x, g) ↦ item x ∷ run g ops ]

run-step_put :
    (f : Fifo) (x : ℕ) (ops : List Op)
    → run f (put x ∷ ops) ≡ put_reply (push f x).1 ∷ run (push f x).0 ops
unfolding run
run-step_put f x ops = refl

-- From a valid FIFO, whatever sequence of pushes and pops a client makes, it sees the replies
-- that a queue of at most 32 words gives it.
pub run-refines :
    (f : Fifo) (ops : List Op) → IsValid f → run f ops ≡ Queue.run fifo_size (view f) ops
unfolding run Queue.run
run-refines f [] v = refl
run-refines f (put x ∷ ops) v =
    let (same_view, same_reply) = push-enqueue f x v in
    ap₂ (λ r rs. put_reply r ∷ rs) same_reply
      (run-refines (push f x).0 ops (push-IsValid f x v)
        ∙ ap (λ q. Queue.run fifo_size q ops) same_view)
run-refines f (get ∷ ops) v = elim (Option-cases (pop f)) [
  | inl e ↦ rw (Queue.run, run, pop-dequeue f v, e) (ap (λ rs. empty ∷ rs) (run-refines f ops v))
  | inr ((x, g), e) ↦
      rw (Queue.run, run, pop-dequeue f v, e)
        (ap (λ rs. item x ∷ rs) (run-refines g ops (pop-IsValid f g x v e)))
]

dequeue-none : (q : List ℕ) → dequeue q ≡ none → q ≡ []
unfolding dequeue
dequeue-none [] e = refl
dequeue-none (x ∷ q) e = absurd (cc e)

dequeue-some : (q r : List ℕ) (x : ℕ) → dequeue q ≡ some (x, r) → q ≡ x ∷ r
unfolding dequeue
dequeue-some [] r x e = absurd (cc e)
dequeue-some (y ∷ q) r x e = cc e

pub view-pop-none : (f : Fifo) → IsValid f → pop f ≡ none → view f ≡ []
view-pop-none f v e = dequeue-none (view f) (pop-dequeue f v ∙ rw e refl)

pub view-pop-some : (f g : Fifo) (x : ℕ) → IsValid f → pop f ≡ some (x, g) → view f ≡ x ∷ view g
view-pop-some f g x v e = dequeue-some (view f) (view g) x (pop-dequeue f v ∙ rw e refl)
