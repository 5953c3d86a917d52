-- ===== src/Base/Queue.antt =====
-- What a bounded FIFO promises: a queue of at most `cap` words, oldest first.
use rv32_emu.Base.Tests.{ltb, if◌then◌else◌}
use rv32_emu.Base.Lists.{length}
use Prim.Native.Nat.{ℕ}
use mathlib.Core.Bool.{Bool, true, false}
use mathlib.Core.Option.{Option, none, some}
use mathlib.Core.List.{List, [], ◌∷◌, ◌++◌}

unfoldable pub enqueue : ℕ → List ℕ → ℕ → List ℕ × Bool
enqueue cap q x = if ltb (length q) cap then (q ++ (x ∷ []), true) else (q, false)

unfoldable pub dequeue : List ℕ → Option (ℕ × List ℕ)
dequeue [] = none
dequeue (x ∷ q) = some (x, q)

-- A client's calls, and what it sees of each.
pub data Op : Type 0 where
  put : ℕ → Op
  get : Op

pub data Reply : Type 0 where
  accepted refused empty : Reply
  item : ℕ → Reply

abbrev pub put_reply : Bool → Reply
put_reply true = accepted
put_reply false = refused

unfoldable pub run : ℕ → List ℕ → List Op → List Reply
run cap q [] = []
run cap q (put x ∷ ops) = let (q', ok) = enqueue cap q x in put_reply ok ∷ run cap q' ops
run cap q (get ∷ ops) = elim (dequeue q) [
  | none ↦ empty ∷ run cap q ops
  | some (x, q') ↦ item x ∷ run cap q' ops
]
