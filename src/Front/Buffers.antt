-- ===== src/Front/Buffers.antt =====
-- A write to an instruction buffer: the word goes behind all instructions that wait, of which the
-- oldest are executed where there is no room.
use rv32_emu.Base.{
  ℕ, zero, suc, ◌+◌, ◌<◌, ◌≡◌, refl, sym, ap, ◌∙◌, subst, true, false, some, List, [], ◌∷◌, ◌++◌,
  append_assoc, arith, Bool-cases, inl, inr, length, ltb, leb, Bool, ◌≤◌, ◌≢◌, update_same,
  update-ne, if◌then◌else◌, ℤ, pos, negsuc,
}
use rv32_emu.Base.Queue.{enqueue}
use rv32_emu.Fifo
use rv32_emu.Fifo.{fifo_size}
use rv32_emu.Fifo.Refine
use rv32_emu.Cop.{Cop, Thread, thread_index, set_thread}
use rv32_emu.Cop
use rv32_emu.Cop.Executor.{Executor}
use rv32_emu.Cop.Pending.{pending, pending-length, set_thread_self}
use rv32_emu.Cop.Trace.{Took, Trace, done, next}
use rv32_emu.Cop.Drain.{step-Result, ran-Took, stuck-words}
use rv32_emu.Front.Defs.{
  Outcome, handled, assertion, tensix_push, push_draining, target_thread, in_insn_buf, in_mailbox,
  in_sems, is_per_core_addr,
}
use rv32_emu.Front.Routes.{mmio_write}

-- A FIFO's words after a push, by whether there was room.
fifo_words-push :
    (f : Fifo.Fifo) (x : ℕ)
    → Refine.IsValid f
    → Refine.view (Fifo.push f x).0
      ≡ (if (Fifo.push f x).1 then Refine.view f ++ (x ∷ []) else Refine.view f)
unfolding enqueue
fifo_words-push f x v =
    let (words, ok) = Refine.push-enqueue f x v in
    elim (Bool-cases (ltb (length (Refine.view f)) fifo_size)) [
      | inl room ↦ words ∙ rw (ok, room) refl
      | inr full ↦ words ∙ rw (ok, full) refl
    ]

-- The instructions that wait after a push.
pending-push :
    (th : Thread) (x : ℕ)
    → Refine.IsValid th.insn_fifo
    → pending (record th { insn_fifo = (Fifo.push th.insn_fifo x).0 })
      ≡ (if (Fifo.push th.insn_fifo x).1 then pending th ++ (x ∷ []) else pending th)
unfolding pending
pending-push th x v = elim (Bool-cases (Fifo.push th.insn_fifo x).1) [
  | inl ok ↦
      ap (λ (q : List ℕ). first ++ q) (fifo_words-push th.insn_fifo x v)
      ∙ rw ok (sym (append_assoc first (Refine.view th.insn_fifo) (x ∷ [])))
  | inr no_room ↦
      ap (λ (q : List ℕ). first ++ q) (fifo_words-push th.insn_fifo x v) ∙ rw no_room refl
]
  where
    first : List ℕ
    first = if th.has_current_insn then th.current_insn ∷ [] else []

-- A push that finds no room changes nothing, and the others do find some.
push-full : (f : Fifo.Fifo) (x : ℕ) → (Fifo.push f x).1 ≡ false → (Fifo.push f x).0 ≡ f
unfolding Fifo.push
push-full f x e = elim (Bool-cases (leb fifo_size f.count)) [
  | inl full ↦ rw full refl
  | inr room ↦ absurd (cc (e, ran room))
]
  where
    ran : leb fifo_size f.count ≡ false → (Fifo.push f x).1 ≡ true
    ran room = rw room refl

push-room :
    (f : Fifo.Fifo) (x : ℕ)
    → Refine.IsValid f
    → (Fifo.push f x).1 ≡ ltb (length (Refine.view f)) fifo_size
unfolding enqueue
push-room f x v = elim (Bool-cases (ltb (length (Refine.view f)) fifo_size)) [
  | inl room ↦ (Refine.push-enqueue f x v).1 ∙ rw room refl
  | inr full ↦ (Refine.push-enqueue f x v).1 ∙ rw full refl
]

full_when : (n : ℕ) → n ≤ fifo_size → ltb n fifo_size ≡ false → n ≡ fifo_size
full_when n few e = ground arith

module _ {D : Type 0} (core_id : ℤ) (t : ℕ) (is_thread : thread_index core_id ≡ some t) where
  push-at :
      (cop : Cop D) (insn : ℕ)
      → tensix_push cop insn core_id ≡ (
        set_thread cop t
            (record (cop.threads t) { insn_fifo = (Fifo.push (cop.threads t).insn_fifo insn).0 }),
        (Fifo.push (cop.threads t).insn_fifo insn).1,
      )
  unfolding tensix_push Cop.push
  push-at cop insn = rw (tensix_push, is_thread, Cop.push) refl

  pending-tensix_push :
      (cop : Cop D) (insn : ℕ)
      → Refine.IsValid (cop.threads t).insn_fifo
      → (pending ((tensix_push cop insn core_id).0.threads t) ≡ (
          if (tensix_push cop insn core_id).1
          then pending (cop.threads t) ++ (insn ∷ [])
          else pending (cop.threads t)))
        × Refine.IsValid ((tensix_push cop insn core_id).0.threads t).insn_fifo
  pending-tensix_push cop insn v =
      let th : Thread = record (cop.threads t) {
        insn_fifo = (Fifo.push (cop.threads t).insn_fifo insn).0;
      } in
      let same : (set_thread cop t th).threads t ≡ th = set_thread_self cop t th in
      rw (push-at cop insn) (
        ap pending same ∙ pending-push (cop.threads t) insn v,
        subst (λ (x : Thread). Refine.IsValid x.insn_fifo) (sym same)
            (Refine.push-IsValid (cop.threads t).insn_fifo insn v),
      )

  tensix_push-full :
      (cop : Cop D) (insn : ℕ)
      → (tensix_push cop insn core_id).1 ≡ false
      → (tensix_push cop insn core_id).0 ≡ cop
  tensix_push-full cop insn e =
      let at = push-at cop insn in
      let kept =
        push-full (cop.threads t).insn_fifo insn (ap (λ (r : Cop D × Bool). r.1) (sym at) ∙ e) in
      ap (λ (r : Cop D × Bool). r.0) at
      ∙ ap (λ (f : Fifo.Fifo). set_thread cop t (record (cop.threads t) { insn_fifo = f })) kept
      ∙ ap (λ (f : ℕ → Thread). record cop { threads = f }) (update_same cop.threads t)

  tensix_push-room :
      (cop : Cop D) (insn : ℕ)
      → Refine.IsValid (cop.threads t).insn_fifo
      → (tensix_push cop insn core_id).1
        ≡ ltb (length (Refine.view (cop.threads t).insn_fifo)) fifo_size
  tensix_push-room cop insn v =
      ap (λ (r : Cop D × Bool). r.1) (push-at cop insn) ∙ push-room (cop.threads t).insn_fifo insn v

  tensix_push-rest :
      (cop : Cop D) (insn : ℕ)
      → ((tensix_push cop insn core_id).0.core ≡ cop.core)
        × ((u : ℕ) → u ≢ t → (tensix_push cop insn core_id).0.threads u ≡ cop.threads u)
  tensix_push-rest cop insn = rw (push-at cop insn) (refl, λ u ne. update-ne cop.threads t u _ ne)

module _ {D : Type 0} (ex : Executor D) (core_id : ℤ) (t : ℕ)
    (is_thread : thread_index core_id ≡ some t) where
  -- The FIFO of the thread has no room.
  abbrev IsFull : Cop D → Type 0
  IsFull cop = length (Refine.view (cop.threads t).insn_fifo) ≡ fifo_size

  -- What a write to a buffer ends in: the words `taken` were executed, in order and each while
  -- there was no room, and the new word is the last of those that wait; or there is still no room
  -- and the thread cannot step, and the assertion is hit.
  pub data Pushed (insn : ℕ) (before : Cop D) : Outcome D → Type 0 where
    pushed :
        (cop last : Cop D) (taken : List ℕ)
        → Trace ex t IsFull before taken last
        → length (Refine.view (last.threads t).insn_fifo) < fifo_size
        → pending (before.threads t) ≡ taken ++ pending (last.threads t)
        → pending (cop.threads t) ≡ pending (last.threads t) ++ (insn ∷ [])
        → cop.core ≡ last.core
        → ((u : ℕ) → u ≢ t → cop.threads u ≡ last.threads u)
        → Refine.IsValid (cop.threads t).insn_fifo
        → Pushed insn before (handled cop)
    blocked :
        (cop last : Cop D) (taken : List ℕ)
        → Trace ex t IsFull before taken last
        → IsFull last
        → Cop.step ex last core_id ≡ (cop, false)
        → pending (before.threads t) ≡ taken ++ pending (cop.threads t)
        → Refine.IsValid (cop.threads t).insn_fifo
        → Pushed insn before (assertion cop)

  -- One more instruction was executed before.
  prepend :
      {insn : ℕ} {o : Outcome D} (x : ℕ) (before after : Cop D)
      → IsFull before
      → Took ex t before x after
      → pending (before.threads t) ≡ x ∷ pending (after.threads t)
      → Pushed insn after o
      → Pushed insn before o
  prepend x before after full took e (pushed cop last taken trace room words tail core others v) =
      pushed cop last (x ∷ taken) (next full took trace) room (e ∙ ap (λ (q : List ℕ). x ∷ q) words)
        tail core others v
  prepend x before after full took e (blocked cop last taken trace still no_step words v) =
      blocked cop last (x ∷ taken) (next full took trace) still no_step
        (e ∙ ap (λ (q : List ℕ). x ∷ q) words) v

  -- What one turn of the loop does.
  turn-fits :
      (fuel : ℕ) (cop : Cop D) (insn : ℕ)
      → (tensix_push cop insn core_id).1 ≡ true
      → push_draining ex (suc fuel) cop core_id insn ≡ handled (tensix_push cop insn core_id).0
  unfolding push_draining
  turn-fits fuel cop insn e = rw (push_draining, e) refl

  turn-steps :
      (fuel : ℕ) (cop : Cop D) (insn : ℕ)
      → (tensix_push cop insn core_id).1 ≡ false
      → (Cop.step ex cop core_id).1 ≡ true
      → push_draining ex (suc fuel) cop core_id insn
        ≡ push_draining ex fuel (Cop.step ex cop core_id).0 core_id insn
  unfolding push_draining
  turn-steps fuel cop insn e ran =
      subst
        (λ (c : Cop D).
          (Cop.step ex c core_id).1 ≡ true
          → push_draining ex (suc fuel) cop core_id insn
            ≡ push_draining ex fuel (Cop.step ex c core_id).0 core_id insn)
        (tensix_push-full core_id t is_thread cop insn e) (λ ran'. rw (push_draining, e, ran') refl)
        ran

  turn-blocked :
      (fuel : ℕ) (cop : Cop D) (insn : ℕ)
      → (tensix_push cop insn core_id).1 ≡ false
      → (Cop.step ex cop core_id).1 ≡ false
      → push_draining ex (suc fuel) cop core_id insn ≡ assertion (Cop.step ex cop core_id).0
  unfolding push_draining
  turn-blocked fuel cop insn e stuck =
      subst
        (λ (c : Cop D).
          (Cop.step ex c core_id).1 ≡ false
          → push_draining ex (suc fuel) cop core_id insn ≡ assertion (Cop.step ex c core_id).0)
        (tensix_push-full core_id t is_thread cop insn e)
        (λ stuck'. rw (push_draining, e, stuck') refl) stuck

  pub push_draining-Pushed :
      (fuel : ℕ) (cop : Cop D) (insn : ℕ)
      → Refine.IsValid (cop.threads t).insn_fifo
      → length (pending (cop.threads t)) < fuel
      → Pushed insn cop (push_draining ex fuel cop core_id insn)
  push_draining-Pushed zero cop insn v h = absurd (omega arith)
  push_draining-Pushed (suc fuel) cop insn v h =
      let space = tensix_push-room core_id t is_thread cop insn v in
      let some_le : length (Refine.view (cop.threads t).insn_fifo) ≤ fifo_size =
        omega (arith, Refine.length-view (cop.threads t).insn_fifo, v.count_le) in
      elim (Bool-cases (tensix_push cop insn core_id).1) [
        | inl ok ↦
            let (words, v') = pending-tensix_push core_id t is_thread cop insn v in
            let (core, others) = tensix_push-rest core_id t is_thread cop insn in
            subst (Pushed insn cop) (sym (turn-fits fuel cop insn ok)) (
              pushed (tensix_push cop insn core_id).0 cop [] (done cop) (ground (arith, space, ok))
                refl (words ∙ rw ok refl) core others v')
        | inr no_room ↦
            let full : IsFull cop =
              full_when (length (Refine.view (cop.threads t).insn_fifo)) some_le
                (sym space ∙ no_room) in
            let stepped : Cop D = (Cop.step ex cop core_id).0 in
            let v' : Refine.IsValid (stepped.threads t).insn_fifo =
              (step-Result ex core_id t is_thread cop v).fifo_ok in
            elim (Bool-cases (Cop.step ex cop core_id).1) [
              | inl ran ↦
                  let (x, here, took) = ran-Took ex core_id t is_thread cop v ran in
                  subst (Pushed insn cop) (sym (turn-steps fuel cop insn no_room ran)) (
                    prepend x cop stepped full took here
                      (push_draining-Pushed fuel stepped insn v' (omega (arith, ap length here))))
              | inr stuck ↦
                  subst (Pushed insn cop) (sym (turn-blocked fuel cop insn no_room stuck)) (
                    blocked stepped cop [] (done cop) full (ap (λ b. (stepped, b)) stuck)
                      (sym (stuck-words ex core_id t is_thread cop v stuck)) v')
            ]
      ]

-- No other part answers for the instruction buffers.
insn_buf-apart :
    (addr : ℕ)
    → in_insn_buf addr ≡ true
    → (in_mailbox addr ≡ false) × (in_sems addr ≡ false) × (is_per_core_addr addr ≡ false)
unfolding is_per_core_addr
insn_buf-apart addr h = (ground arith, ground arith, ground arith)

pub target_thread-index :
    (core_id : ℤ) (addr t : ℕ) → target_thread core_id addr ≡ some t → thread_index (pos t) ≡ some t
unfolding target_thread thread_index
target_thread-index (pos n) addr t e = ground arith
target_thread-index (negsuc zero) addr t e = ground arith
target_thread-index (negsuc (suc n)) addr t e = cc

-- A write to an instruction buffer whose thread has a valid FIFO needs at most 34 turns of its
-- loop. It executes words from the front of those that wait, in order, each of them that very
-- word and each only while the FIFO is full. Then either there is room, and the word written is
-- the last of those that wait, behind the others, with the core and the other threads as the
-- last execution left them; or the FIFO is still full and a step does not run, and the write
-- ends in the assertion, with that step's result, the others still waiting and the word not
-- among them.
pub mmio_write-Pushed :
    {D : Type 0} (ex : Executor D) (cop : Cop D) (core_id : ℤ) (addr value t : ℕ)
    → in_insn_buf addr ≡ true
    → (target : target_thread core_id addr ≡ some t) → Refine.IsValid (cop.threads t).insn_fifo
    → Pushed ex
        (pos t)
        t
        (target_thread-index core_id addr t target)
        value
        cop
        (mmio_write ex (fifo_size + 2) cop core_id addr value)
unfolding mmio_write
mmio_write-Pushed ex cop core_id addr value t buffer target v =
    let (no_box, no_sem, no_core) = insn_buf-apart addr buffer in
    rw (mmio_write, no_box, no_sem, no_core, buffer, target)
      (push_draining-Pushed ex (pos t) t (target_thread-index core_id addr t target) (fifo_size + 2)
        cop value v (omega (arith, pending-length (cop.threads t) v)))
