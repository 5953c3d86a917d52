-- ===== src/Mailbox/Routing.antt =====
-- Who hears whom: a write by core s to mailbox n goes from s to n, a read of mailbox n by core r
-- takes what n sent to r.
use rv32_emu.Base.{
  ℕ, ◌+◌, ◌*◌, ◌<◌, ◌≡◌, refl, sym, ap, ◌∙◌, Bool, true, false, none, some, List, [], ◌∷◌, arith,
  ltb, if◌then◌else◌, update, length, ℤ, field, update_self,
}
use native.Mathlib.Decide.{ℕ_discrete}
use rv32_emu.Base.Queue.{enqueue}
use rv32_emu.Mailbox.Defs.{
  Mailbox, mailbox_cores, mailbox_fifo_depth, addr_base, core_index, target, in_range, fifo_push,
  fifo_pop, write, read, process,
}
use rv32_emu.Mailbox.Channel.{
  IsValid, channel, Other, Pops, nothing, taken, fifo_pop-Pops, channel-push-Other,
  channel-push_self, fifo_push-IsValid, fifo_push-stall, channel-length,
}

-- The first word of mailbox `k`; bit 2 of an address asks whether a word is there.
abbrev pub box : ℕ → ℕ
box k = addr_base + k * 0x1000

abbrev pub query : ℕ → ℕ
query k = box k + 4

-- An address in range and a core that has mailboxes give indices below 4, the bound of the
-- mailbox arrays.
pub indices_in_bounds :
    (addr : ℕ) (core_id : ℤ) {i : ℕ}
    → in_range addr ≡ true
    → core_index core_id ≡ some i
    → (target addr < mailbox_cores) × (i < mailbox_cores)
unfolding in_range target core_index
indices_in_bounds addr core_id h e = ground arith

box-in_range : (k : ℕ) → k < mailbox_cores → in_range (box k) ≡ true
unfolding in_range
box-in_range k h = ground arith

query_bit_low : (k : ℕ) → field (box k) 2 1 ≡ 0
query_bit_low k = omega arith

target-box : (k : ℕ) → target (box k) ≡ k
unfolding target
target-box k = omega arith

module _ (m : Mailbox) (core_id : ℤ) (addr : ℕ) {me : ℕ} (in_box : in_range addr ≡ true)
    (is_core : core_index core_id ≡ some me) where
  write-eq-push : (v : ℕ) → write m core_id addr v ≡ ((fifo_push m me (target addr) v).0, true)
  unfolding write
  write-eq-push v = rw (in_box, is_core) refl

  -- From valid mailboxes, a write by a core that has mailboxes to an address in range is an
  -- enqueue of at most four words on the channel from that core to the addressed one, which
  -- drops the word when it is full; every other channel and the stall flags stay as they are,
  -- the mailboxes stay valid, and the address is claimed.
  pub write-sends :
      (v : ℕ)
      → IsValid m
      → (channel (write m core_id addr v).0 me (target addr)
          ≡ (enqueue mailbox_fifo_depth (channel m me (target addr)) v).0)
        × ((s d : ℕ)
            → Other me (target addr) s d
            → channel (write m core_id addr v).0 s d ≡ channel m s d)
        × IsValid (write m core_id addr v).0
        × ((write m core_id addr v).0.stall ≡ m.stall)
        × ((write m core_id addr v).1 ≡ true)
  write-sends v ok = rw (write-eq-push v) (
    (channel-push_self m me (target addr) v ok).0,
    channel-push-Other m me (target addr) v,
    fifo_push-IsValid m me (target addr) v ok,
    fifo_push-stall m me (target addr) v,
    refl,
  )

  -- A read that does not query takes what `fifo_pop` finds, or stalls its core.
  read-eq-pop :
      field addr 2 1 ≡ 0
      → read m core_id addr ≡ elim (fifo_pop m (target addr) me) [
        | none ↦ (record m { stall = update m.stall me true }, some 0)
        | some (x, m') ↦ (m', some x)
      ]
  unfolding read
  read-eq-pop pops = rw (in_box, is_core, pops) refl

  pub read-empty :
      field addr 2 1 ≡ 0
      → channel m (target addr) me ≡ []
      → read m core_id addr ≡ (record m { stall = update m.stall me true }, some 0)
  read-empty pops e = by_cases (fifo_pop-Pops m (target addr) me)
    where
      by_cases :
          Pops m (target addr) me
          → read m core_id addr ≡ (record m { stall = update m.stall me true }, some 0)
      by_cases (nothing _ gone) = rw (read-eq-pop pops, gone) refl
      by_cases (taken x m' _ found _ _ _) = absurd (cc (e, found))

  -- A read that is no query, by a core that has mailboxes at an address in range, returns the
  -- oldest word on the channel from the addressed core to the reader if there is one, and takes
  -- it; every other channel and the stall flags stay as they are.
  pub read-takes :
      field addr 2 1 ≡ 0
      → {x : ℕ} {q : List ℕ} → channel m (target addr) me ≡ x ∷ q
      → ((read m core_id addr).1 ≡ some x)
        × (channel (read m core_id addr).0 (target addr) me ≡ q)
        × ((s d : ℕ)
            → Other (target addr) me s d
            → channel (read m core_id addr).0 s d ≡ channel m s d)
        × ((read m core_id addr).0.stall ≡ m.stall)
  read-takes pops {x} {q} e = by_cases (fifo_pop-Pops m (target addr) me)
    where
      by_cases :
          Pops m (target addr) me
          → ((read m core_id addr).1 ≡ some x)
            × (channel (read m core_id addr).0 (target addr) me ≡ q)
            × ((s d : ℕ)
                → Other (target addr) me s d
                → channel (read m core_id addr).0 s d ≡ channel m s d)
            × ((read m core_id addr).0.stall ≡ m.stall)
      by_cases (nothing none_left _) = absurd (cc (e, none_left))
      by_cases (taken y m' found words others _ same_stall) =
          rw (read-eq-pop pops, found) (cc (e, words), cc (e, words), others, same_stall)

  -- A query of a core that has mailboxes at an address in range changes nothing and returns 1 if
  -- a word is on the channel from the addressed core to it, else 0.
  pub read-query :
      field addr 2 1 ≡ 1
      → read m core_id addr
        ≡ (m, some (if ltb 0 (length (channel m (target addr) me)) then 1 else 0))
  unfolding read
  read-query asks = rw (in_box, is_core, asks, channel-length m (target addr) me) refl

  pub read-IsValid_box : IsValid m → IsValid (read m core_id addr).0
  read-IsValid_box ok = elim (ℕ_discrete (field addr 2 1) 1) [
    | yes asks ↦ rw (read-query asks) ok
    | no pops ↦ by_cases (omega arith) (fifo_pop-Pops m (target addr) me)
  ]
    where
      by_cases : field addr 2 1 ≡ 0 → Pops m (target addr) me → IsValid (read m core_id addr).0
      by_cases pops (nothing _ gone) =
          rw (read-eq-pop pops, gone) (record { head_lt = ok.head_lt; count_le = ok.count_le })
      by_cases pops (taken x m' found _ _ keeps _) = rw (read-eq-pop pops, found) (keeps ok)

-- What `process` does with the flag of core `me`.
process-raised :
    (m : Mailbox) (core_id : ℤ) {me : ℕ}
    → core_index core_id ≡ some me
    → m.stall me ≡ true
    → process m core_id ≡ (record m { stall = update m.stall me false }, true)
unfolding process
process-raised m core_id is_core up = rw (process, is_core, up) refl

process-lowered :
    (m : Mailbox) (core_id : ℤ) {me : ℕ}
    → core_index core_id ≡ some me
    → m.stall me ≡ false
    → process m core_id ≡ (m, false)
unfolding process
process-lowered m core_id is_core down = rw (process, is_core, down) refl

channel-flag :
    (m : Mailbox) (f : ℕ → Bool) (s d : ℕ) → channel (record m { stall = f }) s d ≡ channel m s d
unfolding channel
channel-flag m f s d = refl

-- A read that is no query, on an empty channel, stalls its core: the next check of the stall
-- reports it, the one after that does not, and no channel has changed.
pub read-process :
    (m : Mailbox) (core_id : ℤ) (addr : ℕ) {me : ℕ}
    → in_range addr ≡ true
    → core_index core_id ≡ some me
    → field addr 2 1 ≡ 0
    → channel m (target addr) me ≡ []
    → ((process (read m core_id addr).0 core_id).1 ≡ true)
      × ((process (process (read m core_id addr).0 core_id).0 core_id).1 ≡ false)
      × ((s d : ℕ) → channel (process (read m core_id addr).0 core_id).0 s d ≡ channel m s d)
read-process m core_id addr {me} in_box is_core pops e =
    let stalled : Mailbox = record m { stall = update m.stall me true } in
    let answered : Mailbox = record stalled { stall = update stalled.stall me false } in
    let first : process stalled core_id ≡ (answered, true) =
      process-raised stalled core_id is_core (update_self m.stall me true) in
    let second : process answered core_id ≡ (answered, false) =
      process-lowered answered core_id is_core (update_self stalled.stall me false) in
    rw (read-empty m core_id addr in_box is_core pops e, first, second)
      (refl, refl, λ s d. channel-flag m _ s d)

-- From valid mailboxes, a word that core s writes to the mailbox of core r, while no word is on
-- the way from s to r, is what core r then reads from the mailbox of core s, and nothing is left
-- on the way.
pub write-read :
    (m : Mailbox) (sender receiver : ℤ) {s r : ℕ} (v : ℕ)
    → IsValid m
    → core_index sender ≡ some s
    → core_index receiver ≡ some r
    → s < mailbox_cores
    → r < mailbox_cores
    → channel m s r ≡ []
    → ((read (write m sender (box r) v).0 receiver (box s)).1 ≡ some v)
      × (channel (read (write m sender (box r) v).0 receiver (box s)).0 s r ≡ [])
unfolding enqueue
write-read m sender receiver {s} {r} v ok from to s_lt r_lt nothing_sent =
    let here : target (box r) ≡ r = target-box r in
    let there : target (box s) ≡ s = target-box s in
    let sent = write-sends m sender (box r) (box-in_range r r_lt) from v ok in
    let waiting : channel (write m sender (box r) v).0 (target (box s)) r ≡ v ∷ [] =
      ap (λ (t : ℕ). channel (write m sender (box r) v).0 t r) there
      ∙ ap (λ (t : ℕ). channel (write m sender (box r) v).0 s t) (sym here)
      ∙ sent.0
      ∙ ap (λ (t : ℕ). (enqueue mailbox_fifo_depth (channel m s t) v).0) here
      ∙ ap (λ q. (enqueue mailbox_fifo_depth q v).0) nothing_sent in
    let got =
      read-takes (write m sender (box r) v).0 receiver (box s) (box-in_range s s_lt) to
        (query_bit_low s) waiting in
    (
      got.0,
      ap (λ (t : ℕ). channel (read (write m sender (box r) v).0 receiver (box s)).0 t r) (sym there)
          ∙ got.1,
    )
