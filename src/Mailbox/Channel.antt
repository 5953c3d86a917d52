-- ===== src/Mailbox/Channel.antt =====
-- One mailbox FIFO against a bounded queue of 4 words, and that the 15 others stay as they are.
use native.Mathlib.Numerals.{add-one}
use native.Mathlib.Decide.{ℕ_discrete}
use rv32_emu.Base.{
  ℕ, suc, ◌+◌, ◌-◌, ◌%◌, ◌≤◌, ◌<◌, ◌≡◌, ◌≢◌, refl, sym, ap, ◌∙◌, Bool, true, false, none, some,
  List, [], ◌∷◌, arith, ltb, leb, ◌==◌, length, Bool-cases, inl, inr, ◌⊎◌,
}
use rv32_emu.Base.Ring.{window, length-window, window-push, window_cong}
use rv32_emu.Base.Queue.{enqueue}
use rv32_emu.Mailbox.Defs.{Mailbox, mailbox_fifo_depth, update₂, fifo_push, fifo_pop}

pub record IsValid (m : Mailbox) : Type 0 where
  pub head_lt : (s d : ℕ) → m.head s d < mailbox_fifo_depth
  pub count_le : (s d : ℕ) → m.count s d ≤ mailbox_fifo_depth

-- The words on the way from `src` to `dst`, oldest first.
unfoldable pub channel : Mailbox → ℕ → ℕ → List ℕ
channel m src dst = window mailbox_fifo_depth (m.count src dst) (m.head src dst) (m.fifo src dst)

-- Another channel than that from `src` to `dst`.
abbrev pub Other : ℕ → ℕ → ℕ → ℕ → Type 0
Other src dst s d = (s ≢ src) ⊎ (d ≢ dst)

update₂-self {ℓ} : {A : Type ℓ} (f : ℕ → ℕ → A) (s d : ℕ) (a : A) → update₂ f s d a s d ≡ a
update₂-self f s d a = ground arith

update₂-Other {ℓ} :
    {A : Type ℓ} (f : ℕ → ℕ → A) (src dst s d : ℕ) (a : A)
    → Other src dst s d
    → update₂ f src dst a s d ≡ f s d
update₂-Other f src dst s d a h = ground arith

module _ (m : Mailbox) (src dst : ℕ) where
  abbrev full : Bool
  full = leb mailbox_fifo_depth (m.count src dst)

  -- A push touches no other channel.
  pub channel-push-Other :
      (v s d : ℕ) → Other src dst s d → channel (fifo_push m src dst v).0 s d ≡ channel m s d
  unfolding fifo_push channel
  channel-push-Other v s d h = elim (Bool-cases full) [
    | inl e ↦ rw e refl
    | inr e ↦ rw e (
        window_cong mailbox_fifo_depth (update₂-Other m.count src dst s d _ h) refl
          (update₂-Other m.fifo src dst s d _ h))
  ]

  -- A push is an enqueue on the channel's words.
  pub channel-push_self :
      (v : ℕ)
      → IsValid m
      → (channel (fifo_push m src dst v).0 src dst
          ≡ (enqueue mailbox_fifo_depth (channel m src dst) v).0)
        × ((fifo_push m src dst v).1 ≡ (enqueue mailbox_fifo_depth (channel m src dst) v).1)
  unfolding fifo_push channel enqueue
  channel-push_self v ok =
      let len =
        length-window mailbox_fifo_depth (m.count src dst) (m.head src dst) (m.fifo src dst) in
      elim (Bool-cases full) [
        | inl e ↦
            let closed : ltb (m.count src dst) mailbox_fifo_depth ≡ false = ground arith in
            rw (e, len, closed) (refl, refl)
        | inr e ↦
            let open_slot : ltb (m.count src dst) mailbox_fifo_depth ≡ true = ground arith in
            rw (e, len, open_slot)
              (
                window_cong mailbox_fifo_depth
                      (update₂-self m.count src dst _ ∙ add-one (m.count src dst)) refl
                      (update₂-self m.fifo src dst _)
                    ∙ window-push mailbox_fifo_depth (m.count src dst) (m.head src dst) _
                        (m.fifo src dst) v (ok.head_lt src dst) (ground arith) refl,
                refl,
              )
      ]

  pub fifo_push-IsValid : (v : ℕ) → IsValid m → IsValid (fifo_push m src dst v).0
  unfolding fifo_push
  fifo_push-IsValid v ok = elim (Bool-cases full) [
    | inl e ↦ rw e ok
    | inr e ↦
        rw e (record { head_lt = ok.head_lt; count_le = λ s d. ground (arith, ok.count_le s d) })
  ]

  abbrev popped : Mailbox
  popped = record m {
    head = update₂ m.head src dst ((m.head src dst + 1) % mailbox_fifo_depth);
    count = update₂ m.count src dst (m.count src dst - 1);
  }

  -- A pop that finds a word leaves these mailboxes.
  fifo_pop-some :
      m.count src dst ≢ 0 → fifo_pop m src dst ≡ some (m.fifo src dst (m.head src dst), popped)
  unfolding fifo_pop
  fifo_pop-some ne = let e : (m.count src dst == 0) ≡ false = ground arith in rw e refl

  fifo_pop-none : m.count src dst ≡ 0 → fifo_pop m src dst ≡ none
  unfolding fifo_pop
  fifo_pop-none z = let e : (m.count src dst == 0) ≡ true = ground arith in rw e refl

  popped-IsValid : IsValid m → IsValid popped
  popped-IsValid ok = record {
    head_lt = λ s d. ground (arith, ok.head_lt s d);
    count_le = λ s d. ground (arith, ok.count_le s d, ok.count_le src dst);
  }

  channel-popped-Other : (s d : ℕ) → Other src dst s d → channel popped s d ≡ channel m s d
  unfolding channel
  channel-popped-Other s d h =
      window_cong mailbox_fifo_depth (update₂-Other m.count src dst s d _ h)
        (update₂-Other m.head src dst s d _ h) refl

  channel-popped_self :
      m.count src dst ≢ 0
      → channel m src dst ≡ m.fifo src dst (m.head src dst) ∷ channel popped src dst
  unfolding channel window
  channel-popped_self ne =
      window_cong mailbox_fifo_depth {n' = suc (m.count src dst - 1)} (omega arith) refl refl
      ∙ ap (λ q. m.fifo src dst (m.head src dst) ∷ q)
          (sym (
            window_cong mailbox_fifo_depth (update₂-self m.count src dst _)
              (update₂-self m.head src dst _) refl))

  channel-zero : m.count src dst ≡ 0 → channel m src dst ≡ []
  unfolding channel window
  channel-zero z = rw z refl

-- What a pop does, by cases: the channel is empty and nothing changes, or its oldest word is taken.
pub data Pops (m : Mailbox) (src dst : ℕ) : Type 0 where
  nothing : channel m src dst ≡ [] → fifo_pop m src dst ≡ none → Pops m src dst
  taken :
      (x : ℕ) (m' : Mailbox)
      → fifo_pop m src dst ≡ some (x, m')
      → channel m src dst ≡ x ∷ channel m' src dst
      → ((s d : ℕ) → Other src dst s d → channel m' s d ≡ channel m s d)
      → (IsValid m → IsValid m')
      → m'.stall ≡ m.stall
      → Pops m src dst

pub fifo_pop-Pops : (m : Mailbox) (src dst : ℕ) → Pops m src dst
fifo_pop-Pops m src dst = elim (ℕ_discrete (m.count src dst) 0) [
  | yes z ↦ nothing (channel-zero m src dst z) (fifo_pop-none m src dst z)
  | no ne ↦
      taken _ (popped m src dst) (fifo_pop-some m src dst ne) (channel-popped_self m src dst ne)
        (channel-popped-Other m src dst) (popped-IsValid m src dst) refl
]

pub channel-length : (m : Mailbox) (src dst : ℕ) → length (channel m src dst) ≡ m.count src dst
unfolding channel
channel-length m src dst =
    length-window mailbox_fifo_depth (m.count src dst) (m.head src dst) (m.fifo src dst)

pub fifo_push-stall : (m : Mailbox) (src dst v : ℕ) → (fifo_push m src dst v).0.stall ≡ m.stall
unfolding fifo_push
fifo_push-stall m src dst v = elim (Bool-cases (leb mailbox_fifo_depth (m.count src dst))) [
  | inl e ↦ rw e refl
  | inr e ↦ rw e refl
]
