-- ===== src/Insn/Mutexes.antt =====
-- Whose a mutex is: the other threads cannot take or release it, but they are not held either.
use rv32_emu.Base.{ℕ, ◌≡◌, ◌≢◌, refl, sym, ◌∙◌, true, field, arith}
use rv32_emu.Core.{Core}
use rv32_emu.Insn.Sync.{mutex_none, ttatgetm, ttatrelm}

module _ {D : Type 0} (core : Core D) (imm tid id : ℕ) (owned : core.syncs.mutex id ≢ mutex_none)
    (other : core.syncs.mutex id ≢ tid) where
  -- While one thread owns a mutex, an ATGETM or ATRELM of another thread, on this or any other
  -- mutex, leaves its owner as it is.
  pub owner-kept :
      ((ttatgetm core imm tid).0.syncs.mutex id ≡ core.syncs.mutex id)
      × ((ttatrelm core imm tid).0.syncs.mutex id ≡ core.syncs.mutex id)
  unfolding ttatgetm ttatrelm
  owner-kept = (ground arith, ground arith)

  -- An ATGETM of a mutex that another thread owns is answered as completed, although the mutex
  -- is not the caller's afterwards.
  pub ttatgetm-not_owner :
      field imm 0 3 ≡ id
      → ((ttatgetm core imm tid).1 ≡ true) × ((ttatgetm core imm tid).0.syncs.mutex id ≢ tid)
  ttatgetm-not_owner e = (answered, λ mine. other (sym owner-kept.0 ∙ mine))
    where
      answered : (ttatgetm core imm tid).1 ≡ true
      answered = unfold ttatgetm in refl
