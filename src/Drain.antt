-- ===== src/Drain.antt =====
-- The objects that an admitted VPN attempt shares by reference: its `CancellationToken` and its
-- `AttemptCompletion` (apps/gpservice/src/vpn_task.rs). The admission, the reservation, the active
-- attempt and every `AttemptDrain` hold the same pair, so the pairs live on a heap and the holders
-- keep an address. Waking the waiters of a completion has no state of its own here.
use Prim.Native.Nat.{ℕ, suc}
use global_protect_openconne.Prelude.{Bool, true, false, ◌==◌, if◌then◌else◌}

pub record Cell : Type 0 where
  pub cancelled : Bool
  pub completed : Bool

pub record Heap : Type 0 where
  pub next : ℕ
  pub cells : ℕ → Cell

abbrev pub is_cancelled : Heap → ℕ → Bool
is_cancelled h a = (h.cells a).cancelled

-- `AttemptDrain::is_complete`.
abbrev pub is_complete : Heap → ℕ → Bool
is_complete h a = (h.cells a).completed

unfoldable pub empty_heap : Heap
empty_heap = record { next = 0; cells = λ _. record { cancelled = false; completed = false } }

abbrev pub write : ℕ → Cell → Heap → Heap
write a c h = record h { cells = λ b. if a == b then c else h.cells b }

-- A new token and a new completion; the address is the old `next`.
unfoldable pub alloc : Heap → Heap
alloc h =
    let h' = write h.next (record { cancelled = false; completed = false }) h in
    record { next = suc h.next; cells = h'.cells }

-- `CancellationToken::cancel`, `AttemptDrain::cancel`.
unfoldable pub cancel : ℕ → Heap → Heap
cancel a h = write a (record { cancelled = true; completed = is_complete h a }) h

-- `completed.store(true)` and `notify_waiters`.
unfoldable pub complete : ℕ → Heap → Heap
complete a h = write a (record { cancelled = is_cancelled h a; completed = true }) h
