-- ===== src/Verifier/Cycle/Spec.antt =====
-- The wait-for graph by itself: what it is for a thread to wait for another, and for threads to
-- wait for one another in a cycle.
use runtime_monitor.Base.{ℕ, ◌≤◌, ◌≡◌, ◌≢◌, true, false, List, [], ◌∷◌, length, Distinct}
use runtime_monitor.Verifier.State.{Verifier, thread_at, mutex_at}

-- Thread `t` has a slot, a complete stream, and has not exited.
pub record Active (v : Verifier) (t i : ℕ) : Type 0 where
  pub used : (thread_at v i).used ≡ true
  pub is_thread : (thread_at v i).thread_id ≡ t
  pub whole : (thread_at v i).trace_tainted ≡ false
  pub alive : (thread_at v i).exited ≡ false

-- Mutex `a` has a slot, and is known to be owned by `o`.
pub record Owned (v : Verifier) (a o j : ℕ) : Type 0 where
  pub used : (mutex_at v j).used ≡ true
  pub is_mutex : (mutex_at v j).address ≡ a
  pub known : (mutex_at v j).owner_known ≡ true
  pub owner : (mutex_at v j).owner_thread_id ≡ o
  pub someone : o ≢ 0

-- Thread `t` waits for mutex `a`, which thread `o` owns; both threads are active.
pub record WaitsFor (v : Verifier) (t a o : ℕ) : Type 0 where
  pub i : ℕ
  pub waiter : Active v t i
  pub waits : (thread_at v i).waiting_mutex ≡ a
  pub for_one : a ≢ 0
  pub j : ℕ
  pub owned : Owned v a o j
  pub k : ℕ
  pub owner : Active v o k

-- A walk along the graph: the threads from `s` on, each with the mutex it waits for, up to `e`.
abbrev pub Chain : Verifier → ℕ → List ℕ → List ℕ → ℕ → Type 0
Chain v s [] [] e = s ≡ e
Chain v s (t ∷ ts) (a ∷ ms) e = (t ≡ s) × (o : ℕ) × WaitsFor v s a o × Chain v o ts ms e
Chain v s _ _ e = ⊥

-- At least two different threads that wait for one another in a circle, from `start` on.
pub record IsCycle (v : Verifier) (start : ℕ) (threads mutexes : List ℕ) : Type 0 where
  pub closed : Chain v start threads mutexes start
  pub distinct : Distinct threads
  pub long : 2 ≤ length threads
