-- ===== src/Tests/Tailed.antt =====
-- The memory store with a `LoadTail`, which hands out copies.
use protosource.Prelude.{ℕ, String, ◌≡◌, refl, inr, some, take_last}
use protosource.Error.{Result, ok}
use protosource.Repository.Types.{History, Context, Store}
use protosource.Repository.Log.{IsLog}
use protosource.Store.Memory.{MemoryStore, memory_store}
use protosource.Store.Memory.Laws.{view, memory_store-IsLog}

abbrev pub tailed : {M : Type 0} → Store MemoryStore M
tailed = record memory_store {
  load_tail = some (λ ctx key n m. (ok (take_last n (view m key)), m));
  write_through = λ key rs m. m;
}

pub tailed-IsLog : {M : Type 0} → IsLog {M = M} tailed view
unfolding view
tailed-IsLog {M} = record {
  load_result = memory_laws.load_result;
  load_view = memory_laws.load_view;
  save_view = memory_laws.save_view;
  save_other = memory_laws.save_other;
  through_self = λ key rs m. inr refl;
  through_other = λ key k rs m apart. refl;
  put_view = λ put m s k has. cc;
  tail_result = λ tail key n m has positive. rw (← tail_of has) refl;
  tail_view = λ tail key k n m has. rw (← tail_of has) refl;
  tail_copies = λ tail key k rs m has. refl;
}
  where
    memory_laws : IsLog {M = M} memory_store view
    memory_laws = memory_store-IsLog

    tail_of :
        {tail other : Context → String → ℕ → MemoryStore → Result History × MemoryStore}
        → some tail ≡ some other
        → tail ≡ other
    tail_of h = cc
