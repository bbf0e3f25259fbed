-- ===== src/Store/Memory/Laws.antt =====
-- The memory store is a log: its view of a key is the history under it.
use protosource.Prelude.{
  String, ◌≡◌, refl, ◌⊎◌, inl, inr, false, none, ◌++◌, arith, str_eq, eq_refl, if◌then◌else◌,
  Option-cases, List, eq_iff,
}
use protosource.Prelude.Dict.{lookup, lookup-insert}
use protosource.Repository.Types.{History, Record}
use protosource.Repository.Log.{IsLog}
use protosource.Store.Memory.{MemoryStore, history_or_new, save, load, write_through, memory_store}

unfoldable pub view : MemoryStore → String → History
view m key = history_or_new (lookup key m.events)

save_view :
    (key : String) (rs : List Record) (m : MemoryStore) (k : String)
    → view (save none key rs m).1 k ≡ (if str_eq key k then view m k ++ rs else view m k)
unfolding save view
save_view key rs m k =
    ground (
      arith,
      eq_iff key k,
      lookup-insert key k (history_or_new (lookup key m.events) ++ rs) m.events,
    )

save_other :
    (key k : String) (rs : History) (m : MemoryStore)
    → str_eq key k ≡ false
    → view (save none key rs m).1 k ≡ view m k
save_other key k rs m h = ground (arith, save_view key rs m k)

through_self :
    (key : String) (rs : History) (m : MemoryStore)
    → (view (write_through key rs m) key ≡ rs) ⊎ (view (write_through key rs m) key ≡ view m key)
unfolding write_through view
through_self key rs m = elim (Option-cases (lookup key m.events)) [
  | inl missing ↦ inr (ground arith)
  | inr (h, found) ↦ inl (ground (arith, lookup-insert key key rs m.events, eq_refl key))
]

through_other :
    (key k : String) (rs : History) (m : MemoryStore)
    → str_eq key k ≡ false
    → view (write_through key rs m) k ≡ view m k
unfolding write_through view
through_other key k rs m h = ground (arith, lookup-insert key k rs m.events)

-- The memory store is a log: in a live context, saving appends to the history of one key and loading
-- returns it; writing through the pointers of a loaded history reaches no other key.
pub memory_store-IsLog : {M : Type 0} → IsLog {M = M} memory_store view
unfolding load view save
memory_store-IsLog = record {
  load_result = λ key m. refl;
  load_view = λ key k m. refl;
  save_view = λ key rs m u done k. save_view key rs m k;
  save_other = save_other;
  through_self = through_self;
  through_other = through_other;
  put_view = λ put m s k has. cc;
  tail_result = λ tail key n s has positive. cc;
  tail_view = λ tail key k n s has. cc;
  tail_copies = λ tail key k rs s has. cc;
}
