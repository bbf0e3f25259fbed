-- ===== src/Store/Dynamo/Save.antt =====
-- `Save` of the DynamoDB store: what the batches leave of the items that were there, and of the
-- records.
use protosource.Prelude.{
  ℕ, zero, suc, ◌<◌, ◌≤◌, ◌≡◌, ◌≢◌, refl, sym, ap, subst, ◌∙◌, inl, inr, String, Option, none, some,
  List, [], ◌∷◌, arith, map, take, drop, take-drop, length, length-drop, All, All-append, All-imp,
  All-map, drop_all, two64,
}
use protosource.Prelude.Dict.{lookup}
use protosource.Error.{Error, ok, err}
use protosource.Repository.Types.{Record}
use protosource.Repository.Stored.{Result-cases}
use protosource.Dynamo.{Attribute, text, number, Item, Put, Client, Strconv}
use protosource.Store.Dynamo.{
  DynamoStore, new_version, item_to_record, max_transact_items, item_of, put_of, save_batches, save,
}

-- The primary key of an item of the table of events: the table, the aggregate's id and the version.
abbrev pub Key : Type 0
Key = String × (Option Attribute × Option Attribute)

abbrev pub key_of : Put → Key
key_of p = (p.table, (lookup "a" p.item, lookup "v" p.item))

-- What the documentation says of TransactWriteItems: all puts are made or none is; a put under a
-- condition that no item has its key fails where there is one; no item with another key changes.
pub record IsTransactional {S : Type 0} (client : Client S) : Type 0 where
  pub find : Key → S → Option Item
  pub stored :
      (puts : List Put) (s t : S)
      → client.transact_write puts s ≡ (ok tt, t)
      → All (λ p. find (key_of p) t ≡ some p.item) puts
  pub fresh :
      (puts : List Put) (s t : S)
      → client.transact_write puts s ≡ (ok tt, t)
      → All (λ p. p.condition ≡ new_version) puts
      → All (λ p. find (key_of p) s ≡ none) puts
  pub others :
      (puts : List Put) (key : Key) (s t : S)
      → client.transact_write puts s ≡ (ok tt, t)
      → All (λ p. key_of p ≢ key) puts
      → find key t ≡ find key s
  pub unmade :
      (puts : List Put) (key : Key) (s t : S) (e : Error)
      → client.transact_write puts s ≡ (err e, t)
      → find key t ≡ find key s

All-both {ℓ κ μ ν} :
    {A : Type ℓ} {P : A → Type κ} {Q : A → Type μ} {R : A → Type ν}
    → ((a : A) → P a → Q a → R a)
    → (xs : List A) → All P xs
    → All Q xs
    → All R xs
All-both step [] h k = tt
All-both step (x ∷ xs) (p, h) (q, k) = (step x p q, All-both step xs h k)

module _ (strconv : Strconv) (expiry : ℕ → ℕ) {S : Type 0} (client : Client S)
    (laws : IsTransactional client) (cfg : DynamoStore S) (id : String) where
  abbrev puts_of : List Record → List Put
  puts_of = map (put_of strconv expiry client cfg id)

  conditions : (rs : List Record) → All (λ p. p.condition ≡ new_version) (puts_of rs)
  unfolding put_of
  conditions [] = tt
  conditions (r ∷ rs) = (refl, conditions rs)

  transact_kept :
      (rs : List Record) (key : Key) (item : Item) (s : S)
      → laws.find key s ≡ some item
      → laws.find key (client.transact_write (puts_of rs) s).1 ≡ some item
  transact_kept rs key item s h =
      let t = (client.transact_write (puts_of rs) s).1 in
      elim (Result-cases (client.transact_write (puts_of rs) s).0) [
        | inr (e, failed) ↦ laws.unmade (puts_of rs) key s t e (ap (λ r. (r, t)) failed) ∙ h
        | inl (_, done) ↦
            let made : client.transact_write (puts_of rs) s ≡ (ok tt, t) = ap (λ r. (r, t)) done in
            laws.others (puts_of rs) key s t made (
              All-imp
                (λ p unused same. let clash = sym unused ∙ ap (λ k. laws.find k s) same ∙ h in cc)
                (puts_of rs) (laws.fresh (puts_of rs) s t made (conditions rs)))
            ∙ h
      ]

  batches_kept :
      (fuel : ℕ) (rs : List Record) (key : Key) (item : Item) (s : S)
      → laws.find key s ≡ some item
      → laws.find key (save_batches strconv expiry client cfg id fuel rs s).1 ≡ some item
  unfolding save_batches
  batches_kept zero rs key item s h = h
  batches_kept (suc fuel) [] key item s h = h
  batches_kept (suc fuel) (r ∷ rs) key item s h =
      let batch = take max_transact_items (r ∷ rs) in
      let answer = client.transact_write (puts_of batch) s in
      let kept = transact_kept batch key item s h in
      elim (Result-cases answer.0) [
        | inr (e, failed) ↦ rw (failed, save_batches) kept
        | inl (_, done) ↦
            rw (done, save_batches)
              (batches_kept fuel (drop max_transact_items (r ∷ rs)) key item answer.1 kept)
      ]

  -- `Save` never changes or removes an item that is there, also where it fails half-way.
  pub save-kept :
      (rs : List Record) (key : Key) (item : Item) (s : S)
      → laws.find key s ≡ some item
      → laws.find key (save strconv expiry client cfg none id rs s).1 ≡ some item
  unfolding save
  save-kept rs key item s h = batches_kept (length rs) rs key item s h

  batches_stored :
      (fuel : ℕ) (rs : List Record) (s t : S)
      → length rs ≤ fuel
      → save_batches strconv expiry client cfg id fuel rs s ≡ (ok tt, t)
      → All
          (λ r.
            laws.find (key_of (put_of strconv expiry client cfg id r)) t
            ≡ some (put_of strconv expiry client cfg id r).item)
          rs
  unfolding save_batches
  batches_stored zero [] s t h done = tt
  batches_stored zero (r ∷ rs) s t h done = absurd (omega arith)
  batches_stored (suc fuel) [] s t h done = tt
  batches_stored (suc fuel) (r ∷ rs) s t h done =
      let batch = take max_transact_items (r ∷ rs) in
      let others = drop max_transact_items (r ∷ rs) in
      let (answer, u) = client.transact_write (puts_of batch) s in
      elim (Result-cases answer) [
        | inr (e, failed) ↦
            absurd (let bad = ap (λ p. p.0) (rw (failed, save_batches) at done) in cc)
        | inl (_, made) ↦
            let rest : save_batches strconv expiry client cfg id fuel others u ≡ (ok tt, t) =
              rw (made, save_batches) at done in
            let now =
              All-map (put_of strconv expiry client cfg id)
                (λ p. laws.find (key_of p) u ≡ some p.item) batch
                (laws.stored (puts_of batch) s u (ap (λ a. (a, u)) made)) in
            let later =
              All-imp
                (λ x there.
                  ap (λ v. laws.find (key_of (put_of strconv expiry client cfg id x)) v)
                    (ap (λ p. p.1) (sym rest))
                  ∙ batches_kept fuel others _ _ u there)
                batch now in
            subst (All _) (take-drop max_transact_items (r ∷ rs)) (
              All-append _ batch others later (
                batches_stored fuel others u t
                  (omega (arith, length-drop max_transact_items (r ∷ rs))) rest))
      ]

  item_to_record-item_of :
      (r : Record)
      → strconv.parse_int (strconv.format_int r.version) ≡ ok r.version
      → item_to_record strconv expiry client (item_of strconv expiry client cfg id r)
        ≡ ok (record r { ttl = 0 })
  unfolding item_to_record item_of lookup
  item_to_record-item_of r h = rw h refl

  -- After a `Save` that succeeds, every record has an item under its id and version, which
  -- `itemToRecord` reads as the record without its time to live. ParseInt reads what FormatInt wrote;
  -- the number of the records is fuel enough for their batches.
  pub save-stored :
      (rs : List Record) (s t : S)
      → ((n : ℕ) → n < two64 → strconv.parse_int (strconv.format_int n) ≡ ok n)
      → All (λ r. r.version < two64) rs
      → save strconv expiry client cfg none id rs s ≡ (ok tt, t)
      → All
          (λ r.
            (item : Item) × (laws.find
                (cfg.events_table, (some (text id), some (number (strconv.format_int r.version))))
                t
              ≡ some item)
            × (item_to_record strconv expiry client item ≡ ok (record r { ttl = 0 })))
          rs
  unfolding save put_of item_of lookup
  save-stored rs s t reads bounds done =
      All-both
        (λ r there low. (
          item_of strconv expiry client cfg id r,
          there,
          item_to_record-item_of r (reads r.version low),
        ))
        rs (batches_stored (length rs) rs s t (omega arith) done) bounds

  no_batches : (fuel : ℕ) (s : S) → save_batches strconv expiry client cfg id fuel [] s ≡ (ok tt, s)
  unfolding save_batches
  no_batches zero s = refl
  no_batches (suc fuel) s = refl

  -- A `Save` of one batch at most that fails changes nothing.
  pub save-atomic :
      (rs : List Record) (key : Key) (s t : S) (e : Error)
      → length rs ≤ max_transact_items
      → save strconv expiry client cfg none id rs s ≡ (err e, t)
      → laws.find key t ≡ laws.find key s
  unfolding save save_batches
  save-atomic [] key s t e h failed = absurd (let bad = ap (λ p. p.0) failed in cc)
  save-atomic (r ∷ rs) key s t e h failed =
      let batch = take max_transact_items (r ∷ rs) in
      let (answer, u) = client.transact_write (puts_of batch) s in
      elim (Result-cases answer) [
        | inr (e', refused) ↦
            let same : u ≡ t = ap (λ p. p.1) (rw (refused, save, save_batches) at failed) in
            ap (laws.find key) (sym same)
            ∙ laws.unmade (puts_of batch) key s u e' (ap (λ a. (a, u)) refused)
        | inl (_, made) ↦
            let rest : save_batches strconv expiry client cfg id (length rs)
                  (drop max_transact_items (r ∷ rs)) u
                ≡ (err e, t) =
              rw (made, save, save_batches) at failed in
            let over =
              ap (λ l. save_batches strconv expiry client cfg id (length rs) l u)
                (drop_all max_transact_items (r ∷ rs) h) in
            absurd
              (let bad = ap (λ p. p.0) (sym (no_batches (length rs) u) ∙ sym over ∙ rest) in cc)
      ]
