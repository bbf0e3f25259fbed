-- ===== src/Generator/Structure.antt =====
-- `validateFileStructure` against what it promises of a file.
use protosource.Prelude.{
  ℕ, ◌≤◌, String, ◌≡◌, ◌≢◌, ◌↔◌, ◌⊎◌, inl, inr, refl, sym, ap, ◌∙◌, Bool, true, false, not, none,
  some, List, [], ◌∷◌, ◌++◌, ltb, ◌==◌, arith, eq_iff, Bool-cases, All, if◌then◌else◌,
}
use protosource.Error.{Error, ok, err}
use protosource.Generator.{
  Field, Message, is_listed, others_of, count, aggregate, creates, first_is_aggregate,
  is_mutation_event, creation_command, creation_events, all_mutation_events, has_id,
  projections_have_id, validate_file_structure,
}

abbrev pub Any {ℓ} : {A : Type ℓ} → (A → Type 0) → List A → Type 0
Any holds [] = ⊥
Any holds (x ∷ xs) = holds x ⊎ Any holds xs

abbrev pub AllButFirst : (String → Type 0) → List String → Type 0
AllButFirst holds [] = Unit
AllButFirst holds (name ∷ names) = All holds names

abbrev pub AtMostOne : (Message → Type 0) → List Message → Type 0
AtMostOne holds [] = Unit
AtMostOne holds (m ∷ messages) =
    ((¬ holds m) ⊎ All (λ n. ¬ holds n) messages) × AtMostOne holds messages

abbrev pub IsCreation : Message → Type 0
IsCreation m = (m.is_command ≡ true) × (m.lifecycle ≡ "CREATION")

-- Some command that does not create lists the event.
abbrev pub IsMutated : List Message → String → Type 0
IsMutated messages name =
    Any (λ m. (m.is_command ≡ true) × (m.lifecycle ≢ "CREATION") × Any (λ n. n ≡ name) m.produces)
      messages

abbrev pub IsIdentified : Message → Type 0
IsIdentified m = (m.is_projection ≡ false) ⊎ Any (λ f. f.name ≡ "id") m.fields

-- A file that the generator takes: an aggregate and then messages that are none; one command that
-- creates, each of whose events but the first another command produces too; one snapshot at most; and
-- an id in every projection.
pub record IsStructured (messages : List Message) : Type 0 where
  pub root : Message
  pub others : List Message
  pub parts : messages ≡ root ∷ others
  pub first : root.is_aggregate ≡ true
  pub rest : All (λ m. m.is_aggregate ≡ false) others
  pub creator : Message
  pub before : List Message
  pub after : List Message
  pub around : messages ≡ before ++ creator ∷ after
  pub creation : IsCreation creator
  pub none_before : All (λ m. ¬ IsCreation m) before
  pub none_after : All (λ m. ¬ IsCreation m) after
  pub events : AllButFirst (IsMutated messages) creator.produces
  pub snapshots : AtMostOne (λ m. m.is_snapshot ≡ true) messages
  pub identified : All IsIdentified messages

no_aggregates :
    (messages : List Message)
    → (count aggregate messages ≡ 0) ↔ All (λ m. m.is_aggregate ≡ false) messages
unfolding count
no_aggregates [] = ground arith
no_aggregates (m ∷ messages) = ground (arith, no_aggregates messages)

creates_iff : (m : Message) → (creates m ≡ true) ↔ IsCreation m
creates_iff m = ground (arith, eq_iff m.lifecycle "CREATION")

no_creations :
    (messages : List Message) → (count creates messages ≡ 0) ↔ All (λ m. ¬ IsCreation m) messages
unfolding count
no_creations [] = ground arith
no_creations (m ∷ messages) = ground (arith, no_creations messages, creates_iff m)

no_snapshots :
    (messages : List Message)
    → (count (λ m. m.is_snapshot) messages ≡ 0) ↔ All (λ m. ¬ (m.is_snapshot ≡ true)) messages
unfolding count
no_snapshots [] = ground arith
no_snapshots (m ∷ messages) = ground (arith, no_snapshots messages)

one_snapshot :
    (messages : List Message)
    → (count (λ m. m.is_snapshot) messages ≤ 1) ↔ AtMostOne (λ m. m.is_snapshot ≡ true) messages
unfolding count
one_snapshot [] = ground arith
one_snapshot (m ∷ messages) = ground (arith, one_snapshot messages, no_snapshots messages)

creation_command-none :
    (messages : List Message)
    → All (λ m. ¬ IsCreation m) messages
    → creation_command messages ≡ none
unfolding creation_command
creation_command-none [] h = refl
creation_command-none (m ∷ messages) (h, hs) =
    rw (creation_command-none messages hs, creation_command) (ground (arith, creates_iff m))

-- The command that the loop keeps, and the count, where one command creates.
creation_command-one :
    (before : List Message) (creator : Message) (after : List Message)
    → All (λ m. ¬ IsCreation m) before
    → IsCreation creator
    → All (λ m. ¬ IsCreation m) after
    → (count creates (before ++ creator ∷ after) ≡ 1)
      × (creation_command (before ++ creator ∷ after) ≡ some creator)
unfolding count creation_command
creation_command-one [] creator after h c k = (
  ground (arith, no_creations after, creates_iff creator),
  rw (creation_command-none after k, creation_command) (ground (arith, creates_iff creator)),
)
creation_command-one (m ∷ before) creator after (h, hs) c k =
    let (size, found) = creation_command-one before creator after hs c k in
    (ground (arith, creates_iff m), rw (found, creation_command) refl)

one-IsCreation :
    (messages : List Message)
    → count creates messages ≡ 1
    → (before : List Message) × (creator : Message) × (after : List Message) × (messages
        ≡ before ++ creator ∷ after)
      × All (λ m. ¬ IsCreation m) before
      × IsCreation creator
      × All (λ m. ¬ IsCreation m) after
unfolding count
one-IsCreation [] h = absurd (omega arith)
one-IsCreation (m ∷ messages) h = elim (Bool-cases (creates m)) [
  | inl here ↦ (
    [],
    m,
    messages,
    refl,
    tt,
    (creates_iff m).0 here,
    (no_creations messages).0 (ground (arith, here)),
  )
  | inr later ↦
      let (before, creator, after, e, hs, c, k) = one-IsCreation messages (rw later at h) in
      (
        m ∷ before,
        creator,
        after,
        ap (◌∷◌ m) e,
        ((λ c'. let bad : true ≡ false = sym ((creates_iff m).1 c') ∙ later in cc), hs),
        c,
        k,
      )
]

is_listed_iff :
    (name : String) (names : List String)
    → (is_listed name names ≡ true) ↔ Any (λ n. n ≡ name) names
unfolding is_listed
is_listed_iff name [] = ground arith
is_listed_iff name (n ∷ names) = ground (arith, is_listed_iff name names, eq_iff n name)

is_mutation_event_iff :
    (name : String) (messages : List Message)
    → (is_mutation_event name messages ≡ true) ↔ IsMutated messages name
unfolding is_mutation_event
is_mutation_event_iff name [] = ground arith
is_mutation_event_iff name (m ∷ messages) = ground (
  arith,
  is_mutation_event_iff name messages,
  is_listed_iff name m.produces,
  eq_iff m.lifecycle "CREATION",
)

all_listed :
    (names : List String) (messages : List Message)
    → (all_mutation_events names messages ≡ true) ↔ All (IsMutated messages) names
unfolding all_mutation_events
all_listed [] messages = ground arith
all_listed (name ∷ names) messages =
    ground (arith, all_listed names messages, is_mutation_event_iff name messages)

has_id_iff : (fields : List Field) → (has_id fields ≡ true) ↔ Any (λ f. f.name ≡ "id") fields
unfolding has_id
has_id_iff [] = ground arith
has_id_iff (f ∷ fields) = ground (arith, has_id_iff fields, eq_iff f.name "id")

all-IsIdentified :
    (messages : List Message) → (projections_have_id messages ≡ true) ↔ All IsIdentified messages
unfolding projections_have_id
all-IsIdentified [] = ground arith
all-IsIdentified (m ∷ messages) = ground (arith, all-IsIdentified messages, has_id_iff m.fields)

all_but_first :
    (creator : Message) (messages : List Message)
    → (all_mutation_events (creation_events (some creator)) messages ≡ true)
      ↔ AllButFirst (IsMutated messages) creator.produces
all_but_first creator messages = go creator.produces
  where
    go :
        (produces : List String)
        → (all_mutation_events (others_of produces) messages ≡ true)
          ↔ AllButFirst (IsMutated messages) produces
    go [] = all_listed [] messages
    go (name ∷ names) = all_listed names messages

-- The chain of checks, each with its error.
checks :
    (a c n : ℕ) (f e p : Bool) (e1 e2 e3 e4 e5 e6 e7 : Error)
    → ((if a == 0
          then err e1
          else if ltb 1 a
          then err e2
          else if not f
          then err e3
          else if not (c == 1)
          then err e4
          else if not e
          then err e5
          else if ltb 1 n
          then err e6
          else if not p
          then err e7
          else ok tt)
        ≡ ok (tt {0}))
      ↔ ((a ≡ 1) × (f ≡ true) × (c ≡ 1) × (e ≡ true) × (n ≤ 1) × (p ≡ true))
checks a c n f e p e1 e2 e3 e4 e5 e6 e7 = ground arith

one_first :
    (messages : List Message)
    → count aggregate messages ≡ 1
    → first_is_aggregate messages ≡ true
    → (root : Message) × (others : List Message) × (messages ≡ root ∷ others)
      × (root.is_aggregate ≡ true)
      × All (λ m. m.is_aggregate ≡ false) others
unfolding count
one_first [] h k = absurd (omega arith)
one_first (m ∷ messages) h k = (m, messages, refl, k, (no_aggregates messages).0 (ground arith))

one_aggregate :
    (root : Message) (others : List Message)
    → root.is_aggregate ≡ true
    → All (λ m. m.is_aggregate ≡ false) others
    → count aggregate (root ∷ others) ≡ 1
unfolding count
one_aggregate root others h k = let rest = (no_aggregates others).1 k in ground arith

-- `validateFileStructure` accepts a file exactly when it is structured: an aggregate first and no
-- other, one command that creates, each of whose events but the first a command that does not create
-- produces too, one snapshot at most, and an id in every projection.
pub validate_file_structure_iff :
    (messages : List Message) → (validate_file_structure messages ≡ ok tt) ↔ IsStructured messages
unfolding validate_file_structure
validate_file_structure_iff messages =
    let steps =
      checks (count aggregate messages) (count creates messages)
        (count (λ m. m.is_snapshot) messages) (first_is_aggregate messages)
        (all_mutation_events (creation_events (creation_command messages)) messages)
        (projections_have_id messages) _ _ _ _ _ _ _ in
    (
      λ h.
          let (a, f, c, e, n, p) = steps.0 h in
          let (root, others, parts, first, rest) = one_first messages a f in
          let (before, creator, after, around, hs, creation, k) = one-IsCreation messages c in
          let chosen : creation_command messages ≡ some creator =
            rw around (creation_command-one before creator after hs creation k).1 in
          record {
            root = root;
            others = others;
            parts = parts;
            first = first;
            rest = rest;
            creator = creator;
            before = before;
            after = after;
            around = around;
            creation = creation;
            none_before = hs;
            none_after = k;
            events = (all_but_first creator messages).0 (rw chosen at e);
            snapshots = (one_snapshot messages).0 n;
            identified = (all-IsIdentified messages).0 p;
          },
      λ h.
          let (size, chosen) =
            creation_command-one h.before h.creator h.after h.none_before h.creation h.none_after in
          steps.1 (
            ap (count aggregate) h.parts ∙ one_aggregate h.root h.others h.first h.rest,
            ap first_is_aggregate h.parts ∙ h.first,
            ap (count creates) h.around ∙ size,
            ap (λ c. all_mutation_events (creation_events c) messages)
                  (ap creation_command h.around ∙ chosen)
                ∙ (all_but_first h.creator messages).1 h.events,
            (one_snapshot messages).1 h.snapshots,
            (all-IsIdentified messages).1 h.identified,
          ),
    )
