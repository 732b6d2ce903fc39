-- ===== src/DirectService/Accounts.antt =====
-- The accounting of prompt reservations: the counter of a generation is the number of its prompts that
-- have not released theirs.
use acp_proxy.Prelude.{
  ℕ, suc, ◌+◌, ◌≤◌, String, pos, ◌≡◌, refl, ap, ◌∙◌, Bool, true, false, not, ◌&&◌, none, some,
  is_some, inl, inr, Bool-cases, List, [], ◌∷◌, ok, member, arith, eq_iff, if◌then◌else◌,
}
use acp_proxy.Prelude.Dict.{Dict, lookup, insert, modify, lookup-insert, lookup-modify}
use acp_proxy.DirectState.{OperationKind, create, prompt, cancel, retire, OperationRecord}
use acp_proxy.DirectService.State.{Generation, on_record}
use acp_proxy.DirectService.Settle.{release_prompt_reservation}

abbrev pub is_prompt : OperationKind → Bool
is_prompt prompt = true
is_prompt create = false
is_prompt cancel = false
is_prompt retire = false

-- How many prompts of the ledger are not in `released`.
unfoldable pub outstanding : List String → Dict OperationRecord → ℕ
outstanding released [] = 0
outstanding released ((id, r) ∷ d) =
    (if is_prompt r.kind && not (member id released) then 1 else 0) + outstanding released d

-- No key stands twice in a dictionary.
abbrev pub Unique {ℓ} : {V : Type ℓ} → Dict V → Type ℓ
Unique [] = Unit
Unique ((k, v) ∷ d) = (lookup k d ≡ none) × Unique d

-- A mutation that leaves the kind alone.
abbrev pub KeepsKind : (OperationRecord → OperationRecord) → Type 0
KeepsKind f = (r : OperationRecord) → (f r).kind ≡ r.kind

pub Unique-modify {ℓ} :
    {V : Type ℓ} (k : String) (f : V → V) (d : Dict V) → Unique d → Unique (modify k f d)
unfolding modify
Unique-modify k f [] u = u
Unique-modify k f ((j, v) ∷ d) u =
    ground (arith, Unique-modify k f d, lookup-modify k j f d, eq_iff k j, eq_iff j k)

pub Unique-insert {ℓ} :
    {V : Type ℓ} (k : String) (v : V) (d : Dict V) → Unique d → Unique (insert k v d)
unfolding insert lookup
Unique-insert k v [] u = (refl, tt)
Unique-insert k v ((j, w) ∷ d) u =
    ground (arith, Unique-insert k v d, lookup-insert k j v d, eq_iff k j, eq_iff j k)

pub outstanding-modify :
    (released : List String) (k : String) (f : OperationRecord → OperationRecord)
    (d : Dict OperationRecord)
    → KeepsKind f
    → outstanding released (modify k f d) ≡ outstanding released d
unfolding outstanding modify
outstanding-modify released k f [] h = refl
outstanding-modify released k f ((j, r) ∷ d) h =
    ground (arith, h r, outstanding-modify released k f d h)

pub outstanding-insert_new :
    (released : List String) (k : String) (r : OperationRecord) (d : Dict OperationRecord)
    → lookup k d ≡ none
    → outstanding released (insert k r d)
      ≡ outstanding released d + (if is_prompt r.kind && not (member k released) then 1 else 0)
unfolding outstanding insert lookup
outstanding-insert_new released k r [] h = ground arith
outstanding-insert_new released k r ((j, s) ∷ d) h =
    ground (arith, outstanding-insert_new released k r d, eq_iff j k)

-- An id that the dictionary does not have counts for nothing.
outstanding_absent :
    (released : List String) (k : String) (d : Dict OperationRecord)
    → lookup k d ≡ none
    → outstanding (k ∷ released) d ≡ outstanding released d
unfolding outstanding lookup
outstanding_absent released k [] h = refl
outstanding_absent released k ((j, r) ∷ d) h =
    ground (arith, outstanding_absent released k d, eq_iff j k, eq_iff k j)

-- The release of a prompt takes one away.
outstanding_release :
    (released : List String) (k : String) (d : Dict OperationRecord) (r : OperationRecord)
    → Unique d
    → lookup k d ≡ some r
    → is_prompt r.kind ≡ true
    → member k released ≡ false
    → outstanding (k ∷ released) d + 1 ≡ outstanding released d
unfolding outstanding lookup
outstanding_release released k [] r u h q m = cc
outstanding_release released k ((j, s) ∷ d) r u h q m = ground (
  arith,
  outstanding_release released k d r u.1,
  outstanding_absent released k d,
  eq_iff j k,
  eq_iff k j,
)

pub record Accounts (g : Generation) : Type 0 where
  pub unique : Unique g.ledger.records
  pub counted : g.prompt_reservations ≡ pos (outstanding g.released_reservations g.ledger.records)
  pub known :
      (id : String)
      → member id g.released_reservations ≡ true
      → is_some (lookup id g.ledger.records) ≡ true

-- A mutation of a record keeps the accounts.
pub on_record-Accounts :
    (id : String) (f : OperationRecord → OperationRecord) (g : Generation)
    → KeepsKind f
    → Accounts g
    → Accounts (on_record id f g)
on_record-Accounts id f g h a = record {
  unique = Unique-modify id f g.ledger.records a.unique;
  counted = rw (outstanding-modify g.released_reservations id f g.ledger.records h) a.counted;
  known = λ j m. ground (arith, a.known j m, lookup-modify id j f g.ledger.records, eq_iff id j);
}

-- The release of a prompt of the ledger never takes the counter below zero, and keeps the accounts.
pub release-Accounts :
    (id : String) (g : Generation) (r : OperationRecord)
    → Accounts g
    → lookup id g.ledger.records ≡ some r
    → is_prompt r.kind ≡ true
    → ((release_prompt_reservation id g).0 ≡ ok tt) × Accounts (release_prompt_reservation id g).1
unfolding release_prompt_reservation
release-Accounts id g r a h k = elim (Bool-cases (member id g.released_reservations)) [
  | inl again ↦ rw again (refl, a)
  | inr first ↦
      let left = outstanding (id ∷ g.released_reservations) g.ledger.records in
      let before : g.prompt_reservations ≡ pos (suc left) =
        a.counted
        ∙ ap pos (
            omega (
              arith,
              outstanding_release g.released_reservations id g.ledger.records r a.unique h k first,
            )) in
      rw first (
        ground (arith, before),
        record {
          unique = a.unique;
          counted = ground (arith, before);
          known = λ j m. ground (arith, a.known j, eq_iff id j, h);
        },
      )
]

-- A release leaves the ledger, the sessions and the tasks.
pub release-ledger :
    (id : String) (g : Generation)
    → ((release_prompt_reservation id g).1.ledger ≡ g.ledger)
      × ((release_prompt_reservation id g).1.sessions ≡ g.sessions)
      × ((release_prompt_reservation id g).1.execution_tasks ≡ g.execution_tasks)
unfolding release_prompt_reservation
release-ledger id g = ground arith

pub release-outstanding :
    (id : String) (g : Generation) (r : OperationRecord)
    → Accounts g
    → lookup id g.ledger.records ≡ some r
    → is_prompt r.kind ≡ true
    → outstanding (release_prompt_reservation id g).1.released_reservations g.ledger.records
      ≤ outstanding g.released_reservations g.ledger.records
unfolding release_prompt_reservation
release-outstanding id g r a h k = elim (Bool-cases (member id g.released_reservations)) [
  | inl again ↦ rw again (omega arith)
  | inr first ↦ rw first (
      omega (
        arith,
        outstanding_release g.released_reservations id g.ledger.records r a.unique h k first,
      ))
]
