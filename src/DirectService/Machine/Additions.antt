-- ===== src/DirectService/Machine/Additions.antt =====
-- The parts of an admission, each of which keeps the invariant of the machine: a new record, the
-- reservation of a prompt, a session, a task.
use acp_proxy.Prelude.{
  ℕ, zero, suc, ◌≤◌, ◌<◌, String, ℤ, pos, ◌≡◌, refl, sym, ◌∙◌, ap, Bool, true, false, ◌&&◌, none,
  some, is_some, Result, ok, err, arith, length, leb, if◌then◌else◌, inl, inr, Bool-cases, member,
  eq_iff,
}
use acp_proxy.Prelude.Dict.{lookup, insert, lookup-insert, length-insert_new}
use acp_proxy.DirectState.{DirectError, Identity, OperationRecord, operation_record, DirectSession}
use acp_proxy.DirectState.Ledger.{DirectLedger}
use acp_proxy.DirectService.State.{
  Work, scheduled, Service, Answer, on_admitted, schedule, increment, is_positive, queued_count,
}
use acp_proxy.DirectService.Touches.{Successor-refl}
use acp_proxy.DirectService.Settle.{release_prompt_reservation}
use acp_proxy.DirectService.Accounts.{
  is_prompt, outstanding, outstanding-insert_new, Unique-insert, release-Accounts,
  release-outstanding, release-ledger,
}
use acp_proxy.DirectService.Machine.Fits.{fits, Fit-new, Fit-insert}
use acp_proxy.DirectService.Machine.Ok.{Ok, Later, Later-refl, Progress, Progress-refl}

-- A handler that checks first.
pub Progress-check {ℓ} :
    {A : Type ℓ} (s : Service) (m : Result DirectError A) (k : A → Answer × Service)
    → Ok s
    → ((a : A) → m ≡ ok a → Progress s (k a).1)
    → Progress s (elim m as (λ _. Answer × Service) [ err e ↦ (err e, s) | ok a ↦ k a ]).1
Progress-check s (ok a) k good f = f a refl
Progress-check s (err e) k good f = Progress-refl s good

pub Progress-branch :
    (s : Service) (b : Bool) (x y : Answer × Service)
    → (b ≡ true → Progress s x.1)
    → (b ≡ false → Progress s y.1)
    → Progress s (if b then x else y).1
Progress-branch s true x y f g = f refl
Progress-branch s false x y f g = g refl

-- A ledger with a new record.
abbrev pub with_record : String → Identity → DirectLedger → DirectLedger
with_record id c l = record l { records = insert id (operation_record id c) l.records }

module _ (id : String) (c : Identity) (s : Service) (good : Ok s)
    (new : lookup id s.admitted.ledger.records ≡ none)
    (room : length s.admitted.ledger.records < s.admitted.ledger.max_operations) where
  Later-new :
      Later s.admitted.ledger.records (insert id (operation_record id c) s.admitted.ledger.records)
  Later-new = record {
    at = λ j r e. (
      r,
      ground (
        arith,
        lookup-insert id j (operation_record id c) s.admitted.ledger.records,
        eq_iff id j,
      ),
      Successor-refl r,
    );
  }

  unreleased : member id s.admitted.released_reservations ≡ false
  unreleased = elim (Bool-cases (member id s.admitted.released_reservations)) [
    | inl m ↦ absurd (ground (arith, good.accounts.known id m))
    | inr m ↦ m
  ]

  named_new :
      (j : String) (r : OperationRecord)
      → lookup j (insert id (operation_record id c) s.admitted.ledger.records) ≡ some r
      → r.operation_id ≡ j
  named_new j r e = ground (
    arith,
    lookup-insert id j (operation_record id c) s.admitted.ledger.records,
    eq_iff id j,
    good.named j r,
  )

  known_new :
      (j : String)
      → member j s.admitted.released_reservations ≡ true
      → is_some (lookup j (insert id (operation_record id c) s.admitted.ledger.records)) ≡ true
  known_new j m = ground (
    arith,
    lookup-insert id j (operation_record id c) s.admitted.ledger.records,
    good.accounts.known j m,
    eq_iff id j,
  )

  -- The record of an operation that is no prompt.
  pub record-Progress :
      is_prompt c.kind ≡ false
      → Progress s (on_admitted (λ g. record g { ledger = with_record id c s.admitted.ledger }) s)
  record-Progress other =
      let same : outstanding s.admitted.released_reservations
            (insert id (operation_record id c) s.admitted.ledger.records)
          ≡ outstanding s.admitted.released_reservations s.admitted.ledger.records =
        ground (
          arith,
          outstanding-insert_new s.admitted.released_reservations id (operation_record id c)
              s.admitted.ledger.records,
        ) in
      record {
        kept = refl;
        later = Later-new;
        ok = record {
          fit =
              Fit-new id (operation_record id c) s.admitted.execution_tasks
                s.admitted.ledger.records new good.fit;
          rest = record {
            closed = good.closed;
            accounts = record {
              unique =
                  Unique-insert id (operation_record id c) s.admitted.ledger.records
                    good.accounts.unique;
              counted = good.accounts.counted ∙ ap pos (sym same);
              known = known_new;
            };
            named = named_new;
            bound = good.bound;
            ledger_fits = ground (
              arith,
              length-insert_new id (operation_record id c) s.admitted.ledger.records new,
              good.bound,
            );
            sessions_fit = good.sessions_fit;
            queue_fits = rw same good.queue_fits;
          };
        };
      }

  -- The record and the reservation of a prompt that has room in the queue.
  pub reservation-Progress :
      is_prompt c.kind ≡ true
      → (is_positive s.admitted.prompt_reservations
          && leb s.limits.max_queued_prompts (queued_count s.admitted.prompt_reservations))
        ≡ false
      → Progress s (
          on_admitted
            (λ g. record g {
              ledger = with_record id c s.admitted.ledger;
              prompt_reservations = increment s.admitted.prompt_reservations;
            })
            s)
  reservation-Progress is fits_queue =
      let more : outstanding s.admitted.released_reservations
            (insert id (operation_record id c) s.admitted.ledger.records)
          ≡ suc (outstanding s.admitted.released_reservations s.admitted.ledger.records) =
        ground (
          arith,
          outstanding-insert_new s.admitted.released_reservations id (operation_record id c)
              s.admitted.ledger.records,
          unreleased,
        ) in
      record {
        kept = refl;
        later = Later-new;
        ok = record {
          fit =
              Fit-new id (operation_record id c) s.admitted.execution_tasks
                s.admitted.ledger.records new good.fit;
          rest = record {
            closed = good.closed;
            accounts = record {
              unique =
                  Unique-insert id (operation_record id c) s.admitted.ledger.records
                    good.accounts.unique;
              counted = ap increment good.accounts.counted ∙ ap pos (sym more);
              known = known_new;
            };
            named = named_new;
            bound = good.bound;
            ledger_fits = ground (
              arith,
              length-insert_new id (operation_record id c) s.admitted.ledger.records new,
              good.bound,
            );
            sessions_fit = good.sessions_fit;
            queue_fits = rw more (
                queue_room s.limits.max_queued_prompts s.admitted.prompt_reservations _
                  good.accounts.counted fits_queue);
          };
        };
      }
    where
      queue_room :
          (m : ℕ) (z : ℤ) (n : ℕ)
          → z ≡ pos n
          → (is_positive z && leb m (queued_count z)) ≡ false
          → suc n ≤ suc m
      queue_room m z zero e h = omega arith
      queue_room m z (suc n) e h = ground (arith, e)

-- The session of a new operation.
pub session-Progress :
    (sid : String) (d : DirectSession) (s : Service)
    → Ok s
    → lookup sid s.admitted.sessions ≡ none
    → length s.admitted.sessions < s.limits.max_sessions
    → Progress s (on_admitted (λ g. record g { sessions = insert sid d g.sessions }) s)
session-Progress sid d s good new room = record {
  kept = refl;
  later = Later-refl s.admitted.ledger.records;
  ok = record {
    fit = good.fit;
    rest = record {
      closed = good.closed;
      accounts = record {
        unique = good.accounts.unique;
        counted = good.accounts.counted;
        known = good.accounts.known;
      };
      named = good.named;
      bound = good.bound;
      ledger_fits = good.ledger_fits;
      sessions_fit = ground (arith, length-insert_new sid d s.admitted.sessions new);
      queue_fits = good.queue_fits;
    };
  };
}

-- The task of an operation that has its record.
pub schedule-Progress :
    (id : String) (w : Work) (s : Service) (r : OperationRecord)
    → Ok s
    → lookup id s.admitted.ledger.records ≡ some r
    → fits s.available
        (record { work = w; point = scheduled; dispatched = false; cancelled = false })
        r
      ≡ true
    → Progress s (on_admitted (schedule id w) s)
schedule-Progress id w s r good there fit = record {
  kept = refl;
  later = Later-refl s.admitted.ledger.records;
  ok = record {
    fit = Fit-insert id _ s.admitted.execution_tasks s.admitted.ledger.records r there fit good.fit;
    rest = record {
      closed = good.closed;
      accounts = record {
        unique = good.accounts.unique;
        counted = good.accounts.counted;
        known = good.accounts.known;
      };
      named = good.named;
      bound = good.bound;
      ledger_fits = good.ledger_fits;
      sessions_fit = good.sessions_fit;
      queue_fits = good.queue_fits;
    };
  };
}

-- The release of a prompt's reservation.
pub release-Progress :
    (id : String) (s : Service) (r : OperationRecord)
    → Ok s
    → lookup id s.admitted.ledger.records ≡ some r
    → is_prompt r.kind ≡ true
    → Progress s (on_admitted (λ g. (release_prompt_reservation id g).1) s)
release-Progress id s r good er is =
    let (ledger, sessions, tasks) = release-ledger id s.admitted in
    let a = (release-Accounts id s.admitted r good.accounts er is).1 in
    record {
      kept = refl;
      later = rw ledger (Later-refl s.admitted.ledger.records);
      ok = record {
        fit = rw (tasks, ledger) good.fit;
        rest = record {
          closed = good.closed;
          accounts = record { unique = a.unique; counted = a.counted; known = a.known };
          named = rw ledger good.named;
          bound = rw ledger good.bound;
          ledger_fits = rw ledger good.ledger_fits;
          sessions_fit = rw sessions good.sessions_fit;
          queue_fits = rw ledger (
              omega
                (arith, release-outstanding id s.admitted r good.accounts er is, good.queue_fits));
        };
      };
    }
