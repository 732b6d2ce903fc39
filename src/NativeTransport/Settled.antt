-- ===== src/NativeTransport/Settled.antt =====
-- How requests settle in a transport, and what every operation keeps.
use acp_proxy.Prelude.{
  ℕ, ◌≡◌, refl, ◌∙◌, Bool, true, not, ◌&&◌, ◌||◌, Option, none, some, is_some, List, [], ◌∷◌, leb,
  if◌then◌else◌, String, arith, Option-cases, inl, inr, ◌⊎◌,
}
use acp_proxy.NativeTransport.State.{
  TransportError, text_of, Future, is_done, PendingRequest, Transport, find, update, each, revoke,
}
use acp_proxy.NativeTransport.Requests.{
  KeepsId, find-update, find-each, every, every-find, every-update, every-each,
}

-- A settled request is not pending; one that is sent and not settled is.
abbrev pub right : PendingRequest → Bool
right r = if is_done r.future then not r.pending else r.pending || not r.sent

abbrev pub revoked : Transport → Bool
revoked t = is_some t.failure || t.stopping

abbrev pub fits_one : Bool → ℕ → PendingRequest → Bool
fits_one over last r = right r && leb r.id last && (not over || not r.pending)

-- What the handlers in `_closed` have been told of a failure.
abbrev pub told_of : Option TransportError → List String
told_of none = []
told_of (some e) = text_of e ∷ []

pub record Fits (t : Transport) : Type 0 where
  pub each_fits : every (fits_one (revoked t) t.next_id) t.requests ≡ true
  pub told : t.closures ≡ told_of t.failure

abbrev pub future_of : Option PendingRequest → Option Future
future_of none = none
future_of (some r) = some r.future

abbrev pub future_at : ℕ → Transport → Option Future
future_at n t = future_of (find n t.requests)

-- What is there still of a transport.
pub record Kept (t u : Transport) : Type 0 where
  pub first_failure : (e : TransportError) → t.failure ≡ some e → u.failure ≡ some e
  pub still_stopping : t.stopping ≡ true → u.stopping ≡ true
  pub still_settled :
      (n : ℕ) (f : Future) → future_at n t ≡ some f → is_done f ≡ true → future_at n u ≡ some f

-- An operation on a transport that fits.
pub record Moves (t u : Transport) : Type 0 where
  pub fits : Fits t → Fits u
  pub kept : Fits t → Kept t u

pub Moves-then : {t u v : Transport} → Moves t u → Moves u v → Moves t v
Moves-then a b = record {
  fits = λ h. b.fits (a.fits h);
  kept = λ h.
      let k = a.kept h in
      let l = b.kept (a.fits h) in
      record {
        first_failure = λ e p. l.first_failure e (k.first_failure e p);
        still_stopping = λ p. l.still_stopping (k.still_stopping p);
        still_settled = λ n f p d. l.still_settled n f (k.still_settled n f p d) d;
      };
}

-- An operation that leaves the requests, the failure and the stopping alone.
pub Moves-same :
    (t u : Transport)
    → u.requests ≡ t.requests
    → u.next_id ≡ t.next_id
    → u.failure ≡ t.failure
    → u.stopping ≡ t.stopping
    → u.closures ≡ t.closures
    → Moves t u
Moves-same t u rs n f s c = record {
  fits = λ h. record { each_fits = rw (rs, n, f, s) h.each_fits; told = rw (c, f) h.told };
  kept = λ h. record {
    first_failure = λ e p. f ∙ p;
    still_stopping = λ p. s ∙ p;
    still_settled = λ k g p d. rw rs p;
  };
}

pub Moves_none : (t : Transport) → Moves t t
Moves_none t = Moves-same t t refl refl refl refl refl

-- A change of one request, which keeps what is settled.
pub Moves-update :
    (n : ℕ) (f : PendingRequest → PendingRequest) (t : Transport)
    → KeepsId f
    → ((r : PendingRequest) → find n t.requests ≡ some r → right r ≡ true → right (f r) ≡ true)
    → ((r : PendingRequest) → (f r).pending ≡ true → r.pending ≡ true)
    → ((r : PendingRequest)
        → find n t.requests ≡ some r
        → right r ≡ true
        → is_done r.future ≡ true
        → (f r).future ≡ r.future)
    → Moves t (record t { requests = update n f t.requests })
Moves-update n f t id_kept keeps_right never_pending keeps_done = record {
  fits = λ h. record {
    each_fits =
        every-update (fits_one (revoked t) t.next_id) n f t.requests
          (λ r found p. ground (arith, keeps_right r found, id_kept r, never_pending r))
          h.each_fits;
    told = h.told;
  };
  kept = λ h. record {
    first_failure = λ e p. p;
    still_stopping = λ p. p;
    still_settled = λ k g p d. settled_update k g h p d (Option-cases (find k t.requests));
  };
}
  where
    settled_update :
        (k : ℕ) (g : Future)
        → Fits t
        → future_at k t ≡ some g
        → is_done g ≡ true
        → (find k t.requests ≡ none) ⊎ ((r : PendingRequest) × (find k t.requests ≡ some r))
        → future_of (find k (update n f t.requests)) ≡ some g
    settled_update k g h p d (inl e) = ground (arith, find-update n k f t.requests id_kept)
    settled_update k g h p d (inr (r, e)) = ground (
      arith,
      find-update n k f t.requests id_kept,
      keeps_done r,
      every-find (fits_one (revoked t) t.next_id) k t.requests r h.each_fits,
    )

revoke_fits :
    (e : TransportError) (over : Bool) (last : ℕ) (r : PendingRequest)
    → fits_one over last r ≡ true
    → fits_one true last (revoke e r) ≡ true
revoke_fits e over last r h = ground arith

-- The end of every request that is pending.
pub Moves-revoke :
    (e : TransportError) (t u : Transport)
    → u.requests ≡ each (revoke e) t.requests
    → u.next_id ≡ t.next_id
    → ((x : TransportError) → t.failure ≡ some x → u.failure ≡ some x)
    → (t.stopping ≡ true → u.stopping ≡ true)
    → revoked u ≡ true
    → (Fits t → u.closures ≡ told_of u.failure)
    → Moves t u
Moves-revoke e t u rs n f s over told = record {
  fits = λ h. record {
    each_fits =
        rw (rs, n, over)
          (every-each (fits_one (revoked t) t.next_id) (fits_one true t.next_id) (revoke e)
            t.requests (λ r p. revoke_fits e (revoked t) t.next_id r p) h.each_fits);
    told = told h;
  };
  kept = λ h. record {
    first_failure = f;
    still_stopping = s;
    still_settled = λ k g p d. rw rs (settled_revoke k g h p d (Option-cases (find k t.requests)));
  };
}
  where
    keeps : KeepsId (revoke e)
    keeps r = ground arith

    settled_revoke :
        (k : ℕ) (g : Future)
        → Fits t
        → future_at k t ≡ some g
        → is_done g ≡ true
        → (find k t.requests ≡ none) ⊎ ((r : PendingRequest) × (find k t.requests ≡ some r))
        → future_of (find k (each (revoke e) t.requests)) ≡ some g
    settled_revoke k g h p d (inl e') = ground (arith, find-each k (revoke e) t.requests keeps)
    settled_revoke k g h p d (inr (r, e')) = ground (
      arith,
      find-each k (revoke e) t.requests keeps,
      every-find (fits_one (revoked t) t.next_id) k t.requests r h.each_fits,
    )
