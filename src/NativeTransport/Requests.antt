-- ===== src/NativeTransport/Requests.antt =====
-- The laws of the requests of a transport by their ids.
use acp_proxy.Prelude.{
  ℕ, ◌≡◌, refl, Bool, true, some, List, [], ◌∷◌, eqb, ◌&&◌, Bool-cases, inl, inr, if◌then◌else◌,
  arith,
}
use acp_proxy.Prelude.Dict.{map_option}
use acp_proxy.NativeTransport.State.{PendingRequest, find, update, each}

abbrev pub KeepsId : (PendingRequest → PendingRequest) → Type 0
KeepsId f = (r : PendingRequest) → (f r).id ≡ r.id

pub find-update :
    (n k : ℕ) (f : PendingRequest → PendingRequest) (rs : List PendingRequest)
    → KeepsId f
    → find k (update n f rs) ≡ (if eqb n k then map_option f (find k rs) else find k rs)
unfolding find update
find-update n k f [] keeps = ground arith
find-update n k f (r ∷ rs) keeps = ground (arith, keeps r, find-update n k f rs keeps)

pub find-each :
    (k : ℕ) (f : PendingRequest → PendingRequest) (rs : List PendingRequest)
    → KeepsId f
    → find k (each f rs) ≡ map_option f (find k rs)
unfolding find each
find-each k f [] keeps = refl
find-each k f (r ∷ rs) keeps = ground (arith, keeps r, find-each k f rs keeps)

pub find_id :
    (n : ℕ) (rs : List PendingRequest) (r : PendingRequest) → find n rs ≡ some r → r.id ≡ n
unfolding find
find_id n [] r h = cc
find_id n (s ∷ rs) r h = ground (arith, find_id n rs r)

abbrev pub every : (PendingRequest → Bool) → List PendingRequest → Bool
every p [] = true
every p (r ∷ rs) = p r && every p rs

pub every-find :
    (p : PendingRequest → Bool) (n : ℕ) (rs : List PendingRequest) (r : PendingRequest)
    → every p rs ≡ true
    → find n rs ≡ some r
    → p r ≡ true
unfolding find
every-find p n [] r all h = absurd (cc)
every-find p n (s ∷ rs) r all h = ground (arith, every-find p n rs r)

-- A change of the request that an id finds, which keeps what holds of all.
pub every-update :
    (p : PendingRequest → Bool) (n : ℕ) (f : PendingRequest → PendingRequest)
    (rs : List PendingRequest)
    → ((r : PendingRequest) → find n rs ≡ some r → p r ≡ true → p (f r) ≡ true)
    → every p rs ≡ true
    → every p (update n f rs) ≡ true
unfolding find update
every-update p n f [] keeps all = refl
every-update p n f (r ∷ rs) keeps all = elim (Bool-cases (eqb r.id n)) [
  | inl here ↦ rw here (ground (arith, keeps r (rw here)))
  | inr later ↦
      rw later (ground (arith, every-update p n f rs (λ s found. keeps s (rw later found))))
]

pub every-each :
    (p q : PendingRequest → Bool) (f : PendingRequest → PendingRequest) (rs : List PendingRequest)
    → ((r : PendingRequest) → p r ≡ true → q (f r) ≡ true)
    → every p rs ≡ true
    → every q (each f rs) ≡ true
unfolding each
every-each p q f [] keeps all = refl
every-each p q f (r ∷ rs) keeps all = ground (arith, keeps r, every-each p q f rs keeps)

pub update-update :
    (n : ℕ) (f g : PendingRequest → PendingRequest) (rs : List PendingRequest)
    → KeepsId f
    → update n g (update n f rs) ≡ update n (λ r. g (f r)) rs
unfolding update
update-update n f g [] keeps = refl
update-update n f g (r ∷ rs) keeps = ground (arith, keeps r, update-update n f g rs keeps)
