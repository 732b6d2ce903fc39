-- ===== src/DirectService/Refused.antt =====
-- Handlers that check first: what holds of the answer and the service that they leave.
use acp_proxy.Prelude.{◌≡◌, refl, Bool, true, false, Result, ok, err, if◌then◌else◌}
use acp_proxy.DirectState.{DirectError}
use acp_proxy.DirectService.State.{Service, Answer}

module _ (P : Answer × Service → Type 0) where
  pub by_check {ℓ} :
      {A : Type ℓ} (s : Service) (m : Result DirectError A) (k : A → Answer × Service)
      → ((e : DirectError) → P (err e, s))
      → ((a : A) → m ≡ ok a → P (k a))
      → P (elim m as (λ _. Answer × Service) [ err e ↦ (err e, s) | ok a ↦ k a ])
  by_check s (ok a) k g f = f a refl
  by_check s (err x) k g f = g x

  pub by_branch :
      (b : Bool) (x y : Answer × Service)
      → (b ≡ true → P x)
      → (b ≡ false → P y)
      → P (if b then x else y)
  by_branch true x y f g = f refl
  by_branch false x y f g = g refl

-- Where the answer is an error, the service is `s`.
abbrev pub Refuses : Service → Answer × Service → Type 0
Refuses s x = (e : DirectError) → x.0 ≡ err e → x.1 ≡ s

pub Refuses-check {ℓ} :
    {A : Type ℓ} (s : Service) (m : Result DirectError A) (k : A → Answer × Service)
    → ((a : A) → m ≡ ok a → Refuses s (k a))
    → Refuses s (elim m as (λ _. Answer × Service) [ err e ↦ (err e, s) | ok a ↦ k a ])
Refuses-check s m k f = by_check (Refuses s) s m k (λ x e h. refl) f
