-- ===== src/Discovery/Better.antt =====
-- What the key of `_select_best_binary` of discovery.py is to order: by version, then by path.
use acp_proxy.Prelude.{◌≡◌, true, false, [], ◌∷◌, arith, Bool-cases, inl, inr, ◌<◌, ◌⊎◌, ltb}
use acp_proxy.NativeTransport.Frames.{Bytes}
use acp_proxy.Discovery.{Version, BinaryAdmission}
use acp_proxy.Discovery.Select.{key_before, before}
use acp_proxy.Discovery.Order.{not_before-eq}

-- v is a higher version than w.
abbrev pub Higher : Version → Version → Type 0
Higher v w = (w.0 < v.0) ⊎ (w.0 ≡ v.0) × (w.1 < v.1) ⊎ (w.0 ≡ v.0) × (w.1 ≡ v.1) × (w.2 < v.2)

-- xs is before ys as texts are ordered: by their first difference, or a prefix of it.
abbrev pub Before : Bytes → Bytes → Type 0
Before xs [] = ⊥
Before [] (y ∷ ys) = Unit
Before (x ∷ xs) (y ∷ ys) = (x < y) ⊎ (x ≡ y) × Before xs ys

-- a has a higher version than b, or the same and a path that is not after that of b.
abbrev pub Better : BinaryAdmission → BinaryAdmission → Type 0
Better a b =
    Higher a.version b.version
    ⊎ (a.version ≡ b.version) × ((a.path ≡ b.path) ⊎ Before a.path b.path)

before-Before : (xs ys : Bytes) → before xs ys ≡ true → Before xs ys
unfolding before
before-Before xs [] h = cc
before-Before [] (y ∷ ys) h = tt
before-Before (x ∷ xs) (y ∷ ys) h = elim (Bool-cases (ltb x y)) [
  | inl less ↦ inl (ground (arith, less))
  | inr other ↦ inr (ground (arith, h, other), before-Before xs ys (ground (arith, h, other)))
]

not_after-Before : (xs ys : Bytes) → before ys xs ≡ false → (xs ≡ ys) ⊎ Before xs ys
not_after-Before xs ys h = elim (Bool-cases (before xs ys)) [
  | inl less ↦ inr (before-Before xs ys less)
  | inr other ↦ inl (not_before-eq xs ys other h)
]

pub key_before-Better : (a b : BinaryAdmission) → key_before b a ≡ false → Better a b
key_before-Better a b h = elim (Bool-cases (ltb b.version.0 a.version.0)) [
  | inl major ↦ inl (inl (ground (arith, major)))
  | inr same_major ↦ elim (Bool-cases (ltb b.version.1 a.version.1)) [
    | inl minor ↦ inl (inr (inl (ground (arith, h, same_major), ground (arith, minor))))
    | inr same_minor ↦ elim (Bool-cases (ltb b.version.2 a.version.2)) [
      | inl patch ↦ inl (
          inr (
            inr (
              ground (arith, h, same_major),
              ground (arith, h, same_major, same_minor),
              ground (arith, patch),
            )))
      | inr same_patch ↦ inr (
        versions (ground (arith, h, same_major)) (ground (arith, h, same_major, same_minor))
            (ground (arith, h, same_major, same_minor, same_patch)),
        not_after-Before a.path b.path (ground (arith, h, same_major, same_minor, same_patch)),
      )
    ]
  ]
]
  where
    versions :
        a.version.0 ≡ b.version.0
        → a.version.1 ≡ b.version.1
        → a.version.2 ≡ b.version.2
        → a.version ≡ b.version
    versions i j k = cc
