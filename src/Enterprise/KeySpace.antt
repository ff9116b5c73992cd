-- ===== src/Enterprise/KeySpace.antt =====
-- The keys of the repositories do not collide: an API key's record is kept under a key of its own,
-- and what else the enterprise layer writes goes elsewhere.
use product_intelligence.Base.{ℕ, ◌≡◌, ◌≢◌, ◌⊎◌, inl, inr, ◌∷◌, arith, Bool-cases, cancel_left, ap}
use product_intelligence.Text.Strings.{Text, codes, text_eq, text_eq_sound, text_eq_refl}
use product_intelligence.Enterprise.Keys.{prefix_key}

pub Text-cases : (s t : Text) → (s ≡ t) ⊎ (s ≢ t)
Text-cases s t = elim (Bool-cases (text_eq s t)) [
  | inl same ↦ inl (text_eq_sound s t same)
  | inr differ ↦ inr (λ e. cc (text_eq_refl t, ap (λ (x : Text). text_eq x t) e))
]

pub prefix_key_inj : (p q : Text) → prefix_key p ≡ prefix_key q → p ≡ q
prefix_key_inj p q h = cancel_left (codes "apikey:prefix:") p q h

-- A text that starts with t, o or q is no key of an API key's record.
pub prefix_key-ne : (p rest : Text) (c : ℕ) → c ≢ 97 → prefix_key p ≢ (c ∷ rest)
prefix_key-ne p rest c h e = ground (arith)
