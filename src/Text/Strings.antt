-- ===== src/Text/Strings.antt =====
-- Python's str as a list of code points. The tables of Unicode (which code points are white space,
-- how a text is lowered and casefolded) are a parameter; ASCII's are an instance.
use Prim.Native.Char.{code}
use product_intelligence.Base.{
  ℕ, ◌+◌, ◌≡◌, String, Bool, true, false, ◌&&◌, ◌||◌, List, [], ◌∷◌, map, leb, ◌==◌, arith,
  if◌then◌else◌, All,
}

abbrev pub Text : Type 0
Text = List ℕ

abbrev pub codes : String → Text
codes String.[] = []
codes (String.◌∷◌ c s) = code c ∷ codes s

pub record Unicode : Type 0 where
  pub is_space : ℕ → Bool
  pub lower : Text → Text
  pub casefold : Text → Text

abbrev pub is_empty : Text → Bool
is_empty [] = true
is_empty (c ∷ cs) = false

-- `lstrip` and `rstrip` of the code points that `p` tells.
abbrev pub lstrip_by : (ℕ → Bool) → Text → Text
lstrip_by p [] = []
lstrip_by p (c ∷ cs) = if p c then lstrip_by p cs else c ∷ cs

abbrev pub rstrip_by : (ℕ → Bool) → Text → Text
rstrip_by p [] = []
rstrip_by p (c ∷ cs) = let rest = rstrip_by p cs in if p c && is_empty rest then [] else c ∷ rest

abbrev pub strip_by : (ℕ → Bool) → Text → Text
strip_by p t = rstrip_by p (lstrip_by p t)

abbrev pub strip : ⦃u : Unicode⦄ → Text → Text
strip ⦃u⦄ t = strip_by u.is_space t

abbrev pub text_eq : Text → Text → Bool
text_eq [] [] = true
text_eq (c ∷ cs) (d ∷ ds) = if c == d then text_eq cs ds else false
text_eq _ _ = false

pub text_eq_sound : (s t : Text) → text_eq s t ≡ true → s ≡ t
text_eq_sound [] [] h = ground arith
text_eq_sound [] (d ∷ ds) h = cc
text_eq_sound (c ∷ cs) [] h = cc
text_eq_sound (c ∷ cs) (d ∷ ds) h = ground (arith, text_eq_sound cs ds)

pub text_eq_refl : (t : Text) → text_eq t t ≡ true
text_eq_refl [] = ground arith
text_eq_refl (c ∷ cs) = ground (arith, text_eq_refl cs)

-- Nothing to strip.
pub strip_by_none : (p : ℕ → Bool) (t : Text) → All (λ c. p c ≡ false) t → strip_by p t ≡ t
strip_by_none p [] h = ground arith
strip_by_none p (c ∷ cs) (h, hs) = ground (arith, rstrip_by_none cs hs)
  where
    rstrip_by_none : (t : Text) → All (λ c. p c ≡ false) t → rstrip_by p t ≡ t
    rstrip_by_none [] h = ground arith
    rstrip_by_none (c ∷ cs) (h, hs) = ground (arith, rstrip_by_none cs hs)

abbrev ascii_space : ℕ → Bool
ascii_space c = c == 32 || (leb 9 c && leb c 13) || (leb 28 c && leb c 31)

abbrev pub ascii_lower : ℕ → ℕ
ascii_lower c = if leb 65 c && leb c 90 then c + 32 else c

abbrev pub ascii : Unicode
ascii = record { is_space = ascii_space; lower = map ascii_lower; casefold = map ascii_lower }
