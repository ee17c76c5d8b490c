-- ===== src/Text/Split.antt =====
-- `split` and its inverse, the join with the separator.
use zet_mq.Prelude.{
  ℕ, ◌≡◌, ◌≢◌, refl, ap, ◌∙◌, false, List, [], ◌∷◌, ◌++◌, arith, ◌==◌, All, sym, Bool-cases, inl,
  inr,
}
use zet_mq.Text.{Str, contains, split, cons_first}

-- The pieces with the separator between them.
unfoldable pub join : ℕ → List Str → Str
join c [] = []
join c (p ∷ []) = p
join c (p ∷ q ∷ ps) = let rest = join c (q ∷ ps) in p ++ c ∷ rest

split-ne-nil : (c : ℕ) (s : Str) → split c s ≢ []
unfolding split
split-ne-nil c [] e = cc
split-ne-nil c (x ∷ xs) e = ground arith

join-cons_first : (c x : ℕ) (ps : List Str) → ps ≢ [] → join c (cons_first x ps) ≡ x ∷ join c ps
unfolding join
join-cons_first c x [] h = ground arith
join-cons_first c x (p ∷ []) h = refl
join-cons_first c x (p ∷ q ∷ ps) h = refl

join-nil_cons : (c : ℕ) (ps : List Str) → ps ≢ [] → join c ([] ∷ ps) ≡ c ∷ join c ps
unfolding join
join-nil_cons c [] h = ground arith
join-nil_cons c (p ∷ ps) h = refl

-- Nothing is lost by `split`.
pub join-split : (c : ℕ) (s : Str) → join c (split c s) ≡ s
unfolding split
join-split c [] = unfold join in refl
join-split c (x ∷ xs) = ground (
  arith,
  join-split c xs,
  split-ne-nil c xs,
  join-nil_cons c (split c xs),
  join-cons_first c x (split c xs),
)

pub split-injective : (c : ℕ) (s t : Str) → split c s ≡ split c t → s ≡ t
split-injective c s t e = sym (join-split c s) ∙ ap (join c) e ∙ join-split c t

abbrev pub Lacks : ℕ → Str → Type 0
Lacks c s = contains c s ≡ false

cons_first-Lacks :
    (d x : ℕ) (ps : List Str)
    → (x == d) ≡ false
    → All (Lacks d) ps
    → All (Lacks d) (cons_first x ps)
unfolding contains
cons_first-Lacks d x [] h a = (ground arith, tt)
cons_first-Lacks d x (p ∷ ps) h a = (ground (arith, a.0), a.1)

-- A piece of a text holds no character that the text lacks.
pub split-Lacks : (c d : ℕ) (s : Str) → Lacks d s → All (Lacks d) (split c s)
unfolding split contains
split-Lacks c d [] h = (refl, tt)
split-Lacks c d (x ∷ xs) h = elim (Bool-cases (x == c)) [
  | inl cut ↦ rw cut (refl, split-Lacks c d xs (ground arith))
  | inr kept ↦
      rw kept (cons_first-Lacks d x (split c xs) (ground arith) (split-Lacks c d xs (ground arith)))
]
