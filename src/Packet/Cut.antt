-- ===== src/Packet/Cut.antt =====
-- Texts cut at their first null byte, and at a given length.
use fogros2_sgc.Base.{
  ◌≤◌, ◌<◌, ◌≡◌, refl, ap, inl, inr, none, some, [], ◌∷◌, ◌++◌, arith, Option-cases, length, take,
  drop,
}
use fogros2_sgc.Text.{Text}
use fogros2_sgc.Packet.{cut_at_null}
use fogros2_sgc.Text.Parts.{Avoids}

-- A text ends at its first null byte in one way only.
pub cut_unique :
    (a b x y : Text) → Avoids 0 a → Avoids 0 b → a ++ (0 ∷ x) ≡ b ++ (0 ∷ y) → (a ≡ b) × (x ≡ y)
cut_unique [] [] x y p q e = (refl, cc)
cut_unique [] (b ∷ bs) x y p q e = ground (arith, q.0)
cut_unique (a ∷ as') [] x y p q e = ground (arith, p.0)
cut_unique (a ∷ as') (b ∷ bs) x y p q e = ground (arith, cut_unique as' bs x y p.1 q.1)

pub cut_at_null-none :
    (a x r b : Text) → cut_at_null x ≡ none → x ++ r ≡ a ++ (0 ∷ b) → 0 < length r
unfolding cut_at_null
cut_at_null-none [] [] r b c e = ground (arith, ap length e)
cut_at_null-none (a ∷ as') [] r b c e = ground (arith, ap length e)
cut_at_null-none [] (x ∷ xs) r b c e = ground arith
cut_at_null-none (a ∷ as') (x ∷ xs) r b c e = ground (arith, cut_at_null-none as' xs r b)

pub cut_at_null-some :
    (x before after : Text)
    → cut_at_null x ≡ some (before, after)
    → Avoids 0 before × (x ≡ before ++ (0 ∷ after))
unfolding cut_at_null
cut_at_null-some [] before after c = absurd (cc)
cut_at_null-some (x ∷ xs) before after c = elim (Option-cases (cut_at_null xs)) [
  | inl e ↦ ground (arith, e)
  | inr ((b, a), e) ↦ ground (arith, e, cut_at_null-some xs b a e)
]

pub take-prefix :
    (b x r m : Text)
    → length b ≤ length x
    → x ++ r ≡ b ++ m
    → (take (length b) x ≡ b) × (drop (length b) x ++ r ≡ m)
take-prefix [] x r m h e = (refl, e)
take-prefix (b ∷ bs) [] r m h e = absurd (omega arith)
take-prefix (b ∷ bs) (x ∷ xs) r m h e = ground (arith, take-prefix bs xs r m)
