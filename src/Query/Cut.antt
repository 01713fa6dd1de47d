-- ===== src/Query/Cut.antt =====
-- Cutting a text at the first place of a character, for the readers of queries and of times.
use chat_bot_hub.Prelude.{
  ℕ, true, not, List, [], ◌∷◌, ◌++◌, ◌==◌, ◌≡◌, arith, and_parts, if◌then◌else◌,
}
use chat_bot_hub.Query.Uri.Laws.{lacks}

unfoldable pub before : ℕ → List ℕ → List ℕ
before d [] = []
before d (c ∷ s) = let more = before d s in if c == d then [] else c ∷ more

unfoldable pub after : ℕ → List ℕ → List ℕ
after d [] = []
after d (c ∷ s) = let more = after d s in if c == d then s else more

pub cut-append :
    (d : ℕ) (w v : List ℕ)
    → lacks d w ≡ true
    → (before d (w ++ (d ∷ v)) ≡ w) × (after d (w ++ (d ∷ v)) ≡ v)
unfolding before after lacks
cut-append d [] v h = (ground arith, ground arith)
cut-append d (c ∷ w) v h =
    let parts : (not (c == d) ≡ true) × (lacks d w ≡ true) = and_parts h in
    let more : (before d (w ++ (d ∷ v)) ≡ w) × (after d (w ++ (d ∷ v)) ≡ v) =
      cut-append d w v parts.1 in
    (ground (arith, parts.0, more.0), ground (arith, parts.0, more.1))
