-- ===== src/Forms/Regex.antt =====
-- Regular expressions, as far as the validators use them, with a matcher that tries what may follow
-- an expression at each place where it can end.
use chat_bot_hub.Prelude.{
  ℕ, zero, suc, Bool, true, false, ◌&&◌, ◌||◌, List, [], ◌∷◌, ◌≡◌, refl, arith, length, ◌==◌, leb,
}

-- One character of a class, and at least one, are the only expressions that take characters.
pub data Re : Type 0 where
  eps : Re
  cls plus : (ℕ → Bool) → Re
  seq alt : Re → Re → Re

unfoldable pub run_plus : (ℕ → Bool) → (List ℕ → Bool) → List ℕ → Bool
run_plus f k [] = false
run_plus f k (c ∷ s) = let more = run_plus f k s in f c && (k s || more)

unfoldable pub run_cls : (ℕ → Bool) → (List ℕ → Bool) → List ℕ → Bool
run_cls f k [] = false
run_cls f k (c ∷ s) = f c && k s

-- The text begins with a match whose rest the continuation takes.
unfoldable pub run : Re → (List ℕ → Bool) → List ℕ → Bool
run eps k s = k s
run (cls f) k s = run_cls f k s
run (plus f) k s = run_plus f k s
run (seq a b) k s = run a (run b k) s
run (alt a b) k s = run a k s || run b k s

abbrev pub at_end : List ℕ → Bool
at_end [] = true
at_end (c ∷ s) = false

-- With both anchors.
unfoldable pub test : Re → List ℕ → Bool
test r s = run r at_end s

-- Without anchors.
unfoldable pub found : Re → List ℕ → Bool
found r [] = run r (λ t. true) []
found r (c ∷ s) = let later = found r s in run r (λ t. true) (c ∷ s) || later

unfoldable pub times : ℕ → Re → Re
times zero r = eps
times (suc n) r = seq r (times n r)

abbrev pub opt : Re → Re
opt r = alt r eps

unfoldable pub up_to : ℕ → Re → Re
up_to zero r = eps
up_to (suc n) r = opt (seq r (up_to n r))

-- Every character is of the class.
unfoldable pub all : (ℕ → Bool) → List ℕ → Bool
all f [] = true
all f (c ∷ s) = f c && all f s

-- At least so many characters, the first ones of the class, and the continuation takes the others.
unfoldable pub starts : ℕ → (ℕ → Bool) → (List ℕ → Bool) → List ℕ → Bool
starts zero f k s = k s
starts (suc n) f k [] = false
starts (suc n) f k (c ∷ s) = f c && starts n f k s

pub run-times :
    (n : ℕ) (f : ℕ → Bool) (k : List ℕ → Bool) (s : List ℕ)
    → run (times n (cls f)) k s ≡ starts n f k s
unfolding run times starts run_cls
run-times zero f k s = refl
run-times (suc n) f k [] = refl
run-times (suc n) f k (c ∷ s) = rw (run-times n f k s)

-- `r{n}` for a class, to the end.
pub test-times :
    (n : ℕ) (f : ℕ → Bool) (s : List ℕ) → test (times n (cls f)) s ≡ ((length s == n) && all f s)
unfolding test run times all run_cls
test-times zero f [] = ground arith
test-times zero f (c ∷ s) = ground arith
test-times (suc n) f [] = ground arith
test-times (suc n) f (c ∷ s) = ground (arith, test-times n f s)

-- `r+` for a class, to the end.
pub test-plus : (f : ℕ → Bool) (s : List ℕ) → test (plus f) s ≡ (leb 1 (length s) && all f s)
unfolding test run run_plus all
test-plus f [] = ground arith
test-plus f (c ∷ []) = ground arith
test-plus f (c ∷ d ∷ s) = ground (arith, test-plus f (d ∷ s))
