-- ===== src/Ripple/Laws.antt =====
-- The handlers that the presses leave on the document.
use mathlib.Core.List.{append_assoc, append-nil}
use chat_bot_hub.Prelude.{
  ℕ, zero, suc, Bool, true, false, none, some, List, [], ◌∷◌, ◌++◌, if◌then◌else◌, ◌==◌, ◌≡◌, refl,
  sym, ap, ◌∙◌, map, length, length-append, arith, ◌+◌, Bool-cases, inl, inr,
}
use chat_bot_hub.Ripple.{
  Reckoning, Touch, Event, mouse_down, mouse_up, grown, faded, map_at, touch, release, square, hear,
  pressed, step, run, link,
}

module _ {ℓ} {A : Type ℓ} where
  map_at-append :
      (f : ℕ → A → A) (k : ℕ) (xs ys : List A)
      → map_at f k (xs ++ ys) ≡ map_at f k xs ++ map_at f (k + length xs) ys
  unfolding map_at
  map_at-append f k [] ys = ap (λ n. map_at f n ys) (omega arith)
  map_at-append f k (x ∷ xs) ys =
      ap (λ zs. f k x ∷ zs)
        (map_at-append f (suc k) xs ys
          ∙ ap (λ n. map_at f (suc k) xs ++ map_at f n ys) (omega arith))

  map_at-map_at :
      (f g : ℕ → A → A) (k : ℕ) (xs : List A)
      → map_at g k (map_at f k xs) ≡ map_at (λ j x. g j (f j x)) k xs
  unfolding map_at
  map_at-map_at f g k [] = refl
  map_at-map_at f g k (x ∷ xs) = ap (λ zs. g k (f k x) ∷ zs) (map_at-map_at f g (suc k) xs)

  length-map_at : (f : ℕ → A → A) (k : ℕ) (xs : List A) → length (map_at f k xs) ≡ length xs
  unfolding map_at
  length-map_at f k [] = refl
  length-map_at f k (x ∷ xs) = ap suc (length-map_at f (suc k) xs)

  map_at-same : (k : ℕ) (xs : List A) → map_at (λ j x. x) k xs ≡ xs
  unfolding map_at
  map_at-same k [] = refl
  map_at-same k (x ∷ xs) = ap (λ zs. x ∷ zs) (map_at-same (suc k) xs)

module _ {R : Type 0} (r : Reckoning R) where
  -- How often the mouse is released.
  pub ups : List (Event R) → ℕ
  ups [] = 0
  ups (mouse_up ∷ es) = suc (ups es)
  ups (_ ∷ es) = ups es

  -- How often it is released once the circle of a press has grown.
  pub late_ups : ℕ → List (Event R) → ℕ
  late_ups k [] = 0
  late_ups k (grown i ∷ es) = let rest = late_ups k es in if i == k then ups es else rest
  late_ups k (_ ∷ es) = late_ups k es

  pub enlarged : ℕ → R → R
  enlarged zero size = size
  enlarged (suc n) size = enlarged n (r.times_1_33 size)

  -- For each press from the place k on: how often the mouse is released behind it, and the size that it
  -- has after 1.33 times for each release behind its growth.
  pub expected : ℕ → List (Event R) → List (ℕ × R)
  expected k [] = []
  expected k (mouse_down e ∷ es) =
      (ups es, enlarged (late_ups k es) (r.times_1_8 e.outer_width)) ∷ expected (suc k) es
  expected k (_ ∷ es) = expected k es

  abbrev pub summary : Touch R → ℕ × R
  summary t = (length t.fades, t.size)

  -- The closure of one press through the events behind it.
  life : List (Event R) → ℕ → Touch R → Touch R
  life [] k t = t
  life (e ∷ es) k t = life es k (hear r e k t)

  born : ℕ → List (Event R) → List (Touch R)
  born k [] = []
  born k (e ∷ es) = map_at (life es) k (pressed r e) ++ born (k + length (pressed r e)) es

  zero_plus : (n : ℕ) → 0 + n ≡ n
  zero_plus n = omega arith

  plus_zero : (n : ℕ) → n + 0 ≡ n
  plus_zero n = omega arith

  plus_one : (n : ℕ) → n + 1 ≡ suc n
  plus_one n = omega arith

  run-lives :
      (es : List (Event R)) (ts : List (Touch R))
      → run r es ts ≡ map_at (life es) 0 ts ++ born (length ts) es
  unfolding run step life born
  run-lives [] ts = rw (map_at-same 0 ts, append-nil ts) refl
  run-lives (e ∷ es) ts =
      rw
        (
          run-lives es (step r e ts),
          map_at-append (life es) 0 (map_at (hear r e) 0 ts) (pressed r e),
          map_at-map_at (hear r e) (life es) 0 ts,
          length-append (map_at (hear r e) 0 ts) (pressed r e),
          length-map_at (hear r e) 0 ts,
          zero_plus (length ts),
        )
        (append_assoc (map_at (life (e ∷ es)) 0 ts) (map_at (life es) (length ts) (pressed r e))
          (born (length ts + length (pressed r e)) es))

  if-same {ℓ} : {A : Type ℓ} (b : Bool) (x : A) → (if b then x else x) ≡ x
  if-same true x = refl
  if-same false x = refl

  hear-grown :
      (b : Bool) (i k : ℕ) (t : Touch R)
      → (i == k) ≡ b
      → hear r (grown i) k t ≡ (if b then record t { complete = true } else t)
  unfolding hear
  hear-grown b i k t g = rw (g) refl

  hear-faded :
      (b : Bool) (i k : ℕ) (t : Touch R)
      → (i == k) ≡ b
      → hear r (faded i) k t ≡ (if b then record t { attached = false } else t)
  unfolding hear
  hear-faded b i k t g = rw (g) refl

  late_ups-grown :
      (b : Bool) (i k : ℕ) (es : List (Event R))
      → (i == k) ≡ b
      → late_ups k (grown i ∷ es) ≡ (if b then ups es else late_ups k es)
  unfolding late_ups
  late_ups-grown b i k es g = rw (g) refl

  summary-life :
      (es : List (Event R)) (k : ℕ) (t : Touch R)
      → summary (life es k t)
        ≡ (length t.fades + ups es, enlarged (if t.complete then ups es else late_ups k es) t.size)
  unfolding life hear release ups late_ups enlarged
  summary-life [] k t = elim (Bool-cases t.complete) [
    | inl h ↦ rw (h) (ap (λ n. (n, t.size)) (omega arith))
    | inr h ↦ rw (h) (ap (λ n. (n, t.size)) (omega arith))
  ]
  summary-life (mouse_down e ∷ es) k t = summary-life es k t
  summary-life (mouse_up ∷ es) k t = elim (Bool-cases t.complete) [
    | inl h ↦
        rw
          (
            summary-life es k (release r t),
            h,
            length-append t.fades (some (square r (r.times_1_33 t.size)) ∷ []),
          )
          (ap (λ n. (n, enlarged (ups es) (r.times_1_33 t.size))) (omega arith))
    | inr h ↦
        rw (summary-life es k (release r t), h, length-append t.fades (none ∷ []))
          (ap (λ n. (n, enlarged (late_ups k es) t.size)) (omega arith))
  ]
  summary-life (grown i ∷ es) k t = elim (Bool-cases (i == k)) [
    | inl g ↦
        ap (λ u. summary (life es k u)) (hear-grown true i k t g)
        ∙ summary-life es k (record t { complete = true })
        ∙ ap (λ n. (length t.fades + ups es, enlarged n t.size))
            (sym (
              ap (λ n. if t.complete then ups es else n) (late_ups-grown true i k es g)
              ∙ if-same t.complete (ups es)))
    | inr g ↦
        ap (λ u. summary (life es k u)) (hear-grown false i k t g)
        ∙ summary-life es k t
        ∙ ap (λ n. (length t.fades + ups es, enlarged n t.size))
            (sym (ap (λ n. if t.complete then ups es else n) (late_ups-grown false i k es g)))
  ]
  summary-life (faded i ∷ es) k t = elim (Bool-cases (i == k)) [
    | inl g ↦
        ap (λ u. summary (life es k u)) (hear-faded true i k t g)
        ∙ summary-life es k (record t { attached = false })
    | inr g ↦ ap (λ u. summary (life es k u)) (hear-faded false i k t g) ∙ summary-life es k t
  ]

  summary-born : (es : List (Event R)) (k : ℕ) → map summary (born k es) ≡ expected k es
  unfolding born pressed expected map_at touch
  summary-born [] k = refl
  summary-born (mouse_down e ∷ es) k =
      rw (summary-life es k (touch r e), zero_plus (ups es))
        (ap (λ xs. (ups es, enlarged (late_ups k es) (r.times_1_8 e.outer_width)) ∷ xs)
          (ap (λ n. map summary (born n es)) (plus_one k) ∙ summary-born es (suc k)))
  summary-born (mouse_up ∷ es) k =
      ap (λ n. map summary (born n es)) (plus_zero k) ∙ summary-born es k
  summary-born (grown i ∷ es) k =
      ap (λ n. map summary (born n es)) (plus_zero k) ∙ summary-born es k
  summary-born (faded i ∷ es) k =
      ap (λ n. map summary (born n es)) (plus_zero k) ∙ summary-born es k

  -- In every run on an element that was enabled when it was linked, the closures that are kept are one
  -- for each press, in their order: the circle of a press is made to fade once for each release of the
  -- mouse behind the press, not only for its own, and its size is the first one times 1.33 for each
  -- release behind the end of its growth.
  pub link-expected : (es : List (Event R)) → map summary (link r true es) ≡ expected 0 es
  unfolding link born expected map_at
  link-expected es = ap (map summary) (run-lives es []) ∙ summary-born es 0
