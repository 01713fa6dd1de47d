-- ===== src/Limit/Range.antt =====
-- What the limits leave.
use chat_bot_hub.Prelude.{
  String, Bool, true, false, ◌&&◌, ◌||◌, not, Option, none, some, [], ◌≡◌, refl, ap, arith,
}
use chat_bot_hub.Js.{Num, int, nan, is_nan}
use chat_bot_hub.Limit.{
  bound, is_defined, inverted, check_max, check_min, valid, set_all, above, below,
}

-- The value keeps the limits that are given; NaN keeps none.
unfoldable pub inside : Option String → Option String → Num → Bool
inside number_max number_min v =
    (not (is_defined number_max) || not (is_nan v || above v (bound number_max)))
    && (not (is_defined number_min) || not (is_nan v || below v (bound number_min)))

-- A value that keeps the limits is not set.
valid-inside :
    (number_max number_min : Option String) (v : Num)
    → inside number_max number_min v ≡ true
    → valid number_max number_min v ≡ []
unfolding inside inverted check_max check_min valid
valid-inside none none v h = refl
valid-inside none (some s) nan h = cc
valid-inside (some s) none nan h = cc
valid-inside (some s) (some t) nan h = cc
valid-inside none (some t) (int v) h = ground (arith, h)
valid-inside (some s) none (int v) h = ground (arith, h)
valid-inside (some s) (some t) (int v) h = ground (arith, h)

inside-set_all :
    (number_max number_min : Option String) (v : Num)
    → inverted number_max number_min ≡ false
    → inside number_max number_min (set_all v (valid number_max number_min v)) ≡ true
unfolding inside inverted check_max check_min valid set_all
inside-set_all none none v h = refl
inside-set_all none (some s) nan h = ground arith
inside-set_all none (some s) (int v) h = ground arith
inside-set_all (some s) none nan h = ground arith
inside-set_all (some s) none (int v) h = ground arith
inside-set_all (some s) (some t) nan h = ground (arith, h)
inside-set_all (some s) (some t) (int v) h = ground (arith, h)

-- Unless both limits are given the wrong way round, the value that is left keeps the limits and is
-- not set again, and a value that keeps them is left as it is.
pub valid_lem :
    (number_max number_min : Option String) (v : Num)
    → inverted number_max number_min ≡ false
    → (inside number_max number_min (set_all v (valid number_max number_min v)) ≡ true)
      × (valid number_max number_min (set_all v (valid number_max number_min v)) ≡ [])
      × (inside number_max number_min v ≡ true → set_all v (valid number_max number_min v) ≡ v)
unfolding set_all
valid_lem number_max number_min v h = (
  inside-set_all number_max number_min v h,
  valid-inside number_max number_min (set_all v (valid number_max number_min v))
      (inside-set_all number_max number_min v h),
  λ kept. ap (set_all v) (valid-inside number_max number_min v kept),
)
