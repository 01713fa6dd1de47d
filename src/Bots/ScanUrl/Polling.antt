-- ===== src/Bots/ScanUrl/Polling.antt =====
-- The polling of `scanUrlCtrl`: one request at a time, it goes on until an answer, and it ends.
use chat_bot_hub.Prelude.{◌+◌, ◌≤◌, Bool, true, false, ◌≡◌, ◌≢◌, refl, none, arith}
use chat_bot_hub.Bots.ScanUrl.{
  Scan, no_body, no_url, found, refresh, opened, retry, on_answer, on_timer, close, Step, answered,
  failed, fired, closed, Reach, here, next,
}

-- No request of the run fails.
abbrev pub is_failure : {s t : Scan} → Step s t → Bool
is_failure (answered a h) = false
is_failure (failed h) = true
is_failure (fired h) = false
is_failure closed = false

abbrev pub HasNoFailure : {s t : Scan} → Reach s t → Type 0
HasNoFailure here = Unit {0}
HasNoFailure (next r st) = HasNoFailure r × (is_failure st ≡ false)

pub record IsPolite (s : Scan) : Type 0 where
  pub single : s.timers + s.in_flight ≤ 1
  pub done : s.scan_url ≢ none → s.flag ≡ false

Step-IsPolite : {s t : Scan} → Step s t → IsPolite s → IsPolite t
unfolding on_answer on_timer close retry refresh
Step-IsPolite (answered no_body h) p = ground arith
Step-IsPolite (answered no_url h) p = ground arith
Step-IsPolite (answered (found url) h) p = ground arith
Step-IsPolite (failed h) p = record { single = omega arith; done = p.done }
Step-IsPolite (fired h) p = record { single = omega arith; done = p.done }
Step-IsPolite closed p = record { single = p.single; done = λ e. refl }

opened-IsPolite : IsPolite opened
unfolding opened refresh
opened-IsPolite = record { single = omega arith; done = λ e. absurd (e refl) }

-- At any time at most one request or timeout is pending, and once a url is found the flag is
-- cleared, whatever the server answers.
pub Reach-IsPolite : {s : Scan} → Reach opened s → IsPolite s
Reach-IsPolite here = opened-IsPolite
Reach-IsPolite (next r st) = Step-IsPolite st (Reach-IsPolite r)

Step-active :
    {s t : Scan} (st : Step s t)
    → is_failure st ≡ false
    → (s.flag ≡ true → s.timers + s.in_flight ≡ 1)
    → t.flag ≡ true
    → t.timers + t.in_flight ≡ 1
unfolding on_answer on_timer close retry refresh
Step-active (answered no_body h) n p f = ground arith
Step-active (answered no_url h) n p f = ground arith
Step-active (answered (found url) h) n p f = cc
Step-active (failed h) n p f = cc
Step-active (fired h) n p f = omega (arith, p f)
Step-active closed n p f = cc

-- As long as no request fails, the dialog is still waiting for exactly one request or timeout
-- while its flag is set.
pub Reach-active :
    {s : Scan} (r : Reach opened s) → HasNoFailure r → s.flag ≡ true → s.timers + s.in_flight ≡ 1
Reach-active here n f = unfold opened refresh in refl
Reach-active (next r st) n f = Step-active st n.1 (Reach-active r n.0) f

Step-quiet :
    {s t : Scan}
    → Step s t
    → s.flag ≡ false
    → (t.flag ≡ false) × (t.sent + t.timers ≤ s.sent + s.timers)
unfolding on_answer on_timer close retry refresh
Step-quiet (answered no_body h) f = ground arith
Step-quiet (answered no_url h) f = ground arith
Step-quiet (answered (found url) h) f = ground arith
Step-quiet (failed h) f = ground arith
Step-quiet (fired h) f = ground arith
Step-quiet closed f = ground arith

quiet :
    {s t : Scan}
    → Reach s t
    → s.flag ≡ false
    → (t.flag ≡ false) × (t.sent + t.timers ≤ s.sent + s.timers)
quiet here f = (f, omega arith)
quiet (next r st) f = let (g, h) = quiet r f in let (k, l) = Step-quiet st g in (k, omega arith)

-- Once the flag is cleared, by a url that is found or by closing the dialog, at most one more
-- request is sent.
pub sent_after : {s t : Scan} → Reach opened s → s.flag ≡ false → Reach s t → t.sent ≤ s.sent + 1
sent_after r f later = omega (arith, (Reach-IsPolite r).single, (quiet later f).1)
