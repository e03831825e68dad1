-- ===== src/App/Backoff.antt =====
-- When a stream that keeps failing is given up, and how long that takes.
use kuberpult.Prelude.{
  ℕ, suc, ◌≡◌, refl, sym, ap, ◌∙◌, ◌≤◌, ◌<◌, ◌+◌, ◌*◌, true, false, ◌||◌, List, [], ◌∷◌, fold,
  arith, leb, String, All, Bool-cases, inl, inr, if◌then◌else◌,
}
use mathlib.Core.Bool.{false≢true}
use kuberpult.App.{
  Signal, message, failure, Handlers, Subscription, receive, max_retry_attempts, gives_up,
  power_of_two, backoff_time,
}
use kuberpult.App.Streams.{failures}

-- What a stream does, each with the random part of the time before a retry.
abbrev pub Draws : Type 0 → Type 0
Draws M = List (Signal M × ℕ)

abbrev pub signals_of : {M : Type 0} → Draws M → List (Signal M)
signals_of [] = []
signals_of ((signal, random) ∷ draws) = signal ∷ signals_of draws

module _ {M : Type 0} (h : Handlers M) where
  -- The milliseconds until the retry after a signal, if there is one, and those of a whole run.
  unfoldable pub wait_of : Signal M → (random : ℕ) → Subscription → ℕ
  wait_of (message m) random s = 0
  wait_of (failure code text) random s =
      if s.over || gives_up max_retry_attempts s.attempt then 0 else backoff_time s.attempt random

  unfoldable pub waited : Draws M → Subscription → ℕ
  waited [] s = 0
  waited ((signal, random) ∷ draws) s = wait_of signal random s + waited draws (receive h signal s)

  message_wait : (m : M) (random : ℕ) (s : Subscription) → wait_of (message m) random s ≡ 0
  unfolding wait_of
  message_wait m random s = refl

  no_wait :
      (signal : Signal M) (random : ℕ) (s : Subscription)
      → s.over ≡ true
      → wait_of signal random s ≡ 0
  unfolding wait_of
  no_wait (message m) random s over = refl
  no_wait (failure code text) random s over = rw over refl

  last_wait :
      (code : ℕ) (text : String) (random : ℕ) (s : Subscription)
      → leb 8 s.attempt ≡ true
      → wait_of (failure code text) random s ≡ 0
  unfolding wait_of
  last_wait code text random s last = elim (Bool-cases s.over) [
    | inl over ↦ rw over refl
    | inr live ↦ rw (live, last) refl
  ]

  retry_wait :
      (code : ℕ) (text : String) (random : ℕ) (s : Subscription)
      → s.over ≡ false
      → leb 8 s.attempt ≡ false
      → wait_of (failure code text) random s ≡ 1000 * power_of_two s.attempt + random
  unfolding wait_of backoff_time
  retry_wait code text random s live on = rw (live, on) refl

  -- What one signal makes of a subscription, but for the page.
  receive-message :
      (m : M) (s : Subscription)
      → ((receive h (message m) s).over ≡ s.over) × ((receive h (message m) s).attempt ≡ s.attempt)
  unfolding receive
  receive-message m s = elim (Bool-cases s.over) [
    | inl over ↦ simp over (refl, refl)
    | inr live ↦ simp live (refl, refl)
  ]

  receive-when_over :
      (signal : Signal M) (s : Subscription) → s.over ≡ true → receive h signal s ≡ s
  unfolding receive
  receive-when_over (message m) s over = simp over refl
  receive-when_over (failure code text) s over = simp over refl

  receive-last :
      (code : ℕ) (text : String) (s : Subscription)
      → s.over ≡ false
      → leb 8 s.attempt ≡ true
      → ((receive h (failure code text) s).over ≡ true)
        × ((receive h (failure code text) s).attempt ≡ s.attempt)
  unfolding receive
  receive-last code text s live last = simp (live, last) (refl, refl)

  receive-retry :
      (code : ℕ) (text : String) (s : Subscription)
      → s.over ≡ false
      → leb 8 s.attempt ≡ false
      → ((receive h (failure code text) s).over ≡ false)
        × ((receive h (failure code text) s).attempt ≡ suc s.attempt)
  unfolding receive
  receive-retry code text s live on = simp (live, on) (refl, refl)

  stays_over :
      (draws : Draws M) (s : Subscription)
      → s.over ≡ true
      → ((fold (receive h) (signals_of draws) s).over ≡ true)
        × ((fold (receive h) (signals_of draws) s).attempt ≡ s.attempt)
        × (waited draws s ≡ 0)
  unfolding waited
  stays_over [] s over = (over, refl, refl)
  stays_over ((signal, random) ∷ draws) s over =
      let same = receive-when_over signal s over in
      let (still, kept, none_waited) =
        stays_over draws (receive h signal s) (ap (λ s. s.over) same ∙ over) in
      let none_now = no_wait signal random s over in
      (still, kept ∙ ap (λ s. s.attempt) same, omega arith)

  -- Where a run that has failed at most eight times gets to, and the times of its retries.
  abbrev IsTimed : Draws M → Subscription → Type 0
  IsTimed draws s =
      let e = fold (receive h) (signals_of draws) s in
      (e.over ≡ leb 9 (s.attempt + failures (signals_of draws)))
      × (e.over ≡ true → e.attempt ≡ 8)
      × (1000 * power_of_two e.attempt ≤ waited draws s + 1000 * power_of_two s.attempt)
      × (waited draws s + 1000 * power_of_two s.attempt + 999 * s.attempt
          ≤ 1000 * power_of_two e.attempt + 999 * e.attempt)

  draws-IsTimed :
      (draws : Draws M) (s : Subscription)
      → s.over ≡ false
      → s.attempt ≤ 8
      → All (λ (d : Signal M × ℕ). (d.1) < 1000) draws
      → IsTimed draws s
  unfolding waited
  draws-IsTimed [] s live few r = (
    ground (arith, live, few),
    λ over. absurd (false≢true (sym live ∙ over)),
    omega arith,
    omega arith,
  )
  draws-IsTimed ((message m, random) ∷ draws) s live few (_, r) =
      let next = receive h (message m) s in
      let (same_over, same) = receive-message m s in
      let w = message_wait m random s in
      let same_power : power_of_two next.attempt ≡ power_of_two s.attempt = ap power_of_two same in
      let (ended, eight, low, high) =
        draws-IsTimed draws next (same_over ∙ live) (omega (arith, same)) r in
      (
        ended ∙ ap (leb 9) (omega (arith, same)),
        eight,
        omega (arith, w, same_power, low),
        omega (arith, w, same, same_power, high),
      )
  draws-IsTimed ((failure code text, random) ∷ draws) s live few (small, r) =
      let next = receive h (failure code text) s in
      elim (Bool-cases (leb 8 s.attempt)) [
        | inl last ↦
            let (over, same) = receive-last code text s live last in
            let (still, kept, none_waited) = stays_over draws next over in
            let w = last_wait code text random s last in
            let e = fold (receive h) (signals_of draws) next in
            let at_eight : e.attempt ≡ s.attempt = kept ∙ same in
            let same_power : power_of_two e.attempt ≡ power_of_two s.attempt =
              ap power_of_two at_eight in
            (
              still ∙ sym (ground (arith, last)),
              λ _. at_eight ∙ ground (arith, last, few),
              omega (arith, w, none_waited, same_power),
              omega (arith, w, none_waited, same_power, at_eight),
            )
        | inr on ↦
            let (going, more) = receive-retry code text s live on in
            let w = retry_wait code text random s live on in
            let double : power_of_two next.attempt ≡ 2 * power_of_two s.attempt =
              ap power_of_two more in
            let below : s.attempt ≤ 7 = ground (arith, on) in
            let (ended, eight, low, high) =
              draws-IsTimed draws next going (omega (arith, more, below)) r in
            (
              ended ∙ ap (leb 9) (omega (arith, more)),
              eight,
              omega (arith, w, double, low),
              omega (arith, w, more, double, high, small),
            )
      ]

  -- From the start, a stream is given up exactly if it fails nine times, whatever messages come in
  -- between; if the random part of each time is below a second, then the retries before that have
  -- waited for 255 seconds in all, and for less than 263.
  pub stream_ends :
      (draws : Draws M) (s : Subscription)
      → s.over ≡ false
      → s.attempt ≡ 0
      → All (λ (d : Signal M × ℕ). (d.1) < 1000) draws
      → let e = fold (receive h) (signals_of draws) s in
        (e.over ≡ leb 9 (failures (signals_of draws)))
        × (e.over ≡ true → (255000 ≤ waited draws s) × (waited draws s < 263000))
  stream_ends draws s live start r =
      let e = fold (receive h) (signals_of draws) s in
      let (ended, eight, low, high) = draws-IsTimed draws s live (omega (arith, start)) r in
      let one : power_of_two s.attempt ≡ 1 = ap power_of_two start in
      (
        ended ∙ ap (leb 9) (omega (arith, start)),
        λ over.
            let at : e.attempt ≡ 8 = eight over in
            let many : power_of_two e.attempt ≡ 256 = ap power_of_two at in
            (omega (arith, low, one, many), omega (arith, high, one, many, at, start)),
      )
