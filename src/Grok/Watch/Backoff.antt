-- ===== src/Grok/Watch/Backoff.antt =====
-- The wait between two looks at a file that does not change, tags/grok/20090928/grok_input.c.
use Prim.Native.Nat.{◌^◌}
use semicomplete_googlecode.Common.{
  ℕ, zero, suc, ◌*◌, ◌≤◌, ◌≡◌, ◌∙◌, Option, some, arith, min, ◌>>=◌, ◌+◌, refl, sym, ap, inl, inr,
  true, false, ltb, ◌==◌, ltb-false, ==_iff, Bool-cases, Bool,
}
use semicomplete_googlecode.Grok.Watch.{Watch, Stat, Next, repair_event, doubled, read_after}

-- So many looks at the file, each with the same answers.
unfoldable pub looks : Bool → ℕ → Option Stat → Watch × Next → Option (Watch × Next)
looks opens zero st s = some s
looks opens (suc n) st s = do t ← repair_event opens st s.0; looks opens n st t

-- The wait after `n` looks more, the first of which was one second.
unfoldable pub wait_from : ℕ → ℕ → ℕ
wait_from zero w = w
wait_from (suc n) w = wait_from n (min 60 (w * 2))

doubled_lem : (w : ℕ) → 1 ≤ w → doubled w ≡ min 60 (w * 2)
doubled_lem w h = ground arith

pow_positive : (n : ℕ) → 1 ≤ 2 ^ n
pow_positive zero = omega arith
pow_positive (suc n) = omega (arith, pow_positive n)

-- Cut off at a minute before or behind the multiplication.
min_times : (w p : ℕ) → 1 ≤ p → min 60 (min 60 (w * 2) * p) ≡ min 60 (w * (p * 2))
min_times w zero h = absurd (omega arith)
min_times w (suc q) h = elim (Bool-cases (ltb 60 (w * 2))) [
  | inl long ↦
      let cut : min 60 (w * 2) ≡ 60 = ground arith in
      let product : w * (suc q * 2) ≡ w * 2 * q + w * 2 = omega arith in
      rw (cut, product) (ground arith)
  | inr short ↦
      let all : min 60 (w * 2) ≡ w * 2 = ground arith in
      let product : w * (suc q * 2) ≡ w * 2 * suc q = omega arith in rw (all, product) refl
]

wait_from_closed : (n w : ℕ) → 1 ≤ w → w ≤ 60 → wait_from n w ≡ min 60 (w * 2 ^ n)
unfolding wait_from
wait_from_closed zero w h le = omega arith
wait_from_closed (suc n) w h le =
    let power : 2 ^ suc n ≡ 2 ^ n * 2 = omega arith in
    rw power (
      wait_from_closed n (min 60 (w * 2)) (omega arith) (omega arith)
      ∙ min_times w (2 ^ n) (pow_positive n))

-- A look that finds the file as it was.
repair_event_same :
    (opens : Bool) (st : Stat) (gift : Watch)
    → gift.st ≡ st
    → repair_event opens (some st) gift
      ≡ some (
        record gift { waittime = doubled gift.waittime; st = st },
        read_after (doubled gift.waittime),
      )
unfolding repair_event
repair_event_same opens st gift e =
    let same : (st.st_ino == gift.st.st_ino) ≡ true = (==_iff _ _).1 (ap (λ s. s.st_ino) (sym e)) in
    let kept : ltb st.st_size gift.st.st_size ≡ false =
      ltb-false _ _ (omega (arith, ap (λ s. s.st_size) e)) in
    rw (same, kept) refl

looks-wait_from :
    (opens : Bool) (n : ℕ) (st : Stat) (gift : Watch)
    → gift.st ≡ st
    → 1 ≤ gift.waittime
    → (t : Watch) × (looks opens n (some st) (gift, read_after gift.waittime)
        ≡ some (t, read_after (wait_from n gift.waittime)))
unfolding looks wait_from
looks-wait_from opens zero st gift e h = (gift, refl)
looks-wait_from opens (suc n) st gift e h =
    let (t, made) =
      looks-wait_from opens n st (record gift { waittime = doubled gift.waittime; st = st }) refl
        (omega (arith, doubled_lem gift.waittime h)) in
    rw (repair_event_same opens st gift e)
      (t, made ∙ ap (λ w. some (t, read_after (wait_from n w))) (doubled_lem gift.waittime h))

-- While `stat` gives the same answer, `_program_file_repair_event` schedules the next read after one
-- second, then after twice as long each time, and never after more than a minute.
pub repair_event_backoff :
    (opens : Bool) (n : ℕ) (st : Stat) (gift : Watch) (next : Next)
    → gift.st ≡ st
    → gift.waittime ≡ 0
    → (t : Watch) × (looks opens (suc n) (some st) (gift, next)
        ≡ some (t, read_after (min 60 (2 ^ n))))
unfolding looks
repair_event_backoff opens n st gift next e h =
    let first : doubled gift.waittime ≡ 1 = rw h refl in
    let (t, made) =
      looks-wait_from opens n st (record gift { waittime = doubled gift.waittime; st = st }) refl
        (omega (arith, first)) in
    let waits : wait_from n (doubled gift.waittime) ≡ min 60 (2 ^ n) =
      ap (wait_from n) first ∙ wait_from_closed n 1 (omega arith) (omega arith) ∙ omega arith in
    rw (repair_event_same opens st gift e) (t, made ∙ ap (λ w. some (t, read_after w)) waits)
