-- ===== src/Grok/Program/Delays.antt =====
-- When a process is started again, `_collection_sigchld` of tags/grok/20090928/grok_program.c.
use semicomplete_googlecode.Common.{
  ℕ, ◌+◌, ◌*◌, ◌≤◌, ◌≡◌, ◌≢◌, ◌⊎◌, arith, refl, inl, inr, Bool, true, false, not, ◌&&◌, ◌==◌,
  ltb→lt, Bool-cases, ◌<◌,
}
use semicomplete_googlecode.Common.Int.{ℤ, pos, pos_part, neg_part}
use semicomplete_googlecode.Grok.Program.{process_delay, interval_delay, time_diff, earlier}
use semicomplete_googlecode.Grok.Program.State.{Process}

-- A delay reaches from a time to another, or beyond.
abbrev pub Reaches : ℕ → ℤ → ℕ → Type 0
Reaches now delay time = time + neg_part delay ≤ now + pos_part delay

time_diff-parts : (a b : ℕ) → pos_part (time_diff a b) + b ≡ neg_part (time_diff a b) + a
time_diff-parts a b = ground arith

interval_delay-Reaches :
    (now : ℕ) (p : Process)
    → p.run_interval ≢ 0
    → Reaches now (interval_delay now p) (p.start_time + p.run_interval * 1000000)
interval_delay-Reaches now p h =
    let runs : (p.run_interval == 0) ≡ false = ground arith in
    rw runs (omega (arith, time_diff-parts (p.run_interval * 1000000 + p.start_time) now))

and_right : (a b : Bool) → (a && b) ≡ true → b ≡ true
and_right true b h = h
and_right false b h = cc

not_earlier : (k : ℕ) (b : Bool) → k ≢ 0 → (not (k == 0) && b) ≡ false → b ≡ false
not_earlier k b h e = ground arith

long_enough : (d : ℤ) (m now : ℕ) → earlier d (pos m) ≡ false → Reaches now d (now + m)
long_enough d m now h = ground arith

-- A process with a run interval is started again an interval after its last start or later, and one
-- with a least delay no earlier than that delay after its death; and the delay is one of these two,
-- so it is no longer than needed.
pub process_delay_bounds :
    (now : ℕ) (p : Process)
    → (p.run_interval ≢ 0
        → Reaches now (process_delay now p) (p.start_time + p.run_interval * 1000000))
      × (p.min_restart_delay ≢ 0
          → Reaches now (process_delay now p) (now + p.min_restart_delay * 1000000))
      × ((process_delay now p ≡ interval_delay now p)
          ⊎ (process_delay now p ≡ pos (p.min_restart_delay * 1000000)))
unfolding process_delay
process_delay_bounds now p =
    let fixed = pos (p.min_restart_delay * 1000000) in
    elim (Bool-cases (not (p.min_restart_delay == 0) && earlier (interval_delay now p) fixed)) [
      | inl raised ↦
          let shorter : earlier (interval_delay now p) fixed ≡ true =
            and_right (not (p.min_restart_delay == 0)) (earlier (interval_delay now p) fixed)
              raised in
          let d = interval_delay now p in
          let less : pos_part d + 0 < p.min_restart_delay * 1000000 + neg_part d =
            ltb→lt (pos_part d + 0) (p.min_restart_delay * 1000000 + neg_part d) shorter in
          rw raised
            (λ h. omega (arith, interval_delay-Reaches now p h, less), λ h. omega arith, inr refl)
      | inr kept ↦ rw kept (
        λ h. interval_delay-Reaches now p h,
        λ h. long_enough _ (p.min_restart_delay * 1000000) now (not_earlier _ _ h kept),
        inl refl,
      )
    ]
