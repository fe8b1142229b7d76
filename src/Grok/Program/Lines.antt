-- ===== src/Grok/Program/Lines.antt =====
-- What a line that is read changes, tags/grok/20090928/grok_matchconf.c: shells are started for its
-- matches, and none is lost.
use semicomplete_googlecode.Common.{
  ℕ, ◌+◌, ◌≤◌, ◌≡◌, ◌≢◌, refl, ap, not, ◌||◌, Option, none, some, List, [], ◌∷◌, arith, ◌==◌,
  get_elem?, set, Bool-cases, Option-cases, inl, inr, zero, suc, ◌⊎◌, ◌++◌, codes,
}
use semicomplete_googlecode.Grok.Program.{
  start_shell, exec_line, read_line, is_none, opened_shell, react,
}
use semicomplete_googlecode.Grok.Program.State.{
  Matchconf, Program, open_shells, open_inputs, Collection, still_alive, Input, closed, stdout,
  pipe, count,
}
use semicomplete_googlecode.Grok.Database.{same_key}

abbrev Alive : ℕ → Matchconf → Matchconf → Type 0
Alive pid gmc ready = pid ≢ 0 → count (not (gmc.pid == 0)) ≤ count (not (ready.pid == 0))

started_cases :
    (pid : ℕ) (gmc : Matchconf)
    → (start_shell pid gmc ≡ none)
      ⊎ ((ready : Matchconf) × (start_shell pid gmc ≡ some ready) × Alive pid gmc ready)
unfolding start_shell
started_cases pid gmc = elim (Option-cases gmc.shell) [
  | inl missing ↦ inl (rw missing refl)
  | inr (shell, there) ↦ elim (Bool-cases (same_key shell (codes "stdout"))) [
    | inl out ↦ inr (record gmc { shellinput = stdout }, rw (there, out) refl, λ real. omega arith)
    | inr own ↦
        inr
          (record gmc { shellinput = pipe; pid = pid }, rw (there, own) refl, λ real. ground arith)
  ]
]

opened_cases :
    (pid : ℕ) (gmc : Matchconf)
    → (opened_shell gmc.shellinput pid gmc ≡ none)
      ⊎ ((ready : Matchconf) × (opened_shell gmc.shellinput pid gmc ≡ some ready)
          × Alive pid gmc ready)
opened_cases pid gmc =
    elim gmc.shellinput
      as (λ sink.
        (opened_shell sink pid gmc ≡ none)
        ⊎ ((ready : Matchconf) × (opened_shell sink pid gmc ≡ some ready) × Alive pid gmc ready)) [
          | closed ↦ started_cases pid gmc
          | stdout ↦ inr (gmc, refl, λ real. omega arith)
          | pipe ↦ inr (gmc, refl, λ real. omega arith)
        ]

react-alive :
    (pid : ℕ) (reaction : List ℕ) (gmc sent : Matchconf)
    → pid ≢ 0
    → react pid reaction gmc ≡ some sent
    → count (not (gmc.pid == 0)) ≤ count (not (sent.pid == 0))
unfolding react
react-alive pid reaction gmc sent real ran = elim (opened_cases pid gmc) [
  | inl fault ↦ let e : none ≡ some sent = rw fault at ran in cc
  | inr (ready, opened, alive) ↦
      let e : some (record ready { sent = ready.sent ++ reaction ∷ [] }) ≡ some sent =
        rw opened at ran in
      let same : sent ≡ record ready { sent = ready.sent ++ reaction ∷ [] } = cc in
      rw same (alive real)
]

pub exec_line-alive :
    (fork : ℕ → ℕ) (found : ℕ → Option (List ℕ)) (i : ℕ) (gmcs : List Matchconf) (matches : ℕ)
    (r : List Matchconf × ℕ)
    → ((k : ℕ) → fork k ≢ 0)
    → exec_line fork found i gmcs matches ≡ some r
    → open_shells gmcs ≤ open_shells r.0
unfolding exec_line open_shells
exec_line-alive fork found i [] matches r real ran =
    let same : r ≡ ([], matches) = cc in rw same (omega arith)
exec_line-alive fork found i (gmc ∷ gmcs) matches r real ran =
    elim (Bool-cases (gmc.is_nomatch || is_none (found i))) [
      | inl pass ↦ elim (Option-cases (exec_line fork found (i + 1) gmcs matches)) [
        | inl fault ↦ let e : none ≡ some r = rw (pass, fault) at ran in cc
        | inr (rest, done) ↦
            let e : some (gmc ∷ rest.0, rest.1) ≡ some r = rw (pass, done) at ran in
            let same : r ≡ (gmc ∷ rest.0, rest.1) = cc in
            rw same (omega (arith, exec_line-alive fork found (i + 1) gmcs matches rest real done))
      ]
      | inr tried ↦ elim (Option-cases (found i)) [
        | inl missing ↦ let e : none ≡ some r = rw (tried, missing) at ran in cc
        | inr (reaction, hit) ↦ elim (Option-cases (react (fork i) reaction gmc)) [
          | inl fault ↦ let e : none ≡ some r = rw (tried, hit, fault) at ran in cc
          | inr (sent, reacted) ↦
              let alive = react-alive (fork i) reaction gmc sent (real i) reacted in
              elim (Bool-cases gmc.break_if_match) [
                | inl stops ↦
                    let e : some (sent ∷ gmcs, matches + 1) ≡ some r =
                      rw (tried, hit, reacted, stops) at ran in
                    let same : r ≡ (sent ∷ gmcs, matches + 1) = cc in rw same (omega (arith, alive))
                | inr on ↦ elim (Option-cases (exec_line fork found (i + 1) gmcs (matches + 1))) [
                  | inl fault ↦
                      let e : none ≡ some r = rw (tried, hit, reacted, on, fault) at ran in cc
                  | inr (rest, done) ↦
                      let e : some (sent ∷ rest.0, rest.1) ≡ some r =
                        rw (tried, hit, reacted, on, done) at ran in
                      let same : r ≡ (sent ∷ rest.0, rest.1) = cc in
                      rw same (
                        omega (
                          arith,
                          alive,
                          exec_line-alive fork found (i + 1) gmcs (matches + 1) rest real done,
                        ))
                ]
              ]
        ]
      ]
    ]

-- What a line did to the program.
pub record Read (gcol next : Collection) (p i : ℕ) (gprog : Program) (ginput : Input) : Type 0 where
  pub after : Program
  pub new : Input
  pub inputs : after.inputs ≡ set gprog.inputs i new
  pub not_ended : new.done ≡ ginput.done
  pub alive : open_shells gprog.matchconfigs ≤ open_shells after.matchconfigs
  pub result : next ≡ record gcol { programs = set gcol.programs p after }

pub read_line-Read :
    (fork : ℕ → ℕ) (found : ℕ → Option (List ℕ)) (p i : ℕ) (gcol next : Collection)
    (gprog : Program) (ginput : Input)
    → ((k : ℕ) → fork k ≢ 0)
    → get_elem? gcol.programs p ≡ some gprog
    → get_elem? gprog.inputs i ≡ some ginput
    → read_line fork found p i gcol ≡ some next
    → Read gcol next p i gprog ginput
unfolding read_line
read_line-Read fork found p i gcol next gprog ginput real at_p at_i ran =
    elim (Option-cases (exec_line fork found 0 gprog.matchconfigs ginput.instance_match_count)) [
      | inl fault ↦ let e : none ≡ some next = rw (at_p, at_i, fault) at ran in cc
      | inr (r, done) ↦
          let new : Input = record ginput { instance_match_count = r.1 } in
          let changed : Program = record { inputs = set gprog.inputs i new; matchconfigs = r.0 } in
          let e : some (record gcol { programs = set gcol.programs p changed }) ≡ some next =
            rw (at_p, at_i, done) at ran in
          record {
            after = changed;
            new = new;
            inputs = refl;
            not_ended = refl;
            alive =
                exec_line-alive fork found 0 gprog.matchconfigs ginput.instance_match_count r real
                  done;
            result =
                (let same : next ≡ record gcol { programs = set gcol.programs p changed } = cc in
                  same);
          }
    ]

-- A program in which no less is alive.
pub still_alive-more :
    (programs : List Program) (p : ℕ) (gprog after : Program)
    → get_elem? programs p ≡ some gprog
    → open_inputs after.inputs ≡ open_inputs gprog.inputs
    → open_shells gprog.matchconfigs ≤ open_shells after.matchconfigs
    → still_alive programs ≤ still_alive (set programs p after)
unfolding still_alive
still_alive-more [] p gprog after h same more = cc
still_alive-more (q ∷ qs) zero gprog after h same more =
    let here : q ≡ gprog = cc in
    omega (
      arith,
      same,
      more,
      ap (λ (r : Program). open_inputs r.inputs) here,
      ap (λ (r : Program). open_shells r.matchconfigs) here,
    )
still_alive-more (q ∷ qs) (suc p) gprog after h same more =
    omega (arith, still_alive-more qs p gprog after h same more)
