-- ===== src/Client/Multi/Perform/Ended.antt =====
-- The loop counts right, and at its end every request has its outcome.
use cor_rest.Base.{
  ltb, Bool-cases, length, All, ℕ, zero, suc, ◌+◌, ◌≤◌, ◌≡◌, refl, ap, ◌∙◌, inl, inr, List, [], ◌∷◌,
  ◌++◌, arith,
}
use cor_rest.Client.Follow.{ClientError, err_timeout, err_recv, Act}
use cor_rest.Client.Multi.{
  Turn, handle_event, MultiState, starting, connecting, writing, reading, done, Entry, Multi, Ready,
}
use cor_rest.Client.Multi.Perform.{
  begin_entry, for_each, at_index, with_entries, ends_open, gives_up_on, handle_events, run_rounds,
  clean_up, multi_perform, Around, Round, time_over, no_wait, turns,
}
use cor_rest.Client.Multi.Perform.Settled.{
  count_some, is_over, IsSettled, Counts, IsOpen, IsSettled-IsOpen, fails_with-Counts,
  handle_event-Counts, begin_entry-Counts,
}

-- How many entries are done
unfoldable overs : List Entry → ℕ
overs [] = 0
overs (e ∷ es) = is_over e.state + overs es

-- The entries and the growth of `done` that a pass over them leaves
Passes : List Entry → List Act × List Entry × ℕ → Type 0
Passes es r = All IsSettled r.1 × (overs r.1 ≡ overs es + r.2) × (length r.1 ≡ length es)

for_each-Passes {ℓ} :
    (P : Entry → Type ℓ) (f : Entry → Turn) (es : List Entry)
    → ((e : Entry) → P e → Counts e (f e))
    → All P es
    → Passes es (for_each f es)
unfolding for_each Passes overs
for_each-Passes P f [] counts h = (tt, omega arith, refl)
for_each-Passes P f (e ∷ es) counts h =
    let first = counts e h.0 in
    let later = for_each-Passes P f es counts h.1 in
    ((first.0, later.0), omega (arith, first, later.1), omega (arith, later.2))

at_index-Passes :
    (i : ℕ) (f : Entry → Turn) (es : List Entry)
    → ((e : Entry) → IsSettled e → Counts e (f e))
    → All IsSettled es
    → Passes es (at_index i f es)
unfolding at_index Passes overs
at_index-Passes i f [] counts h = (tt, omega arith, refl)
at_index-Passes zero f (e ∷ es) counts h =
    let first = counts e h.0 in ((first.0, h.1), omega (arith, first), refl)
at_index-Passes (suc i) f (e ∷ es) counts h =
    let later = at_index-Passes i f es counts h.1 in
    ((h.0, later.0), omega (arith, later.1), omega (arith, later.2))

-- The engine's count is right.
record IsCounted (m : Multi) : Type 0 where
  all_settled : All IsSettled m.entries
  counted : m.done_count ≡ overs m.entries

with_entries-IsCounted :
    (r : List Act × List Entry × ℕ) (m : Multi)
    → m.done_count ≡ overs m.entries
    → Passes m.entries r
    → IsCounted (with_entries r m).1
unfolding Passes
with_entries-IsCounted r m counted passes = record {
  all_settled = passes.0;
  counted = omega (arith, counted, passes.1);
}

handle_events-IsCounted :
    (a : Around) (evs : List (ℕ × Ready)) (m : Multi)
    → IsCounted m
    → IsCounted (handle_events a evs m).1
      × (length (handle_events a evs m).1.entries ≡ length m.entries)
unfolding handle_events
handle_events-IsCounted a [] m h = (h, refl)
handle_events-IsCounted a ((i, r) ∷ rs) m h =
    let f = handle_event a.grow a.room m.max_response_bytes r in
    let passes =
      at_index-Passes i f m.entries (handle_event-Counts a.grow a.room m.max_response_bytes r)
        h.all_settled in
    let one = at_index i f m.entries in
    let later =
      handle_events-IsCounted a rs (with_entries one m).1
        (with_entries-IsCounted one m h.counted passes) in
    (later.0, later.1 ∙ unfold Passes in passes.2)

ends_open-Counts :
    (s : MultiState) (err : ClientError) (e : Entry)
    → e.state ≡ s
    → IsSettled e
    → Counts e (ends_open s err e) × (is_over (ends_open s err e).1.state ≡ 1)
ends_open-Counts done err e same h = ((h, omega arith), ap is_over same)
ends_open-Counts starting err e same h =
    (fails_with-Counts err e (IsSettled-IsOpen e h (ap is_over same)), refl)
ends_open-Counts connecting err e same h =
    (fails_with-Counts err e (IsSettled-IsOpen e h (ap is_over same)), refl)
ends_open-Counts writing err e same h =
    (fails_with-Counts err e (IsSettled-IsOpen e h (ap is_over same)), refl)
ends_open-Counts reading err e same h =
    (fails_with-Counts err e (IsSettled-IsOpen e h (ap is_over same)), refl)

gives_up_on-Counts : (err : ClientError) (e : Entry) → IsSettled e → Counts e (gives_up_on err e)
gives_up_on-Counts err e h = (ends_open-Counts e.state err e refl h).0

-- Giving up on all leaves none open.
overs-gives_up_on :
    (err : ClientError) (es : List Entry)
    → All IsSettled es
    → overs (for_each (gives_up_on err) es).1 ≡ length es
unfolding overs for_each
overs-gives_up_on err [] h = refl
overs-gives_up_on err (e ∷ es) h =
    let first = (ends_open-Counts e.state err e refl h.0).1 in
    omega (arith, first, overs-gives_up_on err es h.1)

-- What the loop keeps
Keeps : Multi → Multi → Type 0
Keeps m m' = IsCounted m' × (length m'.entries ≡ length m.entries)

give_up-Keeps :
    (err : ClientError) (m : Multi)
    → IsCounted m
    → (let m' = (with_entries (for_each (gives_up_on err) m.entries) m).1 in
        Keeps m m' × (length m.entries ≤ m'.done_count))
unfolding Keeps
give_up-Keeps err m h =
    let r = for_each (gives_up_on err) m.entries in
    let passes =
      for_each-Passes IsSettled (gives_up_on err) m.entries (gives_up_on-Counts err)
        h.all_settled in
    let all = overs-gives_up_on err m.entries h.all_settled in
    let counted = with_entries-IsCounted r m h.counted passes in
    ((counted, unfold Passes in passes.2), omega (arith, counted.counted, all))

-- The rounds up to the deadline: the count stays right, and at the end all are counted.
run_rounds-Keeps :
    (a : Around) (rs : List Round) (m : Multi)
    → IsCounted m
    → (let m' = (run_rounds a (rs ++ time_over ∷ []) m).1 in
        Keeps m m' × (length m.entries ≤ m'.done_count))
unfolding run_rounds Keeps
run_rounds-Keeps a [] m h = elim (Bool-cases (ltb m.done_count (length m.entries))) [
  | inl going ↦ rw going (give_up-Keeps err_timeout m h)
  | inr ended ↦ rw ended ((h, refl), ground (arith, ended))
]
run_rounds-Keeps a (time_over ∷ rs) m h = elim (Bool-cases (ltb m.done_count (length m.entries))) [
  | inl going ↦ rw going (give_up-Keeps err_timeout m h)
  | inr ended ↦ rw ended ((h, refl), ground (arith, ended))
]
run_rounds-Keeps a (no_wait ∷ rs) m h = elim (Bool-cases (ltb m.done_count (length m.entries))) [
  | inl going ↦ rw going (give_up-Keeps err_recv m h)
  | inr ended ↦ rw ended ((h, refl), ground (arith, ended))
]
run_rounds-Keeps a (turns evs ∷ rs) m h =
    let handled = handle_events-IsCounted a evs m h in
    let later = run_rounds-Keeps a rs (handle_events a evs m).1 handled.0 in
    elim (Bool-cases (ltb m.done_count (length m.entries))) [
      | inl going ↦ rw going ((later.0.0, later.0.1 ∙ handled.1), omega (arith, later.1, handled.1))
      | inr ended ↦ rw ended ((h, refl), ground (arith, ended))
    ]

-- A request that has ended: its error or its response, and not both
abbrev pub HasEnded : Entry → Type 0
HasEnded e = (e.state ≡ done) × (count_some e.error + count_some e.answer ≡ 1)

is_over-done : (s : MultiState) → is_over s ≡ 1 → s ≡ done
is_over-done done h = refl
is_over-done starting h = absurd (omega arith)
is_over-done connecting h = absurd (omega arith)
is_over-done writing h = absurd (omega arith)
is_over-done reading h = absurd (omega arith)

is_over-le : (s : MultiState) → is_over s ≤ 1
is_over-le done = omega arith
is_over-le starting = omega arith
is_over-le connecting = omega arith
is_over-le writing = omega arith
is_over-le reading = omega arith

overs-le : (es : List Entry) → overs es ≤ length es
unfolding overs
overs-le [] = omega arith
overs-le (e ∷ es) = omega (arith, is_over-le e.state, overs-le es)

All-HasEnded : (es : List Entry) → All IsSettled es → length es ≤ overs es → All HasEnded es
unfolding overs
All-HasEnded [] h all = tt
All-HasEnded (e ∷ es) h all =
    let here = is_over-le e.state in
    let rest = overs-le es in
    let over : is_over e.state ≡ 1 = omega (arith, here, rest, all) in
    ((is_over-done e.state over, h.0 ∙ over), All-HasEnded es h.1 (omega (arith, here, all)))

overs-open : (es : List Entry) → All IsOpen es → overs es ≡ 0
unfolding overs
overs-open [] h = refl
overs-open (e ∷ es) h = omega (arith, h.0.2, overs-open es h.1)

-- A run of the engine on new requests that goes on, at the latest, until its deadline: whatever the
-- sockets do, each request ends once, with an error or with a response and not with both, and the
-- number of those that are done is the number of requests.
pub multi_perform-HasEnded :
    (a : Around) (rounds : List Round) (m : Multi)
    → All IsOpen m.entries
    → m.done_count ≡ 0
    → (let m' = (multi_perform a (rounds ++ time_over ∷ []) m).1 in
        All HasEnded m'.entries
        × (m'.done_count ≡ length m'.entries)
        × (length m'.entries ≡ length m.entries))
unfolding multi_perform Keeps Passes
multi_perform-HasEnded a rounds m fresh zero_done =
    let begun = for_each (begin_entry a) m.entries in
    let m1 = (with_entries begun m).1 in
    let passes1 = for_each-Passes IsOpen (begin_entry a) m.entries (begin_entry-Counts a) fresh in
    let none_over = overs-open m.entries fresh in
    let counted1 = with_entries-IsCounted begun m (omega (arith, zero_done, none_over)) passes1 in
    let ran = run_rounds-Keeps a rounds m1 counted1 in
    let m2 = (run_rounds a (rounds ++ time_over ∷ []) m1).1 in
    let kept = ran.0 in
    let passes2 =
      for_each-Passes IsSettled clean_up m2.entries (λ e h. (h, omega arith)) kept.0.all_settled in
    let m3 = (with_entries (for_each clean_up m2.entries) m2).1 in
    let counted2 =
      with_entries-IsCounted (for_each clean_up m2.entries) m2 kept.0.counted passes2 in
    let most = overs-le m3.entries in
    let all : length m3.entries ≤ overs m3.entries =
      omega (arith, passes2.2, kept.1, ran.1, kept.0.counted, passes2.1) in
    (
      All-HasEnded m3.entries counted2.all_settled all,
      omega (arith, counted2.counted, all, most),
      passes2.2 ∙ kept.1 ∙ passes1.2,
    )
