-- ===== src/Tests/Systems.antt =====
-- Two workers go through the last chunk of a run, which has one slot; one of them dies in it.
use mishegos.Base.{
  ℕ, zero, suc, ◌+◌, ◌-◌, ◌*◌, ◌^◌, ◌<◌, ◌≡◌, refl, subst, ◌⊎◌, Bool, true, false, none, some,
  Option, not, ◌&&◌, ltb, ltb→lt, ◌==◌, ==_iff, if◌then◌else◌, arith,
}
use mishegos.Slots.{InputSlot, OutputSlot}
use mishegos.Gen.{Gen}
use mishegos.Fuzzer.Worker.{
  Decoding, decode_slots, decode_chunk, start_slot, sigchld_handler, find_crash, note_crash,
  restart, update, mishegos_num_chunks,
}
use mishegos.Fuzzer.Fill.{Ring, advance, publish, fill_slots, fill, fill_next}
use mishegos.Fuzzer.Crew.{view, put, find_pid, worker_for_pid, handle_pid, restart_workers}
use mishegos.Fuzzer.System.{
  Position, Move, System, chunk, ring_of, with_worker, with_ring, start_system, enter, work,
  Reaches,
}
use mishegos.Fuzzer.System.Fit.{Answered}
use mishegos.Fuzzer.System.Answers.{Reaches-Answered}
use mishegos.Fuzzer.System.Complete.{Reaches-complete}
use mishegos.Fuzzer.System.Progress.{Awake, Reaches-Awake}
use mishegos.Fuzzer.System.Stamps.{stamp}
use mishegos.Tests.Inputs.{nop}

-- It has as many inputs as its state says.
abbrev pub few_inputs : InputSlot → Gen ℕ (Bool × InputSlot)
few_inputs slot n = some ((ltb 0 n, nop), n - 1)

abbrev pub one_dies : ℕ → OutputSlot → InputSlot → Decoding
one_dies i o slot = if i == 1 then Decoding.crashed o else Decoding.returned (record o { len = 1 })

abbrev pub pids : ℕ → ℕ
pids i = 100 + i

abbrev pub both : ℕ → Bool
both i = true

abbrev pub by_move : ℕ → System → Move → System
by_move i sys (Move.finishes gen idx s) =
    record (with_worker i (sys.crew.workers i).pid s (Position.counted gen idx) sys) {
      served = update sys.served i (sys.served i + 1);
    }
by_move i sys (Move.dies gen idx s) =
    with_worker i (sys.crew.workers i).pid s (Position.dead gen idx) sys
by_move i sys (Move.leaves p) = record sys { positions = update sys.positions i p }
by_move i sys Move.blocked = sys

abbrev working : ℕ → System → System
working i sys = by_move i sys (work (one_dies i) (sys.positions i) (view sys.crew i))

abbrev pub by_ring : System → Option (Ring × ℕ) → System
by_ring sys none = sys
by_ring sys (some (r, n)) =
    with_ring r (if sys.exit_idx == mishegos_num_chunks then sys.published + 1 else sys.published)
      sys

abbrev rounding : ℕ → System → System
rounding n sys = by_ring sys (fill_next few_inputs 2 (ring_of sys) n)

abbrev filled : System
filled = rounding 1 (start_system pids both)

abbrev crashed : System
crashed = working 1 (working 0 filled)

abbrev noted : System
noted = record crashed { crew = put 1 101 (sigchld_handler (view crashed.crew 1)) crashed.crew }

abbrev again : System
again = with_worker 1 201 (restart (view noted.crew 1)) (Position.at 1 0) noted

abbrev served : System
served = working 1 again

filled-reached : Reaches one_dies few_inputs 2 pids both filled
unfolding start_system enter fill_next fill fill_slots advance publish restart_workers
filled-reached = Reaches.rounds pids 1 0 Reaches.begin refl refl refl (omega arith) refl

served-reached : Reaches one_dies few_inputs 2 pids both served
unfolding start_system enter fill_next fill fill_slots advance publish restart_workers work
    decode_chunk decode_slots start_slot sigchld_handler find_crash note_crash restart handle_pid
    worker_for_pid find_pid
served-reached =
    Reaches.finishes 1 1 0 _
      (Reaches.restarted 1 201
        (Reaches.reported 101 1
          (Reaches.dies 1 1 0 _ (Reaches.finishes 0 1 0 _ filled-reached (omega arith) refl)
            (omega arith) refl)
          (omega arith) refl tt refl refl)
        (omega arith) refl)
      (omega arith) refl

-- `main` goes round the ring.
abbrev skip : System → System
skip sys = with_ring (advance (ring_of sys)) sys.published sys

abbrev may_skip : System → Bool
may_skip sys =
    ((chunk sys sys.idx).remaining_workers == 0)
    && (not (restart_workers pids 2 0 sys.crew).0
        && (not (sys.idx == sys.exit_idx)
            && (ltb (sys.gen + 1) (2 ^ 32) && not (sys.exit_idx == mishegos_num_chunks))))

pub both_true : (a b : Bool) → (a && b) ≡ true → (a ≡ true) × (b ≡ true)
both_true true true e = (refl, refl)
both_true true false e = absurd (cc (e))
both_true false b e = absurd (cc (e))

pub unnegated : (a : Bool) → not a ≡ true → a ≡ false
unnegated true e = absurd (cc (e))
unnegated false e = refl

skip-reached :
    (sys : System)
    → Reaches one_dies few_inputs 2 pids both sys
    → may_skip sys ≡ true
    → Reaches one_dies few_inputs 2 pids both (skip sys)
unfolding fill_next
skip-reached sys reached may =
    let (waited, h) = both_true ((chunk sys sys.idx).remaining_workers == 0) _ may in
    let (quiet, h') = both_true (not (restart_workers pids 2 0 sys.crew).0) _ h in
    let (on, h'') = both_true (not (sys.idx == sys.exit_idx)) _ h' in
    let (small, leaving) =
      both_true (ltb (sys.gen + 1) (2 ^ 32)) (not (sys.exit_idx == mishegos_num_chunks)) h'' in
    let ending = unnegated _ leaving in
    subst
      (λ (p : ℕ). Reaches one_dies few_inputs 2 pids both (with_ring (advance (ring_of sys)) p sys))
      (rw ending refl)
      (Reaches.rounds pids 0 0 reached ((==_iff _ _).0 waited) (unnegated _ quiet) (unnegated _ on)
        (ltb→lt _ _ small) (rw ending refl))

abbrev skips : ℕ → System → System
skips zero sys = sys
skips (suc n) sys = skips n (skip sys)

abbrev may_skips : ℕ → System → Bool
may_skips zero sys = true
may_skips (suc n) sys = may_skip sys && may_skips n (skip sys)

skips-reached :
    (n : ℕ) (sys : System)
    → Reaches one_dies few_inputs 2 pids both sys
    → may_skips n sys ≡ true
    → Reaches one_dies few_inputs 2 pids both (skips n sys)
skips-reached zero sys reached may = reached
skips-reached (suc n) sys reached may =
    let (now, later) = both_true _ _ may in
    skips-reached n (skip sys) (skip-reached sys reached now) later

abbrev last : System
last = skips 15 served

last-reached : Reaches one_dies few_inputs 2 pids both last
unfolding start_system enter fill_next fill fill_slots advance publish restart_workers work
    decode_chunk decode_slots start_slot sigchld_handler find_crash note_crash restart
last-reached = skips-reached 15 served served-reached refl

last-quiet :
    ((chunk last last.idx).remaining_workers ≡ 0)
    × ((restart_workers pids 2 0 last.crew).0 ≡ false)
    × (last.gen ≡ 2)
unfolding start_system enter fill_next fill fill_slots advance publish restart_workers work
    decode_chunk decode_slots start_slot sigchld_handler find_crash note_crash restart
last-quiet = (refl, refl, refl)

Reaches-Answered_example :
    ((chunk last last.idx).generation + 1 ≡ last.gen)
    × ((i : ℕ)
        → i < 2
        → Answered
            (one_dies i)
            (chunk last last.idx)
            (chunk last last.idx).input_count
            ((last.crew.workers i).output_chunks last.idx).outputs)
Reaches-Answered_example =
    Reaches-Answered one_dies few_inputs 2 pids pids both last (omega arith) last-reached
      last-quiet.0 last-quiet.1 (omega (arith, last-quiet))

last-stays :
    (i : ℕ)
    → i < 2
    → last.positions i ≡ Position.ended
    → stamp (chunk last) last.idx < last.served i + 16
unfolding start_system enter fill_next fill fill_slots advance publish restart_workers work
    decode_chunk decode_slots start_slot sigchld_handler find_crash note_crash restart
last-stays zero lt e = omega arith
last-stays (suc zero) lt e = omega arith
last-stays (suc (suc i)) lt e = absurd (omega arith)

Reaches-Awake_example :
    (((chunk last last.idx).remaining_workers ≡ 0)
      × ((restart_workers pids 2 0 last.crew).0 ≡ false))
    ⊎ ((i : ℕ) × (i < 2) × Awake one_dies last i)
Reaches-Awake_example =
    Reaches-Awake one_dies few_inputs 2 pids pids both last (omega arith) last-reached last-stays

-- A worker that counted itself off a full chunk, and looks at its size when `main` has filled it again
-- with fewer inputs, ends without the new chunk: `main` then waits for it for ever.
too_early :
    work (one_dies 0) (Position.counted 0 0) (view filled.crew 0) ≡ Move.leaves Position.ended
unfolding start_system enter fill_next fill fill_slots advance publish work
too_early = refl

last-exit : (last.idx == last.exit_idx) ≡ true
unfolding start_system enter fill_next fill fill_slots advance publish restart_workers work
    decode_chunk decode_slots start_slot sigchld_handler find_crash note_crash restart
last-exit = refl

Reaches-complete_example :
    ((i : ℕ) → i < 2 → last.served i ≡ last.published)
    × ((chunk last last.idx).generation * 16 + last.idx ≡ last.published + 15)
Reaches-complete_example =
    Reaches-complete one_dies few_inputs 2 pids pids both last (omega arith) last-reached
      last-quiet.0 last-quiet.1 last-exit
