-- ===== src/Tests/EarlyExit.antt =====
-- A worker takes the size of the chunk that `main` has filled again for that of the chunk it has ended,
-- and leaves its loop with sixteen chunks left.
use mishegos.Base.{
  ℕ, zero, suc, ◌+◌, ◌-◌, ◌*◌, ◌^◌, ◌≡◌, refl, sym, subst, Bool, true, Option, not, ◌&&◌, ltb,
  ltb→lt, ◌==◌, ==_iff, arith, Option-cases, inl, inr,
}
use mishegos.Slots.{InputSlot, OutputSlot}
use mishegos.Fuzzer.Worker.{Decoding, decode_slots, decode_chunk, start_slot}
use mishegos.Fuzzer.Fill.{Ring, advance, publish, fill_slots, fill, fill_next}
use mishegos.Fuzzer.Crew.{view, restart_workers}
use mishegos.Fuzzer.System.{
  Position, Move, System, chunk, ring_of, start_system, enter, work, Reaches,
}
use mishegos.Tests.Systems.{few_inputs, pids, both, by_ring, by_move, both_true, unnegated}

abbrev calm : ℕ → OutputSlot → InputSlot → Decoding
calm i o slot = Decoding.returned o

abbrev Reached : System → Type 0
Reached = Reaches calm few_inputs 1 pids both

-- The worker moves.
abbrev works : System → System
works sys = by_move 0 sys (work (calm 0) (sys.positions 0) (view sys.crew 0))

by_move-Reached :
    (sys : System) (m : Move)
    → Reached sys
    → work (calm 0) (sys.positions 0) (view sys.crew 0) ≡ m
    → Reached (by_move 0 sys m)
by_move-Reached sys (Move.finishes gen idx s) reached e =
    Reaches.finishes 0 gen idx s reached (omega arith) e
by_move-Reached sys (Move.dies gen idx s) reached e =
    Reaches.dies 0 gen idx s reached (omega arith) e
by_move-Reached sys (Move.leaves p) reached e = Reaches.leaves 0 p reached (omega arith) e
by_move-Reached sys Move.blocked reached e = reached

-- `main` goes through a round, with `n` inputs left.
abbrev rounds : ℕ → System → System
rounds n sys = by_ring sys (fill_next few_inputs 1 (ring_of sys) n)

abbrev may_round : System → Bool
may_round sys =
    ((chunk sys sys.idx).remaining_workers == 0)
    && (not (restart_workers pids 1 0 sys.crew).0
        && (not (sys.idx == sys.exit_idx) && ltb (sys.gen + 1) (2 ^ 32)))

rounds-Reached :
    (n : ℕ) (sys : System) → Reached sys → may_round sys ≡ true → Reached (rounds n sys)
rounds-Reached n sys reached may =
    let (waited, h) = both_true ((chunk sys sys.idx).remaining_workers == 0) _ may in
    let (quiet, h') = both_true (not (restart_workers pids 1 0 sys.crew).0) _ h in
    let (on, small) = both_true (not (sys.idx == sys.exit_idx)) (ltb (sys.gen + 1) (2 ^ 32)) h' in
    elim (Option-cases (fill_next few_inputs 1 (ring_of sys) n)) [
      | inl failed ↦ subst (λ (o : Option (Ring × ℕ)). Reached (by_ring sys o)) (sym failed) reached
      | inr ((r, n'), filled) ↦
          subst (λ (o : Option (Ring × ℕ)). Reached (by_ring sys o)) (sym filled)
            (Reaches.rounds pids n n' reached ((==_iff _ _).0 waited) (unnegated _ quiet)
              (unnegated _ on) (ltb→lt _ _ small) filled)
    ]

-- `k` full chunks are handed over.
abbrev full_rounds : ℕ → System
full_rounds zero = start_system pids both
full_rounds (suc k) = rounds (65536 - 4096 * k) (full_rounds k)

abbrev may_rounds : ℕ → Bool
may_rounds zero = true
may_rounds (suc k) = may_rounds k && may_round (full_rounds k)

full_rounds-Reached : (k : ℕ) → may_rounds k ≡ true → Reached (full_rounds k)
full_rounds-Reached zero may = Reaches.begin
full_rounds-Reached (suc k) may =
    let (before, now) = both_true (may_rounds k) (may_round (full_rounds k)) may in
    rounds-Reached (65536 - 4096 * k) (full_rounds k) (full_rounds-Reached k before) now

-- The worker ends the first chunk; `main` fills it again, with no input; the worker goes on.
abbrev refilled : System
refilled = rounds 0 (works (full_rounds 16))

abbrev left_early : System
left_early = works refilled

left_early-Reached : Reached left_early
unfolding start_system enter fill_next fill fill_slots advance publish restart_workers work
    decode_chunk decode_slots start_slot
left_early-Reached =
    by_move-Reached refilled _
      (rounds-Reached 0 (works (full_rounds 16))
        (by_move-Reached (full_rounds 16) _ (full_rounds-Reached 16 refl) refl) refl)
      refl

left_early-waits :
    (left_early.positions 0 ≡ Position.ended)
    × (left_early.served 0 ≡ 1)
    × (left_early.published ≡ 17)
    × ((chunk left_early left_early.idx).remaining_workers ≡ 1)
unfolding start_system enter fill_next fill fill_slots advance publish restart_workers work
    decode_chunk decode_slots start_slot
left_early-waits = (refl, refl, refl, refl)
