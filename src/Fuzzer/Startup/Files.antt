-- ===== src/Fuzzer/Startup/Files.antt =====
-- src/mishegos/mishegos.c: which workers the file names.
use mishegos.Base.{
  ℕ, zero, suc, ◌+◌, ◌-◌, ◌≤◌, ◌<◌, ◌≡◌, refl, sym, ap, ◌∙◌, Bool, true, false, some, List, [], ◌∷◌,
  ◌++◌, length, length-append, append_assoc, take, All, unlines, ltb, ◌==◌, if◌then◌else◌, arith,
  Bool-cases, inl, inr,
}
use mishegos.Slots.{mishegos_max_nworkers}
use mishegos.Mutator.Manual.{read_line, getline, chop}
use mishegos.Fuzzer.Startup.{
  WorkerConfig, Loaded, started, unreadable, prepend, ends_line, is_comment, config, by_line,
  load_line, load_lines, load_workers,
}

-- A character of a line: neither the newline nor the end of a C string.
abbrev pub IsPlain : ℕ → Type 0
IsPlain c = ((c == 0x0a) ≡ false) × ((c == 0) ≡ false)

-- The lines that name a worker.
pub paths_in : List (List ℕ) → List (List ℕ)
paths_in [] = []
paths_in (line ∷ lines) = if is_comment line then paths_in lines else line ∷ paths_in lines

-- The workers are started one behind the other, numbered from `n` on, up to a path that cannot be read.
pub start_all : (List ℕ → Bool) → ℕ → List (List ℕ) → Loaded
start_all readable n [] = started []
start_all readable n (path ∷ paths) =
    if readable path
    then prepend (config n path) (start_all readable (n + 1) paths)
    else unreadable path

read_line-line :
    (line rest : List ℕ)
    → All IsPlain line
    → read_line (line ++ 0x0a ∷ rest) ≡ (line ++ 0x0a ∷ [], rest)
unfolding read_line
read_line-line [] rest h = refl
read_line-line (c ∷ cs) rest h = rw (h.0.0, read_line-line cs rest h.1) refl

getline-line :
    (line rest : List ℕ)
    → All IsPlain line
    → getline (line ++ 0x0a ∷ rest) ≡ some (line ++ 0x0a ∷ [], rest)
unfolding getline
getline-line [] rest h = ap some (read_line-line [] rest h)
getline-line (c ∷ cs) rest h = ap some (read_line-line (c ∷ cs) rest h)

chop-line : (line : List ℕ) → All IsPlain line → chop (line ++ 0x0a ∷ []) ≡ line
unfolding chop
chop-line [] h = refl
chop-line (c ∷ cs) h = rw (h.0.0, h.0.1, chop-line cs h.1) refl

ends_line-line : (line : List ℕ) → ends_line (line ++ 0x0a ∷ []) ≡ true
unfolding ends_line
ends_line-line [] = refl
ends_line-line (c ∷ cs) = elim (Bool-cases (c == 0x0a)) [
  | inl newline ↦ rw newline refl
  | inr other ↦ rw (other, ends_line-line cs) refl
]

is_comment-line : (line : List ℕ) → is_comment (line ++ 0x0a ∷ []) ≡ is_comment line
is_comment-line [] = refl
is_comment-line (c ∷ cs) = refl

length-unlines : (lines : List (List ℕ)) → length lines ≤ length (unlines lines)
unfolding unlines
length-unlines [] = omega arith
length-unlines (line ∷ lines) =
    omega (arith, length-unlines lines, length-append line (0x0a ∷ unlines lines))

-- A last line without a newline.
read_line-tail : (tail : List ℕ) → All IsPlain tail → read_line tail ≡ (tail, [])
unfolding read_line
read_line-tail [] h = refl
read_line-tail (c ∷ cs) h = rw (h.0.0, read_line-tail cs h.1) refl

ends_line-tail : (tail : List ℕ) → All IsPlain tail → ends_line tail ≡ false
unfolding ends_line
ends_line-tail [] h = refl
ends_line-tail (c ∷ cs) h = rw (h.0.0, ends_line-tail cs h.1) refl

module _ (on_line : List ℕ → List ℕ → Loaded) where
  by_line-line :
      (line rest : List ℕ)
      → All IsPlain line
      → by_line on_line (getline (line ++ 0x0a ∷ rest)) ≡ on_line (line ++ 0x0a ∷ []) rest
  by_line-line line rest h = rw (getline-line line rest h, ends_line-line line) refl

  by_line-tail : (tail : List ℕ) → All IsPlain tail → by_line on_line (getline tail) ≡ started []
  unfolding getline
  by_line-tail [] h = refl
  by_line-tail (c ∷ cs) h = rw (read_line-tail (c ∷ cs) h, ends_line-tail (c ∷ cs) h) refl

module _ (readable : List ℕ → Bool) (tail : List ℕ) (plain : All IsPlain tail) where
  -- One line, when the lines behind it are as they should be.
  load_line-start_all :
      (fuel n k : ℕ) (line : List ℕ) (lines : List (List ℕ))
      → All IsPlain line
      → load_lines readable fuel n (unlines lines ++ tail)
        ≡ start_all readable n (take (suc k) (paths_in lines))
      → load_lines readable fuel (n + 1) (unlines lines ++ tail)
        ≡ start_all readable (n + 1) (take k (paths_in lines))
      → by_line
          (λ line rest.
            load_line readable n line
              (load_lines readable fuel n rest)
              (load_lines readable fuel (n + 1) rest))
          (getline (unlines (line ∷ lines) ++ tail))
        ≡ start_all readable n (take (suc k) (paths_in (line ∷ lines)))
  unfolding load_line unlines paths_in
  load_line-start_all fuel n k line lines h skipping counting =
      let split : (line ++ 0x0a ∷ unlines lines) ++ tail ≡ line ++ 0x0a ∷ (unlines lines ++ tail) =
        append_assoc line (0x0a ∷ unlines lines) tail in
      rw
        (
          split,
          by_line-line _ line (unlines lines ++ tail) h,
          is_comment-line line,
          chop-line line h,
        )
        (elim (Bool-cases (is_comment line)) [
          | inl comment ↦ rw comment skipping
          | inr path ↦ rw (path, counting) (unfold start_all in refl)
        ])

  start_all-take-nil : (n k : ℕ) → start_all readable n (take k (paths_in [])) ≡ started []
  unfolding start_all paths_in
  start_all-take-nil n zero = refl
  start_all-take-nil n (suc k) = refl

  load_lines-start_all :
      (fuel n : ℕ) (lines : List (List ℕ))
      → length lines < fuel
      → n ≤ mishegos_max_nworkers
      → All (All IsPlain) lines
      → load_lines readable fuel n (unlines lines ++ tail)
        ≡ start_all readable n (take (mishegos_max_nworkers - n) (paths_in lines))
  unfolding load_lines start_all unlines paths_in
  load_lines-start_all zero n lines enough few h = absurd (omega arith)
  load_lines-start_all (suc fuel) n [] enough few h =
      elim (Bool-cases (ltb n mishegos_max_nworkers)) [
        | inl room ↦
            rw room
              (by_line-tail _ tail plain ∙ sym (start_all-take-nil n (mishegos_max_nworkers - n)))
        | inr full ↦ rw full (sym (start_all-take-nil n (mishegos_max_nworkers - n)))
      ]
  load_lines-start_all (suc fuel) n (line ∷ lines) enough few h =
      elim (Bool-cases (ltb n mishegos_max_nworkers)) [
        | inl room ↦
            let k = mishegos_max_nworkers - (n + 1) in
            let left : mishegos_max_nworkers - n ≡ suc k = ground arith in
            let room' : n < mishegos_max_nworkers = ground arith in
            rw (room, left)
              (load_line-start_all fuel n k line lines h.0
                (load_lines-start_all fuel n lines (omega arith) few h.1
                  ∙ ap (λ (i : ℕ). start_all readable n (take i (paths_in lines))) left)
                (load_lines-start_all fuel (n + 1) lines (omega arith) (omega arith) h.1))
        | inr full ↦
            let none_left : mishegos_max_nworkers - n ≡ 0 = ground arith in
            rw (full, none_left) (unfold start_all in refl)
      ]

-- Every line of the file behind which a newline stands counts unless it begins with `#`: the first 31 of
-- these are the paths of the workers, which are started in their order and numbered
-- from 0 on, up to a path that cannot be read, with which the program ends. What follows the last
-- newline is not read as a path. No line holds a zero byte.
pub load_workers-start_all :
    (readable : List ℕ → Bool) (lines : List (List ℕ)) (tail : List ℕ)
    → All (All IsPlain) lines
    → All IsPlain tail
    → load_workers readable (unlines lines ++ tail)
      ≡ start_all readable 0 (take mishegos_max_nworkers (paths_in lines))
unfolding load_workers
load_workers-start_all readable lines tail h plain =
    load_lines-start_all readable tail plain (length (unlines lines ++ tail) + 1) 0 lines
      (omega (arith, length-append (unlines lines) tail, length-unlines lines)) (omega arith) h

-- The workers that are started when every path can be read.
pub configs : ℕ → List (List ℕ) → List WorkerConfig
configs n [] = []
configs n (path ∷ paths) = config n path ∷ configs (n + 1) paths

pub start_all-configs :
    (readable : List ℕ → Bool) (n : ℕ) (paths : List (List ℕ))
    → All (λ path. readable path ≡ true) paths
    → start_all readable n paths ≡ started (configs n paths)
unfolding start_all configs
start_all-configs readable n [] h = refl
start_all-configs readable n (path ∷ paths) h =
    rw (h.0, start_all-configs readable (n + 1) paths h.1) refl

pub length-configs : (n : ℕ) (paths : List (List ℕ)) → length (configs n paths) ≡ length paths
unfolding configs
length-configs n [] = refl
length-configs n (path ∷ paths) = ap suc (length-configs (n + 1) paths)
