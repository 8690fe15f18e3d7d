-- ===== src/Mish2jsonl/Json.antt =====
-- src/mish2jsonl/mish2jsonl.c: a cohort as one line of JSON.
pub mod Text
pub mod Escape
use mishegos.Base.{
  ℕ, zero, suc, ◌+◌, ◌/◌, ◌%◌, Option, none, some, ◌>>=◌, List, [], ◌∷◌, ◌++◌, concat, take, leb,
  ltb, ◌==◌, if◌then◌else◌,
}
use mishegos.Slots.{InputSlot, mishegos_insn_maxlen}
use mishegos.Mish2jsonl.Hex.{hexbuf, high_digit, low_digit}
use mishegos.Mish2jsonl.Read.{WorkerOutput, CohortResults}
use Text.{
  status2str, nworkers_key, input_key, outputs_key, status_key, name_key, ndecoded_key,
  workerno_key, worker_so_key, len_key, result_key, worker_end, cohort_end,
}

-- What the switch writes for one character.
unfoldable pub escape_char : ℕ → List ℕ
unfolding high_digit low_digit
escape_char c =
    if c == b'"'
    then b'\\' ∷ b'"' ∷ []
    else if c == b'\\'
    then b'\\' ∷ b'\\' ∷ []
    else if c == b'\n'
    then b'\\' ∷ b'n' ∷ []
    else if c == b'\r'
    then b'\\' ∷ b'r' ∷ []
    else if c == b'\t'
    then b'\\' ∷ b't' ∷ []
    else if c == 0x08
    then b'\\' ∷ b'b' ∷ []
    else if c == 0x0c
    then b'\\' ∷ b'f' ∷ []
    else if ltb c 0x20
    then b'\\' ∷ b'u' ∷ b'0' ∷ b'0' ∷ high_digit c ∷ low_digit c ∷ []
    else c ∷ []

-- The loop up to the zero byte; `none` if the memory has none.
unfoldable pub json_escape_string : List ℕ → Option (List ℕ)
unfolding escape_char
json_escape_string [] = none
json_escape_string (c ∷ cs) =
    let rest = json_escape_string cs in
    if c == 0 then some [] else (rest >>= λ text. some (escape_char c ++ text))

-- `%s`: the characters up to the zero byte.
unfoldable pub c_string : List ℕ → Option (List ℕ)
c_string [] = none
c_string (c ∷ cs) =
    let rest = c_string cs in if c == 0 then some [] else (rest >>= λ text. some (c ∷ text))

-- `%u` and `%lu`. A uint64_t has at most 20 digits.
unfoldable pub digits_of : ℕ → ℕ → List ℕ
digits_of zero v = []
digits_of (suc fuel) v =
    let front = digits_of fuel (v / 10) in
    if ltb v 10 then (b'0' + v) ∷ [] else front ++ ((b'0' + v % 10) ∷ [])

unfoldable pub decimal : ℕ → List ℕ
unfolding digits_of
decimal v = digits_of 20 v

-- `hexbuf` holds 15 pairs of digits; `none` if the input claims more bytes.
unfoldable pub input_hex : InputSlot → Option (List ℕ)
unfolding hexbuf
input_hex input =
    if leb input.len mishegos_insn_maxlen
    then some (hexbuf (take input.len input.raw_insn))
    else none

abbrev pub worker_parts : WorkerOutput → List ℕ → List ℕ → List (List ℕ)
worker_parts o worker_so escaped_result =
    status_key
    ∷ decimal o.status
    ∷ name_key
    ∷ status2str o.status
    ∷ ndecoded_key
    ∷ decimal o.ndecoded
    ∷ workerno_key
    ∷ decimal o.workerno
    ∷ worker_so_key
    ∷ worker_so
    ∷ len_key
    ∷ decimal o.result.len
    ∷ result_key
    ∷ escaped_result
    ∷ worker_end
    ∷ []

unfoldable pub print_worker : WorkerOutput → Option (List ℕ)
unfolding status2str decimal c_string json_escape_string
print_worker o = do
  escaped_result ← json_escape_string o.result.string
  worker_so ← c_string o.workerso.string
  some (concat (worker_parts o worker_so escaped_result))

-- The loop from index `i` on, with a comma before every worker but the first.
unfoldable pub print_workers : ℕ → List WorkerOutput → Option (List ℕ)
unfolding print_worker
print_workers i [] = some []
print_workers i (o ∷ os) = do
  text ← print_worker o
  rest ← print_workers (i + 1) os
  some ((if i == 0 then [] else b',' ∷ []) ++ (text ++ rest))

abbrev pub cohort_parts : CohortResults → List ℕ → List ℕ → List (List ℕ)
cohort_parts r hex outputs =
    nworkers_key ∷ decimal r.nworkers ∷ input_key ∷ hex ∷ outputs_key ∷ outputs ∷ cohort_end ∷ []

unfoldable pub m_cohort_print_json : CohortResults → Option (List ℕ)
unfolding input_hex decimal print_workers
m_cohort_print_json r = do
  hex ← input_hex r.input
  outputs ← print_workers 0 r.outputs
  some (concat (cohort_parts r hex outputs))
