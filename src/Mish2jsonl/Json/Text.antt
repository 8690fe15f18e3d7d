-- ===== src/Mish2jsonl/Json/Text.antt =====
-- src/mish2jsonl/mish2jsonl.c: the texts that `m_cohort_print_json` prints between the values.
use mishegos.Base.{ℕ, List, [], ◌∷◌, ◌==◌, if◌then◌else◌}
use mishegos.Slots.{s_none, s_success, s_failure, s_crash, s_partial}

-- { "nworkers":
abbrev pub nworkers_key : List ℕ
nworkers_key =
    b'{' ∷ b' ' ∷ b'"' ∷ b'n' ∷ b'w' ∷ b'o' ∷ b'r' ∷ b'k' ∷ b'e' ∷ b'r' ∷ b's' ∷ b'"' ∷ b':' ∷ b' '
    ∷ []

-- , "input": "
abbrev pub input_key : List ℕ
input_key = b',' ∷ b' ' ∷ b'"' ∷ b'i' ∷ b'n' ∷ b'p' ∷ b'u' ∷ b't' ∷ b'"' ∷ b':' ∷ b' ' ∷ b'"' ∷ []

-- ", "outputs": [
abbrev pub outputs_key : List ℕ
outputs_key =
    b'"' ∷ b',' ∷ b' ' ∷ b'"' ∷ b'o' ∷ b'u' ∷ b't' ∷ b'p' ∷ b'u' ∷ b't' ∷ b's' ∷ b'"' ∷ b':' ∷ b' '
    ∷ b'[' ∷ []

-- { "status": { "value":
abbrev pub status_key : List ℕ
status_key =
    b'{' ∷ b' ' ∷ b'"' ∷ b's' ∷ b't' ∷ b'a' ∷ b't' ∷ b'u' ∷ b's' ∷ b'"' ∷ b':' ∷ b' ' ∷ b'{' ∷ b' '
    ∷ b'"' ∷ b'v' ∷ b'a' ∷ b'l' ∷ b'u' ∷ b'e' ∷ b'"' ∷ b':' ∷ b' ' ∷ []

-- , "name": "
abbrev pub name_key : List ℕ
name_key = b',' ∷ b' ' ∷ b'"' ∷ b'n' ∷ b'a' ∷ b'm' ∷ b'e' ∷ b'"' ∷ b':' ∷ b' ' ∷ b'"' ∷ []

-- " }, "ndecoded":
abbrev pub ndecoded_key : List ℕ
ndecoded_key =
    b'"' ∷ b' ' ∷ b'}' ∷ b',' ∷ b' ' ∷ b'"' ∷ b'n' ∷ b'd' ∷ b'e' ∷ b'c' ∷ b'o' ∷ b'd' ∷ b'e' ∷ b'd'
    ∷ b'"' ∷ b':' ∷ b' ' ∷ []

-- , "workerno":
abbrev pub workerno_key : List ℕ
workerno_key =
    b',' ∷ b' ' ∷ b'"' ∷ b'w' ∷ b'o' ∷ b'r' ∷ b'k' ∷ b'e' ∷ b'r' ∷ b'n' ∷ b'o' ∷ b'"' ∷ b':' ∷ b' '
    ∷ []

-- , "worker_so": "
abbrev pub worker_so_key : List ℕ
worker_so_key =
    b',' ∷ b' ' ∷ b'"' ∷ b'w' ∷ b'o' ∷ b'r' ∷ b'k' ∷ b'e' ∷ b'r' ∷ b'_' ∷ b's' ∷ b'o' ∷ b'"' ∷ b':'
    ∷ b' ' ∷ b'"' ∷ []

-- ","len":
abbrev pub len_key : List ℕ
len_key = b'"' ∷ b',' ∷ b'"' ∷ b'l' ∷ b'e' ∷ b'n' ∷ b'"' ∷ b':' ∷ b' ' ∷ []

-- , "result": "
abbrev pub result_key : List ℕ
result_key =
    b',' ∷ b' ' ∷ b'"' ∷ b'r' ∷ b'e' ∷ b's' ∷ b'u' ∷ b'l' ∷ b't' ∷ b'"' ∷ b':' ∷ b' ' ∷ b'"' ∷ []

-- " }
abbrev pub worker_end : List ℕ
worker_end = b'"' ∷ b' ' ∷ b'}' ∷ []

-- ]}
abbrev pub cohort_end : List ℕ
cohort_end = b']' ∷ b'}' ∷ []

unfoldable pub status2str : ℕ → List ℕ
status2str status =
    if status == s_none
    then b'n' ∷ b'o' ∷ b'n' ∷ b'e' ∷ []
    else if status == s_success
    then b's' ∷ b'u' ∷ b'c' ∷ b'c' ∷ b'e' ∷ b's' ∷ b's' ∷ []
    else if status == s_failure
    then b'f' ∷ b'a' ∷ b'i' ∷ b'l' ∷ b'u' ∷ b'r' ∷ b'e' ∷ []
    else if status == s_crash
    then b'c' ∷ b'r' ∷ b'a' ∷ b's' ∷ b'h' ∷ []
    else if status == s_partial
    then b'p' ∷ b'a' ∷ b'r' ∷ b't' ∷ b'i' ∷ b'a' ∷ b'l' ∷ []
    else b'u' ∷ b'n' ∷ b'k' ∷ b'n' ∷ b'o' ∷ b'w' ∷ b'n' ∷ []
